-- ===== src/Entitlements/Rows.antt =====
-- What the queries on the table of entitlements keep.
use meterplex.Prelude.{
  ℕ, true, false, Option, none, some, ◌≡◌, refl, ap, sym, ◌∙◌, arith, inl, inr, Bool-cases,
  Option-cases, ◌==◌,
}
use meterplex.Prelude.Table
use meterplex.Prelude.Table.{
  Table, is_found, lookup_next, row_of_create, row_of_update, lookup-delete, find_first_holds,
}
use meterplex.Prelude.Table.Keyed.{
  IsKeyed, lookup-find_first, IsKeyed-create, IsKeyed-update, IsKeyed-delete,
}
use meterplex.Prelude.Table.Unique.{IsUnique, IsUnique-create, IsUnique-update, IsUnique-delete}
use meterplex.Prelude.Service.{Keeps}
use meterplex.Entitlements.{EntitlementFields, changed}
use meterplex.Entitlements.Fits.{fits}
use meterplex.Entitlements.Store.{
  Granted, Store, is_pair, find_pair, is_owned, find_owned, create_entitlement, update_entitlement,
  delete_entitlement, change,
}

abbrev pub EachFits : Table Granted → Type 0
EachFits t = (id : ℕ) (g : Granted) → Table.lookup id t ≡ some g → fits g.rules.type g.rules ≡ true

-- Each id is given out once, a feature is granted to a plan at most once, and each row fits the
-- type of its feature.
abbrev pub IsSound : Store → Type 0
IsSound s =
    IsKeyed s.next_id s.entitlements × IsUnique is_pair s.entitlements × EachFits s.entitlements

pair_lem : (i : ℕ × ℕ) (g : Granted) → is_pair i g ≡ true → (g.rules.plan_id, g.feature_id) ≡ i
pair_lem (plan_id, feature_id) g h = ground arith

pub found-none : (o : Option (ℕ × Granted)) → is_found o ≡ false → o ≡ none
found-none none h = refl
found-none (some g) h = cc

pub create_entitlement-Keeps :
    (g : Granted) → fits g.rules.type g.rules ≡ true → Keeps IsSound (create_entitlement g)
unfolding create_entitlement find_pair
create_entitlement-Keeps g fit = record {
  at = λ s (keyed, one, fine).
      elim (Bool-cases (is_found (find_pair g.rules.plan_id g.feature_id s))) [
        | inl seen ↦ rw seen (keyed, one, fine)
        | inr new ↦ rw new (
          IsKeyed-create s.next_id g s.entitlements keyed,
          IsUnique-create is_pair (λ v. (v.rules.plan_id, v.feature_id)) s.next_id g s.entitlements
              (λ i h. pair_lem i g h) (found-none (find_pair g.rules.plan_id g.feature_id s) new)
              one,
          λ id v row.
              elim (row_of_create s.next_id id s.entitlements g v
                (lookup_next s.next_id s.entitlements keyed.below) row) [
                  | inl (same, e) ↦ rw e fit
                  | inr (other, old) ↦ fine id v old
                ],
        )
      ];
}

pub update_entitlement-Keeps :
    (id : ℕ) (dto : EntitlementFields) (s : Store)
    → ((g : Granted)
        → Table.lookup id s.entitlements ≡ some g
        → fits g.rules.type (changed dto g.rules) ≡ true)
    → IsSound s
    → IsSound (update_entitlement id (change dto) s).1
unfolding update_entitlement
update_entitlement-Keeps id dto s fit (keyed, one, fine) =
    elim (Option-cases (Table.lookup id s.entitlements)) [
      | inl missing ↦ rw missing (keyed, one, fine)
      | inr (g, found) ↦ rw found (
        IsKeyed-update s.next_id id (change dto) s.entitlements keyed,
        IsUnique-update is_pair id (change dto) s.entitlements (λ i v. refl) one,
        λ k v row. elim (row_of_update id k (change dto) s.entitlements g v found row) [
          | inl (same, e) ↦ rw e (fit g found)
          | inr (other, old) ↦ fine k v old
        ],
      )
    ]

pub delete_entitlement-Keeps : (id : ℕ) → Keeps IsSound (delete_entitlement id)
unfolding delete_entitlement
delete_entitlement-Keeps id = record {
  at = λ s (keyed, one, fine). elim (Option-cases (Table.lookup id s.entitlements)) [
    | inl missing ↦ rw missing (keyed, one, fine)
    | inr (g, found) ↦ rw found (
      IsKeyed-delete s.next_id id s.entitlements keyed,
      IsUnique-delete is_pair id s.entitlements one,
      λ k v row. elim (Bool-cases (id == k)) [
        | inl same ↦ absurd (ground (arith, lookup-delete id k s.entitlements, row))
        | inr other ↦ fine k v (cc (lookup-delete id k s.entitlements, other, row))
      ],
    )
  ];
}

-- The row that a look-up by plan and id finds is the one under the id.
pub found_row :
    (plan_id id k : ℕ) (g : Granted) (s : Store)
    → IsKeyed s.next_id s.entitlements
    → find_owned plan_id id s ≡ some (k, g)
    → Table.lookup id s.entitlements ≡ some g
unfolding find_owned
found_row plan_id id k g s keyed found =
    let same : is_owned plan_id id k g ≡ true =
      find_first_holds (is_owned plan_id id) s.entitlements k g found in
    let at_id : k ≡ id = ground (arith, same) in
    ap (λ j. Table.lookup j s.entitlements) (sym at_id)
    ∙ lookup-find_first (is_owned plan_id id) s.entitlements k g keyed.unique found
