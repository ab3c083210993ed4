-- ===== src/Entitlements/Removal.antt =====
-- The removal of an entitlement.
use meterplex.Prelude.{
  ℕ, ◌&&◌, Bool, true, none, some, [], ◌∷◌, length, ◌≡◌, refl, ◌∙◌, arith, inl, inr, Option-cases,
}
use meterplex.Prelude.Table
use meterplex.Prelude.Table.{Table, head_of, find_first_lem, find_first_holds, lookup-delete}
use meterplex.Prelude.Table.Keyed.{IsKeyed-delete}
use meterplex.Prelude.Table.Unique.{length-find_many-delete_row}
use meterplex.Prelude.Service.{ok, err}
use meterplex.Entitlements.{EntitlementFields}
use meterplex.Entitlements.Store.{
  Granted, Store, entitlement_not_found, find_pair, find_owned, is_pair, is_owned,
  delete_entitlement, find_by_id, remove,
}
use meterplex.Entitlements.Rows.{IsSound, found_row}
use meterplex.Entitlements.Answers.{is_allowed, is_sold, is_offered}

abbrev pub without : ℕ → Store → Store
without id s = record s { entitlements = Table.delete id s.entitlements }

head-none : {V : Type 0} (t : Table V) → length t ≡ 0 → head_of t ≡ none
head-none [] h = refl
head-none (row ∷ t) h = absurd (ground arith)

module _ (plan_id id k : ℕ) (g : Granted) (s : Store) (sound : IsSound s)
    (found : find_owned plan_id id s ≡ some (k, g)) where
  removed_done : remove plan_id id s ≡ (ok (k, g), without id s)
  unfolding remove delete_entitlement
  removed_done =
      let row : Table.lookup id s.entitlements ≡ some g =
        found_row plan_id id k g s sound.0 found in
      rw (found, row, row, row) refl

  removed_pair : find_pair plan_id g.feature_id (without id s) ≡ none
  unfolding find_pair find_owned
  removed_pair =
      let p : Granted → Bool = is_pair (plan_id, g.feature_id) in
      let owned : is_owned plan_id id k g ≡ true =
        find_first_holds (is_owned plan_id id) s.entitlements k g found in
      let fits : p g ≡ true = ground (arith, owned) in
      find_first_lem (λ _. p) (Table.delete id s.entitlements)
      ∙ head-none (Table.find_many (λ _. p) (Table.delete id s.entitlements)) (
          omega (
            arith,
            sound.1 (plan_id, g.feature_id),
            length-find_many-delete_row is_pair id p g s.entitlements
                (found_row plan_id id k g s sound.0 found) fits,
          ))

  removed_row : find_by_id plan_id id (without id s) ≡ (err entitlement_not_found, without id s)
  unfolding find_by_id
  removed_row = elim (Option-cases (find_owned plan_id id (without id s))) [
    | inl gone ↦ rw gone refl
    | inr ((j, w), left) ↦ absurd (
        ground (
          arith,
          lookup-delete id id s.entitlements,
          found_row plan_id id j w (without id s)
              (IsKeyed-delete s.next_id id s.entitlements sound.0) left,
        ))
  ]

-- In a sound store, the removal of an entitlement that the plan has returns its row; then its id is
-- not found, and the feature may be granted to the plan again exactly if both are there and active and
-- the fields pass the check.
pub remove_then_allowed :
    (plan_id id k : ℕ) (g : Granted) (dto : EntitlementFields) (s : Store)
    → IsSound s
    → find_owned plan_id id s ≡ some (k, g)
    → (remove plan_id id s ≡ (ok (k, g), without id s))
      × (find_by_id plan_id id (without id s) ≡ (err entitlement_not_found, without id s))
      × (is_allowed plan_id g.feature_id dto (without id s) ≡ (
          is_sold (Table.lookup plan_id s.plans)
          && is_offered dto (Table.lookup g.feature_id s.features)))
remove_then_allowed plan_id id k g dto s sound found = (
  removed_done plan_id id k g s sound found,
  removed_row plan_id id k g s sound found,
  rw (removed_pair plan_id id k g s sound found) (ground arith),
)
