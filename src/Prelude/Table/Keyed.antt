-- ===== src/Prelude/Table/Keyed.antt =====
-- Tables whose primary keys are unique and below the next one that is given out.
use meterplex.Prelude.Tests.{◌==◌, if◌then◌else◌, Bool-cases}
use Prim.Native.Nat.{ℕ, ◌+◌, ◌<◌}
use mathlib.Core.Path.{◌≡◌, refl}
use mathlib.Core.Logic.{inl, inr}
use mathlib.Core.Bool.{Bool, false}
use mathlib.Core.Option
use mathlib.Core.Option.{Option, none, some}
use mathlib.Core.List.{[], ◌∷◌}
use native.Mathlib.Omega.{arith}
use meterplex.Prelude.Table.{
  Table, lookup, create, update, update_many, delete, lookup-delete, find_first, find_many,
  KeysBelow, lookup-update, lookup-create, lookup_next,
}
use meterplex.Prelude.Table.Many.{lookup-update_many}

module _ {ℓ} {V : Type ℓ} where
  abbrev pub HasUniqueKeys : Table V → Type ℓ
  HasUniqueKeys [] = Unit
  HasUniqueKeys ((k, v) ∷ t) = (lookup k t ≡ none) × HasUniqueKeys t

  -- The row that a search finds is the one under its key.
  pub lookup-find_first :
      (p : ℕ → V → Bool) (t : Table V) (k : ℕ) (v : V)
      → HasUniqueKeys t
      → find_first p t ≡ some (k, v)
      → lookup k t ≡ some v
  unfolding lookup find_first
  lookup-find_first p [] k v u h = cc
  lookup-find_first p ((j, w) ∷ t) k v (fresh, u) h = elim (Bool-cases (p j w)) [
    | inl fits ↦ ground arith
    | inr other ↦
        let row : lookup k t ≡ some v = lookup-find_first p t k v u (ground arith) in
        elim (Bool-cases (j == k)) [
          | inl same ↦ absurd (ground (arith, row))
          | inr apart ↦ rw apart row
        ]
  ]

  unique_create :
      (k : ℕ) (v : V) (t : Table V)
      → lookup k t ≡ none
      → HasUniqueKeys t
      → HasUniqueKeys (create k v t)
  unfolding create lookup
  unique_create k v [] fresh u = (refl, tt)
  unique_create k v ((j, w) ∷ t) fresh (new, u) =
      (ground (arith, lookup-create k j v t), unique_create k v t (ground arith) u)

  unique_update : (k : ℕ) (f : V → V) (t : Table V) → HasUniqueKeys t → HasUniqueKeys (update k f t)
  unfolding update
  unique_update k f [] u = tt
  unique_update k f ((j, w) ∷ t) (new, u) = elim (Bool-cases (j == k)) [
    | inl same ↦ rw same (new, u)
    | inr apart ↦ rw apart (ground (arith, lookup-update k j f t), unique_update k f t u)
  ]

  unique_update_many :
      (p : V → Bool) (f : V → V) (t : Table V) → HasUniqueKeys t → HasUniqueKeys (update_many p f t)
  unfolding update_many
  unique_update_many p f [] u = tt
  unique_update_many p f ((j, w) ∷ t) (new, u) =
      (rw (lookup-update_many j p f t, new) refl, unique_update_many p f t u)

  pub record IsKeyed (n : ℕ) (t : Table V) : Type ℓ where
    pub unique : HasUniqueKeys t
    pub below : KeysBelow n t

  lookup-fresh : (n : ℕ) (t : Table V) → IsKeyed n t → lookup n t ≡ none
  lookup-fresh n t h = lookup_next n t h.below

  -- A row under the next key.
  pub IsKeyed-create : (n : ℕ) (v : V) (t : Table V) → IsKeyed n t → IsKeyed (n + 1) (create n v t)
  IsKeyed-create n v t h = record {
    unique = unique_create n v t (lookup-fresh n t h) h.unique;
    below = λ k w row. ground (arith, h.below k w, lookup-create n k v t (lookup-fresh n t h), row);
  }

  -- A key that another table takes.
  pub IsKeyed-grow : (n : ℕ) (t : Table V) → IsKeyed n t → IsKeyed (n + 1) t
  IsKeyed-grow n t h = record {
    unique = h.unique;
    below = λ k w row. omega (arith, h.below k w row);
  }

  mapped_below :
      (n : ℕ) (g : V → V) (k : ℕ) (o : Option V) (w : V)
      → ((v : V) → o ≡ some v → k < n)
      → Option.map g o ≡ some w
      → k < n
  mapped_below n g k none w h e = absurd cc
  mapped_below n g k (some v) w h e = h v refl

  pub IsKeyed-update : (n k : ℕ) (f : V → V) (t : Table V) → IsKeyed n t → IsKeyed n (update k f t)
  IsKeyed-update n k f t h = record {
    unique = unique_update k f t h.unique;
    below = λ j w row. elim (Bool-cases (k == j)) [
      | inl same ↦
          mapped_below n f j (lookup j t) w (h.below j) (cc (lookup-update k j f t, same, row))
      | inr apart ↦ h.below j w (cc (lookup-update k j f t, apart, row))
    ];
  }

  unique_delete : (k : ℕ) (t : Table V) → HasUniqueKeys t → HasUniqueKeys (delete k t)
  unfolding delete
  unique_delete k [] u = tt
  unique_delete k ((j, w) ∷ t) (new, u) = elim (Bool-cases (j == k)) [
    | inl same ↦ rw same (unique_delete k t u)
    | inr apart ↦ rw apart (ground (arith, lookup-delete k j t), unique_delete k t u)
  ]

  pub IsKeyed-delete : (n k : ℕ) (t : Table V) → IsKeyed n t → IsKeyed n (delete k t)
  IsKeyed-delete n k t h = record {
    unique = unique_delete k t h.unique;
    below = λ j w row. elim (Bool-cases (k == j)) [
      | inl same ↦ absurd (ground (arith, lookup-delete k j t, row))
      | inr apart ↦ h.below j w (cc (lookup-delete k j t, apart, row))
    ];
  }

  pub IsKeyed-update_many :
      (n : ℕ) (p : V → Bool) (f : V → V) (t : Table V) → IsKeyed n t → IsKeyed n (update_many p f t)
  IsKeyed-update_many n p f t h = record {
    unique = unique_update_many p f t h.unique;
    below = λ j w row.
        mapped_below n (λ v. if p v then f v else v) j (lookup j t) w (h.below j)
          (cc (lookup-update_many j p f t, row));
  }

  -- No row is found if none of the rows under a key fits.
  pub find_many-unfit :
      (p : ℕ → V → Bool) (t : Table V)
      → HasUniqueKeys t
      → ((k : ℕ) (v : V) → lookup k t ≡ some v → p k v ≡ false)
      → find_many p t ≡ []
  unfolding lookup find_many
  find_many-unfit p [] u h = refl
  find_many-unfit p ((j, w) ∷ t) (fresh, u) h =
      let none_behind : find_many p t ≡ [] = find_many-unfit p t u (λ k v row.
        elim (Bool-cases (j == k)) [
          | inl same ↦ absurd (ground (arith, fresh, row, same))
          | inr apart ↦ h k v (rw apart row)
        ]) in
      let unfit : p j w ≡ false = h j w (ground arith) in rw (unfit, none_behind) refl
