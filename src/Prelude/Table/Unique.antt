-- ===== src/Prelude/Table/Unique.antt =====
-- Tables with a unique index.
use meterplex.Prelude.Lists.{length}
use meterplex.Prelude.Tests.{Bool-cases}
use Prim.Native.Nat.{ℕ, ◌+◌, ◌≤◌}
use mathlib.Core.Path.{◌≡◌, ap, sym, ◌∙◌}
use mathlib.Core.Logic.{inl, inr}
use mathlib.Core.Bool.{Bool, true}
use mathlib.Core.Option.{none, some}
use mathlib.Core.List.{[], ◌∷◌}
use native.Mathlib.Omega.{arith}
use meterplex.Prelude.Table.{
  Table, lookup, create, update, delete, find_first, find_many, length-find_many-create,
}
use meterplex.Prelude.Table.Many.{length-find_many-update, find_many-none}

-- At most one row fits each value of the index.
abbrev pub IsUnique : {V I : Type 0} → (I → V → Bool) → Table V → Type 0
IsUnique {V} {I} p t = (i : I) → length (find_many (λ _. p i) t) ≤ 1

module _ {V I : Type 0} (p : I → V → Bool) where
  -- A creation that finds no row of the same index keeps it unique.
  pub IsUnique-create :
      (index : V → I) (k : ℕ) (v : V) (t : Table V)
      → ((i : I) → p i v ≡ true → index v ≡ i)
      → find_first (λ _. p (index v)) t ≡ none
      → IsUnique p t
      → IsUnique p (create k v t)
  IsUnique-create index k v t one fresh h i = elim (Bool-cases (p i v)) [
    | inl fits ↦
        let e : find_many (λ _. p (index v)) t ≡ [] = find_many-none (λ _. p (index v)) t fresh in
        let e' : length (find_many (λ _. p i) t) ≡ 0 =
          ap (λ j. length (find_many (λ _. p j) t)) (sym (one i fits)) ∙ ap length e in
        ground (arith, e', length-find_many-create (λ _. p i) k v t)
    | inr other ↦ ground (arith, h i, length-find_many-create (λ _. p i) k v t)
  ]

  pub IsUnique-update :
      (k : ℕ) (f : V → V) (t : Table V)
      → ((i : I) (v : V) → p i (f v) ≡ p i v)
      → IsUnique p t
      → IsUnique p (update k f t)
  IsUnique-update k f t same h i = rw (length-find_many-update (p i) k f t (same i)) (h i)

  length-find_many-delete :
      (k : ℕ) (q : V → Bool) (t : Table V)
      → length (find_many (λ _. q) (delete k t)) ≤ length (find_many (λ _. q) t)
  unfolding find_many delete
  length-find_many-delete k q [] = ground arith
  length-find_many-delete k q ((j, v) ∷ t) = ground (arith, length-find_many-delete k q t)

  pub IsUnique-delete : (k : ℕ) (t : Table V) → IsUnique p t → IsUnique p (delete k t)
  IsUnique-delete k t h i = omega (arith, length-find_many-delete k (p i) t, h i)

  -- The row that is deleted is counted no more.
  pub length-find_many-delete_row :
      (k : ℕ) (q : V → Bool) (v : V) (t : Table V)
      → lookup k t ≡ some v
      → q v ≡ true
      → length (find_many (λ _. q) (delete k t)) + 1 ≤ length (find_many (λ _. q) t)
  unfolding lookup find_many delete
  length-find_many-delete_row k q v [] row fits = absurd cc
  length-find_many-delete_row k q v ((j, w) ∷ t) row fits =
      ground (arith, length-find_many-delete k q t, length-find_many-delete_row k q v t)
