-- ===== src/Prelude/Table.antt =====
-- A database table: rows behind their primary key, in the order of insertion.
pub mod Many
pub mod Keyed
pub mod Unique
use Prim.Native.Nat.{ℕ, ◌<◌, ◌+◌}
use mathlib.Core.Path.{◌≡◌, refl, sym, ap}
use mathlib.Core.Logic.{◌≢◌, ◌⊎◌, inl, inr}
use mathlib.Core.Bool.{Bool, true, false, ◌||◌}
use mathlib.Core.Option
use mathlib.Core.Option.{Option, none, some}
use mathlib.Core.List.{List, [], ◌∷◌, ◌++◌}
use native.Mathlib.Omega.{arith}
use meterplex.Prelude.Lists.{length}
use meterplex.Prelude.Tests.{◌==◌, if◌then◌else◌, Bool-cases, Option-cases}

abbrev pub Table {ℓ} : Type ℓ → Type ℓ
Table V = List (ℕ × V)

module _ {ℓ} {V : Type ℓ} where
  -- `findUnique({ where: { id } })`
  unfoldable pub lookup : ℕ → Table V → Option V
  lookup k [] = none
  lookup k ((j, v) ∷ t) = if j == k then some v else lookup k t

  -- `create`: a new row goes last
  unfoldable pub create : ℕ → V → Table V → Table V
  create k v [] = (k, v) ∷ []
  create k v (e ∷ t) = e ∷ create k v t

  -- `update({ where: { id }, data })` on the row that has the key
  unfoldable pub update : ℕ → (V → V) → Table V → Table V
  update k f [] = []
  update k f ((j, v) ∷ t) = if j == k then (j, f v) ∷ t else (j, v) ∷ update k f t

  -- `delete({ where: { id } })` of the row that has the key
  unfoldable pub delete : ℕ → Table V → Table V
  delete k [] = []
  delete k ((j, v) ∷ t) = let rest = delete k t in if j == k then rest else (j, v) ∷ rest

  -- `updateMany({ where, data })`
  unfoldable pub update_many : (V → Bool) → (V → V) → Table V → Table V
  update_many p f [] = []
  update_many p f ((j, v) ∷ t) = (j, if p v then f v else v) ∷ update_many p f t

  -- `findFirst({ where })`
  unfoldable pub find_first : (ℕ → V → Bool) → Table V → Option (ℕ × V)
  find_first p [] = none
  find_first p ((j, v) ∷ t) = if p j v then some (j, v) else find_first p t

  -- `findMany({ where })`
  unfoldable pub find_many : (ℕ → V → Bool) → Table V → Table V
  find_many p [] = []
  find_many p ((j, v) ∷ t) = let rest = find_many p t in if p j v then (j, v) ∷ rest else rest

  -- Every key is below `n`, the next one that is given out.
  abbrev pub KeysBelow : ℕ → Table V → Type ℓ
  KeysBelow n t = (k : ℕ) (v : V) → lookup k t ≡ some v → k < n

  pub lookup-update :
      (k j : ℕ) (f : V → V) (t : Table V)
      → lookup j (update k f t) ≡ (if k == j then Option.map f (lookup j t) else lookup j t)
  unfolding lookup update
  lookup-update k j f [] = ground arith
  lookup-update k j f ((i, v) ∷ t) = ground (arith, lookup-update k j f t)

  -- A row is created under a key that is new.
  pub lookup-create :
      (k j : ℕ) (v : V) (t : Table V)
      → lookup k t ≡ none
      → lookup j (create k v t) ≡ (if k == j then some v else lookup j t)
  unfolding lookup create
  lookup-create k j v [] h = refl
  lookup-create k j v ((i, w) ∷ t) h = ground (arith, lookup-create k j v t)

  pub lookup-delete :
      (k j : ℕ) (t : Table V) → lookup j (delete k t) ≡ (if k == j then none else lookup j t)
  unfolding lookup delete
  lookup-delete k j [] = ground arith
  lookup-delete k j ((i, v) ∷ t) = ground (arith, lookup-delete k j t)

  -- What `findFirst` returns satisfies its condition.
  pub find_first_holds :
      (p : ℕ → V → Bool) (t : Table V) (k : ℕ) (v : V) → find_first p t ≡ some (k, v) → p k v ≡ true
  unfolding find_first
  find_first_holds p [] k v h = cc
  find_first_holds p ((j, w) ∷ t) k v h = ground (arith, find_first_holds p t k v)

  -- After an update, a row is the updated one or an old one under another key.
  pub row_of_update :
      (k j : ℕ) (f : V → V) (t : Table V) (v w : V)
      → lookup k t ≡ some v
      → lookup j (update k f t) ≡ some w
      → ((j ≡ k) × (w ≡ f v)) ⊎ ((j ≢ k) × (lookup j t ≡ some w))
  row_of_update k j f t v w found h = elim (Bool-cases (k == j)) [
    | inl same ↦
        let e : k ≡ j = ground arith in
        inl (sym e, cc (lookup-update k j f t, same, ap (λ i. lookup i t) e))
    | inr other ↦ inr (ground arith, cc (lookup-update k j f t, other))
  ]

  -- After a creation, a row is the created one or an old one.
  pub row_of_create :
      (k j : ℕ) (t : Table V) (v w : V)
      → lookup k t ≡ none
      → lookup j (create k v t) ≡ some w
      → ((j ≡ k) × (w ≡ v)) ⊎ ((j ≢ k) × (lookup j t ≡ some w))
  row_of_create k j t v w fresh h = elim (Bool-cases (k == j)) [
    | inl same ↦ inl (ground arith, cc (lookup-create k j v t fresh, same))
    | inr other ↦ inr (ground arith, cc (lookup-create k j v t fresh, other))
  ]

  -- The next key is free.
  pub lookup_next : (n : ℕ) (t : Table V) → KeysBelow n t → lookup n t ≡ none
  lookup_next n t below = elim (Option-cases (lookup n t)) [
    | inl free ↦ free
    | inr (v, taken) ↦ absurd (omega (arith, below n v taken))
  ]

  abbrev pub is_found : Option (ℕ × V) → Bool
  is_found none = false
  is_found (some row) = true

  -- A search finds a row after a creation if it did before or fits the new row.
  pub find_first-create :
      (p : ℕ → V → Bool) (k : ℕ) (v : V) (t : Table V)
      → is_found (find_first p (create k v t)) ≡ (is_found (find_first p t) || p k v)
  unfolding find_first create
  find_first-create p k v [] = ground arith
  find_first-create p k v ((j, w) ∷ t) = ground (arith, find_first-create p k v t)

  -- An update that keeps the condition of each row keeps whether a row is found.
  pub find_first-update :
      (p : ℕ → V → Bool) (k : ℕ) (f : V → V) (t : Table V)
      → ((j : ℕ) (v : V) → p j (f v) ≡ p j v)
      → is_found (find_first p (update k f t)) ≡ is_found (find_first p t)
  unfolding find_first update
  find_first-update p k f [] h = refl
  find_first-update p k f ((j, w) ∷ t) h = ground (arith, h j w, find_first-update p k f t h)

  -- A creation adds one to the number of rows that fit a condition if the new row fits it.
  pub length-find_many-create :
      (p : ℕ → V → Bool) (k : ℕ) (v : V) (t : Table V)
      → length (find_many p (create k v t)) ≡ length (find_many p t) + (if p k v then 1 else 0)
  unfolding find_many create
  length-find_many-create p k v [] = ground arith
  length-find_many-create p k v ((j, w) ∷ t) = ground (arith, length-find_many-create p k v t)

  -- A new row goes behind the rows that fit a condition, if it fits it.
  pub find_many-create :
      (p : ℕ → V → Bool) (k : ℕ) (v : V) (t : Table V)
      → find_many p (create k v t) ≡ find_many p t ++ (if p k v then (k, v) ∷ [] else [])
  unfolding find_many create
  find_many-create p k v [] = ground arith
  find_many-create p k v ((j, w) ∷ t) = ground (arith, find_many-create p k v t)

  abbrev pub head_of : Table V → Option (ℕ × V)
  head_of [] = none
  head_of (row ∷ t) = some row

  -- `findFirst` gives the first of `findMany`.
  pub find_first_lem : (p : ℕ → V → Bool) (t : Table V) → find_first p t ≡ head_of (find_many p t)
  unfolding find_first find_many
  find_first_lem p [] = refl
  find_first_lem p ((j, w) ∷ t) = ground (arith, find_first_lem p t)

  -- If the only row that fits is changed so that it does not, none fits.
  pub find_many-update_gone :
      (p : ℕ → V → Bool) (k : ℕ) (v : V) (f : V → V) (t : Table V)
      → p k (f v) ≡ false
      → p k v ≡ true
      → lookup k t ≡ some v
      → find_many p t ≡ (k, v) ∷ []
      → find_many p (update k f t) ≡ []
  unfolding lookup find_many update
  find_many-update_gone p k v f [] gone fits row only = refl
  find_many-update_gone p k v f ((j, w) ∷ t) gone fits row only =
      ground (arith, find_many-update_gone p k v f t gone fits)

  -- What the found row satisfies.
  abbrev pub sat : (V → Bool) → Option (ℕ × V) → Bool
  sat q none = false
  sat q (some row) = q row.1

  -- An update to rows that satisfy `q` keeps that the row found does.
  pub sat-update :
      (p : ℕ → V → Bool) (q : V → Bool) (k : ℕ) (f : V → V) (t : Table V)
      → ((j : ℕ) (v : V) → p j (f v) ≡ p j v)
      → ((v : V) → q (f v) ≡ true)
      → sat q (find_first p t) ≡ true
      → sat q (find_first p (update k f t)) ≡ true
  unfolding find_first update
  sat-update p q k f [] hp hq h = h
  sat-update p q k f ((j, w) ∷ t) hp hq h = ground (arith, hp j w, hq w, sat-update p q k f t hp hq)

  -- An update of the row that is found.
  pub sat-update_found :
      (p q : V → Bool) (k : ℕ) (v : V) (f : V → V) (t : Table V)
      → ((w : V) → p (f w) ≡ p w)
      → ((w : V) → q (f w) ≡ true)
      → p v ≡ true
      → lookup k t ≡ some v
      → find_first (λ _. p) t ≡ some (k, v)
      → sat q (find_first (λ _. p) (update k f t)) ≡ true
  unfolding lookup find_first update
  sat-update_found p q k v f [] hp hq fits row found = cc
  sat-update_found p q k v f ((j, w) ∷ t) hp hq fits row found =
      ground (arith, hp w, hq w, sat-update_found p q k v f t hp hq fits)
