-- ===== src/Prelude/Table/Many.antt =====
-- Rows that are kept, changed or counted by creations and by updates of many rows.
use meterplex.Prelude.Lists.{length}
use meterplex.Prelude.Tests.{if◌then◌else◌}
use Prim.Native.Nat.{ℕ}
use mathlib.Core.Path.{◌≡◌, refl}
use mathlib.Core.Bool.{Bool, true, false}
use mathlib.Core.Option
use mathlib.Core.Option.{Option, none, some}
use mathlib.Core.List.{[], ◌∷◌}
use native.Mathlib.Omega.{arith}
use meterplex.Prelude.Table.{Table, lookup, create, update, update_many, find_first, find_many, sat}

module _ {ℓ} {V : Type ℓ} where
  -- A creation keeps what the row found satisfies.
  pub sat-create :
      (p : ℕ → V → Bool) (q : V → Bool) (k : ℕ) (v : V) (t : Table V)
      → sat q (find_first p t) ≡ true
      → sat q (find_first p (create k v t)) ≡ true
  unfolding find_first create
  sat-create p q k v [] h = cc
  sat-create p q k v ((j, w) ∷ t) h = ground (arith, sat-create p q k v t)

  -- Updates of many rows that keep the search and the property keep that the row found has it.
  pub sat-update_many :
      (p : ℕ → V → Bool) (q g : V → Bool) (f : V → V) (t : Table V)
      → ((j : ℕ) (v : V) → p j (f v) ≡ p j v)
      → ((v : V) → q v ≡ true → q (f v) ≡ true)
      → sat q (find_first p t) ≡ true
      → sat q (find_first p (update_many g f t)) ≡ true
  unfolding find_first update_many
  sat-update_many p q g f [] hp hq h = h
  sat-update_many p q g f ((j, w) ∷ t) hp hq h =
      ground (arith, hp j w, hq w, sat-update_many p q g f t hp hq)

  -- After an update of all rows that fit, none fits.
  pub find_many-update_many :
      (p : V → Bool) (f : V → V) (t : Table V)
      → ((v : V) → p (f v) ≡ false)
      → find_many (λ _. p) (update_many p f t) ≡ []
  unfolding find_many update_many
  find_many-update_many p f [] h = refl
  find_many-update_many p f ((j, w) ∷ t) h = ground (arith, h w, find_many-update_many p f t h)

  -- A row after an update of many rows.
  pub lookup-update_many :
      (k : ℕ) (p : V → Bool) (f : V → V) (t : Table V)
      → lookup k (update_many p f t) ≡ Option.map (λ v. if p v then f v else v) (lookup k t)
  unfolding lookup update_many
  lookup-update_many k p f [] = refl
  lookup-update_many k p f ((j, w) ∷ t) = ground (arith, lookup-update_many k p f t)

  -- An update that keeps the condition keeps the row found, up to the update.
  pub find_first-update_same :
      (p : V → Bool) (k : ℕ) (f : V → V) (t : Table V) (v : V)
      → ((w : V) → p (f w) ≡ p w)
      → p v ≡ true
      → lookup k t ≡ some v
      → find_first (λ _. p) t ≡ some (k, v)
      → find_first (λ _. p) (update k f t) ≡ some (k, f v)
  unfolding lookup find_first update
  find_first-update_same p k f [] v hp fits row h = cc
  find_first-update_same p k f ((j, w) ∷ t) v hp fits row h =
      ground (arith, hp w, find_first-update_same p k f t v hp fits)

  -- A search that finds nothing finds a new row that fits.
  pub find_first-create_new :
      (p : ℕ → V → Bool) (k : ℕ) (v : V) (t : Table V)
      → find_first p t ≡ none
      → p k v ≡ true
      → find_first p (create k v t) ≡ some (k, v)
  unfolding find_first create
  find_first-create_new p k v [] h fits = ground arith
  find_first-create_new p k v ((j, w) ∷ t) h fits = ground (arith, find_first-create_new p k v t)

  -- A search that finds a row finds it after a creation.
  pub find_first-create_old :
      (p : ℕ → V → Bool) (k j : ℕ) (v w : V) (t : Table V)
      → find_first p t ≡ some (j, w)
      → find_first p (create k v t) ≡ some (j, w)
  unfolding find_first create
  find_first-create_old p k j v w [] h = cc
  find_first-create_old p k j v w ((i, u) ∷ t) h = ground (arith, find_first-create_old p k j v w t)

  -- The row found satisfies what every update keeps.
  pub sat-update_keep :
      (p : ℕ → V → Bool) (q : V → Bool) (k : ℕ) (f : V → V) (t : Table V)
      → ((j : ℕ) (v : V) → p j (f v) ≡ p j v)
      → ((v : V) → q v ≡ true → q (f v) ≡ true)
      → sat q (find_first p t) ≡ true
      → sat q (find_first p (update k f t)) ≡ true
  unfolding find_first update
  sat-update_keep p q k f [] hp hq h = h
  sat-update_keep p q k f ((j, w) ∷ t) hp hq h =
      ground (arith, hp j w, hq w, sat-update_keep p q k f t hp hq)

  -- A change that keeps the condition keeps the number of rows that fit it.
  pub length-find_many-update :
      (p : V → Bool) (k : ℕ) (f : V → V) (t : Table V)
      → ((v : V) → p (f v) ≡ p v)
      → length (find_many (λ _. p) (update k f t)) ≡ length (find_many (λ _. p) t)
  unfolding find_many update
  length-find_many-update p k f [] h = refl
  length-find_many-update p k f ((j, w) ∷ t) h =
      ground (arith, h w, length-find_many-update p k f t h)

  -- Nothing is found where no row fits.
  pub find_many-none : (p : ℕ → V → Bool) (t : Table V) → find_first p t ≡ none → find_many p t ≡ []
  unfolding find_first find_many
  find_many-none p [] h = refl
  find_many-none p ((j, w) ∷ t) h = ground (arith, find_many-none p t)

  -- A search that finds nothing finds nothing after updates that keep its condition.
  pub find_first-update_many-none :
      (p : ℕ → V → Bool) (g : V → Bool) (f : V → V) (t : Table V)
      → ((j : ℕ) (v : V) → p j (f v) ≡ p j v)
      → find_first p t ≡ none
      → find_first p (update_many g f t) ≡ none
  unfolding find_first update_many
  find_first-update_many-none p g f [] hp h = refl
  find_first-update_many-none p g f ((j, w) ∷ t) hp h =
      ground (arith, hp j w, find_first-update_many-none p g f t hp)
