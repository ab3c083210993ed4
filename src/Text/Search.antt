-- ===== src/Text/Search.antt =====
-- The search of one text in another, behind the `contains` filter of a query.
use meterplex.Prelude.{ℕ, ◌≡◌, refl, ◌≢◌, [], ◌∷◌, arith, false, All}
use meterplex.Text.{Text, contains}

-- No text without the pattern's first character contains the pattern.
pub contains_lacking : (c : ℕ) (p s : Text) → All (λ d. d ≢ c) s → contains (c ∷ p) s ≡ false
unfolding contains
contains_lacking c p [] h = refl
contains_lacking c p (d ∷ s) h = ground (arith, contains_lacking c p s h.1)
