-- ===== src/Billing/Numbers/Format.antt =====
-- The text of an invoice number, and a reader of it.
use mathlib.Core.List.{append-nil}
use meterplex.Prelude.{ℕ, ◌≡◌, refl, sym, ap, ◌∙◌, [], ◌∷◌}
use meterplex.Text.{Text, show, pad_start}
use meterplex.Text.Decimal.{is_digit, read_from, Stops, read_from-show, read_from-pad_start}
use meterplex.Billing.Numbers.{format_number}

-- Reads the year, a dash and the sequence number that follow the first four characters.
abbrev pub read_number : Text → ℕ × ℕ
read_number (a ∷ b ∷ c ∷ d ∷ s) =
    let (year, rest) = read_from 0 s in (year, (read_from 0 (after_dash rest)).0)
  where
    after_dash : Text → Text
    after_dash [] = []
    after_dash (x ∷ r) = r
read_number s = (0, 0)

-- Reading an invoice number gives back its year and sequence number.
pub read-format_number : (y n : ℕ) → read_number (format_number y n) ≡ (y, n)
unfolding format_number
read-format_number y n = rw (read_from-show y (b'-' ∷ pad_start 4 (show n)) stops) (
    ap (λ (r : ℕ × Text). (y, r.0))
      (ap (read_from 0) (sym (append-nil _)) ∙ read_from-pad_start 4 n [] tt))
  where
    stops : Stops (b'-' ∷ pad_start 4 (show n))
    stops = unfold is_digit in refl

-- Two equal invoice numbers have the same year and sequence number.
pub format_number-injective :
    (y n z m : ℕ) → format_number y n ≡ format_number z m → (y ≡ z) × (n ≡ m)
format_number-injective y n z m h =
    let e : (y, n) ≡ (z, m) =
      sym (read-format_number y n) ∙ ap read_number h ∙ read-format_number z m in
    (ap (λ (p : ℕ × ℕ). p.0) e, ap (λ (p : ℕ × ℕ). p.1) e)
