-- ===== src/Billing/Generation/Notes.antt =====
-- The notes of a prorated invoice in invoice-generation.service.ts.
use meterplex.Prelude.{
  ℕ, ◌+◌, ◌-◌, ◌*◌, ◌/◌, ◌≡◌, ◌≢◌, false, [], ◌∷◌, ◌++◌, arith, All, All-append, leb, ◌==◌,
  Bool-cases, inl, inr,
}
use meterplex.Text.{Text, codes, show, pad_start, contains}
use meterplex.Text.Decimal.{IsDigit, show-digits, pad_start-digits}
use meterplex.Text.Search.{contains_lacking}
use meterplex.Calendar.{Date, day_ms, get_time}
use meterplex.Billing.Overage.{round_div}
use meterplex.Billing.Generation.{show_days, iso_date, prorated_notes}

-- Not the letter p.
abbrev NotP : ℕ → Type 0
NotP c = c ≢ b'p'

digits-NotP : (s : Text) → All IsDigit s → All NotP s
digits-NotP [] h = tt
digits-NotP (c ∷ s) (d, h) = ((λ e. omega (arith, d, e)), digits-NotP s h)

append-NotP : (s t : Text) → All NotP s → All NotP t → All NotP (s ++ t)
append-NotP = All-append NotP

show-NotP : (n : ℕ) → All NotP (show n)
show-NotP n = digits-NotP (show n) (show-digits n)

pad-NotP : (w n : ℕ) → All NotP (pad_start w (show n))
pad-NotP w n = digits-NotP (pad_start w (show n)) (pad_start-digits w n)

dash-NotP : All NotP (codes "-")
dash-NotP = omega arith

iso_date-NotP : (d : Date) → All NotP (iso_date d)
iso_date-NotP d =
    unfold iso_date in
    append-NotP (pad_start 4 (show d.year)) _ (pad-NotP 4 d.year) (
      append-NotP (codes "-") _ dash-NotP (
        append-NotP (pad_start 2 (show (d.month + 1))) _ (pad-NotP 2 (d.month + 1))
          (append-NotP (codes "-") _ dash-NotP (pad-NotP 2 d.day))))

show_days-NotP : (a b : ℕ) → All NotP (show_days a b)
unfolding show_days
show_days-NotP a b = elim (Bool-cases (leb b a)) [
  | inl later ↦ rw later (show-NotP (round_div (a - b) day_ms))
  | inr earlier ↦ elim (Bool-cases ((2 * (b - a) + day_ms - 1) / (2 * day_ms) == 0)) [
    | inl none_left ↦ rw (earlier, none_left) (show-NotP 0)
    | inr some_left ↦
        rw (earlier, some_left)
          (append-NotP (codes "-") _ dash-NotP
            (show-NotP ((2 * (b - a) + day_ms - 1) / (2 * day_ms))))
  ]
]

prorated_notes-NotP : (s e c : Date) → All NotP (prorated_notes s e c)
prorated_notes-NotP s e c =
    unfold prorated_notes in
    append-NotP (codes "Prorated invoice - cancelled on ") _ (omega arith) (
      append-NotP (iso_date c) _ (iso_date-NotP c) (
        append-NotP (codes " (") _ (omega arith) (
          append-NotP (show_days (get_time c) (get_time s)) _
            (show_days-NotP (get_time c) (get_time s))
            (append-NotP (codes "/") _ (omega arith) (
              append-NotP (show_days (get_time e) (get_time s)) _
                (show_days-NotP (get_time e) (get_time s)) (omega arith))))))

-- No note that is written on a prorated invoice contains the text "prorated".
pub prorated_notes-lacks :
    (s e c : Date) → contains (codes "prorated") (prorated_notes s e c) ≡ false
prorated_notes-lacks s e c =
    contains_lacking b'p' (codes "rorated") (prorated_notes s e c) (prorated_notes-NotP s e c)
