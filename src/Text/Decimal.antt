-- ===== src/Text/Decimal.antt =====
-- Printing of decimal numbers, and a reader of them.
use mathlib.Core.List.{append_assoc}
use meterplex.Prelude.{
  ℕ, zero, suc, ◌+◌, ◌-◌, ◌*◌, ◌/◌, ◌%◌, ◌≤◌, ◌<◌, ◌≡◌, refl, ap, ◌∙◌, [], ◌∷◌, ◌++◌, arith, ltb,
  leb, ◌&&◌, Bool-cases, inl, inr, if◌then◌else◌, Bool, false, All,
}
use meterplex.Text.{Text, show_from, show, replicate, pad_start}

abbrev pub IsDigit : ℕ → Type 0
IsDigit c = (b'0' ≤ c) × (c ≤ b'9')

unfoldable pub is_digit : ℕ → Bool
is_digit c = leb b'0' c && leb c b'9'

-- Reads digits on top of `acc`, up to the first other character.
unfoldable pub read_from : ℕ → Text → ℕ × Text
unfolding is_digit
read_from acc [] = (acc, [])
read_from acc (c ∷ s) =
    let more = read_from (acc * 10 + (c - b'0')) s in if is_digit c then more else (acc, c ∷ s)

-- The text does not go on with a digit.
abbrev pub Stops : Text → Type 0
Stops [] = Unit
Stops (c ∷ s) = is_digit c ≡ false

read_from_stop : (acc : ℕ) (s : Text) → Stops s → read_from acc s ≡ (acc, s)
unfolding read_from
read_from_stop acc [] h = refl
read_from_stop acc (c ∷ s) h = ground arith

-- Digits in front are read before the rest.
read_from-digit :
    (acc d : ℕ) (s : Text) → d < 10 → read_from acc ((b'0' + d) ∷ s) ≡ read_from (acc * 10 + d) s
unfolding read_from
read_from-digit acc d s h = let e : b'0' + d - b'0' ≡ d = omega arith in rw e (ground arith)

read_from-show_from :
    (fuel n : ℕ) (rest : Text) → n < fuel → read_from 0 (show_from fuel n rest) ≡ read_from n rest
unfolding show_from
read_from-show_from zero n rest h = elim h [ ]
read_from-show_from (suc fuel) n rest h = elim (Bool-cases (ltb n 10)) [
  | inl small ↦
      rw small (read_from-digit 0 n rest (ground arith) ∙ ap (λ k. read_from k rest) (omega arith))
  | inr big ↦ rw big (
      read_from-show_from fuel (n / 10) ((b'0' + n % 10) ∷ rest) (ground arith)
      ∙ read_from-digit (n / 10) (n % 10) rest (omega arith)
      ∙ ap (λ k. read_from k rest) (omega arith))
]

show_from-append :
    (fuel n : ℕ) (rest end : Text) → show_from fuel n rest ++ end ≡ show_from fuel n (rest ++ end)
unfolding show_from
show_from-append zero n rest end = refl
show_from-append (suc fuel) n rest end = elim (Bool-cases (ltb n 10)) [
  | inl small ↦ rw small
  | inr big ↦ rw big (show_from-append fuel (n / 10) ((b'0' + n % 10) ∷ rest) end)
]

pub read_from-show : (n : ℕ) (rest : Text) → Stops rest → read_from 0 (show n ++ rest) ≡ (n, rest)
unfolding show
read_from-show n rest h =
    rw show_from-append (read_from-show_from (n + 1) n rest (omega arith) ∙ read_from_stop n rest h)

read_from-zeros : (k : ℕ) (s : Text) → read_from 0 (replicate k b'0' ++ s) ≡ read_from 0 s
unfolding replicate
read_from-zeros zero s = refl
read_from-zeros (suc k) s =
    read_from-digit 0 0 (replicate k b'0' ++ s) (omega arith) ∙ read_from-zeros k s

-- Padding with zeros keeps the number.
pub read_from-pad_start :
    (w n : ℕ) (rest : Text) → Stops rest → read_from 0 (pad_start w (show n) ++ rest) ≡ (n, rest)
unfolding pad_start
read_from-pad_start w n rest h =
    rw append_assoc (read_from-zeros _ (show n ++ rest) ∙ read_from-show n rest h)

show_from-digits :
    (fuel n : ℕ) (rest : Text) → All IsDigit rest → All IsDigit (show_from fuel n rest)
unfolding show_from
show_from-digits zero n rest h = h
show_from-digits (suc fuel) n rest h = elim (Bool-cases (ltb n 10)) [
  | inl small ↦ rw small ((omega arith, ground arith), h)
  | inr big ↦
      rw big
        (show_from-digits fuel (n / 10) ((b'0' + n % 10) ∷ rest) ((omega arith, omega arith), h))
]

-- A printed number is made of digits only.
pub show-digits : (n : ℕ) → All IsDigit (show n)
unfolding show
show-digits n = show_from-digits (n + 1) n [] tt

pad-digits : (k : ℕ) (s : Text) → All IsDigit s → All IsDigit (replicate k b'0' ++ s)
unfolding replicate
pad-digits zero s h = h
pad-digits (suc k) s h = ((omega arith, omega arith), pad-digits k s h)

pub pad_start-digits : (w n : ℕ) → All IsDigit (pad_start w (show n))
unfolding pad_start
pad_start-digits w n = pad-digits _ (show n) (show-digits n)
