-- ===== src/Accounts/Tokens/Expiry.antt =====
-- The two readings of JWT_REFRESH_EXPIRATION: the expiry that the token carries, and the one of its
-- row.
use meterplex.Prelude.{ℕ, ◌+◌, ◌*◌, Bool, false, Option, none, some, ◌≡◌, arith, ◌==◌}
use meterplex.Text.{Text}
use meterplex.Accounts.Tokens.{
  split_duration, seconds_of, parse_expiry_to_seconds, date_after, calculate_expiry,
}

-- The unit of a duration is seconds.
abbrev pub in_seconds : Option (ℕ × ℕ) → Bool
in_seconds none = false
in_seconds (some (value, unit)) = unit == b's'

read_alike :
    (now : ℕ) (o : Option (ℕ × ℕ))
    → in_seconds o ≡ false
    → date_after now o ≡ now + seconds_of o * 1000
read_alike now none h = omega arith
read_alike now (some (value, unit)) h = ground arith

-- The row of a refresh token expires when the token itself does, for every setting of
-- JWT_REFRESH_EXPIRATION but a number of seconds.
pub expiries_agree :
    (duration : Text) (now : ℕ)
    → in_seconds (split_duration duration) ≡ false
    → calculate_expiry duration now ≡ now + parse_expiry_to_seconds duration * 1000
unfolding calculate_expiry parse_expiry_to_seconds
expiries_agree duration now h = read_alike now (split_duration duration) h
