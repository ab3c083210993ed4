-- ===== src/Billing/Overage/Bounds.antt =====
-- The amounts of overage-calculator.ts and of the proration.
use Prim.Native.Nat.{min}
use meterplex.Prelude.{ℕ, ◌+◌, ◌-◌, ◌*◌, ◌≤◌, ◌<◌, ◌≡◌, refl, arith, leb, inl, inr, Bool-cases}
use meterplex.Calendar.{Date, get_time}
use meterplex.Billing.Overage.{round_div, calculate_proration, prorated_amount}

-- Rounding is to the nearest.
pub round_div_nearest :
    (a b : ℕ)
    → 0 < b
    → (2 * (round_div a b * b) ≤ 2 * a + b) × (2 * a < 2 * (round_div a b * b) + b)
unfolding round_div
round_div_nearest a b h = (grind arith, grind arith)

pub round_div_mono : (a c b : ℕ) → a ≤ c → round_div a b ≤ round_div c b
unfolding round_div
round_div_mono a c b h = grind arith

pub round_div_le : (a b c : ℕ) → 0 < b → a ≤ c * b → round_div a b ≤ c
unfolding round_div
round_div_le a b c h k = grind arith

-- The factor is a fraction of at most one.
pub calculate_proration_bounds :
    (s e c : Date)
    → let f = calculate_proration s e c in (0 < f.total_ms) × (f.used_ms ≤ f.total_ms)
unfolding calculate_proration
calculate_proration_bounds s e c = ground arith

pub round_div_zero : (b : ℕ) → 0 < b → round_div 0 b ≡ 0
unfolding round_div
round_div_zero b h = grind arith

pub round_div_whole : (a b : ℕ) → 0 < b → round_div (a * b) b ≡ a
unfolding round_div
round_div_whole a b h = grind arith

-- In a period of positive length the prorated fee is the fee times the used part of the period,
-- cut off at the ends of the period, over its length, rounded to the nearest cent.
pub prorated_amount_lem :
    (amount : ℕ) (s e c : Date)
    → get_time s < get_time e
    → prorated_amount amount (calculate_proration s e c)
      ≡ round_div
          (amount * min (get_time c - get_time s) (get_time e - get_time s))
          (get_time e - get_time s)
unfolding prorated_amount calculate_proration
prorated_amount_lem amount s e c h = elim (Bool-cases (leb (get_time e) (get_time s))) [
  | inl bad ↦ absurd (ground arith)
  | inr good ↦ elim (Bool-cases (leb (get_time c) (get_time s))) [
    | inl early ↦
        rw (good, early)
          (let z : amount * min (get_time c - get_time s) (get_time e - get_time s) ≡ 0 =
              (let m : min (get_time c - get_time s) (get_time e - get_time s) ≡ 0 = ground arith in
                rw m (omega arith)) in
            rw z (omega (arith, round_div_zero (get_time e - get_time s) (ground arith))))
    | inr inside ↦ elim (Bool-cases (leb (get_time e - get_time s) (get_time c - get_time s))) [
      | inl late ↦
          rw (good, inside, late)
            (let m : min (get_time c - get_time s) (get_time e - get_time s)
                  ≡ get_time e - get_time s =
                ground arith in
              rw m (omega (arith, round_div_whole amount (get_time e - get_time s) (ground arith))))
      | inr mid ↦
          rw (good, inside, mid)
            (let m : min (get_time c - get_time s) (get_time e - get_time s)
                  ≡ get_time c - get_time s =
                ground arith in
              rw m (unfold round_div in refl))
    ]
  ]
]

-- In a period of positive length a later cancellation is never cheaper, and none costs more than
-- the full fee.
pub prorated_amount_mono :
    (amount : ℕ) (s e c d : Date)
    → get_time s < get_time e
    → get_time c ≤ get_time d
    → (prorated_amount amount (calculate_proration s e c)
        ≤ prorated_amount amount (calculate_proration s e d))
      × (prorated_amount amount (calculate_proration s e d) ≤ amount)
prorated_amount_mono amount s e c d h le =
    rw (prorated_amount_lem amount s e c h, prorated_amount_lem amount s e d h)
      (
        round_div_mono _ _ (get_time e - get_time s) (grind arith),
        round_div_le _ (get_time e - get_time s) amount (omega arith) (grind arith),
      )
