-- ===== src/Billing/Overage.antt =====
-- src/modules/invoices/overage-calculator.ts, and the proration of billing-period.service.ts.
-- Quotients of whole numbers are taken exactly and rounded as `Math.round` does; a double holds
-- them exactly enough while the amounts stay below 2^46.
use meterplex.Prelude.{ℕ, ◌+◌, ◌-◌, ◌*◌, ◌/◌, ◌≤◌, Option, get_or, leb, if◌then◌else◌}
use meterplex.Calendar.{Date, get_time}
pub mod Bounds

-- `Math.round(a / b)`: to the nearest, halves up
unfoldable pub round_div : ℕ → ℕ → ℕ
round_div a b = (2 * a + b) / (2 * b)

pub record OverageResult : Type 0 where
  pub overage_units : ℕ
  pub unit_price_micro_cents : ℕ
  pub total_cents : ℕ

unfoldable pub calculate_overage : ℕ → Option ℕ → Option ℕ → OverageResult
unfolding round_div
calculate_overage used included_amount overage_price_micro_cents =
    let included = get_or included_amount 0 in
    let unit_price = get_or overage_price_micro_cents 0 in
    let overage_units = used - included in
    let total_micro_cents = overage_units * unit_price in
    record {
      overage_units = overage_units;
      unit_price_micro_cents = unit_price;
      total_cents = round_div total_micro_cents 100;
    }

-- A factor between 0 and 1, as the two numbers that the source divides.
pub record Factor : Type 0 where
  pub used_ms : ℕ
  pub total_ms : ℕ

unfoldable pub calculate_proration : Date → Date → Date → Factor
unfolding get_time
calculate_proration period_start period_end cancelled_at =
    if leb (get_time period_end) (get_time period_start)
    then record { used_ms = 1; total_ms = 1 }
    else if leb (get_time cancelled_at) (get_time period_start)
    then record { used_ms = 0; total_ms = 1 }
    else if leb (get_time period_end - get_time period_start)
        (get_time cancelled_at - get_time period_start)
    then record { used_ms = 1; total_ms = 1 }
    else record {
      used_ms = get_time cancelled_at - get_time period_start;
      total_ms = get_time period_end - get_time period_start;
    }

-- `Math.round(price.amount * prorationFactor)`
unfoldable pub prorated_amount : ℕ → Factor → ℕ
unfolding round_div
prorated_amount amount f = round_div (amount * f.used_ms) f.total_ms
