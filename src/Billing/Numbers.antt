-- ===== src/Billing/Numbers.antt =====
-- src/modules/invoices/invoice-number.service.ts: INV-{year}-{sequence}, from a counter by year.
use meterplex.Prelude.{ℕ, ◌+◌, Option, none, some, ◌++◌}
use meterplex.Prelude.Table
use meterplex.Prelude.Table.{Table}
use meterplex.Text.{Text, codes, show, pad_start}
use meterplex.Calendar.{Date}
use meterplex.Billing.State.{Database}
use meterplex.Billing.Monad.{Exec, gets, modify, pure, ◌>>=◌, ◌>>◌}
pub mod Format

-- `INV-${year}-${String(sequence).padStart(4, '0')}`
unfoldable pub format_number : ℕ → ℕ → Text
unfolding show pad_start
format_number year sequence =
    codes "INV-" ++ (show year ++ (codes "-" ++ pad_start 4 (show sequence)))

-- `INSERT … VALUES (year, 1) ON CONFLICT DO UPDATE SET last_value = last_value + 1`
unfoldable pub upsert_sequence : ℕ → Table ℕ → Table ℕ
unfolding Table.lookup Table.create Table.update
upsert_sequence year t = elim (Table.lookup year t) [
  | none ↦ Table.create year 1 t
  | some n ↦ Table.update year (λ m. m + 1) t
]

-- the `last_value` that `RETURNING` gives
unfoldable pub next_value : ℕ → Table ℕ → ℕ
unfolding Table.lookup
next_value year t = elim (Table.lookup year t) [ none ↦ 1 | some n ↦ n + 1 ]

unfoldable pub generate_next : Date → Exec Text
unfolding upsert_sequence next_value format_number
generate_next now = do
  sequence ← gets (λ db. next_value now.year db.sequences)
  modify (λ db. record db { sequences = upsert_sequence now.year db.sequences })
  pure (format_number now.year sequence)
