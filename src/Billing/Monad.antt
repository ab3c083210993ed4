-- ===== src/Billing/Monad.antt =====
-- A service method: it reads and writes the database and may throw. What was written before a
-- throw stays written, except inside `$transaction`.
pub mod Keeps
use mathlib.Core.Option
use meterplex.Prelude.{
  ◌⊎◌, inl, inr, ℕ, ◌+◌, ◌≡◌, refl, Bool, true, false, Option, none, some, if◌then◌else◌,
}
use meterplex.Prelude.Table
use meterplex.Prelude.Table.{Table}
use meterplex.Billing.State.{Database, InvoiceStatus}

-- `record_not_found` and `unique_violation` are Prisma's P2025 and P2002.
pub data Error : Type 0 where
  not_found : Error
  invalid_transition : InvoiceStatus → InvoiceStatus → Error
  invoice_not_finalized already_succeeded max_retries_exceeded : Error
  record_not_found unique_violation provider_error : Error
  no_entitlement not_consumable redis_error broker_error : Error
  no_active_subscription : Error
  dead_letter_not_found already_resolved already_discarded : Error
  plan_not_found plan_not_active price_not_found subscription_not_found : Error
  quota_exceeded : ℕ → ℕ → Error
  too_many_requests : ℕ → Error

pub data Result {ℓ} (A : Type ℓ) : Type ℓ where
  ok : A → Result A
  err : Error → Result A

pub Result-cases {ℓ} :
    {A : Type ℓ} (r : Result A) → ((a : A) × (r ≡ ok a)) ⊎ ((e : Error) × (r ≡ err e))
Result-cases (ok a) = inl (a, refl)
Result-cases (err e) = inr (e, refl)

abbrev pub Exec : Type 0 → Type 0
Exec A = Database → Result A × Database

module _ {A : Type 0} where
  abbrev pub pure : A → Exec A
  pure a db = (ok a, db)

  abbrev pub throw : Error → Exec A
  throw e db = (err e, db)

  abbrev pub gets : (Database → A) → Exec A
  gets f db = (ok (f db), db)

  abbrev pub or_throw : Option A → Error → Exec A
  or_throw none e = throw e
  or_throw (some a) e = pure a

infixl 5 ◌>>=◌ ◌>>◌
abbrev pub ◌>>=◌ : {A B : Type 0} → Exec A → (A → Exec B) → Exec B
◌>>=◌ m f db = let (r, db') = m db in elim r [ ok a ↦ f a db' | err e ↦ throw e db' ]

abbrev pub ◌>>◌ : {A B : Type 0} → Exec A → Exec B → Exec B
m >> k = m >>= λ _. k

abbrev pub throw_if : Bool → Error → Exec (Unit {0})
throw_if c e db = (if c then err e else ok tt, db)

abbrev pub modify : (Database → Database) → Exec (Unit {0})
modify f db = (ok tt, f db)

-- `$transaction(async (tx) => …)`: a throw undoes every write
abbrev pub undo : {A : Type 0} → Result A → Database → Database → Result A × Database
undo (ok a) old new = (ok a, new)
undo (err e) old new = (err e, old)

abbrev pub transaction : {A : Type 0} → Exec A → Exec A
transaction m db = let (r, db') = m db in undo r db db'

-- `try { … } catch { … }` with a handler that does not look at the error
abbrev pub recover : {A : Type 0} → Result A → Exec A → Exec A
recover (ok a) h db = (ok a, db)
recover (err e) h db = h db

abbrev pub catch : {A : Type 0} → Exec A → Exec A → Exec A
catch m h db = let (r, db') = m db in recover r h db'

-- `try { … } catch (error) { … }` with a handler that looks at the error
abbrev pub recover_with : {A : Type 0} → Result A → (Error → Exec A) → Exec A
recover_with (ok a) h db = (ok a, db)
recover_with (err e) h db = h e db

abbrev pub catch_with : {A : Type 0} → Exec A → (Error → Exec A) → Exec A
catch_with m h db = let (r, db') = m db in recover_with r h db'
