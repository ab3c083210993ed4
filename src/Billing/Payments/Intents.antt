-- ===== src/Billing/Payments/Intents.antt =====
-- The number of attempts of an invoice in payment-intent.service.ts.
use meterplex.Prelude.{
  ℕ, ◌≤◌, ◌<◌, ◌≡◌, refl, ◌⊎◌, inl, inr, String, Bool-cases, none, ◌==◌, leb, length, arith,
  Option-cases,
}
use meterplex.Prelude.Table
use meterplex.Prelude.Table.{length-find_many-create, Table}
use meterplex.Billing.State.{PaymentAttempt, Database}
use meterplex.Billing.Monad.{Result-cases, Result}
use meterplex.Billing.Payments.{
  IntentResult, create_for_invoice, attempts_of, max_retries, finalized_or_none, map_initial_status,
  last_key, find_attempt, is_failed, is_succeeded,
}
use meterplex.Billing.Lifecycle.{select_invoice}

-- No invoice has more than three attempts: the first and two retries.
abbrev pub AttemptsBounded : Database → Type 0
AttemptsBounded db = (invoice_id : ℕ) → length (attempts_of invoice_id db) ≤ 3

module _ (intent : ℕ → String → Result IntentResult) (id tenant amount : ℕ) (currency : String)
    (db : Database) where
  -- What is stored: nothing, or one attempt for the invoice, which had fewer than three.
  abbrev Stored : Type 0
  Stored =
      (a : PaymentAttempt) × ((create_for_invoice intent id tenant amount currency db).1.attempts
        ≡ Table.create db.next_id a db.attempts)
      × (a.invoice_id ≡ id)
      × (a.attempt_number ≡ length (attempts_of id db))
      × (length (attempts_of id db) < 3)

  abbrev new_attempt : IntentResult → PaymentAttempt
  new_attempt result = record {
    invoice_id = id;
    tenant_id = tenant;
    provider_payment_id = result.provider_payment_id;
    status = map_initial_status result.status;
    amount = amount;
    currency = currency;
    attempt_number = length (attempts_of id db);
    retry_of = last_key (Table.find_many (λ _ a. is_failed a.status) (attempts_of id db));
    next_retry_at = none;
    failure_reason = none;
  }

  stored_cases :
      ((create_for_invoice intent id tenant amount currency db).1.attempts ≡ db.attempts) ⊎ Stored
  unfolding create_for_invoice
  stored_cases = elim (Bool-cases (leb max_retries (length (attempts_of id db)))) [
    | inl full ↦ inl (ground arith)
    | inr room ↦ elim (Result-cases (intent amount currency)) [
      | inr (e, down) ↦ inl (ground arith)
      | inl (result, given) ↦
          elim (Option-cases (finalized_or_none (select_invoice id tenant db))) [
            | inl closed ↦ inl (ground arith)
            | inr (inv, open_now) ↦
                elim (Bool-cases (
                  Table.is_found
                    (Table.find_first (λ _ a. is_succeeded a.status) (attempts_of id db)))) [
                      | inl done ↦ inl (ground arith)
                      | inr unpaid ↦
                          elim (Bool-cases
                            (Table.is_found (find_attempt result.provider_payment_id db))) [
                              | inl taken ↦ inl (ground arith)
                              | inr free ↦
                                  inr (new_attempt result, ground arith, refl, refl, ground arith)
                            ]
                    ]
          ]
    ]
  ]

  -- Whatever the provider answers, a payment intent leaves every invoice with at most three
  -- attempts if each had at most three before.
  pub create_for_invoice-AttemptsBounded :
      AttemptsBounded db
      → AttemptsBounded (create_for_invoice intent id tenant amount currency db).1
  unfolding attempts_of
  create_for_invoice-AttemptsBounded b = λ j. elim stored_cases [
    | inl same ↦ rw same (b j)
    | inr (a, stored, own, _, room) ↦
        rw (stored, length-find_many-create (λ _ x. x.invoice_id == j) db.next_id a db.attempts)
          (ground (arith, b j))
  ]
