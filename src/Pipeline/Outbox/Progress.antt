-- ===== src/Pipeline/Outbox/Progress.antt =====
-- The attempts of one outbox row in outbox-publisher.service.ts.
use meterplex.Prelude.{
  ℕ, ◌+◌, ◌*◌, ◌^◌, ◌≤◌, ◌<◌, ◌≡◌, ◌∙◌, refl, ap, Bool, true, false, Option, none, some, List, [],
  ◌∷◌, arith, leb, length, if◌then◌else◌, inl, inr, Bool-cases, ==_refl,
}
use meterplex.Prelude.Table
use meterplex.Prelude.Table.{Table, lookup-update}
use meterplex.Calendar.{Date, get_time}
use meterplex.Billing.State.{OutboxStatus, OutboxRow, Database}
use meterplex.Billing.Monad.{ok, Exec, Result, ◌>>◌}
use meterplex.Billing.Monad.Keeps.{bind_ok, bind_err, catch_ok, catch_err, transaction_ok}
use meterplex.Pipeline.Kafka.{send_raw, publish_raw, goes_out, publish_ok, publish_err}
use meterplex.Pipeline.Outbox.{
  is_pending, max_retries, update_row, create_dead_letter, after_failure, publish_row, give_up,
  last_letter,
}

-- The change of a row that is to be tried again.
abbrev delayed : Date → OutboxRow → OutboxRow → OutboxRow
delayed now row r = record r {
  retry_count = row.retry_count + 1;
  next_retry_at = some (get_time now + 2 ^ (row.retry_count + 1) * 1000);
}

-- The row after an attempt.
abbrev pub row_after : Date → Bool → OutboxRow → OutboxRow
row_after now sent row =
    if sent
    then record row { status = OutboxStatus.published }
    else if leb max_retries (row.retry_count + 1)
    then record row { status = OutboxStatus.failed; retry_count = row.retry_count + 1 }
    else record row {
      retry_count = row.retry_count + 1;
      next_retry_at = some (get_time now + 2 ^ (row.retry_count + 1) * 1000);
    }

module _ (now : Date) (id : ℕ) (row : OutboxRow) where
  pub update_row_lem :
      (f : OutboxRow → OutboxRow) (db : Database)
      → Table.lookup id db.outbox ≡ some row
      → update_row id f db ≡ (ok tt, record db { outbox = Table.update id f db.outbox })
  unfolding update_row
  update_row_lem f db here = ground arith

  updated :
      (f : OutboxRow → OutboxRow) (t : Table OutboxRow)
      → Table.lookup id t ≡ some row
      → Table.lookup id (Table.update id f t) ≡ some (f row)
  updated f t here = lookup-update id id f t ∙ rw (==_refl id, here) refl

  given_up :
      (db : Database)
      → Table.lookup id db.outbox ≡ some row
      → Table.lookup id (give_up id row db).1.outbox
        ≡ some (record row { status = OutboxStatus.failed; retry_count = row.retry_count + 1 })
  unfolding give_up create_dead_letter
  given_up db here =
      ap (λ (p : Result (Unit {0}) × Database). Table.lookup id p.1.outbox)
        (transaction_ok
          (update_row id
              (λ r. record r { status = OutboxStatus.failed; retry_count = row.retry_count + 1 })
            >> create_dead_letter (last_letter row))
          (bind_ok
            (update_row id
              (λ r. record r { status = OutboxStatus.failed; retry_count = row.retry_count + 1 }))
            (λ _. create_dead_letter (last_letter row)) (update_row_lem _ db here)))
      ∙ updated _ db.outbox here

  -- The outbox after a failed attempt has the row's next state.
  failure_row :
      (db : Database)
      → Table.lookup id db.outbox ≡ some row
      → Table.lookup id (after_failure now id row db).1.outbox ≡ some (row_after now false row)
  unfolding after_failure
  failure_row db here = elim (Bool-cases (leb max_retries (row.retry_count + 1))) [
    | inl last ↦ rw last (given_up db here)
    | inr more ↦ rw more (
        ap (λ (p : Result (Unit {0}) × Database). Table.lookup id p.1.outbox)
          (update_row_lem (delayed now row) db here)
        ∙ updated (delayed now row) db.outbox here)
  ]

  -- what is sent for the row, and the mark that it was sent
  abbrev send : Exec (Unit {0})
  send = publish_raw row.topic row.payload

  abbrev mark : Exec (Unit {0})
  mark = update_row id (λ r. record r { status = OutboxStatus.published })

  attempt_row :
      (db : Database)
      → Table.lookup id db.outbox ≡ some row
      → Table.lookup id (publish_row now id row db).1.outbox
        ≡ some (row_after now (goes_out db.broker.down) row)
  unfolding publish_row
  attempt_row db here = elim (Bool-cases (goes_out db.broker.down)) [
    | inl out ↦
        ap (λ (p : Result (Unit {0}) × Database). Table.lookup id p.1.outbox)
          (catch_ok (send >> mark) (after_failure now id row) (
            bind_ok send (λ _. mark) (publish_ok (send_raw row.topic row.payload) db out)
            ∙ update_row_lem _ _ here))
        ∙ updated _ db.outbox here
        ∙ rw out refl
    | inr lost ↦
        ap (λ (p : Result (Unit {0}) × Database). Table.lookup id p.1.outbox)
          (catch_err (send >> mark) (after_failure now id row)
            (bind_err send (λ _. mark) (publish_err (send_raw row.topic row.payload) db lost)))
        ∙ failure_row _ here
        ∙ rw lost refl
  ]

-- Attempts of the row with this id, one after the other, for as long as it is pending. Each may fail,
-- and the clock may show any time.
unfoldable pub attempts : ℕ → List Date → Database → Database
unfolding Table.lookup
attempts id [] db = db
attempts id (now ∷ times) db = elim (Table.lookup id db.outbox) [
  | none ↦ db
  | some row ↦
      let db' = attempts id times (publish_row now id row db).1 in
      if is_pending row.status then db' else db
]

-- The row is there and no longer pending.
abbrev pub Settled : ℕ → Database → Type 0
Settled id db =
    (row : OutboxRow) × (Table.lookup id db.outbox ≡ some row) × (is_pending row.status ≡ false)

attempts_nil : (id : ℕ) (db : Database) → attempts id [] db ≡ db
unfolding attempts
attempts_nil id db = refl

module _ (id : ℕ) (now : Date) (times : List Date) (row : OutboxRow) (db : Database) where
  attempts_step :
      Table.lookup id db.outbox ≡ some row
      → attempts id (now ∷ times) db
        ≡ (if is_pending row.status then attempts id times (publish_row now id row db).1 else db)
  unfolding attempts
  attempts_step here =
      ap
        (λ (o : Option OutboxRow). elim o [
          | none ↦ db
          | some r ↦
              if is_pending r.status then attempts id times (publish_row now id r db).1 else db
        ])
        here

attempts-Settled :
    (id : ℕ) (times : List Date) (row : OutboxRow) (db : Database)
    → Table.lookup id db.outbox ≡ some row
    → is_pending row.status ≡ false
    → Settled id (attempts id times db)
attempts-Settled id [] row db here done = rw (attempts_nil id db) (row, here, done)
attempts-Settled id (now ∷ times) row db here done =
    rw (attempts_step id now times row db here, done) (row, here, done)

-- Whatever calls of Kafka fail, a pending outbox row with fewer than five attempts behind it is
-- published or failed once it has been tried five times in all.
pub attempts_end :
    (id : ℕ) (times : List Date) (row : OutboxRow) (db : Database)
    → Table.lookup id db.outbox ≡ some row
    → row.retry_count < max_retries
    → max_retries ≤ row.retry_count + length times
    → Settled id (attempts id times db)
attempts_end id [] row db here few enough = absurd (omega (arith, few, enough))
attempts_end id (now ∷ times) row db here few enough = elim (Bool-cases (is_pending row.status)) [
  | inr done ↦ attempts-Settled id (now ∷ times) row db here done
  | inl pending ↦
      rw (attempts_step id now times row db here, pending)
        (elim (Bool-cases (goes_out db.broker.down)) [
          | inl out ↦
              attempts-Settled id times (row_after now true row) _
                (attempt_row now id row db here ∙ rw out refl) refl
          | inr lost ↦ elim (Bool-cases (leb max_retries (row.retry_count + 1))) [
            | inl last ↦
                attempts-Settled id times
                  (record row { status = OutboxStatus.failed; retry_count = row.retry_count + 1 }) _
                  (attempt_row now id row db here ∙ rw (lost, last) refl) refl
            | inr more ↦
                attempts_end id times (delayed now row row) _
                  (attempt_row now id row db here ∙ rw (lost, more) refl) (ground (arith, more))
                  (omega (arith, enough))
          ]
        ])
]
