-- ===== src/Pipeline/DeadLetters/Lifecycle.antt =====
-- The states of a dead letter under dead-letter.service.ts.
use meterplex.Prelude.{
  ℕ, ◌+◌, ◌≡◌, ◌∙◌, refl, ap, Bool, true, false, some, List, [], ◌∷◌, ◌++◌, arith, inl, inr,
  Bool-cases, if◌then◌else◌,
}
use meterplex.Prelude.Table
use meterplex.Prelude.Table.{lookup-update}
use meterplex.Calendar.{Date}
use meterplex.Billing.State.{DeadLetter, DeadLetterStatus, RawEvent, Database}
use meterplex.Billing.Monad.{
  Exec, Error, ok, err, dead_letter_not_found, already_resolved, already_discarded, broker_error,
  or_throw, throw_if, ◌>>◌,
}
use meterplex.Billing.Monad.Keeps.{bind_ok, bind_err}
use meterplex.Pipeline.Kafka.{goes_out, later, publish_raw, send_raw, publish_ok, publish_err}
use meterplex.Pipeline.Ingestion.{find_event}
use meterplex.Pipeline.Validation.{was_handled}
use meterplex.Pipeline.Validation.Handled.{sent}
use meterplex.Pipeline.Validation.Once.{validate_all, handled_never_sent}
use meterplex.Pipeline.DeadLetters.{
  is_resolved, is_discarded, find_by_id, update_letter, retry_letter, retry,
}

-- a letter that is retried, and one that is discarded
abbrev pub retried : ℕ → DeadLetter → DeadLetter
retried admin_id d = record d {
  status = DeadLetterStatus.retrying;
  retry_count = d.retry_count + 1;
  resolved_by = some admin_id;
}

abbrev pub thrown_away : ℕ → DeadLetter → DeadLetter
thrown_away admin_id d = record d {
  status = DeadLetterStatus.discarded;
  resolved_by = some admin_id;
}

pub update_letter_lem :
    (id : ℕ) (f : DeadLetter → DeadLetter) (letter : DeadLetter) (db : Database)
    → Table.lookup id db.dead_letters ≡ some letter
    → update_letter id f db
      ≡ (ok tt, record db { dead_letters = Table.update id f db.dead_letters })
unfolding update_letter
update_letter_lem id f letter db here = ground arith

module _ (id admin_id : ℕ) (letter : DeadLetter) (db : Database) where
  passes : (c : Bool) (e : Error) → c ≡ false → throw_if c e db ≡ (ok tt, db)
  passes c e h = rw h refl

  pub find_by_id_lem :
      Table.lookup id db.dead_letters ≡ some letter → find_by_id id db ≡ (ok letter, db)
  unfolding find_by_id
  find_by_id_lem here = ap (λ o. or_throw o dead_letter_not_found db) here

  -- The database after a retry that Kafka takes.
  abbrev pub sent_again : Database
  sent_again = record db {
    broker =
        send_raw letter.topic letter.original_payload
          (record db.broker { down = later db.broker.down });
    dead_letters = Table.update id (retried admin_id) db.dead_letters;
  }

  resend : Exec (Unit {0})
  resend = publish_raw letter.topic letter.original_payload >> update_letter id (retried admin_id)

  resend_result :
      Table.lookup id db.dead_letters ≡ some letter
      → resend db ≡ (
          if goes_out db.broker.down then (ok tt, sent_again) else (
            err broker_error,
            record db { broker = record db.broker { down = later db.broker.down } },
          ))
  unfolding resend
  resend_result here = elim (Bool-cases (goes_out db.broker.down)) [
    | inl out ↦
        bind_ok (publish_raw letter.topic letter.original_payload)
          (λ _. update_letter id (retried admin_id))
          (publish_ok (send_raw letter.topic letter.original_payload) db out)
        ∙ update_letter_lem id (retried admin_id) letter _ here
        ∙ rw out refl
    | inr lost ↦
        bind_err (publish_raw letter.topic letter.original_payload)
          (λ _. update_letter id (retried admin_id))
          (publish_err (send_raw letter.topic letter.original_payload) db lost)
        ∙ rw lost refl
  ]

  -- A retry of a letter that is there is refused, without a trace, if the letter is resolved or
  -- discarded; else, if Kafka takes the message, the letter's payload is put on its topic and the
  -- letter is RETRYING with one more retry; else the retry fails and the letter stays as it is.
  pub retry_result :
      Table.lookup id db.dead_letters ≡ some letter
      → retry id admin_id db ≡ (
          if is_resolved letter.status
          then (err already_resolved, db)
          else if is_discarded letter.status
          then (err already_discarded, db)
          else if goes_out db.broker.down
          then (ok tt, sent_again)
          else (
            err broker_error,
            record db { broker = record db.broker { down = later db.broker.down } },
          ))
  unfolding retry retry_letter resend
  retry_result here =
      bind_ok (find_by_id id) (retry_letter id admin_id) (find_by_id_lem here)
      ∙ elim (Bool-cases (is_resolved letter.status)) [
        | inl resolved ↦ rw resolved refl
        | inr unresolved ↦ elim (Bool-cases (is_discarded letter.status)) [
          | inl gone ↦ rw (unresolved, gone) refl
          | inr kept ↦ rw (unresolved, kept) (resend_result here)
        ]
      ]

  -- A letter whose event was processed before, as every event is that validation rejected, can be
  -- retried, but no messages that follow, its own included, ever send the event on.
  pub retry_futile :
      (ms : List (Date × RawEvent))
      → Table.lookup id db.dead_letters ≡ some letter
      → is_resolved letter.status ≡ false
      → is_discarded letter.status ≡ false
      → goes_out db.broker.down ≡ true
      → was_handled letter.original_payload.event_id db ≡ true
      → let (r, db') = retry id admin_id db in
        (r ≡ ok tt)
        × (db'.broker.raw ≡ db.broker.raw ++ (letter.topic, letter.original_payload) ∷ [])
        × (sent letter.original_payload.event_id (validate_all ms db')
            ≡ sent letter.original_payload.event_id db)
  unfolding was_handled find_event
  retry_futile ms here unresolved kept out was =
      rw (retry_result here, unresolved, kept, out)
        (refl, refl, handled_never_sent letter.original_payload.event_id sent_again ms was)
