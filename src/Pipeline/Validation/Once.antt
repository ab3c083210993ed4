-- ===== src/Pipeline/Validation/Once.antt =====
-- How often usage-validation.consumer.ts sends an event on.
use meterplex.Prelude.{
  ℕ, ◌+◌, ◌≡◌, ◌∙◌, refl, sym, ap, true, false, some, List, [], ◌∷◌, arith, inl, inr, Bool-cases,
}
use meterplex.Prelude.Table
use meterplex.Prelude.Table.{Table, sat-update_found, find_first_holds}
use meterplex.Text.{Text, text_eq, text_eq_sound, text_eq_refl}
use meterplex.Calendar.{Date}
use meterplex.Billing.State.{UsageEventStatus, UsageEvent, RawEvent, ValidatedEvent, Database}
use meterplex.Billing.Monad.{pure}
use meterplex.Billing.Monad.Keeps.{
  Keeps, Keeps-bind, Keeps-pure, Keeps-catch, bind_ok, catch_ok, catch_err,
}
use meterplex.Pipeline.Kafka.{
  goes_out, later, publish_validated, publish_dead_letter, send_validated, send_duplicate,
  send_dead_letter, publish_ok, publish_err,
}
use meterplex.Pipeline.Ingestion.{find_event}
use meterplex.Pipeline.Validation.{
  Verdict, was_handled, update_event, update_event_status, rejection, send_to_dead_letter, reject,
  carry_out, verdict, validate,
}
use meterplex.Pipeline.Validation.Accepted.{valid-Acceptable}
use meterplex.Pipeline.Validation.Handled.{
  sent, sent_of-append, Done, handled, has_id, with_status, was_handled_lem, update_event_lem,
  publish-Keeps, update_event_status-Keeps,
}

-- Whether a verdict sends a message with this event's id.
abbrev SpeaksOf : Text → Verdict → Type 0
SpeaksOf event_id Verdict.rejected = Unit {0}
SpeaksOf event_id Verdict.duplicate = Unit {0}
SpeaksOf event_id (Verdict.valid v) = text_eq v.event_id event_id ≡ false

module _ (event_id : Text) (n : ℕ) where
  reject-Keeps : (e : RawEvent) → Keeps (Done event_id n) (reject e)
  unfolding reject
  reject-Keeps e =
      Keeps-bind (Done event_id n) (send_to_dead_letter e)
        (λ u. update_event_status e.id UsageEventStatus.rejected)
        (Keeps-catch (Done event_id n) (publish_dead_letter (rejection e)) (pure tt)
          (publish-Keeps event_id n (send_dead_letter (rejection e)) (λ b. refl))
          (Keeps-pure (Done event_id n) tt))
        λ u. update_event_status-Keeps event_id n e.id UsageEventStatus.rejected refl

  carry_out-Keeps :
      (e : RawEvent) (v : Verdict) → SpeaksOf event_id v → Keeps (Done event_id n) (carry_out e v)
  unfolding carry_out
  carry_out-Keeps e Verdict.rejected other = reject-Keeps e
  carry_out-Keeps e Verdict.duplicate other =
      publish-Keeps event_id n (send_duplicate e.event_id) (λ b. refl)
  carry_out-Keeps e (Verdict.valid v) other =
      Keeps-bind (Done event_id n) (publish_validated v)
        (λ u. update_event_status e.id UsageEventStatus.validated)
        (publish-Keeps event_id n (send_validated v)
          (λ b. sent_of-append event_id b.validated v ∙ rw other (omega arith)))
        λ u. update_event_status-Keeps event_id n e.id UsageEventStatus.validated refl

  -- A processed event is not sent again.
  verdict-SpeaksOf :
      (now : Date) (e : RawEvent) (db : Database)
      → was_handled event_id db ≡ true
      → (v : Verdict) → verdict now e db ≡ v
      → SpeaksOf event_id v
  verdict-SpeaksOf now e db was Verdict.rejected h = tt
  verdict-SpeaksOf now e db was Verdict.duplicate h = tt
  verdict-SpeaksOf now e db was (Verdict.valid v) h =
      let a = valid-Acceptable now e db v h in
      elim (Bool-cases (text_eq v.event_id event_id)) [
        | inr other ↦ other
        | inl same ↦
            let e' : e.event_id ≡ event_id =
              sym (ap (λ (w : ValidatedEvent). w.event_id) a.sent_as)
              ∙ text_eq_sound v.event_id event_id same in
            cc (a.unhandled, was, ap (λ t. was_handled t db) e')
      ]

  validate-Keeps : (now : Date) (e : RawEvent) → Keeps (Done event_id n) (validate now e)
  unfolding validate
  validate-Keeps now e = record {
    at = λ db h.
        (carry_out-Keeps e (verdict now e db)
            (verdict-SpeaksOf now e db h.0 (verdict now e db) refl)).at
          db h;
  }

-- Messages that come in, each with its time; a message whose processing fails is left at that.
unfoldable pub validate_all : List (Date × RawEvent) → Database → Database
unfolding validate
validate_all [] db = db
validate_all ((now, e) ∷ rest) db = validate_all rest (validate now e db).1

validate_all-Done :
    (event_id : Text) (n : ℕ) (ms : List (Date × RawEvent)) (db : Database)
    → Done event_id n db
    → Done event_id n (validate_all ms db)
unfolding validate_all
validate_all-Done event_id n [] db h = h
validate_all-Done event_id n ((now, e) ∷ rest) db h =
    validate_all-Done event_id n rest _ ((validate-Keeps event_id n now e).at db h)

-- Once an event has been processed, its row VALIDATED, AGGREGATED, REJECTED or DUPLICATE, no messages
-- of `usage.raw`, those of a retried dead letter included, ever send it on again.
pub handled_never_sent :
    (event_id : Text) (db : Database) (ms : List (Date × RawEvent))
    → was_handled event_id db ≡ true
    → sent event_id (validate_all ms db) ≡ sent event_id db
handled_never_sent event_id db ms was =
    (validate_all-Done event_id (sent event_id db) ms db (was, refl)).1

module _ (e : RawEvent) (id : ℕ) (row : UsageEvent) where
  -- The event of the message is the row that its id names.
  abbrev pub Names : Database → Type 0
  Names db =
      (e.id ≡ some id)
      × (Table.lookup id db.usage_events ≡ some row)
      × (find_event e.event_id db ≡ some (id, row))

  status_set :
      (status : UsageEventStatus) (db : Database)
      → handled (record row { status = status }) ≡ true
      → Names db
      → Done e.event_id (sent e.event_id db) (update_event_status e.id status db).1
  unfolding find_event update_event_status
  status_set status db final (named, here, found) =
      rw
        (
          named,
          catch_ok (update_event id status) (pure tt) (update_event_lem id status row db here),
        )
        (
          was_handled_lem e.event_id _
              ∙ sat-update_found (has_id e.event_id) handled id row (with_status status)
                  db.usage_events (λ w. refl) (λ w. final)
                  (find_first_holds (λ _. has_id e.event_id) db.usage_events id row found) here
                  found,
          refl,
        )

  -- If a message, whose event's row its id names, is sent on and Kafka takes it, the event has been
  -- sent on once more, and no messages that follow, copies of it included, send it on again.
  pub sent_once :
      (now : Date) (db : Database) (v : ValidatedEvent) (ms : List (Date × RawEvent))
      → Names db
      → verdict now e db ≡ Verdict.valid v
      → goes_out db.broker.down ≡ true
      → let db' = (validate now e db).1 in
        (sent e.event_id db' ≡ sent e.event_id db + 1)
        × (sent e.event_id (validate_all ms db') ≡ sent e.event_id db + 1)
  unfolding validate carry_out find_event
  sent_once now db v ms names good out =
      let a = valid-Acceptable now e db v good in
      let db1 : Database = record db {
        broker = send_validated v (record db.broker { down = later db.broker.down });
      } in
      let step : validate now e db ≡ update_event_status e.id UsageEventStatus.validated db1 =
        ap (λ w. carry_out e w db) good
        ∙ bind_ok (publish_validated v) (λ u. update_event_status e.id UsageEventStatus.validated)
            (publish_ok (send_validated v) db out) in
      let count : sent e.event_id db1 ≡ sent e.event_id db + 1 =
        sent_of-append e.event_id db.broker.validated v
        ∙ rw (ap (λ (w : ValidatedEvent). w.event_id) a.sent_as, text_eq_refl e.event_id) refl in
      let done : Done e.event_id (sent e.event_id db + 1) (validate now e db).1 =
        rw (step, sym count) (status_set UsageEventStatus.validated db1 refl names) in
      (done.1, (validate_all-Done e.event_id (sent e.event_id db + 1) ms _ done).1)

  rejected_step : (db : Database) → Names db → Done e.event_id (sent e.event_id db) (reject e db).1
  unfolding reject find_event
  rejected_step db names = elim (Bool-cases (goes_out db.broker.down)) [
    | inl out ↦
        rw
          (bind_ok (send_to_dead_letter e) (λ u. update_event_status e.id UsageEventStatus.rejected)
            (catch_ok (publish_dead_letter (rejection e)) (pure tt)
              (publish_ok (send_dead_letter (rejection e)) db out)))
          (status_set UsageEventStatus.rejected _ refl names)
    | inr lost ↦
        rw
          (bind_ok (send_to_dead_letter e) (λ u. update_event_status e.id UsageEventStatus.rejected)
            (catch_err (publish_dead_letter (rejection e)) (pure tt)
              (publish_err (send_dead_letter (rejection e)) db lost)))
          (status_set UsageEventStatus.rejected _ refl names)
  ]

  -- If a message, whose event's row its id names, is rejected, no messages that follow, copies of it
  -- included, ever send its event on, although what it was rejected for may have passed.
  pub rejected_for_good :
      (now : Date) (db : Database) (ms : List (Date × RawEvent))
      → Names db
      → verdict now e db ≡ Verdict.rejected
      → sent e.event_id (validate_all ms (validate now e db).1) ≡ sent e.event_id db
  unfolding validate carry_out
  rejected_for_good now db ms names bad =
      (validate_all-Done e.event_id (sent e.event_id db) ms _
        (rw (ap (λ w. carry_out e w db) bad) (rejected_step db names))).1
