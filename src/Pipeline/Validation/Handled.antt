-- ===== src/Pipeline/Validation/Handled.antt =====
-- Events that were processed before, under further messages to usage-validation.consumer.ts.
use meterplex.Prelude.{
  ℕ, ◌+◌, ◌≡◌, ◌∙◌, refl, sym, Bool, true, false, Option, none, some, List, [], ◌∷◌, ◌++◌, arith,
  if◌then◌else◌, inl, inr, Bool-cases,
}
use meterplex.Prelude.Table
use meterplex.Prelude.Table.{Table, sat, sat-update, sat-update_found, find_first_holds}
use meterplex.Text.{Text, text_eq}
use meterplex.Billing.State.{UsageEventStatus, UsageEvent, ValidatedEvent, Broker, Database}
use meterplex.Billing.Monad.{ok, gets, or_throw, record_not_found}
use meterplex.Billing.Monad.Keeps.{
  Keeps, Keeps-bind, Keeps-pure, Keeps-gets, Keeps-or_throw, Keeps-modify, Keeps-catch,
}
use meterplex.Pipeline.Kafka.{goes_out, publish}
use meterplex.Pipeline.Ingestion.{find_event}
use meterplex.Pipeline.Validation.{is_handled, was_handled, update_event, update_event_status}

-- How many messages with this event id `usage.validated` has.
unfoldable pub sent_of : Text → List ValidatedEvent → ℕ
unfolding text_eq
sent_of event_id [] = 0
sent_of event_id (v ∷ vs) = (if text_eq v.event_id event_id then 1 else 0) + sent_of event_id vs

abbrev pub sent : Text → Database → ℕ
sent event_id db = sent_of event_id db.broker.validated

pub sent_of-append :
    (event_id : Text) (vs : List ValidatedEvent) (v : ValidatedEvent)
    → sent_of event_id (vs ++ v ∷ [])
      ≡ sent_of event_id vs + (if text_eq v.event_id event_id then 1 else 0)
unfolding sent_of
sent_of-append event_id [] v = ground arith
sent_of-append event_id (w ∷ vs) v = ground (arith, sent_of-append event_id vs v)

abbrev pub has_id : Text → UsageEvent → Bool
has_id event_id u = text_eq u.event_id event_id

abbrev pub handled : UsageEvent → Bool
handled u = is_handled u.status

pub was_handled_lem :
    (event_id : Text) (db : Database)
    → was_handled event_id db
      ≡ sat handled (Table.find_first (λ _. has_id event_id) db.usage_events)
unfolding was_handled find_event
was_handled_lem event_id db = on_option (Table.find_first (λ _. has_id event_id) db.usage_events)
  where
    on_option :
        (o : Option (ℕ × UsageEvent))
        → (elim o [ none ↦ false | some row ↦ is_handled row.1.status ]) ≡ sat handled o
    on_option none = refl
    on_option (some row) = refl

-- The event was processed, and so many messages were sent for it.
abbrev pub Done : Text → ℕ → Database → Type 0
Done event_id n db = (was_handled event_id db ≡ true) × (sent event_id db ≡ n)

abbrev pub with_status : UsageEventStatus → UsageEvent → UsageEvent
with_status status u = record u { status = status }

module _ (event_id : Text) (n : ℕ) where
  pub update-Done :
      (id : ℕ) (status : UsageEventStatus) (db : Database)
      → is_handled status ≡ true
      → Done event_id n db
      → Done event_id n
          (record db { usage_events = Table.update id (with_status status) db.usage_events })
  update-Done id status db final (was, count) = (
    was_handled_lem event_id _
        ∙ sat-update (λ _. has_id event_id) handled id (with_status status) db.usage_events
            (λ j v. refl) (λ v. final) (sym (was_handled_lem event_id db) ∙ was),
    count,
  )

  broker-Done :
      (b : Broker) (db : Database)
      → sent_of event_id b.validated ≡ n
      → Done event_id n db
      → Done event_id n (record db { broker = b })
  unfolding was_handled
  broker-Done b db same (was, count) = (was, same)

  update_event-Keeps :
      (id : ℕ) (status : UsageEventStatus)
      → is_handled status ≡ true
      → Keeps (Done event_id n) (update_event id status)
  unfolding update_event
  update_event-Keeps id status final =
      Keeps-bind (Done event_id n) (gets (λ db. Table.lookup id db.usage_events)) _
        (Keeps-gets (Done event_id n) (λ db. Table.lookup id db.usage_events))
        λ row.
          Keeps-bind (Done event_id n) (or_throw row record_not_found) _
            (Keeps-or_throw (Done event_id n) row record_not_found)
            λ u. Keeps-modify (Done event_id n) _ (λ db. update-Done id status db final)

  pub update_event_status-Keeps :
      (id : Option ℕ) (status : UsageEventStatus)
      → is_handled status ≡ true
      → Keeps (Done event_id n) (update_event_status id status)
  unfolding update_event_status
  update_event_status-Keeps none status final = Keeps-pure (Done event_id n) tt
  update_event_status-Keeps (some id) status final =
      Keeps-catch (Done event_id n) _ _ (update_event-Keeps id status final)
        (Keeps-pure (Done event_id n) tt)

  pub publish-Keeps :
      (send : Broker → Broker)
      → ((b : Broker) → sent_of event_id (send b).validated ≡ sent_of event_id b.validated)
      → Keeps (Done event_id n) (publish send)
  publish-Keeps send same = record {
    at = λ db h. elim (Bool-cases (goes_out db.broker.down)) [
      | inl out ↦ rw out (broker-Done _ db (same _ ∙ h.1) h)
      | inr lost ↦ rw lost (broker-Done _ db h.1 h)
    ];
  }

pub update_event_lem :
    (id : ℕ) (status : UsageEventStatus) (row : UsageEvent) (db : Database)
    → Table.lookup id db.usage_events ≡ some row
    → update_event id status db
      ≡ (ok tt, record db { usage_events = Table.update id (with_status status) db.usage_events })
unfolding update_event
update_event_lem id status row db here = ground arith
