-- ===== src/Pipeline/Validation/Consumed.antt =====
-- Messages for usage that entitlement-check.service.ts counted, in usage-validation.consumer.ts.
use meterplex.Prelude.{
  ℕ, ◌+◌, ◌≡◌, ◌∙◌, refl, ap, String, none, some, ◌++◌, ==_refl, inl, inr, Bool-cases,
}
use meterplex.Prelude.Table
use meterplex.Prelude.Table.{lookup-create}
use meterplex.Text.{Text, codes, show}
use meterplex.Calendar.{Date}
use meterplex.Billing.State.{
  Snapshot, RawEvent, UsageEventStatus, OutboxStatus, OutboxRow, Database,
}
use meterplex.Billing.Monad.{ok, pure}
use meterplex.Billing.Monad.Keeps.{bind_ok, catch_ok, catch_err}
use meterplex.Usage.Check.{consume_payload, record_usage}
use meterplex.Pipeline.Kafka.{
  goes_out, publish_dead_letter, send_dead_letter, publish_ok, publish_err,
}
use meterplex.Pipeline.Validation.{
  update_event_status, rejection, send_to_dead_letter, reject, carry_out, verdict, check_fields,
  validate,
}

-- A message without an event's id changes nothing but the queue of dead letters.
unnamed_message :
    (now : Date) (e : RawEvent) (db : Database)
    → e.id ≡ none
    → let db' = (validate now e db).1 in
      (db'.broker.validated ≡ db.broker.validated) × (db'.usage_events ≡ db.usage_events)
unfolding validate verdict check_fields carry_out reject update_event_status
unnamed_message now e db unnamed =
    rw (ap (λ o. carry_out e (check_fields now e db o e.feature) db) unnamed)
      (elim (Bool-cases (goes_out db.broker.down)) [
        | inl out ↦
            rw
              (in_full _ (
                catch_ok (publish_dead_letter (rejection e)) (pure tt)
                  (publish_ok (send_dead_letter (rejection e)) db out)))
              (refl, refl)
        | inr lost ↦
            rw
              (in_full _ (
                catch_err (publish_dead_letter (rejection e)) (pure tt)
                  (publish_err (send_dead_letter (rejection e)) db lost)))
              (refl, refl)
      ])
  where
    in_full :
        (db1 : Database) → send_to_dead_letter e db ≡ (ok tt, db1) → reject e db ≡ (ok tt, db1)
    in_full db1 sent =
        bind_ok (send_to_dead_letter e) (λ u. update_event_status e.id UsageEventStatus.rejected)
          sent
        ∙ ap (λ o. update_event_status o UsageEventStatus.rejected db1) unnamed

module _ (tenant_id : ℕ) (feature : String) (now : Date) (s : Snapshot) (amount : ℕ)
    (db : Database) where
  -- the event's id of the call, and the row that carries its message
  abbrev pub consume_id : ℕ → Text
  consume_id id =
      codes "consume-"
      ++ (show tenant_id ++ (codes "-" ++ (codes feature ++ (codes "-" ++ show id))))

  abbrev pub pending_row : ℕ → RawEvent → OutboxRow
  pending_row id m = record {
    topic = "usage.raw";
    aggregate_id = id;
    payload = m;
    status = OutboxStatus.pending;
    retry_count = 0;
    next_retry_at = none;
  }

  -- The amount that a consume call counts is put on the outbox in a pending row, but whenever the
  -- validation gets the row's message, nothing is sent on and no event changes: the call's event
  -- stays PENDING, and the amount is never added to an aggregate.
  pub consumed_never_sent :
      (db' : Database) (now' : Date)
      → Table.lookup (db.next_id + 1) db.outbox ≡ none
      → let m = consume_payload tenant_id feature now s amount (consume_id db.next_id) in
        (Table.lookup (db.next_id + 1) (record_usage tenant_id feature now s amount db).1.outbox
          ≡ some (pending_row db.next_id m))
        × ((validate now' m db').1.broker.validated ≡ db'.broker.validated)
        × ((validate now' m db').1.usage_events ≡ db'.usage_events)
  unfolding record_usage
  consumed_never_sent db' now' free =
      let m = consume_payload tenant_id feature now s amount (consume_id db.next_id) in
      let sent = unnamed_message now' m db' refl in
      (
        lookup-create (db.next_id + 1) (db.next_id + 1) (pending_row db.next_id m) db.outbox free
            ∙ rw (==_refl (db.next_id + 1)) refl,
        sent.0,
        sent.1,
      )
