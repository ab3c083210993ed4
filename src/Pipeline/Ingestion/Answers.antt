-- ===== src/Pipeline/Ingestion/Answers.antt =====
-- A whole call of usage-events.service.ts for a tenant's subscription.
use meterplex.Prelude.{ℕ, ◌+◌, ◌≡◌, String, Bool, List, ◌++◌, map, length, filter}
use meterplex.Prelude.Table
use meterplex.Prelude.Table.{is_found}
use meterplex.Text.{Text}
use meterplex.Calendar.{Date, get_time}
use meterplex.Billing.State.{Snapshot, Database}
use meterplex.Billing.Monad.{Exec, ok, transaction}
use meterplex.Billing.Generation.{snapshots_of}
use meterplex.Pipeline.Ingestion.{
  EventInput, EventResult, find_event, screen, persist_all, counts_as_accepted, counts_as_rejected,
  response, ingest_for,
}
use meterplex.Pipeline.Ingestion.Counts.{fresh, answers_of, event_rows, outbox_rows}

module _ (tenant_id : ℕ) (now : Date) (events : List EventInput) (subscription_id : ℕ)
    (db : Database) where
  abbrev entitled : List String
  entitled = map (λ (s : Snapshot). s.feature_lookup_key) (snapshots_of subscription_id db)

  abbrev store : List EventInput → Exec (List EventResult)
  store ps = transaction (persist_all tenant_id subscription_id ps)

  -- the ids of the stored events
  abbrev pub known : Text → Bool
  known id = is_found (find_event id db)

  -- The events `ps` pass the screening, which answers the others with `rs` and leaves the database
  -- `db1`. Those whose ids are not stored yet, each id once, get a row of their own and one of the
  -- outbox; nothing else is stored. The others of `ps` are answered as duplicates, and every event
  -- is counted as accepted or as rejected, and has an answer.
  abbrev pub Answered : Type 0
  Answered =
      (ps : List EventInput) × (rs : List EventResult) × (db1 : Database) × (db' : Database)
      × (screen entitled (get_time now) events db ≡ (ok (ps, rs), db1))
      × (ingest_for tenant_id now events subscription_id db
          ≡ (ok (response events (answers_of known ps ++ rs)), db'))
      × (db'.usage_events
          ≡ db.usage_events ++ event_rows tenant_id subscription_id db1.next_id (fresh known ps))
      × (db'.outbox
          ≡ db.outbox ++ outbox_rows tenant_id subscription_id db1.next_id (fresh known ps))
      × (length (filter counts_as_accepted (answers_of known ps ++ rs))
            + length (filter counts_as_rejected (answers_of known ps ++ rs))
          ≡ length events)
      × (length (response events (answers_of known ps ++ rs)).events ≡ length events)
