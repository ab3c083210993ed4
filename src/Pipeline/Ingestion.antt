-- ===== src/Pipeline/Ingestion.antt =====
-- src/modules/usage-events/usage-events.service.ts: a batch of events is screened, and what passes is
-- stored with its outbox rows in one transaction. Metadata, which nothing reads, is left out.
use meterplex.Prelude.{
  ℕ, ◌+◌, ◌*◌, String, Bool, true, false, not, ◌&&◌, Option, none, some, List, [], ◌∷◌, ◌++◌, map,
  ◌==◌, ltb, str_eq, get_or, if◌then◌else◌, length, filter,
}
use meterplex.Prelude.Table
use meterplex.Prelude.Table.{Table}
use meterplex.Text.{Text, codes, text_eq}
use meterplex.Calendar.{Date, get_time}
use meterplex.Billing.State.{
  UsageEvent, UsageEventStatus, RawEvent, OutboxRow, OutboxStatus, Snapshot, Database,
}
use meterplex.Billing.Monad.{
  Exec, Error, no_active_subscription, unique_violation, pure, throw, gets, modify, throw_if,
  transaction, catch, catch_with, ◌>>=◌, ◌>>◌,
}
use meterplex.Billing.Generation.{snapshots_of}
use meterplex.Billing.Period.{is_current}
use meterplex.Usage.Redis.{redis_call, cache_read, write}
pub mod Screening
pub mod Counts
pub mod Answers
pub mod Retried

abbrev pub max_event_age_ms : ℕ
max_event_age_ms = 7 * 24 * 60 * 60 * 1000

abbrev pub max_future_drift_ms : ℕ
max_future_drift_ms = 5 * 60 * 1000

-- `UsageEventInputDto`; a timestamp that is no date is `none`
pub record EventInput : Type 0 where
  pub event_id : Text
  pub feature : String
  pub amount : ℕ
  pub timestamp : Option Date

pub data Reason : Type 0 where
  feature_not_entitled invalid_timestamp timestamp_in_future timestamp_too_old : Reason
  internal_error : Reason

pub data Outcome : Type 0 where
  accepted duplicate : Outcome
  rejected : Reason → Outcome

pub record EventResult : Type 0 where
  pub event_id : Text
  pub outcome : Outcome

pub record IngestResponse : Type 0 where
  pub accepted_count : ℕ
  pub rejected_count : ℕ
  pub events : List EventResult

unfoldable pub has : String → List String → Bool
has feature [] = false
has feature (f ∷ rest) = if str_eq f feature then true else has feature rest

unfoldable pub check_time : ℕ → Option Date → Option Reason
unfolding get_time
check_time now none = some Reason.invalid_timestamp
check_time now (some t) =
    if ltb (now + max_future_drift_ms) (get_time t)
    then some Reason.timestamp_in_future
    else if ltb (get_time t + max_event_age_ms) now
    then some Reason.timestamp_too_old
    else none

unfoldable pub pre_validate : List String → ℕ → EventInput → Option Reason
unfolding has check_time
pre_validate entitled now e =
    if not (has e.feature entitled)
    then some Reason.feature_not_entitled
    else check_time now e.timestamp

unfoldable pub dedup_key : Text → Text
dedup_key event_id = codes "usage:event:" ++ event_id

abbrev pub set_if_new : Text → Option ℕ → Exec Bool
set_if_new key none = write key 1 >> pure true
set_if_new key (some n) = pure false

-- `SET key 1 NX`: whether the key is new
unfoldable pub set_nx : Text → Exec Bool
unfolding cache_read
set_nx key = redis_call (do taken ← gets (λ db. cache_read key db.cache); set_if_new key taken)

-- the `try` around it: without Redis every event counts as new
unfoldable pub is_new : EventInput → Exec Bool
unfolding set_nx dedup_key
is_new e = catch (set_nx (dedup_key e.event_id)) (pure true)

-- The result of an event that is not stored, or `none`.
unfoldable pub screened : List String → ℕ → Bool → EventInput → Option EventResult
unfolding pre_validate
screened entitled now false e = some (record { event_id = e.event_id; outcome = Outcome.duplicate })
screened entitled now true e = elim (pre_validate entitled now e) [
  | none ↦ none
  | some reason ↦ some (record { event_id = e.event_id; outcome = Outcome.rejected reason })
]

abbrev pub sorted_in :
    EventInput
    → Option EventResult
    → List EventInput × List EventResult
    → List EventInput × List EventResult
sorted_in e none (ps, rs) = (e ∷ ps, rs)
sorted_in e (some r) (ps, rs) = (ps, r ∷ rs)

-- the first loop: `toPersist` and `rejected`
unfoldable pub screen :
    List String → ℕ → List EventInput → Exec (List EventInput × List EventResult)
unfolding is_new screened
screen entitled now [] = pure ([], [])
screen entitled now (e ∷ rest) = do
  new ← is_new e
  others ← screen entitled now rest
  pure (sorted_in e (screened entitled now new e) others)

abbrev pub raw_event : ℕ → ℕ → ℕ → EventInput → RawEvent
raw_event id tenant_id subscription_id e = record {
  id = some id;
  event_id = e.event_id;
  tenant_id = tenant_id;
  subscription_id = subscription_id;
  feature = some e.feature;
  amount = e.amount;
  timestamp = e.timestamp;
}

unfoldable pub find_event : Text → Database → Option (ℕ × UsageEvent)
unfolding Table.find_first text_eq
find_event event_id db = Table.find_first (λ _ u. text_eq u.event_id event_id) db.usage_events

-- Only events with a valid timestamp get here; `epoch` is never used.
abbrev pub epoch : Date
epoch = record { year = 1970; month = 0; day = 1; ms = 0 }

-- the two `create`s
abbrev pub stored : ℕ → ℕ → EventInput → Database → Database
stored tenant_id subscription_id e db = record db {
  usage_events =
      Table.create db.next_id
        (record {
          event_id = e.event_id;
          tenant_id = tenant_id;
          subscription_id = some subscription_id;
          feature_lookup_key = e.feature;
          amount = e.amount;
          timestamp = get_or e.timestamp epoch;
          status = UsageEventStatus.pending;
        })
        db.usage_events;
  outbox =
      Table.create (db.next_id + 1)
        (record {
          topic = "usage.raw";
          aggregate_id = db.next_id;
          payload = raw_event db.next_id tenant_id subscription_id e;
          status = OutboxStatus.pending;
          retry_count = 0;
          next_retry_at = none;
        })
        db.outbox;
  next_id = db.next_id + 2;
}

-- the `create`s, the first of which checks that the event's id is unique
unfoldable pub store_event : ℕ → ℕ → EventInput → Exec (Unit {0})
unfolding find_event
store_event tenant_id subscription_id e = do
  taken ← gets (find_event e.event_id)
  throw_if (Table.is_found taken) unique_violation
  modify (stored tenant_id subscription_id e)

-- A duplicate does not end the loop; any other error does.
unfoldable pub on_violation : EventInput → Error → Exec EventResult
on_violation e unique_violation =
    pure (record { event_id = e.event_id; outcome = Outcome.duplicate })
on_violation e other = throw other

unfoldable pub persist : ℕ → ℕ → EventInput → Exec EventResult
unfolding store_event on_violation
persist tenant_id subscription_id e =
    catch_with
      (do
        store_event tenant_id subscription_id e
        pure (record { event_id = e.event_id; outcome = Outcome.accepted }))
      (on_violation e)

-- the second loop
unfoldable pub persist_all : ℕ → ℕ → List EventInput → Exec (List EventResult)
unfolding persist
persist_all tenant_id subscription_id [] = pure []
persist_all tenant_id subscription_id (e ∷ rest) = do
  r ← persist tenant_id subscription_id e
  rs ← persist_all tenant_id subscription_id rest
  pure (r ∷ rs)

abbrev pub is_good : Outcome → Bool
is_good Outcome.accepted = true
is_good Outcome.duplicate = true
is_good (Outcome.rejected reason) = false

abbrev pub counts_as_accepted : EventResult → Bool
counts_as_accepted r = is_good r.outcome

abbrev pub counts_as_rejected : EventResult → Bool
counts_as_rejected r = not (is_good r.outcome)

unfoldable pub result_of : List EventResult → EventInput → EventResult
unfolding text_eq
result_of [] e = record { event_id = e.event_id; outcome = Outcome.rejected Reason.internal_error }
result_of (r ∷ rs) e = if text_eq r.event_id e.event_id then r else result_of rs e

abbrev pub response : List EventInput → List EventResult → IngestResponse
response events results = record {
  accepted_count = length (filter counts_as_accepted results);
  rejected_count = length (filter counts_as_rejected results);
  events = map (result_of results) events;
}

module _ (tenant_id : ℕ) (now : Date) (events : List EventInput) where
  -- everything after the look for the subscription
  unfoldable pub ingest_for : ℕ → Exec IngestResponse
  unfolding screen persist_all snapshots_of result_of get_time
  ingest_for subscription_id = do
    entitled ←
        gets (λ db. map (λ (s : Snapshot). s.feature_lookup_key) (snapshots_of subscription_id db))
    sorted ← screen entitled (get_time now) events
    persisted ← transaction (persist_all tenant_id subscription_id sorted.0)
    pure (response events (persisted ++ sorted.1))

  unfoldable pub ingest : Exec IngestResponse
  unfolding ingest_for Table.find_first
  ingest = do
    found ← gets (λ db.
        Table.find_first (λ _ s. s.tenant_id == tenant_id && is_current s.status) db.subscriptions)
    elim found [ none ↦ throw no_active_subscription | some row ↦ ingest_for row.0 ]
