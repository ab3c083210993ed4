-- ===== src/Pipeline/Outbox.antt =====
-- src/infra/outbox/outbox-publisher.service.ts: pending rows go to Kafka, with a bounded number of
-- attempts each. One tick reads one `now`, the rows of a batch included.
use meterplex.Prelude.{
  ℕ, ◌+◌, ◌*◌, ◌^◌, ◌-◌, zero, suc, String, Bool, true, false, not, ◌&&◌, Option, none, some, List,
  [], ◌∷◌, leb, if◌then◌else◌,
}
use meterplex.Prelude.Table
use meterplex.Prelude.Table.{Table}
use meterplex.Text.{Text, codes, show}
use meterplex.Calendar.{Date, get_time}
use meterplex.Billing.State.{
  OutboxStatus, OutboxRow, DeadLetter, DeadLetterStage, DeadLetterStatus, RawEvent, Database,
}
use meterplex.Billing.Monad.{
  Exec, Error, Result, ok, err, record_not_found, pure, gets, or_throw, modify, transaction, catch,
  ◌>>=◌, ◌>>◌,
}
use meterplex.Pipeline.Kafka.{publish_raw}
pub mod Progress
pub mod Tick

abbrev pub batch_size : ℕ
batch_size = 100

abbrev pub max_retries : ℕ
max_retries = 5

abbrev pub is_pending : OutboxStatus → Bool
is_pending OutboxStatus.pending = true
is_pending OutboxStatus.published = false
is_pending OutboxStatus.failed = false

abbrev pub no_later_than : ℕ → Option ℕ → Bool
no_later_than now none = true
no_later_than now (some at) = leb at now

-- `WHERE status = 'PENDING' AND (next_retry_at IS NULL OR next_retry_at <= NOW())`
unfoldable pub is_ready : Date → ℕ → OutboxRow → Bool
unfolding get_time
is_ready now _ row = is_pending row.status && no_later_than (get_time now) row.next_retry_at

-- `LIMIT`
unfoldable pub take {ℓ} : {A : Type ℓ} → ℕ → List A → List A
take zero xs = []
take (suc n) [] = []
take (suc n) (x ∷ xs) = x ∷ take n xs

-- `outboxEvent.update`
unfoldable pub update_row : ℕ → (OutboxRow → OutboxRow) → Exec (Unit {0})
unfolding Table.lookup Table.update
update_row id f = do
  row ← gets (λ db. Table.lookup id db.outbox)
  or_throw row record_not_found
  modify (λ db. record db { outbox = Table.update id f db.outbox })

-- `deadLetterEvent.create`
unfoldable pub create_dead_letter : DeadLetter → Exec (Unit {0})
create_dead_letter letter = modify (λ db. record db {
  dead_letters = Table.create db.next_id letter db.dead_letters;
  next_id = db.next_id + 1;
})

abbrev pub last_letter : OutboxRow → DeadLetter
last_letter row = record {
  source_event_id = show row.aggregate_id;
  tenant_id = row.payload.tenant_id;
  topic = row.topic;
  failure_stage = DeadLetterStage.publishing;
  original_payload = row.payload;
  retry_count = row.retry_count + 1;
  status = DeadLetterStatus.failed;
  resolved_by = none;
}

-- the transaction of a last attempt
unfoldable pub give_up : ℕ → OutboxRow → Exec (Unit {0})
unfolding update_row create_dead_letter
give_up id row = transaction (do
  update_row id (λ r. record r { status = OutboxStatus.failed; retry_count = row.retry_count + 1 })
  create_dead_letter (last_letter row))

-- the `catch` of `publishRow`: a later attempt, or none any more
unfoldable pub after_failure : Date → ℕ → OutboxRow → Exec (Unit {0})
unfolding update_row give_up get_time
after_failure now id row =
    if leb max_retries (row.retry_count + 1)
    then give_up id row
    else update_row id (λ r. record r {
      retry_count = row.retry_count + 1;
      next_retry_at = some (get_time now + 2 ^ (row.retry_count + 1) * 1000);
    })

unfoldable pub publish_row : Date → ℕ → OutboxRow → Exec (Unit {0})
unfolding after_failure update_row
publish_row now id row =
    catch
      (do
        publish_raw row.topic row.payload
        update_row id (λ r. record r { status = OutboxStatus.published }))
      (after_failure now id row)

-- the loop of `processBatch`; an error ends it
unfoldable pub publish_rows : Date → Table OutboxRow → Exec (Unit {0})
unfolding publish_row
publish_rows now [] = pure tt
publish_rows now ((id, row) ∷ rest) = do publish_row now id row; publish_rows now rest

unfoldable pub process_batch : Date → Exec (Unit {0})
unfolding publish_rows is_ready take Table.find_many
process_batch now = do
  rows ← gets (λ db. take batch_size (Table.find_many (is_ready now) db.outbox))
  publish_rows now rows

-- A tick, with the guards and the `try`; a tick that has ended has reset `isProcessing`.
unfoldable pub drain_outbox : Bool → Bool → Date → Exec (Unit {0})
unfolding process_batch
drain_outbox is_processing is_connected now =
    if is_processing
    then pure tt
    else if not is_connected
    then pure tt
    else catch (process_batch now) (pure tt)
