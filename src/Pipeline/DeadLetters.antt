-- ===== src/Pipeline/DeadLetters.antt =====
-- src/modules/usage-pipeline/dead-letter.consumer.ts, and the operations of an administrator on dead
-- letters in src/modules/admin/dead-letter.service.ts.
use meterplex.Prelude.{ℕ, ◌+◌, String, Bool, true, false, Option, none, some}
use meterplex.Prelude.Table
use meterplex.Billing.State.{
  DeadLetter, DeadLetterMessage, DeadLetterStage, DeadLetterStatus, Database,
}
use meterplex.Billing.Monad.{
  Exec, dead_letter_not_found, already_resolved, already_discarded, record_not_found, pure, throw,
  gets, or_throw, modify, throw_if, ◌>>=◌, ◌>>◌,
}
use meterplex.Pipeline.Kafka.{publish_raw}
use meterplex.Pipeline.Outbox.{create_dead_letter}
pub mod Lifecycle
pub mod Terminal

-- `DeadLetterConsumer.handleMessage`; the four stages that are sent are those of the map
unfoldable pub persist_dead_letter : DeadLetterMessage → Exec (Unit {0})
unfolding create_dead_letter
persist_dead_letter m = create_dead_letter (record {
  source_event_id = m.source_event_id;
  tenant_id = m.tenant_id;
  topic = "usage.raw";
  failure_stage = m.failure_stage;
  original_payload = m.original_payload;
  retry_count = 0;
  status = DeadLetterStatus.failed;
  resolved_by = none;
})

abbrev pub is_resolved : DeadLetterStatus → Bool
is_resolved DeadLetterStatus.resolved = true
is_resolved DeadLetterStatus.failed = false
is_resolved DeadLetterStatus.retrying = false
is_resolved DeadLetterStatus.discarded = false

abbrev pub is_discarded : DeadLetterStatus → Bool
is_discarded DeadLetterStatus.discarded = true
is_discarded DeadLetterStatus.failed = false
is_discarded DeadLetterStatus.retrying = false
is_discarded DeadLetterStatus.resolved = false

unfoldable pub find_by_id : ℕ → Exec DeadLetter
unfolding Table.lookup
find_by_id id = do
  row ← gets (λ db. Table.lookup id db.dead_letters)
  or_throw row dead_letter_not_found

-- `deadLetterEvent.update`
unfoldable pub update_letter : ℕ → (DeadLetter → DeadLetter) → Exec (Unit {0})
unfolding Table.lookup Table.update
update_letter id f = do
  row ← gets (λ db. Table.lookup id db.dead_letters)
  or_throw row record_not_found
  modify (λ db. record db { dead_letters = Table.update id f db.dead_letters })

-- `retry` and `discard` on the letter that is found
unfoldable pub retry_letter : ℕ → ℕ → DeadLetter → Exec (Unit {0})
unfolding update_letter
retry_letter id admin_id event = do
  throw_if (is_resolved event.status) already_resolved
  throw_if (is_discarded event.status) already_discarded
  publish_raw event.topic event.original_payload
  update_letter id (λ d. record d {
    status = DeadLetterStatus.retrying;
    retry_count = d.retry_count + 1;
    resolved_by = some admin_id;
  })

unfoldable pub discard_letter : ℕ → ℕ → DeadLetter → Exec (Unit {0})
unfolding update_letter
discard_letter id admin_id event = do
  throw_if (is_resolved event.status) already_resolved
  update_letter id
      (λ d. record d { status = DeadLetterStatus.discarded; resolved_by = some admin_id })

unfoldable pub retry : ℕ → ℕ → Exec (Unit {0})
unfolding find_by_id retry_letter
retry id admin_id = do event ← find_by_id id; retry_letter id admin_id event

unfoldable pub discard : ℕ → ℕ → Exec (Unit {0})
unfolding find_by_id discard_letter
discard id admin_id = do event ← find_by_id id; discard_letter id admin_id event
