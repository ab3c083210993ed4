-- ===== src/Pipeline/Outbox/Tick.antt =====
-- A tick of outbox-publisher.service.ts while Kafka is up.
use mathlib.Core.List.{append_assoc, append-nil}
use meterplex.Prelude.{
  ℕ, ◌≡◌, ◌∙◌, refl, sym, ap, String, Bool, true, false, some, [], ◌∷◌, ◌++◌, map, ◌==◌, inl, inr,
  Bool-cases, ==_refl, All, zero, suc,
}
use meterplex.Prelude.Table
use meterplex.Prelude.Table.{Table, lookup-update}
use meterplex.Calendar.{Date}
use meterplex.Billing.State.{OutboxStatus, OutboxRow, RawEvent, Database}
use meterplex.Billing.Monad.{ok, pure, ◌>>◌}
use meterplex.Billing.Monad.Keeps.{bind_ok, catch_ok}
use meterplex.Pipeline.Kafka.{send_raw, publish_raw}
use meterplex.Pipeline.Outbox.{
  batch_size, is_ready, take, update_row, after_failure, publish_row, publish_rows, process_batch,
  drain_outbox,
}
use meterplex.Pipeline.Outbox.Progress.{update_row_lem}

-- the message of a row
abbrev pub message : ℕ × OutboxRow → String × RawEvent
message r = (r.1.topic, r.1.payload)

abbrev published : OutboxRow → OutboxRow
published row = record row { status = OutboxStatus.published }

-- There is a row with this key.
abbrev IsThere : Table OutboxRow → ℕ → Type 0
IsThere t id = (row : OutboxRow) × (Table.lookup id t ≡ some row)

IsThere-update :
    (j id : ℕ) (f : OutboxRow → OutboxRow) (t : Table OutboxRow)
    → IsThere t id
    → IsThere (Table.update j f t) id
IsThere-update j id f t (row, here) = elim (Bool-cases (j == id)) [
  | inl same ↦ (f row, lookup-update j id f t ∙ rw (same, here) refl)
  | inr other ↦ (row, lookup-update j id f t ∙ rw other here)
]

AllThere-update :
    (j : ℕ) (f : OutboxRow → OutboxRow) (t rows : Table OutboxRow)
    → All (λ r. IsThere t r.0) rows
    → All (λ r. IsThere (Table.update j f t) r.0) rows
AllThere-update j f t [] h = tt
AllThere-update j f t (r ∷ rows) (here, h) =
    (IsThere-update j r.0 f t here, AllThere-update j f t rows h)

-- the outbox after the rows were published
abbrev pub all_published : Table OutboxRow → Table OutboxRow → Table OutboxRow
all_published [] t = t
all_published ((id, row) ∷ rows) t = all_published rows (Table.update id published t)

module _ (now : Date) where
  publish_row_up :
      (id : ℕ) (row : OutboxRow) (db : Database)
      → db.broker.down ≡ []
      → IsThere db.outbox id
      → publish_row now id row db ≡ (
        ok tt,
        record db {
          broker = send_raw row.topic row.payload (record db.broker { down = [] });
          outbox = Table.update id published db.outbox;
        },
      )
  unfolding publish_row
  publish_row_up id row db up (w, here) =
      let db1 : Database = record db {
        broker = send_raw row.topic row.payload (record db.broker { down = [] });
      } in
      catch_ok (publish_raw row.topic row.payload >> update_row id published) {db = db}
        {db' = record db1 { outbox = Table.update id published db.outbox }}
        (after_failure now id row)
        (bind_ok (publish_raw row.topic row.payload) (λ _. update_row id published) {db = db}
            {db' = db1} (sent db up)
          ∙ update_row_lem now id w published db1 here)
    where
      sent :
          (db : Database)
          → db.broker.down ≡ []
          → publish_raw row.topic row.payload db ≡ (
            ok tt,
            record db { broker = send_raw row.topic row.payload (record db.broker { down = [] }) },
          )
      sent db up = rw up refl

  publish_rows_up :
      (rows : Table OutboxRow) (db : Database)
      → db.broker.down ≡ []
      → All (λ r. IsThere db.outbox r.0) rows
      → publish_rows now rows db ≡ (
        ok tt,
        record db {
          broker = record db.broker { raw = db.broker.raw ++ map message rows; down = [] };
          outbox = all_published rows db.outbox;
        },
      )
  unfolding publish_rows
  publish_rows_up [] db up there =
      ap (λ r. (ok tt, record db { broker = record db.broker { raw = r } }))
        (sym (append-nil db.broker.raw))
      ∙ ap
          (λ d. (
            ok tt,
            record db { broker = record db.broker { raw = db.broker.raw ++ []; down = d } },
          ))
          up
  publish_rows_up ((id, row) ∷ rows) db up (here, there) =
      let db1 : Database = record db {
        broker = send_raw row.topic row.payload (record db.broker { down = [] });
        outbox = Table.update id published db.outbox;
      } in
      bind_ok (publish_row now id row) (λ _. publish_rows now rows) {db = db} {db' = db1}
        (publish_row_up id row db up here)
      ∙ publish_rows_up rows db1 refl (AllThere-update id published db.outbox rows there)
      ∙ ap
          (λ r. (
            ok tt,
            record db1 {
              broker = record db1.broker { raw = r; down = [] };
              outbox = all_published rows db1.outbox;
            },
          ))
          (append_assoc db.broker.raw ((row.topic, row.payload) ∷ []) (map message rows))

  -- the rows of a tick
  abbrev pub batch : Table OutboxRow → Table OutboxRow
  batch t = take batch_size (Table.find_many (is_ready now) t)

IsThere-cons :
    (id j : ℕ) (row : OutboxRow) (t : Table OutboxRow) → IsThere t j → IsThere ((id, row) ∷ t) j
unfolding Table.lookup
IsThere-cons id j row t (w, here) = elim (Bool-cases (id == j)) [
  | inl same ↦ (row, rw same refl)
  | inr other ↦ (w, rw other here)
]

IsThere-All :
    (id : ℕ) (row : OutboxRow) (t rows : Table OutboxRow)
    → All (λ r. IsThere t r.0) rows
    → All (λ r. IsThere ((id, row) ∷ t) r.0) rows
IsThere-All id row t [] h = tt
IsThere-All id row t (r ∷ rows) (here, h) =
    (IsThere-cons id r.0 row t here, IsThere-All id row t rows h)

selected-IsThere :
    (p : ℕ → OutboxRow → Bool) (t : Table OutboxRow)
    → All (λ r. IsThere t r.0) (Table.find_many p t)
unfolding Table.find_many Table.lookup
selected-IsThere p [] = tt
selected-IsThere p ((id, row) ∷ t) = elim (Bool-cases (p id row)) [
  | inl fits ↦ rw fits ((row, rw (==_refl id) refl), IsThere-All id row t _ (selected-IsThere p t))
  | inr not_yet ↦ rw not_yet (IsThere-All id row t _ (selected-IsThere p t))
]

All-take :
    (P : ℕ × OutboxRow → Type 0) (n : ℕ) (rows : Table OutboxRow) → All P rows → All P (take n rows)
unfolding take
All-take P zero rows h = tt
All-take P (suc n) [] h = tt
All-take P (suc n) (r ∷ rows) (p, h) = (p, All-take P n rows h)

-- If Kafka is connected and takes every message, a tick puts the messages of the first hundred rows
-- that are due on their topics, in their order, marks each of these rows as published, and changes
-- nothing else.
pub drain_outbox_up :
    (now : Date) (db : Database)
    → db.broker.down ≡ []
    → drain_outbox false true now db ≡ (
      ok tt,
      record db {
        broker = record db.broker {
          raw = db.broker.raw ++ map message (batch now db.outbox);
          down = [];
        };
        outbox = all_published (batch now db.outbox) db.outbox;
      },
    )
unfolding drain_outbox process_batch
drain_outbox_up now db up = catch_ok (process_batch now) {db = db} (pure tt) (
    publish_rows_up now (batch now db.outbox) db up (
      All-take (λ r. IsThere db.outbox r.0) batch_size _
        (selected-IsThere (is_ready now) db.outbox)))
