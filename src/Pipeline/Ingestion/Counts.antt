-- ===== src/Pipeline/Ingestion/Counts.antt =====
-- The answers of usage-events.service.ts, and what is stored.
use mathlib.Core.List.{append_assoc, append-nil}
use meterplex.Prelude.{
  ℕ, ◌+◌, ◌≡◌, ◌∙◌, sym, ◌++◌, ◌||◌, none, some, get_or, refl, ap, Bool, true, false, List, [], ◌∷◌,
  arith, length, if◌then◌else◌, inl, inr, Bool-cases,
}
use meterplex.Prelude.Table
use meterplex.Prelude.Table.{Table, is_found, find_first-create}
use meterplex.Text.{Text, text_eq}
use meterplex.Billing.State.{UsageEvent, UsageEventStatus, OutboxRow, OutboxStatus, Database}
use meterplex.Billing.Monad.{Exec, ok, err, unique_violation, pure, throw_if, modify, ◌>>=◌, ◌>>◌}
use meterplex.Billing.Monad.Keeps.{bind_ok, catch_with_step}
use meterplex.Pipeline.Ingestion.{
  EventInput, EventResult, Outcome, epoch, find_event, stored, store_event, on_violation, persist,
  persist_all,
}

module _ (tenant_id subscription_id : ℕ) (e : EventInput) (db : Database) where
  -- the writes, and the answer
  abbrev body : Exec EventResult
  body =
      store_event tenant_id subscription_id e
      >> pure (record { event_id = e.event_id; outcome = Outcome.accepted })

  stored_if : Bool → Exec EventResult
  stored_if taken =
      throw_if taken unique_violation
      >> modify (stored tenant_id subscription_id e)
      >> pure (record { event_id = e.event_id; outcome = Outcome.accepted })

  body_new :
      is_found (find_event e.event_id db) ≡ false
      → body db ≡ (
        ok (record { event_id = e.event_id; outcome = Outcome.accepted }),
        stored tenant_id subscription_id e db,
      )
  unfolding store_event stored_if
  body_new new = ap (λ c. stored_if c db) new

  body_old : is_found (find_event e.event_id db) ≡ true → body db ≡ (err unique_violation, db)
  unfolding store_event stored_if
  body_old old = ap (λ c. stored_if c db) old

  pub persist_new :
      is_found (find_event e.event_id db) ≡ false
      → persist tenant_id subscription_id e db ≡ (
        ok (record { event_id = e.event_id; outcome = Outcome.accepted }),
        stored tenant_id subscription_id e db,
      )
  unfolding persist
  persist_new new = catch_with_step body (on_violation e) (body_new new)

  pub persist_old :
      is_found (find_event e.event_id db) ≡ true
      → persist tenant_id subscription_id e db
        ≡ (ok (record { event_id = e.event_id; outcome = Outcome.duplicate }), db)
  unfolding persist on_violation
  persist_old old = rw (catch_with_step body (on_violation e) (body_old old)) refl

-- The events whose ids are not `known`, each id once, and what is answered for all of them.
abbrev pub also : Text → (Text → Bool) → Text → Bool
also event_id known id = known id || text_eq event_id id

unfoldable pub fresh : (Text → Bool) → List EventInput → List EventInput
unfolding text_eq
fresh known [] = []
fresh known (e ∷ es) =
    let rest = fresh known es in
    let others = fresh (also e.event_id known) es in if known e.event_id then rest else e ∷ others

unfoldable pub answers_of : (Text → Bool) → List EventInput → List EventResult
unfolding text_eq
answers_of known [] = []
answers_of known (e ∷ es) =
    let rest = answers_of known es in
    let others = answers_of (also e.event_id known) es in
    if known e.event_id
    then record { event_id = e.event_id; outcome = Outcome.duplicate } ∷ rest
    else record { event_id = e.event_id; outcome = Outcome.accepted } ∷ others

module _ (tenant_id subscription_id : ℕ) where
  -- The rows of the events from the id `n` on: each event has two ids, its own and its outbox row's.
  unfoldable pub event_rows : ℕ → List EventInput → Table UsageEvent
  event_rows n [] = []
  event_rows n (e ∷ es) =
      (
        n,
        record {
          event_id = e.event_id;
          tenant_id = tenant_id;
          subscription_id = some subscription_id;
          feature_lookup_key = e.feature;
          amount = e.amount;
          timestamp = get_or e.timestamp epoch;
          status = UsageEventStatus.pending;
        },
      )
      ∷ event_rows (n + 2) es

  unfoldable pub outbox_rows : ℕ → List EventInput → Table OutboxRow
  outbox_rows n [] = []
  outbox_rows n (e ∷ es) =
      (
        n + 1,
        record {
          topic = "usage.raw";
          aggregate_id = n;
          payload = record {
            id = some n;
            event_id = e.event_id;
            tenant_id = tenant_id;
            subscription_id = subscription_id;
            feature = some e.feature;
            amount = e.amount;
            timestamp = e.timestamp;
          };
          status = OutboxStatus.pending;
          retry_count = 0;
          next_retry_at = none;
        },
      )
      ∷ outbox_rows (n + 2) es

  create-append : {V : Type 0} (k : ℕ) (v : V) (t : Table V) → Table.create k v t ≡ t ++ (k, v) ∷ []
  unfolding Table.create
  create-append k v [] = refl
  create-append k v (row ∷ t) = ap (λ r. row ∷ r) (create-append k v t)

  -- The second loop answers for each event, and stores exactly the fresh ones with their outbox rows.
  abbrev pub Persisted : (Text → Bool) → List EventInput → Database → Type 0
  Persisted known es db =
      (db' : Database) × (persist_all tenant_id subscription_id es db
        ≡ (ok (answers_of known es), db'))
      × (db'.usage_events ≡ db.usage_events ++ event_rows db.next_id (fresh known es))
      × (db'.outbox ≡ db.outbox ++ outbox_rows db.next_id (fresh known es))

  pub persist_all_answers :
      (known : Text → Bool) (es : List EventInput) (db : Database)
      → ((id : Text) → is_found (find_event id db) ≡ known id)
      → Persisted known es db
  unfolding persist_all fresh answers_of event_rows outbox_rows find_event
  persist_all_answers known [] db h =
      (db, refl, sym (append-nil db.usage_events), sym (append-nil db.outbox))
  persist_all_answers known (e ∷ es) db h = elim (Bool-cases (known e.event_id)) [
    | inl old ↦
        let (db2, others, events, outbox) = persist_all_answers known es db h in
        let r : EventResult = record { event_id = e.event_id; outcome = Outcome.duplicate } in
        (
          db2,
          bind_ok (persist tenant_id subscription_id e)
                (λ x. persist_all tenant_id subscription_id es >>= λ xs. pure (x ∷ xs)) {db = db}
                {db' = db} {a = r} (persist_old tenant_id subscription_id e db (h e.event_id ∙ old))
              ∙ bind_ok (persist_all tenant_id subscription_id es) (λ xs. pure (r ∷ xs)) {db = db}
                  {db' = db2} {a = answers_of known es} others
              ∙ rw old refl,
          rw old events,
          rw old outbox,
        )
    | inr new ↦
        let db1 : Database = stored tenant_id subscription_id e db in
        let known' : Text → Bool = also e.event_id known in
        let (db2, others, events, outbox) = persist_all_answers known' es db1 (λ id.
          find_first-create (λ _ u. text_eq u.event_id id) db.next_id _ db.usage_events
          ∙ ap (λ b. b || text_eq e.event_id id) (h id)) in
        let r : EventResult = record { event_id = e.event_id; outcome = Outcome.accepted } in
        (
          db2,
          bind_ok (persist tenant_id subscription_id e)
                (λ x. persist_all tenant_id subscription_id es >>= λ xs. pure (x ∷ xs)) {db = db}
                {db' = db1} {a = r}
                (persist_new tenant_id subscription_id e db (h e.event_id ∙ new))
              ∙ bind_ok (persist_all tenant_id subscription_id es) (λ xs. pure (r ∷ xs)) {db = db1}
                  {db' = db2} {a = answers_of known' es} others
              ∙ rw new refl,
          events
              ∙ ap (λ t. t ++ event_rows (db.next_id + 2) (fresh known' es))
                  (create-append db.next_id _ db.usage_events)
              ∙ append_assoc db.usage_events (_ ∷ []) _
              ∙ rw new refl,
          outbox
              ∙ ap (λ t. t ++ outbox_rows (db.next_id + 2) (fresh known' es))
                  (create-append (db.next_id + 1) _ db.outbox)
              ∙ append_assoc db.outbox (_ ∷ []) _
              ∙ rw new refl,
        )
  ]

pub length-answers_of :
    (known : Text → Bool) (es : List EventInput) → length (answers_of known es) ≡ length es
unfolding answers_of
length-answers_of known [] = refl
length-answers_of known (e ∷ es) =
    ground (arith, length-answers_of known es, length-answers_of (also e.event_id known) es)

pub length-if :
    {A : Type 0} (b : Bool) (x : A) (xs : List A)
    → length (if b then x ∷ xs else xs) ≡ (if b then 1 else 0) + length xs
length-if true x xs = omega arith
length-if false x xs = omega arith
