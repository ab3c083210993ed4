-- ===== src/Pipeline/Ingestion/Retried.antt =====
-- A rejected event that a client sends to usage-events.service.ts again.
use meterplex.Prelude.{
  ℕ, ◌≡◌, ◌∙◌, refl, ap, Bool, true, false, Option, none, some, List, [], ◌∷◌, ◌++◌, map,
}
use meterplex.Text.{text_eq_refl}
use meterplex.Calendar.{Date, get_time}
use meterplex.Billing.State.{Snapshot, Database}
use meterplex.Billing.Monad.{ok, pure, transaction, ◌>>=◌}
use meterplex.Billing.Monad.Keeps.{bind_ok, catch_ok}
use meterplex.Billing.Generation.{snapshots_of}
use meterplex.Usage.Redis.{cache_read, read-write}
use meterplex.Pipeline.Ingestion.{
  EventInput, EventResult, Outcome, Reason, dedup_key, set_nx, is_new, pre_validate, screened,
  sorted_in, screen, persist_all, result_of, response, ingest_for,
}
use meterplex.Pipeline.Ingestion.Screening.{SameStore}

module _ (e : EventInput) (db : Database) (up : db.faults ≡ []) where
  -- the database with the key of the event
  abbrev pub noted : Database
  noted = record db { cache = (dedup_key e.event_id, 1) ∷ db.cache }

  set_new :
      cache_read (dedup_key e.event_id) db.cache ≡ none
      → set_nx (dedup_key e.event_id) db ≡ (ok true, noted)
  unfolding set_nx
  set_new free = rw (up, free) refl

  set_old :
      (n : ℕ)
      → cache_read (dedup_key e.event_id) db.cache ≡ some n
      → set_nx (dedup_key e.event_id) db ≡ (ok false, db)
  unfolding set_nx
  set_old n taken = rw (up, taken) refl

  new_key : cache_read (dedup_key e.event_id) db.cache ≡ none → is_new e db ≡ (ok true, noted)
  unfolding is_new
  new_key free =
      catch_ok (set_nx (dedup_key e.event_id)) {db = db} {db' = noted} (pure true) (set_new free)

  old_key :
      (n : ℕ) → cache_read (dedup_key e.event_id) db.cache ≡ some n → is_new e db ≡ (ok false, db)
  unfolding is_new
  old_key n taken =
      catch_ok (set_nx (dedup_key e.event_id)) {db = db} {db' = db} (pure true) (set_old n taken)

module _ (tenant_id : ℕ) (e : EventInput) where
  ingest_one :
      (now : Date) (subscription_id : ℕ) (b : Bool) (r : EventResult) (db db1 : Database)
      → is_new e db ≡ (ok b, db1)
      → screened
          (map (λ (s : Snapshot). s.feature_lookup_key) (snapshots_of subscription_id db))
          (get_time now)
          b
          e
        ≡ some r
      → ingest_for tenant_id now (e ∷ []) subscription_id db
        ≡ (ok (response (e ∷ []) (r ∷ [])), db1)
  unfolding ingest_for screen persist_all
  ingest_one now subscription_id b r db db1 looked out =
      let entitled =
        map (λ (s : Snapshot). s.feature_lookup_key) (snapshots_of subscription_id db) in
      bind_ok (screen entitled (get_time now) (e ∷ []))
        (λ (s : List EventInput × List EventResult).
          transaction (persist_all tenant_id subscription_id s.0) >>= λ persisted.
          pure (response (e ∷ []) (persisted ++ s.1)))
        {db = db} {db' = db1} {a = ([], r ∷ [])}
        (bind_ok (is_new e)
            (λ new. screen entitled (get_time now) [] >>= λ others.
              pure (sorted_in e (screened entitled (get_time now) new e) others))
            {db = db} {db' = db1} {a = b} looked
          ∙ ap (λ o. (ok (sorted_in e o ([], [])), db1)) out)

  abbrev refusal : Reason → EventResult
  refusal reason = record { event_id = e.event_id; outcome = Outcome.rejected reason }

  abbrev repeat : EventResult
  repeat = record { event_id = e.event_id; outcome = Outcome.duplicate }

  answer_one :
      (r : EventResult) → r.event_id ≡ e.event_id → (response (e ∷ []) (r ∷ [])).events ≡ r ∷ []
  unfolding result_of
  answer_one r same = rw (same, text_eq_refl e.event_id) refl

  -- If Redis is up and has no key of the event, an event that is rejected, for whatever reason, and
  -- sent again once the reason has passed, is answered as a duplicate and counted as accepted, but is
  -- not stored.
  pub rejected_then_duplicate :
      (now later : Date) (subscription_id other_id : ℕ) (reason : Reason) (db : Database)
      → db.faults ≡ []
      → cache_read (dedup_key e.event_id) db.cache ≡ none
      → pre_validate
          (map (λ (s : Snapshot). s.feature_lookup_key) (snapshots_of subscription_id db))
          (get_time now)
          e
        ≡ some reason
      → let (first, db1) = ingest_for tenant_id now (e ∷ []) subscription_id db in
        let (second, db2) = ingest_for tenant_id later (e ∷ []) other_id db1 in
        (first
          ≡ ok (record { accepted_count = 0; rejected_count = 1; events = refusal reason ∷ [] }))
        × (second ≡ ok (record { accepted_count = 1; rejected_count = 0; events = repeat ∷ [] }))
        × SameStore db2 db
  unfolding screened
  rejected_then_duplicate now later subscription_id other_id reason db up free bad =
      let step1 : ingest_for tenant_id now (e ∷ []) subscription_id db
          ≡ (ok (response (e ∷ []) (refusal reason ∷ [])), noted e db up) =
        ingest_one now subscription_id true (refusal reason) db (noted e db up)
          (new_key e db up free)
          (ap (λ (o : Option Reason). elim o [ none ↦ none | some x ↦ some (refusal x) ]) bad) in
      let step2 : ingest_for tenant_id later (e ∷ []) other_id (noted e db up)
          ≡ (ok (response (e ∷ []) (repeat ∷ [])), noted e db up) =
        ingest_one later other_id false repeat (noted e db up) (noted e db up)
          (old_key e (noted e db up) up 1 (read-write (dedup_key e.event_id) 1 db.cache)) refl in
      rw (step1, step2)
        (
          ap (λ es. ok (record { accepted_count = 0; rejected_count = 1; events = es }))
              (answer_one (refusal reason) refl),
          ap (λ es. ok (record { accepted_count = 1; rejected_count = 0; events = es }))
              (answer_one repeat refl),
          (refl, refl),
        )
