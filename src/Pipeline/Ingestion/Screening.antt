-- ===== src/Pipeline/Ingestion/Screening.antt =====
-- The screening of the events in usage-events.service.ts.
use meterplex.Prelude.{
  ℕ, ◌+◌, ◌≡◌, ◌∙◌, refl, String, Bool, true, Option, none, some, List, [], ◌∷◌, arith, length,
}
use meterplex.Text.{Text}
use meterplex.Billing.State.{Database}
use meterplex.Billing.Monad.{Result, ok, err, pure, recover, ◌>>=◌}
use meterplex.Billing.Monad.Keeps.{Keeps, bind_ok}
use meterplex.Usage.Redis.{redis-Keeps, cache_read}
use meterplex.Pipeline.Ingestion.{
  EventInput, EventResult, dedup_key, set_if_new, set_nx, is_new, screened, sorted_in, screen,
}

-- What is stored is the same.
abbrev pub SameStore : Database → Database → Type 0
SameStore db' db = (db'.usage_events ≡ db.usage_events) × (db'.outbox ≡ db.outbox)

module _ (old : Database) where
  abbrev Store : Database → Type 0
  Store db = SameStore db old

  set_nx-Keeps : (key : Text) → Keeps Store (set_nx key)
  unfolding set_nx
  set_nx-Keeps key =
      redis-Keeps Store _ (λ rest db h. h)
        (record { at = λ db h. on_key (cache_read key db.cache) db h })
    where
      on_key : (taken : Option ℕ) (db : Database) → Store db → Store (set_if_new key taken db).1
      on_key none db h = h
      on_key (some n) db h = h

answers : (r : Result Bool) (db : Database) → (b : Bool) × (recover r (pure true) db ≡ (ok b, db))
answers (ok b) db = (b, refl)
answers (err e) db = (true, refl)

-- The look for the key in Redis always answers and stores nothing.
is_new_answers :
    (e : EventInput) (db : Database)
    → (b : Bool) × (db' : Database) × (is_new e db ≡ (ok b, db')) × SameStore db' db
unfolding is_new
is_new_answers e db =
    let (b, answered) =
      answers (set_nx (dedup_key e.event_id) db).0 (set_nx (dedup_key e.event_id) db).1 in
    (
      b,
      (set_nx (dedup_key e.event_id) db).1,
      answered,
      (set_nx-Keeps db (dedup_key e.event_id)).at db (refl, refl),
    )

-- The screening sorts every event into one of its two lists and stores nothing.
abbrev pub Screened : List String → ℕ → List EventInput → Database → Type 0
Screened entitled now events db =
    (ps : List EventInput) × (rs : List EventResult) × (db' : Database) × (screen entitled now
        events db
      ≡ (ok (ps, rs), db'))
    × (length ps + length rs ≡ length events)
    × SameStore db' db

sorted_lengths :
    (e : EventInput) (o : Option EventResult) (ps : List EventInput) (rs : List EventResult) (n : ℕ)
    → length ps + length rs ≡ n
    → length (sorted_in e o (ps, rs)).0 + length (sorted_in e o (ps, rs)).1 ≡ n + 1
sorted_lengths e none ps rs n h = omega (arith, h)
sorted_lengths e (some r) ps rs n h = omega (arith, h)

pub screen_answers :
    (entitled : List String) (now : ℕ) (events : List EventInput) (db : Database)
    → Screened entitled now events db
unfolding screen
screen_answers entitled now [] db = ([], [], db, refl, refl, (refl, refl))
screen_answers entitled now (e ∷ rest) db =
    let (new, db1, looked, same1) = is_new_answers e db in
    let (ps, rs, db2, others, count, same2) = screen_answers entitled now rest db1 in
    let sorted = sorted_in e (screened entitled now new e) (ps, rs) in
    (
      sorted.0,
      sorted.1,
      db2,
      bind_ok (is_new e)
            (λ b.
              screen entitled now rest >>= λ o. pure (sorted_in e (screened entitled now b e) o))
            {db = db} {db' = db1} {a = new} looked
          ∙ bind_ok (screen entitled now rest)
              (λ o. pure (sorted_in e (screened entitled now new e) o)) {db = db1} {db' = db2}
              {a = (ps, rs)} others,
      sorted_lengths e (screened entitled now new e) ps rs (length rest) count ∙ omega arith,
      (same2.0 ∙ same1.0, same2.1 ∙ same1.1),
    )
