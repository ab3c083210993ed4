-- ===== src/Pipeline/DeadLetters/Terminal.antt =====
-- Dead letters under any sequence of arrivals, retries and discards.
use meterplex.Prelude.{
  ℕ, ◌≡◌, ◌∙◌, refl, sym, ap, true, false, none, some, List, [], ◌∷◌, arith, inl, inr, Bool-cases,
  Option-cases, ◌==◌, if◌then◌else◌,
}
use meterplex.Prelude.Table
use meterplex.Prelude.Table.{Table, lookup-update, row_of_update}
use meterplex.Billing.State.{DeadLetter, DeadLetterMessage, DeadLetterStatus, Database}
use meterplex.Billing.Monad.{Exec, err, dead_letter_not_found, or_throw, ◌>>=◌}
use meterplex.Billing.Monad.Keeps.{bind_ok, bind_err}
use meterplex.Pipeline.Kafka.{goes_out}
use meterplex.Pipeline.Outbox.{create_dead_letter}
use meterplex.Pipeline.DeadLetters.{
  is_resolved, is_discarded, find_by_id, retry, retry_letter, discard, discard_letter,
  persist_dead_letter,
}
use meterplex.Pipeline.DeadLetters.Lifecycle.{
  retried, thrown_away, retry_result, find_by_id_lem, update_letter_lem,
}

-- What happens to dead letters, one after the other.
pub data Action : Type 0 where
  arrives : DeadLetterMessage → Action
  is_retried is_discarded_by : ℕ → ℕ → Action

abbrev pub carry : Action → Exec (Unit {0})
carry (Action.arrives m) = persist_dead_letter m
carry (Action.is_retried id admin_id) = retry id admin_id
carry (Action.is_discarded_by id admin_id) = discard id admin_id

unfoldable pub carry_all : List Action → Database → Database
carry_all [] db = db
carry_all (a ∷ rest) db = carry_all rest (carry a db).1

missing :
    (id : ℕ) (f : DeadLetter → Exec (Unit {0})) (db : Database)
    → Table.lookup id db.dead_letters ≡ none
    → (find_by_id id >>= f) db ≡ (err dead_letter_not_found, db)
unfolding find_by_id
missing id f db gone =
    bind_err (find_by_id id) f (ap (λ o. or_throw o dead_letter_not_found db) gone)

module _ (Q : Table DeadLetter → Type 0)
    (on_create : (id : ℕ) (d : DeadLetter) (t : Table DeadLetter)
      → d.status ≡ DeadLetterStatus.failed
      → Q t
      → Q (Table.create id d t))
    (on_retry : (id admin_id : ℕ) (d : DeadLetter) (t : Table DeadLetter)
      → Table.lookup id t ≡ some d
      → is_discarded d.status ≡ false
      → Q t
      → Q (Table.update id (retried admin_id) t))
    (on_discard : (id admin_id : ℕ) (d : DeadLetter) (t : Table DeadLetter)
      → Table.lookup id t ≡ some d
      → Q t
      → Q (Table.update id (thrown_away admin_id) t)) where
  after_retry :
      (id admin_id : ℕ) (db : Database)
      → Q db.dead_letters
      → Q (retry id admin_id db).1.dead_letters
  unfolding retry
  after_retry id admin_id db h = elim (Option-cases (Table.lookup id db.dead_letters)) [
    | inl gone ↦ rw (missing id (retry_letter id admin_id) db gone) h
    | inr (d, here) ↦
        rw (retry_result id admin_id d db here) (elim (Bool-cases (is_resolved d.status)) [
          | inl resolved ↦ rw resolved h
          | inr unresolved ↦ elim (Bool-cases (is_discarded d.status)) [
            | inl gone ↦ rw (unresolved, gone) h
            | inr kept ↦ elim (Bool-cases (goes_out db.broker.down)) [
              | inl out ↦ rw (unresolved, kept, out) (on_retry id admin_id d _ here kept h)
              | inr lost ↦ rw (unresolved, kept, lost) h
            ]
          ]
        ])
  ]

  after_discard :
      (id admin_id : ℕ) (db : Database)
      → Q db.dead_letters
      → Q (discard id admin_id db).1.dead_letters
  unfolding discard discard_letter
  after_discard id admin_id db h = elim (Option-cases (Table.lookup id db.dead_letters)) [
    | inl gone ↦ rw (missing id (discard_letter id admin_id) db gone) h
    | inr (d, here) ↦
        rw
          (bind_ok (find_by_id id) (discard_letter id admin_id)
            (find_by_id_lem id admin_id d db here))
          (elim (Bool-cases (is_resolved d.status)) [
            | inl resolved ↦ rw resolved h
            | inr unresolved ↦
                rw (unresolved, update_letter_lem id (thrown_away admin_id) d db here)
                  (on_discard id admin_id d _ here h)
          ])
  ]

  -- A property of the table that each action keeps.
  all_keep :
      (actions : List Action) (db : Database)
      → Q db.dead_letters
      → Q (carry_all actions db).dead_letters
  unfolding carry_all persist_dead_letter create_dead_letter
  all_keep [] db h = h
  all_keep (Action.arrives m ∷ rest) db h = all_keep rest _ (on_create _ _ _ refl h)
  all_keep (Action.is_retried id admin_id ∷ rest) db h =
      all_keep rest _ (after_retry id admin_id db h)
  all_keep (Action.is_discarded_by id admin_id ∷ rest) db h =
      all_keep rest _ (after_discard id admin_id db h)

-- The letter is there and discarded.
abbrev pub IsDiscarded : ℕ → Table DeadLetter → Type 0
IsDiscarded id t = (d : DeadLetter) × (Table.lookup id t ≡ some d) × (is_discarded d.status ≡ true)

lookup-create_old :
    (j id : ℕ) (d new : DeadLetter) (t : Table DeadLetter)
    → Table.lookup id t ≡ some d
    → Table.lookup id (Table.create j new t) ≡ some d
unfolding Table.lookup Table.create
lookup-create_old j id d new [] h = cc
lookup-create_old j id d new ((i, w) ∷ t) h = ground (arith, lookup-create_old j id d new t)

lookup-create_new :
    (j id : ℕ) (new : DeadLetter) (t : Table DeadLetter)
    → Table.lookup id t ≡ none
    → Table.lookup id (Table.create j new t) ≡ (if j == id then some new else none)
unfolding Table.lookup Table.create
lookup-create_new j id new [] h = refl
lookup-create_new j id new ((i, w) ∷ t) h = ground (arith, lookup-create_new j id new t)

module _ (j id : ℕ) (f : DeadLetter → DeadLetter) (t : Table DeadLetter) where
  other_row :
      (d : DeadLetter)
      → (j == id) ≡ false
      → Table.lookup id t ≡ some d
      → Table.lookup id (Table.update j f t) ≡ some d
  other_row d ne h = lookup-update j id f t ∙ rw ne h

  same_row :
      (d : DeadLetter)
      → (j == id) ≡ true
      → Table.lookup id t ≡ some d
      → Table.lookup id (Table.update j f t) ≡ some (f d)
  same_row d e h = lookup-update j id f t ∙ rw (e, h) refl

retried-IsDiscarded :
    (id j admin_id : ℕ) (d : DeadLetter) (t : Table DeadLetter)
    → Table.lookup j t ≡ some d
    → is_discarded d.status ≡ false
    → IsDiscarded id t
    → IsDiscarded id (Table.update j (retried admin_id) t)
retried-IsDiscarded id j admin_id d t row kept (d', here, gone) = elim (Bool-cases (j == id)) [
  | inl same ↦
      let e : j ≡ id = ground (arith, same) in
      let o : some d ≡ some d' = sym row ∙ ap (λ k. Table.lookup k t) e ∙ here in cc (o, kept, gone)
  | inr other ↦ (d', other_row j id (retried admin_id) t d' other here, gone)
]

thrown_away-IsDiscarded :
    (id j admin_id : ℕ) (d : DeadLetter) (t : Table DeadLetter)
    → Table.lookup j t ≡ some d
    → IsDiscarded id t
    → IsDiscarded id (Table.update j (thrown_away admin_id) t)
thrown_away-IsDiscarded id j admin_id d t row (d', here, gone) = elim (Bool-cases (j == id)) [
  | inl same ↦ (thrown_away admin_id d', same_row j id (thrown_away admin_id) t d' same here, refl)
  | inr other ↦ (d', other_row j id (thrown_away admin_id) t d' other here, gone)
]

-- A discarded letter stays discarded, whatever letters arrive, are retried or are discarded.
pub carry_all-IsDiscarded :
    (id : ℕ) (actions : List Action) (db : Database)
    → IsDiscarded id db.dead_letters
    → IsDiscarded id (carry_all actions db).dead_letters
carry_all-IsDiscarded id =
    all_keep (IsDiscarded id)
      (λ j new t is_new (d, here, gone). (d, lookup-create_old j id d new t here, gone))
      (retried-IsDiscarded id) (thrown_away-IsDiscarded id)

-- No letter is resolved.
abbrev pub NoneResolved : Table DeadLetter → Type 0
NoneResolved t =
    (id : ℕ) (d : DeadLetter) → Table.lookup id t ≡ some d → is_resolved d.status ≡ false

create-NoneResolved :
    (j : ℕ) (new : DeadLetter) (t : Table DeadLetter)
    → new.status ≡ DeadLetterStatus.failed
    → NoneResolved t
    → NoneResolved (Table.create j new t)
create-NoneResolved j new t is_new none_is id d here = elim (Option-cases (Table.lookup id t)) [
  | inl gone ↦
      let o : some d ≡ (if j == id then some new else none) =
        sym here ∙ lookup-create_new j id new t gone in
      elim (Bool-cases (j == id)) [
        | inl same ↦
            let is : some d ≡ some new = o ∙ rw same refl in
            let failed : is_resolved new.status ≡ false = rw is_new refl in cc (is, failed)
        | inr other ↦ let is : some d ≡ none = o ∙ rw other refl in cc is
      ]
  | inr (d', old) ↦
      let o : some d' ≡ some d = sym (lookup-create_old j id d' new t old) ∙ here in
      cc (o, none_is id d' old)
]

update-NoneResolved :
    (j : ℕ) (f : DeadLetter → DeadLetter) (d : DeadLetter) (t : Table DeadLetter)
    → Table.lookup j t ≡ some d
    → is_resolved (f d).status ≡ false
    → NoneResolved t
    → NoneResolved (Table.update j f t)
update-NoneResolved j f d t row to none_is id d' here =
    elim (row_of_update j id f t d d' row here) [
      | inl (same, is) ↦ rw is to
      | inr (other, old) ↦ none_is id d' old
    ]

-- As long as no letter is resolved, none ever becomes so, whatever letters arrive, are retried or are
-- discarded.
pub carry_all-NoneResolved :
    (actions : List Action) (db : Database)
    → NoneResolved db.dead_letters
    → NoneResolved (carry_all actions db).dead_letters
carry_all-NoneResolved =
    all_keep NoneResolved create-NoneResolved
      (λ j admin_id d t row kept. update-NoneResolved j (retried admin_id) d t row refl)
      (λ j admin_id d t row. update-NoneResolved j (thrown_away admin_id) d t row refl)
