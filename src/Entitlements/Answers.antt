-- ===== src/Entitlements/Answers.antt =====
-- What a creation of an entitlement answers, and the creation after a removal.
use meterplex.Prelude.{
  ℕ, ◌+◌, Bool, true, false, not, ◌&&◌, Option, none, some, ◌≡◌, refl, arith, ◌⊎◌, inl, inr,
  Bool-cases, Option-cases,
}
use meterplex.Prelude.Table
use meterplex.Prelude.Table.{Table, is_found, lookup_next}
use meterplex.Prelude.Table.Many.{find_first-create_new}
use meterplex.Prelude.Service.{ok, err}
use meterplex.Subscriptions.{is_active_plan}
use meterplex.Entitlements.{EntitlementFields, FieldError, validate_fields_for_type}
use meterplex.Entitlements.Store.{
  Plan, Feature, Granted, Store, Error, record_not_found, plan_not_active, feature_not_found,
  feature_not_active, invalid_fields, already_exists, find_pair, find_owned, is_pair, is_owned,
  create_entitlement, new_row, grant, create, find_by_id,
}
use meterplex.Entitlements.Rows.{IsSound, found_row, found-none}

abbrev is_fine : Option FieldError → Bool
is_fine none = true
is_fine (some e) = false

abbrev pub is_sold : Option Plan → Bool
is_sold none = false
is_sold (some plan) = is_active_plan plan.status

abbrev pub is_offered : EntitlementFields → Option Feature → Bool
is_offered dto none = false
is_offered dto (some feature) =
    is_active_plan feature.status && is_fine (validate_fields_for_type feature.type true dto)

-- The plan and the feature are there and active, the fields fit the feature's type, and the plan
-- does not have the feature yet.
abbrev pub is_allowed : ℕ → ℕ → EntitlementFields → Store → Bool
is_allowed plan_id feature_id dto s =
    is_sold (Table.lookup plan_id s.plans)
    && is_offered dto (Table.lookup feature_id s.features)
    && not (is_found (find_pair plan_id feature_id s))

abbrev pub with_row : Granted → Store → Store
with_row g s = record s {
  entitlements = Table.create s.next_id g s.entitlements;
  next_id = s.next_id + 1;
}

module _ (plan_id feature_id : ℕ) (dto : EntitlementFields) (s : Store) where
  -- A refusal changes nothing, and a success stores the row of an allowed request.
  abbrev pub CreationOutcome : Type 0
  CreationOutcome =
      ((is_allowed plan_id feature_id dto s ≡ false)
        × ((e : Error) × (create plan_id feature_id dto s ≡ (err e, s))))
      ⊎ ((is_allowed plan_id feature_id dto s ≡ true)
          × (is_found (find_pair plan_id feature_id s) ≡ false)
          × ((feature : Feature) × (Table.lookup feature_id s.features ≡ some feature)
              × (create plan_id feature_id dto s ≡ (
                ok (s.next_id, new_row plan_id feature_id feature dto),
                with_row (new_row plan_id feature_id feature dto) s,
              ))))

  granted_outcome :
      (plan : Plan) (feature : Feature)
      → Table.lookup plan_id s.plans ≡ some plan
      → is_active_plan plan.status ≡ true
      → Table.lookup feature_id s.features ≡ some feature
      → is_active_plan feature.status ≡ true
      → CreationOutcome
  unfolding create grant create_entitlement
  granted_outcome plan feature there active offered on =
      elim (Option-cases (validate_fields_for_type feature.type true dto)) [
        | inr (e, refused) ↦ inl (
          rw (there, active, offered, on, refused) refl,
          (invalid_fields e, rw (there, active, offered, offered, on, refused) refl),
        )
        | inl fine ↦ elim (Bool-cases (is_found (find_pair plan_id feature_id s))) [
          | inl seen ↦ inl (
            rw (there, active, offered, on, fine, seen) refl,
            (
              already_exists plan.slug feature.lookup_key,
              rw (there, active, offered, offered, on, fine, seen) refl,
            ),
          )
          | inr new ↦ inr (
            rw (there, active, offered, on, fine, new) refl,
            new,
            (feature, offered, rw (there, active, offered, offered, on, fine, new) refl),
          )
        ]
      ]

  offered_outcome :
      (plan : Plan)
      → Table.lookup plan_id s.plans ≡ some plan
      → is_active_plan plan.status ≡ true
      → CreationOutcome
  unfolding create
  offered_outcome plan there active = elim (Option-cases (Table.lookup feature_id s.features)) [
    | inl missing ↦ inl (
      rw (there, active, missing) refl,
      (feature_not_found, rw (there, active, missing, missing) refl),
    )
    | inr (feature, offered) ↦ elim (Bool-cases (is_active_plan feature.status)) [
      | inl on ↦ granted_outcome plan feature there active offered on
      | inr off ↦ inl (
        rw (there, active, offered, off) refl,
        (feature_not_active feature.lookup_key, rw (there, active, offered, offered, off) refl),
      )
    ]
  ]

  pub create_outcome : CreationOutcome
  unfolding create
  create_outcome = elim (Option-cases (Table.lookup plan_id s.plans)) [
    | inl missing ↦ inl (rw missing refl, (record_not_found, rw missing refl))
    | inr (plan, there) ↦ elim (Bool-cases (is_active_plan plan.status)) [
      | inl active ↦ offered_outcome plan there active
      | inr off ↦ inl (rw (there, off) refl, (plan_not_active plan.slug, rw (there, off) refl))
    ]
  ]

-- The new row is found by its plan and id, and by its plan and feature.
module _ (g : Granted) (s : Store) (sound : IsSound s) where
  new_found :
      find_by_id g.rules.plan_id s.next_id (with_row g s) ≡ (ok (s.next_id, g), with_row g s)
  unfolding find_by_id find_owned
  new_found = elim (Option-cases (find_owned g.rules.plan_id s.next_id s)) [
    | inl none_yet ↦
        rw
          (find_first-create_new (is_owned g.rules.plan_id s.next_id) s.next_id g s.entitlements
            none_yet (ground arith))
          refl
    | inr ((k, old), found) ↦ absurd (
        cc (
          found_row g.rules.plan_id s.next_id k old s sound.0 found,
          lookup_next s.next_id s.entitlements sound.0.below,
        ))
  ]

  new_pair :
      is_found (find_pair g.rules.plan_id g.feature_id s) ≡ false
      → find_pair g.rules.plan_id g.feature_id (with_row g s) ≡ some (s.next_id, g)
  unfolding find_pair
  new_pair new =
      find_first-create_new (λ _. is_pair (g.rules.plan_id, g.feature_id)) s.next_id g
        s.entitlements (found-none (find_pair g.rules.plan_id g.feature_id s) new) (ground arith)

-- The answer to a creation is a refusal that changes nothing, of a request that is not allowed, or
-- a row with the requested fields, which is found by its plan and id and by its plan and feature.
abbrev pub IsAnswered : ℕ → ℕ → EntitlementFields → Store → Type 0
IsAnswered plan_id feature_id dto s =
    ((is_allowed plan_id feature_id dto s ≡ false)
      × ((e : Error) × (create plan_id feature_id dto s ≡ (err e, s))))
    ⊎ ((is_allowed plan_id feature_id dto s ≡ true)
        × ((id : ℕ) × (feature : Feature) × (s' : Store) × (Table.lookup feature_id s.features
              ≡ some feature)
            × (create plan_id feature_id dto s
                ≡ (ok (id, new_row plan_id feature_id feature dto), s'))
            × (find_by_id plan_id id s' ≡ (ok (id, new_row plan_id feature_id feature dto), s'))
            × (find_pair plan_id feature_id s'
                ≡ some (id, new_row plan_id feature_id feature dto))))

-- In a sound store, a creation succeeds exactly if the plan and the feature are there and active,
-- the fields pass the check for the feature's type and the plan does not have the feature. A refused
-- creation throws and changes nothing; after a successful one, a look-up by the plan and the
-- returned id, and one by plan and feature, find the row with the requested fields.
pub create_answers :
    (plan_id feature_id : ℕ) (dto : EntitlementFields) (s : Store)
    → IsSound s
    → IsAnswered plan_id feature_id dto s
create_answers plan_id feature_id dto s sound = elim (create_outcome plan_id feature_id dto s) [
  | inl refused ↦ inl refused
  | inr (allowed, new, (feature, offered, done)) ↦
      let g : Granted = new_row plan_id feature_id feature dto in
      inr (
        allowed,
        (
          s.next_id,
          feature,
          with_row g s,
          offered,
          done,
          new_found g s sound,
          new_pair g s sound new,
        ),
      )
]
