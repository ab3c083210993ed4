-- ===== src/Entitlements/Tests.antt =====
-- A plan with one entitlement, and the theorems about entitlements at it.
use meterplex.Prelude.{◌&&◌, ◌&&◌, ◌≡◌, refl, true, none, some, [], ◌∷◌, List, arith}
use meterplex.Prelude.Table
use meterplex.Prelude.Service.{ok, err}
use meterplex.Billing.State.{PlanStatus, FeatureType, LimitBehavior, ResetPeriod}
use meterplex.Entitlements.{EntitlementFields, validate_fields_for_type, created}
use meterplex.Entitlements.Store.{
  Feature, Store, Call, entitlement_not_found, find_owned, new_row, create, find_by_id, remove, run,
  record_not_found,
}
use meterplex.Entitlements.Invariant.{run-IsSound}
use meterplex.Entitlements.Rows.{IsSound}
use meterplex.Entitlements.Answers.{is_allowed, is_sold, is_offered, IsAnswered, create_answers}
use meterplex.Entitlements.Removal.{without, remove_then_allowed}

abbrev five_seats : EntitlementFields
five_seats = record {
  value = none;
  limit = some (some 5);
  limit_behavior = some (some LimitBehavior.hard);
  overage_price = none;
  included_amount = none;
  reset_period = some (some ResetPeriod.monthly);
}

-- a price alone, and a value, which a quota refuses
abbrev with_price : EntitlementFields
with_price = record five_seats { limit = none; overage_price = some (some 10) }

abbrev with_value : EntitlementFields
with_value = record five_seats { value = some (some true) }

abbrev seats : Feature
seats = record { lookup_key = "seats"; type = FeatureType.quota; status = PlanStatus.active }

abbrev store : Store
store = record {
  plans = (1, record { slug = "pro"; status = PlanStatus.active }) ∷ [];
  features =
      (2, seats)
      ∷ (3, record { lookup_key = "old"; type = FeatureType.boolean; status = PlanStatus.archived })
      ∷ [];
  entitlements = (4, new_row 1 2 seats five_seats) ∷ [];
  next_id = 5;
}

store-IsSound : IsSound store
unfolding Table.lookup Table.find_many
store-IsSound = (
  record { unique = (refl, tt); below = λ j w row. ground arith },
  λ (plan_id, feature_id). ground arith,
  λ id g row. ground arith,
)

abbrev calls : List Call
calls =
    Call.changed_rules 1 4 with_price
    ∷ Call.changed_rules 1 4 with_value
    ∷ Call.granted 1 2 five_seats
    ∷ Call.removed 1 4
    ∷ Call.granted 1 2 five_seats
    ∷ []

run-IsSound_example : IsSound (run calls store)
run-IsSound_example =
    run-IsSound calls store ((refl, refl), ((refl, refl), ((refl, refl), (tt, ((refl, refl), tt)))))
      store-IsSound

-- The feature is there once more after the calls, under a new id.
calls_lem : (run calls store).entitlements ≡ (5, new_row 1 2 seats five_seats) ∷ []
unfolding run Table.find_first Table.create
calls_lem = refl

-- A plan that does not exist is not reported as one.
no_plan : create 9 2 five_seats store ≡ (err record_not_found, store)
unfolding create
no_plan = refl

create_answers_example : IsAnswered 1 2 five_seats (without 4 store)
unfolding run Table.delete Table.find_first
create_answers_example =
    create_answers 1 2 five_seats (without 4 store)
      (run-IsSound (Call.removed 1 4 ∷ []) store (tt, tt) store-IsSound)

remove_then_allowed_example :
    (remove 1 4 store ≡ (ok (4, new_row 1 2 seats five_seats), without 4 store))
    × (find_by_id 1 4 (without 4 store) ≡ (err entitlement_not_found, without 4 store))
    × (is_allowed 1 2 five_seats (without 4 store) ≡ (
        is_sold (Table.lookup 1 store.plans)
        && is_offered five_seats (Table.lookup 2 store.features)))
unfolding find_owned Table.find_first
remove_then_allowed_example =
    remove_then_allowed 1 4 4 (new_row 1 2 seats five_seats) five_seats store store-IsSound refl

-- A null passes the check of a quota, and the row has no limit.
without_limit :
    (validate_fields_for_type FeatureType.quota true (record five_seats { limit = some none })
      ≡ none)
    × ((created 1 "seats" FeatureType.quota (record five_seats { limit = some none })).limit ≡ none)
unfolding validate_fields_for_type
without_limit = (refl, refl)
