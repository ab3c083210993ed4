-- ===== src/Entitlements/Invariant.antt =====
-- What the operations on entitlements keep.
use meterplex.Prelude.{
  ℕ, true, false, not, some, List, [], ◌∷◌, ◌≡◌, arith, All, inl, inr, Option-cases,
}
use mathlib.Core.Path.{subst}
use meterplex.Prelude.Table
use meterplex.Prelude.Service.{
  Keeps, Keeps-bind, Keeps-gets, Keeps-or_throw, Keeps-pure, Keeps-throw_if, Keeps-rethrow,
  or_throw, gets, throw_if,
}
use meterplex.Subscriptions.{is_active_plan}
use meterplex.Entitlements.{EntitlementFields, validate_fields_for_type, changed}
use meterplex.Entitlements.Fits.{fits, HasNoNull, created-fits, changed-fits}
use meterplex.Entitlements.Store.{
  Plan, Feature, Granted, Store, Call, record_not_found, plan_not_active, feature_not_found,
  feature_not_active, find_owned, create_entitlement, delete_entitlement, on_unique, on_not_found,
  new_row, grant, create, update_found, update, remove, step, run,
}
use meterplex.Entitlements.Rows.{
  IsSound, found_row, create_entitlement-Keeps, update_entitlement-Keeps, delete_entitlement-Keeps,
}

grant-Keeps :
    (plan_id : ℕ) (plan : Plan) (feature_id : ℕ) (feature : Feature) (dto : EntitlementFields)
    → HasNoNull dto
    → Keeps IsSound (grant plan_id plan feature_id feature dto)
unfolding grant
grant-Keeps plan_id plan feature_id feature dto given =
    elim (Option-cases (validate_fields_for_type feature.type true dto)) [
      | inl passed ↦ rw passed (
          Keeps-rethrow IsSound (on_unique plan.slug feature.lookup_key)
            (create_entitlement (new_row plan_id feature_id feature dto))
            (create_entitlement-Keeps (new_row plan_id feature_id feature dto)
              (created-fits plan_id feature.lookup_key feature.type dto passed given)))
      | inr (e, refused) ↦ rw refused (record { at = λ s h. h })
    ]

create-Keeps :
    (plan_id feature_id : ℕ) (dto : EntitlementFields)
    → HasNoNull dto
    → Keeps IsSound (create plan_id feature_id dto)
unfolding create
create-Keeps plan_id feature_id dto given =
    Keeps-bind IsSound (gets (λ s. Table.lookup plan_id s.plans)) _
      (Keeps-gets IsSound (λ s. Table.lookup plan_id s.plans))
      (λ row.
        Keeps-bind IsSound (or_throw row record_not_found) _
          (Keeps-or_throw IsSound row record_not_found)
          (λ plan.
            Keeps-bind IsSound
              (throw_if (not (is_active_plan plan.status)) (plan_not_active plan.slug)) _
              (Keeps-throw_if IsSound (not (is_active_plan plan.status))
                (plan_not_active plan.slug))
              (λ u.
                Keeps-bind IsSound (gets (λ s. Table.lookup feature_id s.features)) _
                  (Keeps-gets IsSound (λ s. Table.lookup feature_id s.features))
                  (λ other.
                    Keeps-bind IsSound (or_throw other feature_not_found) _
                      (Keeps-or_throw IsSound other feature_not_found)
                      (λ feature.
                        Keeps-bind IsSound
                          (throw_if (not (is_active_plan feature.status))
                            (feature_not_active feature.lookup_key))
                          _
                          (Keeps-throw_if IsSound (not (is_active_plan feature.status))
                            (feature_not_active feature.lookup_key))
                          (λ v. grant-Keeps plan_id plan feature_id feature dto given))))))

update_found-Keeps :
    (id : ℕ) (dto : EntitlementFields) (k : ℕ) (g : Granted) (s : Store)
    → HasNoNull dto
    → Table.lookup id s.entitlements ≡ some g
    → IsSound s
    → IsSound (update_found id dto (k, g) s).1
unfolding update_found
update_found-Keeps id dto k g s given row (keyed, one, fine) =
    elim (Option-cases (validate_fields_for_type g.rules.type false dto)) [
      | inl passed ↦ rw passed (
          update_entitlement-Keeps id dto s
            (λ v found.
              let same : g ≡ v = ground (arith, row, found) in
              subst (λ w. fits w.rules.type (changed dto w.rules) ≡ true) same
                (changed-fits g.rules.type dto g.rules passed given (fine id g row)))
            (keyed, one, fine))
      | inr (e, refused) ↦ rw refused (keyed, one, fine)
    ]

update-Keeps :
    (plan_id id : ℕ) (dto : EntitlementFields)
    → HasNoNull dto
    → Keeps IsSound (update plan_id id dto)
unfolding update
update-Keeps plan_id id dto given = Keeps-rethrow IsSound on_not_found _ (record {
  at = λ s h. elim (Option-cases (find_owned plan_id id s)) [
    | inl missing ↦ rw missing h
    | inr ((k, g), found) ↦
        rw found (update_found-Keeps id dto k g s given (found_row plan_id id k g s h.0 found) h)
  ];
})

remove-Keeps : (plan_id id : ℕ) → Keeps IsSound (remove plan_id id)
unfolding remove
remove-Keeps plan_id id = Keeps-rethrow IsSound on_not_found _ (
    Keeps-bind IsSound (gets (find_owned plan_id id)) _ (Keeps-gets IsSound (find_owned plan_id id))
      (λ row.
        Keeps-bind IsSound (or_throw row record_not_found) _
          (Keeps-or_throw IsSound row record_not_found)
          (λ entitlement.
            Keeps-bind IsSound (delete_entitlement id) _ (delete_entitlement-Keeps id)
              (λ u. Keeps-pure IsSound entitlement))))

-- A call whose limit and price are not null
abbrev pub IsGiven : Call → Type 0
IsGiven (Call.granted plan_id feature_id dto) = HasNoNull dto
IsGiven (Call.changed_rules plan_id id dto) = HasNoNull dto
IsGiven (Call.removed plan_id id) = Unit

step-IsSound : (call : Call) (s : Store) → IsGiven call → IsSound s → IsSound (step call s)
unfolding step
step-IsSound (Call.granted plan_id feature_id dto) s given h =
    (create-Keeps plan_id feature_id dto given).at s h
step-IsSound (Call.changed_rules plan_id id dto) s given h =
    (update-Keeps plan_id id dto given).at s h
step-IsSound (Call.removed plan_id id) s given h = (remove-Keeps plan_id id).at s h

-- Whatever creations, updates and removals are called, refused ones included, and none of them with
-- null for the limit or the price: each id is given out once, a plan has each feature at most once,
-- each row of a quota has a limit and each of a metered feature a price, and no row has a field that
-- the check refuses for its type, if that held before.
pub run-IsSound :
    (calls : List Call) (s : Store) → All IsGiven calls → IsSound s → IsSound (run calls s)
unfolding run
run-IsSound [] s given h = h
run-IsSound (call ∷ calls) s (first, given) h =
    run-IsSound calls (step call s) given (step-IsSound call s first h)
