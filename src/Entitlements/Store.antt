-- ===== src/Entitlements/Store.antt =====
-- src/modules/entitlements/entitlements.service.ts: the operations over the tables of plans, features
-- and entitlements.
use meterplex.Prelude.{
  ℕ, ◌+◌, String, Bool, true, false, not, ◌&&◌, Option, none, some, List, [], ◌∷◌, ◌==◌,
}
use meterplex.Prelude.Table
use meterplex.Prelude.Table.{Table, is_found}
use meterplex.Prelude.Service.{
  Service, gets, throw, throw_if, modify, pure, or_throw, rethrow, ◌>>=◌, ◌>>◌,
}
use meterplex.Billing.State.{PlanStatus, FeatureType, Entitlement}
use meterplex.Subscriptions.{is_active_plan}
use meterplex.Entitlements.{
  EntitlementFields, FieldError, validate_fields_for_type, created, changed,
}

pub record Plan : Type 0 where
  pub slug : String
  pub status : PlanStatus

pub record Feature : Type 0 where
  pub lookup_key : String
  pub type : FeatureType
  pub status : PlanStatus

-- A row of `entitlements`. Its `rules` hold the plan, and the key and the type of the feature, which
-- no update of a feature changes.
pub record Granted : Type 0 where
  pub feature_id : ℕ
  pub rules : Entitlement

-- `next_id` is the next uuid.
pub record Store : Type 0 where
  pub plans : Table Plan
  pub features : Table Feature
  pub entitlements : Table Granted
  pub next_id : ℕ

-- `record_not_found` and `unique_violation` are Prisma's P2025 and P2002.
pub data Error : Type 0 where
  record_not_found unique_violation : Error
  plan_not_active : String → Error
  feature_not_found : Error
  feature_not_active : String → Error
  invalid_fields : FieldError → Error
  already_exists : String → String → Error
  entitlement_not_found : Error

abbrev pub Exec : Type 0 → Type 0
Exec A = Service Store Error A

-- The unique index of plan and feature
abbrev pub is_pair : ℕ × ℕ → Granted → Bool
is_pair (plan_id, feature_id) g = g.rules.plan_id == plan_id && g.feature_id == feature_id

unfoldable pub find_pair : ℕ → ℕ → Store → Option (ℕ × Granted)
find_pair plan_id feature_id s =
    Table.find_first (λ _. is_pair (plan_id, feature_id)) s.entitlements

-- `findFirst({ where: { id, planId } })`
abbrev pub is_owned : ℕ → ℕ → ℕ → Granted → Bool
is_owned plan_id id k g = k == id && g.rules.plan_id == plan_id

unfoldable pub find_owned : ℕ → ℕ → Store → Option (ℕ × Granted)
find_owned plan_id id s = Table.find_first (is_owned plan_id id) s.entitlements

-- `entitlement.create`; its plan and feature are rows that `create` has found.
unfoldable pub create_entitlement : Granted → Exec (ℕ × Granted)
unfolding find_pair
create_entitlement g = do
  seen ← gets (find_pair g.rules.plan_id g.feature_id)
  throw_if (is_found seen) unique_violation
  id ← gets (λ s. s.next_id)
  modify (λ s. record s { entitlements = Table.create id g s.entitlements; next_id = id + 1 })
  pure (id, g)

unfoldable pub update_entitlement : ℕ → (Granted → Granted) → Exec Granted
unfolding Table.lookup Table.update
update_entitlement id f = do
  row ← gets (λ s. Table.lookup id s.entitlements)
  g ← or_throw row record_not_found
  modify (λ s. record s { entitlements = Table.update id f s.entitlements })
  pure (f g)

unfoldable pub delete_entitlement : ℕ → Exec (Unit {0})
unfolding Table.lookup Table.delete
delete_entitlement id = do
  row ← gets (λ s. Table.lookup id s.entitlements)
  or_throw row record_not_found
  modify (λ s. record s { entitlements = Table.delete id s.entitlements })

-- `validateFieldsForType` throws what it finds.
abbrev pub refuse : Option FieldError → Exec (Unit {0})
refuse none = pure tt
refuse (some e) = throw (invalid_fields e)

-- The errors of the `catch` blocks
abbrev pub on_unique : String → String → Error → Error
on_unique slug key unique_violation = already_exists slug key
on_unique slug key other = other

abbrev pub on_not_found : Error → Error
on_not_found record_not_found = entitlement_not_found
on_not_found other = other

abbrev pub new_row : ℕ → ℕ → Feature → EntitlementFields → Granted
new_row plan_id feature_id feature dto = record {
  feature_id = feature_id;
  rules = created plan_id feature.lookup_key feature.type dto;
}

-- `create` once it has found an active plan and an active feature
unfoldable pub grant : ℕ → Plan → ℕ → Feature → EntitlementFields → Exec (ℕ × Granted)
unfolding create_entitlement validate_fields_for_type
grant plan_id plan feature_id feature dto = do
  refuse (validate_fields_for_type feature.type true dto)
  rethrow (on_unique plan.slug feature.lookup_key)
      (create_entitlement (new_row plan_id feature_id feature dto))

unfoldable pub create : ℕ → ℕ → EntitlementFields → Exec (ℕ × Granted)
unfolding grant Table.lookup
create plan_id feature_id dto = do
  plan_row ← gets (λ s. Table.lookup plan_id s.plans)
  plan ← or_throw plan_row record_not_found
  throw_if (not (is_active_plan plan.status)) (plan_not_active plan.slug)
  feature_row ← gets (λ s. Table.lookup feature_id s.features)
  feature ← or_throw feature_row feature_not_found
  throw_if (not (is_active_plan feature.status)) (feature_not_active feature.lookup_key)
  grant plan_id plan feature_id feature dto

unfoldable pub find_by_id : ℕ → ℕ → Exec (ℕ × Granted)
unfolding find_owned
find_by_id plan_id id = do row ← gets (find_owned plan_id id); or_throw row entitlement_not_found

abbrev pub change : EntitlementFields → Granted → Granted
change dto g = record g { rules = changed dto g.rules }

-- `update` of the row that it has found
unfoldable pub update_found : ℕ → EntitlementFields → ℕ × Granted → Exec Granted
unfolding update_entitlement validate_fields_for_type
update_found id dto (k, g) = do
  refuse (validate_fields_for_type g.rules.type false dto)
  update_entitlement id (change dto)

unfoldable pub update : ℕ → ℕ → EntitlementFields → Exec Granted
unfolding find_owned update_found
update plan_id id dto = rethrow on_not_found (do
  row ← gets (find_owned plan_id id)
  existing ← or_throw row record_not_found
  update_found id dto existing)

unfoldable pub remove : ℕ → ℕ → Exec (ℕ × Granted)
unfolding find_owned delete_entitlement
remove plan_id id = rethrow on_not_found (do
  row ← gets (find_owned plan_id id)
  entitlement ← or_throw row record_not_found
  delete_entitlement id
  pure entitlement)

-- The calls that write, and what they leave, one after the other.
pub data Call : Type 0 where
  granted : ℕ → ℕ → EntitlementFields → Call
  changed_rules : ℕ → ℕ → EntitlementFields → Call
  removed : ℕ → ℕ → Call

unfoldable pub step : Call → Store → Store
unfolding create update remove
step (granted plan_id feature_id dto) s = (create plan_id feature_id dto s).1
step (changed_rules plan_id id dto) s = (update plan_id id dto s).1
step (removed plan_id id) s = (remove plan_id id s).1

unfoldable pub run : List Call → Store → Store
unfolding step
run [] s = s
run (call ∷ calls) s = run calls (step call s)
