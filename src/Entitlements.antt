-- ===== src/Entitlements.antt =====
-- src/modules/entitlements/entitlements.service.ts: the check of an entitlement's fields against the
-- type of its feature, and what a creation and an update write.
use meterplex.Prelude.{
  ℕ, String, Bool, true, false, not, ◌&&◌, ◌||◌, Option, none, some, if◌then◌else◌,
}
use meterplex.Billing.State.{FeatureType, LimitBehavior, ResetPeriod, Entitlement}
pub mod Fits
pub mod Store
pub mod Rows
pub mod Invariant
pub mod Answers
pub mod Removal
mod Tests

-- A field of a request: not there, null, or a value.
abbrev pub Field : Type 0 → Type 0
Field A = Option (Option A)

-- The fields that `CreateEntitlementDto` and `UpdateEntitlementDto` share. A field may be null, since
-- `@IsOptional` accepts it.
pub record EntitlementFields : Type 0 where
  pub value : Field Bool
  pub limit : Field ℕ
  pub limit_behavior : Field LimitBehavior
  pub overage_price : Field ℕ
  pub included_amount : Field ℕ
  pub reset_period : Field ResetPeriod

pub data FieldError : Type 0 where
  invalid_boolean_fields : FieldError
  quota_requires_limit invalid_quota_fields : FieldError
  metered_requires_price invalid_metered_fields : FieldError

-- `x !== undefined`
abbrev pub is_defined : {A : Type 0} → Field A → Bool
is_defined none = false
is_defined (some x) = true

-- `validateFieldsForType`; `creates` is `'featureId' in dto`
unfoldable pub validate_fields_for_type : FeatureType → Bool → EntitlementFields → Option FieldError
validate_fields_for_type FeatureType.boolean creates dto =
    if is_defined dto.limit || is_defined dto.overage_price || is_defined dto.included_amount
    then some FieldError.invalid_boolean_fields
    else none
validate_fields_for_type FeatureType.quota creates dto =
    if creates && not (is_defined dto.limit)
    then some FieldError.quota_requires_limit
    else if is_defined dto.value || is_defined dto.included_amount
    then some FieldError.invalid_quota_fields
    else none
validate_fields_for_type FeatureType.metered creates dto =
    if creates && not (is_defined dto.overage_price)
    then some FieldError.metered_requires_price
    else if is_defined dto.value || is_defined dto.limit || is_defined dto.limit_behavior
    then some FieldError.invalid_metered_fields
    else none

-- What a field puts in a new row, and in an old one.
abbrev pub stored_as : {A : Type 0} → Field A → Option A
stored_as none = none
stored_as (some x) = x

abbrev pub changed_to : {A : Type 0} → Field A → Option A → Option A
changed_to none old = old
changed_to (some x) old = x

-- the data of `entitlement.create`, with the key and the type of the feature
abbrev pub created : ℕ → String → FeatureType → EntitlementFields → Entitlement
created plan_id lookup_key type dto = record {
  plan_id = plan_id;
  lookup_key = lookup_key;
  type = type;
  value = stored_as dto.value;
  limit = stored_as dto.limit;
  limit_behavior = stored_as dto.limit_behavior;
  overage_price = stored_as dto.overage_price;
  included_amount = stored_as dto.included_amount;
  reset_period = stored_as dto.reset_period;
}

-- the data of `entitlement.update` in the row
abbrev pub changed : EntitlementFields → Entitlement → Entitlement
changed dto e = record e {
  value = changed_to dto.value e.value;
  limit = changed_to dto.limit e.limit;
  limit_behavior = changed_to dto.limit_behavior e.limit_behavior;
  overage_price = changed_to dto.overage_price e.overage_price;
  included_amount = changed_to dto.included_amount e.included_amount;
  reset_period = changed_to dto.reset_period e.reset_period;
}
