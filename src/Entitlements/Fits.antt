-- ===== src/Entitlements/Fits.antt =====
-- The fields of an entitlement and the type of its feature.
use meterplex.Prelude.{
  ℕ, ◌≡◌, String, Bool, true, false, not, ◌&&◌, ◌||◌, Option, none, some, arith,
}
use meterplex.Billing.State.{FeatureType, Entitlement}
use meterplex.Entitlements.{Field, EntitlementFields, validate_fields_for_type, created, changed}

abbrev pub is_given : {A : Type 0} → Option A → Bool
is_given none = false
is_given (some x) = true

-- Whether a quota has a limit and a metered feature a price, and no row has a field that the check
-- refuses for its type.
abbrev pub fits : FeatureType → Entitlement → Bool
fits FeatureType.boolean e =
    not (is_given e.limit || is_given e.overage_price || is_given e.included_amount)
fits FeatureType.quota e = is_given e.limit && not (is_given e.value || is_given e.included_amount)
fits FeatureType.metered e =
    is_given e.overage_price
    && not (is_given e.value || is_given e.limit || is_given e.limit_behavior)

abbrev pub is_null : {A : Type 0} → Field A → Bool
is_null none = false
is_null (some none) = true
is_null (some (some x)) = false

-- The limit and the price of a request are not null.
abbrev pub HasNoNull : EntitlementFields → Type 0
HasNoNull dto = (is_null dto.limit ≡ false) × (is_null dto.overage_price ≡ false)

pub created-fits :
    (plan_id : ℕ) (key : String) (type : FeatureType) (dto : EntitlementFields)
    → validate_fields_for_type type true dto ≡ none
    → HasNoNull dto
    → fits type (created plan_id key type dto) ≡ true
unfolding validate_fields_for_type
created-fits plan_id key FeatureType.boolean dto h (l, p) = ground arith
created-fits plan_id key FeatureType.quota dto h (l, p) = ground arith
created-fits plan_id key FeatureType.metered dto h (l, p) = ground arith

pub changed-fits :
    (type : FeatureType) (dto : EntitlementFields) (e : Entitlement)
    → validate_fields_for_type type false dto ≡ none
    → HasNoNull dto
    → fits type e ≡ true
    → fits type (changed dto e) ≡ true
unfolding validate_fields_for_type
changed-fits FeatureType.boolean dto e h (l, p) f = ground arith
changed-fits FeatureType.quota dto e h (l, p) f = ground arith
changed-fits FeatureType.metered dto e h (l, p) f = ground arith
