-- ===== src/Billing/State/Offers.antt =====
-- Tenants, and what can be bought: rows of prisma/schema.prisma. Names and texts for display are
-- left out.
use meterplex.Prelude.{ℕ, Bool, Option, List, String}
use meterplex.Prelude.Table.{Table}
use meterplex.Billing.State.Enums.{
  TenantStatus, PlanStatus, Interval, FeatureType, LimitBehavior, ResetPeriod,
}

pub record Price : Type 0 where
  pub interval : Interval
  pub amount : ℕ
  pub currency : String

pub record PlanPrice : Type 0 where
  pub plan_id : ℕ
  pub is_active : Bool
  pub price : Price

-- An entitlement with the lookup key and the type of its feature.
pub record Entitlement : Type 0 where
  pub plan_id : ℕ
  pub lookup_key : String
  pub type : FeatureType
  pub value : Option Bool
  pub limit : Option ℕ
  pub limit_behavior : Option LimitBehavior
  pub overage_price : Option ℕ
  pub included_amount : Option ℕ
  pub reset_period : Option ResetPeriod

pub record Catalog : Type 0 where
  pub tenants : Table TenantStatus
  pub plans : Table PlanStatus
  pub prices : Table PlanPrice
  pub entitlements : List Entitlement
