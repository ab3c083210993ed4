-- ===== src/Pipeline/Tests/Aggregation.antt =====
-- Runs of the aggregation, and the theorems about it at them.
use meterplex.Prelude.{List, ◌+◌, ◌≡◌, [], ◌∷◌}
use meterplex.Billing.State.{ResetPeriod, ValidatedEvent, FeatureType}
use meterplex.Pipeline.Aggregation.{contribution}
use meterplex.Pipeline.Aggregation.Sums.{total, contributed, aggregate_all, total-aggregate_all}
use meterplex.Pipeline.Tests.{today, three_calls, small_db}

abbrev validated_calls : ValidatedEvent
validated_calls = record {
  id = 1;
  event_id = three_calls.event_id;
  tenant_id = 7;
  validated_subscription_id = 4;
  feature = "calls";
  feature_type = FeatureType.metered;
  reset_period = ResetPeriod.monthly;
  amount = 3;
  timestamp = today;
  raw = three_calls;
}

-- The same message twice.
abbrev twice : List ValidatedEvent
twice = validated_calls ∷ validated_calls ∷ []

total-aggregate_all_example :
    total (contribution validated_calls) (aggregate_all twice small_db).aggregates
    ≡ total (contribution validated_calls) small_db.aggregates
      + contributed (contribution validated_calls) twice
total-aggregate_all_example = total-aggregate_all (contribution validated_calls) twice small_db
