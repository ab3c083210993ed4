-- ===== src/Pipeline/Tests/Ingestion.antt =====
-- Calls of the ingestion, and the theorems about it at them.
use meterplex.Prelude.{some}
use meterplex.Text.{codes}
use meterplex.Pipeline.Ingestion.{EventInput}
use meterplex.Pipeline.Tests.{today, three_calls}

abbrev new_calls : EventInput
new_calls = record {
  event_id = codes "aa0e0d0c-1111-2222-3333-0123456789ab";
  feature = "calls";
  amount = 5;
  timestamp = some today;
}

abbrev known_calls : EventInput
known_calls = record {
  event_id = three_calls.event_id;
  feature = "calls";
  amount = 3;
  timestamp = some today;
}

-- an event of a feature that the tenant does not have
abbrev seats : EventInput
seats = record {
  event_id = codes "bb0e0d0c-1111-2222-3333-0123456789ab";
  feature = "seats";
  amount = 1;
  timestamp = some today;
}
