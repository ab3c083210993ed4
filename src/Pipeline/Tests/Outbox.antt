-- ===== src/Pipeline/Tests/Outbox.antt =====
-- Runs of the publisher, and the theorems about it at them.
use meterplex.Prelude.{◌≡◌, ◌++◌, refl, true, false, [], ◌∷◌, map, arith}
use meterplex.Prelude.Table
use meterplex.Billing.State.{Database}
use meterplex.Billing.Monad.{ok}
use meterplex.Pipeline.Outbox.{drain_outbox}
use meterplex.Pipeline.Outbox.Progress.{Settled, attempts, attempts_end}
use meterplex.Pipeline.Outbox.Tick.{message, batch, all_published, drain_outbox_up}
use meterplex.Pipeline.Tests.{today, outbox_row, small_db}

-- Kafka is down for three attempts.
abbrev three_down : Database
three_down = record small_db { broker = record small_db.broker { down = true ∷ true ∷ true ∷ [] } }

attempts_end_example :
    Settled 2 (attempts 2 (today ∷ today ∷ today ∷ today ∷ today ∷ []) three_down)
unfolding Table.lookup
attempts_end_example =
    attempts_end 2 (today ∷ today ∷ today ∷ today ∷ today ∷ []) outbox_row three_down refl
      (omega arith) (omega arith)

drain_outbox_up_example : drain_outbox false true today small_db ≡ (
  ok tt,
  record small_db {
    broker = record small_db.broker {
      raw = [] ++ map message (batch today small_db.outbox);
      down = [];
    };
    outbox = all_published (batch today small_db.outbox) small_db.outbox;
  },
)
drain_outbox_up_example = drain_outbox_up today small_db refl
