-- ===== src/Pipeline/Tests/Letters.antt =====
-- Runs on dead letters, and the theorems about them.
use meterplex.Prelude.{some, [], ◌∷◌}
use meterplex.Billing.State.{DeadLetter, DeadLetterStatus, Database}
use meterplex.Pipeline.Tests.{letter, small_db}

abbrev discarded_letter : DeadLetter
discarded_letter = record letter { status = DeadLetterStatus.discarded; resolved_by = some 9 }

abbrev discarded_db : Database
discarded_db = record small_db { dead_letters = (3, discarded_letter) ∷ [] }
