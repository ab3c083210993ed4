-- ===== src/Pipeline/Kafka.antt =====
-- `publish` of src/infra/messaging/kafka-producer.service.ts on the topics of the pipeline. A call
-- may fail, and then sends nothing.
use meterplex.Prelude.{
  ◌≡◌, refl, String, Bool, true, false, not, if◌then◌else◌, List, [], ◌∷◌, ◌++◌,
}
use meterplex.Text.{Text}
use meterplex.Billing.State.{RawEvent, ValidatedEvent, DeadLetterMessage, Broker, Database}
use meterplex.Billing.Monad.{Exec, ok, err, broker_error}

-- Whether the next call sends something, and what the calls after it do.
abbrev pub goes_out : List Bool → Bool
goes_out [] = true
goes_out (fails ∷ rest) = not fails

abbrev pub later : List Bool → List Bool
later [] = []
later (fails ∷ rest) = rest

abbrev pub publish : (Broker → Broker) → Exec (Unit {0})
publish send db =
    let b : Broker = record db.broker { down = later db.broker.down } in
    (
      if goes_out db.broker.down then ok tt else err broker_error,
      record db { broker = if goes_out db.broker.down then send b else b },
    )

abbrev pub send_raw : String → RawEvent → Broker → Broker
send_raw topic e b = record b { raw = b.raw ++ (topic, e) ∷ [] }

abbrev pub publish_raw : String → RawEvent → Exec (Unit {0})
publish_raw topic e = publish (send_raw topic e)

abbrev pub send_validated : ValidatedEvent → Broker → Broker
send_validated e b = record b { validated = b.validated ++ e ∷ [] }

abbrev pub publish_validated : ValidatedEvent → Exec (Unit {0})
publish_validated e = publish (send_validated e)

abbrev pub send_duplicate : Text → Broker → Broker
send_duplicate event_id b = record b { duplicates = b.duplicates ++ event_id ∷ [] }

abbrev pub publish_duplicate : Text → Exec (Unit {0})
publish_duplicate event_id = publish (send_duplicate event_id)

abbrev pub send_dead_letter : DeadLetterMessage → Broker → Broker
send_dead_letter m b = record b { dead_letter = b.dead_letter ++ m ∷ [] }

abbrev pub publish_dead_letter : DeadLetterMessage → Exec (Unit {0})
publish_dead_letter m = publish (send_dead_letter m)

-- What a call of `publish` does.
module _ (send : Broker → Broker) (db : Database) where
  pub publish_ok :
      goes_out db.broker.down ≡ true
      → publish send db
        ≡ (ok tt, record db { broker = send (record db.broker { down = later db.broker.down }) })
  publish_ok h = rw h refl

  pub publish_err :
      goes_out db.broker.down ≡ false
      → publish send db ≡ (
        err broker_error,
        record db { broker = record db.broker { down = later db.broker.down } },
      )
  publish_err h = rw h refl
