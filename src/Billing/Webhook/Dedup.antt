-- ===== src/Billing/Webhook/Dedup.antt =====
-- The deduplication of events in webhook-processing.service.ts.
use text.Mathlib.TextPositions.{eq_refl}
use meterplex.Prelude.{
  ℕ, ◌≡◌, ◌∙◌, refl, ap, String, Bool, true, false, Option, none, some, str_eq, Bool-cases, inl,
  inr, arith,
}
use meterplex.Prelude.Table
use meterplex.Prelude.Table.{Table, find_first-create, find_first-update}
use meterplex.Calendar.{Date}
use meterplex.Billing.State.{
  Invoice, AttemptStatus, EventType, WebhookStatus, WebhookRow, PaymentAttempt, Database,
}
use meterplex.Billing.Monad.{pure, record_not_found, Result, ok, err}
use meterplex.Billing.Monad.Keeps.{
  Keeps, Keeps-pure, Keeps-gets, Keeps-or_throw, Keeps-bind, Keeps-catch, bind_pure,
}
use meterplex.Billing.Lifecycle.{mark_paid}
use meterplex.Billing.Period.{advance_period}
use meterplex.Billing.Payments.{
  settle, is_paid, WebhookEvent, update_attempt, advance_subscription, succeed_attempt,
  handle_success, retry_or_give_up, fail_attempt, handle_failure, find_attempt,
}
use meterplex.Billing.Webhook.{
  find_webhook, set_status, route, finish, create_webhook, handle_event, process_webhook,
}

-- No handler touches the table of the webhook events.
module _ (db : Database) where
  events-mark_paid :
      (id tenant : ℕ) (ref : Option String) (now : Date)
      → (mark_paid id tenant ref now db).1.webhook_events ≡ db.webhook_events
  unfolding mark_paid
  events-mark_paid id tenant ref now = ground arith

  events-update_attempt :
      (id : ℕ) (f : PaymentAttempt → PaymentAttempt)
      → (update_attempt id f db).1.webhook_events ≡ db.webhook_events
  unfolding update_attempt
  events-update_attempt id f = ground arith

  events-advance : (id : ℕ) → (advance_subscription id db).1.webhook_events ≡ db.webhook_events
  unfolding advance_subscription advance_period
  events-advance id = ground arith

  events-retry :
      (more : Bool) (id : ℕ) (now : Date) (sub : ℕ)
      → (retry_or_give_up more id now sub db).1.webhook_events ≡ db.webhook_events
  unfolding retry_or_give_up
  events-retry true id now sub = ground arith
  events-retry false id now sub = ground arith

-- The same for the success handler, call by call.
module _ (rows : Table WebhookRow) where
  abbrev SameEvents : Database → Type 0
  SameEvents db = db.webhook_events ≡ rows

  settle-Keeps :
      (e : WebhookEvent) (now : Date) (id : ℕ) (a : PaymentAttempt) (invoice : Invoice)
      → Keeps SameEvents (settle e now id a invoice)
  unfolding settle
  settle-Keeps e now id a invoice = elim (Bool-cases (is_paid invoice.status)) [
    | inl paid ↦ rw paid (Keeps-pure SameEvents tt)
    | inr unpaid ↦ rw unpaid (
        Keeps-bind SameEvents
          (update_attempt id (λ t. record t { status = AttemptStatus.succeeded })) _
          (record { at = λ db h. events-update_attempt db id _ ∙ h })
          (λ _.
            Keeps-bind SameEvents
              (mark_paid a.invoice_id a.tenant_id (some e.provider_payment_id) now) _
              (record {
                at = λ db h.
                    events-mark_paid db a.invoice_id a.tenant_id (some e.provider_payment_id) now
                    ∙ h;
              })
              (λ _.
                Keeps-catch SameEvents (advance_subscription invoice.subscription_id) (pure tt)
                  (record { at = λ db h. events-advance db invoice.subscription_id ∙ h })
                  (Keeps-pure SameEvents tt))))
  ]

  succeed-Keeps :
      (e : WebhookEvent) (now : Date) (o : Option (ℕ × PaymentAttempt))
      → Keeps SameEvents (succeed_attempt e now o)
  unfolding succeed_attempt
  succeed-Keeps e now none = Keeps-pure SameEvents tt
  succeed-Keeps e now (some (id, a)) =
      Keeps-bind SameEvents _ _
        (Keeps-gets SameEvents (λ db. Table.lookup a.invoice_id db.invoices))
        (λ row.
          Keeps-bind SameEvents _ _ (Keeps-or_throw SameEvents row record_not_found)
            (λ invoice. settle-Keeps e now id a invoice))

module _ (db : Database) where
  events-succeed :
      (e : WebhookEvent) (now : Date) (o : Option (ℕ × PaymentAttempt))
      → (succeed_attempt e now o db).1.webhook_events ≡ db.webhook_events
  events-succeed e now o = (succeed-Keeps db.webhook_events e now o).at db refl

  events-fail :
      (e : WebhookEvent) (now : Date) (o : Option (ℕ × PaymentAttempt))
      → (fail_attempt e now o db).1.webhook_events ≡ db.webhook_events
  unfolding fail_attempt
  events-fail e now none = refl
  events-fail e now (some (id, a)) = ground arith

  events-route :
      (e : WebhookEvent) (now : Date) (t : EventType)
      → (route e now t db).1.webhook_events ≡ db.webhook_events
  unfolding route handle_success handle_failure
  events-route e now EventType.payment_succeeded =
      ap (λ (d : Database). d.webhook_events)
        (bind_pure (handle_success e now) WebhookStatus.processed db)
      ∙ events-succeed e now (find_attempt e.provider_payment_id db)
  events-route e now EventType.payment_failed =
      ap (λ (d : Database). d.webhook_events)
        (bind_pure (handle_failure e now) WebhookStatus.processed db)
      ∙ events-fail e now (find_attempt e.provider_payment_id db)
  events-route e now EventType.payment_requires_action = refl
  events-route e now EventType.refund_succeeded = refl
  events-route e now EventType.unhandled = refl

-- A change of status does not change which events are known.
module _ (event_id : String) where
  abbrev has_event : ℕ → WebhookRow → Bool
  has_event _ w = str_eq w.provider_event_id event_id

  known-set_status :
      (id : ℕ) (status : WebhookStatus) (db : Database)
      → Table.is_found (find_webhook event_id (set_status id status db).1)
        ≡ Table.is_found (find_webhook event_id db)
  unfolding set_status find_webhook
  known-set_status id status db = ground (
    arith,
    find_first-update has_event id (λ w. record w { status = status }) db.webhook_events
        (λ j v. refl),
  )

  known-finish :
      (id : ℕ) (r : Result WebhookStatus) (db : Database)
      → Table.is_found (find_webhook event_id (finish id r db).1)
        ≡ Table.is_found (find_webhook event_id db)
  unfolding finish
  known-finish id (ok status) db = known-set_status id status db
  known-finish id (err e) db = known-set_status id WebhookStatus.failed db

-- Whatever the handler does, the event is known afterwards.
known-handled :
    (e : WebhookEvent) (now : Date) (id : ℕ) (db : Database)
    → Table.is_found (find_webhook e.provider_event_id (handle_event e now id db).1)
      ≡ Table.is_found (find_webhook e.provider_event_id db)
unfolding handle_event find_webhook
known-handled e now id db =
    known-finish e.provider_event_id id (route e now e.type db).0 (route e now e.type db).1
    ∙ ap (λ t. Table.is_found (Table.find_first (has_event e.provider_event_id) t))
        (events-route db e now e.type)

known-created :
    (provider : String) (e : WebhookEvent) (db : Database)
    → Table.is_found (find_webhook e.provider_event_id (create_webhook provider e db).1) ≡ true
unfolding create_webhook find_webhook
known-created provider e db =
    find_first-create (has_event e.provider_event_id) db.next_id _ db.webhook_events
    ∙ ground (arith, eq_refl e.provider_event_id)

-- A known event is left alone.
pub again :
    (e : WebhookEvent) (provider : String) (later : Date) (db : Database)
    → Table.is_found (find_webhook e.provider_event_id db) ≡ true
    → process_webhook (some e) provider later db ≡ (ok tt, db)
unfolding process_webhook
again e provider later db seen = ground (arith, seen)

pub fresh :
    (e : WebhookEvent) (provider : String) (now : Date) (db : Database)
    → Table.is_found (find_webhook e.provider_event_id db) ≡ false
    → process_webhook (some e) provider now db
      ≡ handle_event e now db.next_id (create_webhook provider e db).1
unfolding process_webhook create_webhook
fresh e provider now db new = ground (arith, new)

known-process :
    (e : WebhookEvent) (provider : String) (now : Date) (db : Database)
    → Table.is_found (find_webhook e.provider_event_id (process_webhook (some e) provider now db).1)
      ≡ true
known-process e provider now db =
    elim (Bool-cases (Table.is_found (find_webhook e.provider_event_id db))) [
      | inl seen ↦ rw (again e provider now db seen) seen
      | inr new ↦ rw (fresh e provider now db new) (
          known-handled e now db.next_id (create_webhook provider e db).1
          ∙ known-created provider e db)
    ]

-- However an event was handled, a second delivery of it, at any time and through any provider,
-- succeeds and changes nothing.
pub process_webhook_twice :
    (e : WebhookEvent) (p q : String) (now later : Date) (db : Database)
    → let (_, db') = process_webhook (some e) p now db in
      process_webhook (some e) q later db' ≡ (ok tt, db')
process_webhook_twice e p q now later db =
    again e q later (process_webhook (some e) p now db).1 (known-process e p now db)
