-- ===== src/Billing/Cron/Soundness.antt =====
-- A tick of billing-cron.service.ts: its effect on the books, and its counts.
use meterplex.Prelude.{
  ℕ, ◌+◌, ◌≡◌, Bool, true, false, Option, none, some, List, [], ◌∷◌, arith, length, inl, inr,
  Option-cases,
}
use meterplex.Prelude.Table
use meterplex.Prelude.Table.{Table, lookup-create, lookup_next}
use meterplex.Calendar.{Date}
use meterplex.Billing.State.{Invoice, Interval, Subscription, Database}
use meterplex.Billing.Monad.{Result, ok, err, pure}
use meterplex.Billing.Monad.Keeps.{Keeps, Keeps-bind}
use meterplex.Billing.Lifecycle.{finalize}
use meterplex.Billing.Lifecycle.Ledger.{IsBalanced}
use meterplex.Billing.Lifecycle.Invariant.{finalize-IsBalanced}
use meterplex.Billing.Generation.{generate, generate_prorated}
use meterplex.Billing.Generation.Drafts.{generate-IsBalanced, generate_prorated-IsBalanced}
use meterplex.Billing.Period.{
  advance_period, find_billable_subscriptions, find_cancelled_subscriptions,
}
use meterplex.Billing.Cron.{
  Tally, count, bill_invoice, bill_subscription, bill_prorated_invoice, bill_cancelled, bill_all,
  bill_all_cancelled, run_cycle,
}

-- Moving a subscription on does not touch the books.
pub advance_period-IsBalanced :
    (id : ℕ) (end : Date) (interval : Interval) (db : Database)
    → IsBalanced db
    → IsBalanced (advance_period id end interval db).1
unfolding advance_period
advance_period-IsBalanced id end interval db b =
    elim (Option-cases (Table.lookup id db.subscriptions)) [
      | inl missing ↦ rw missing b
      | inr (sub, row) ↦ rw row b
    ]

-- The rules of the books, one for each call of a tick.
finalize-Keeps : (id tenant : ℕ) (now : Date) → Keeps IsBalanced (finalize id tenant now)
finalize-Keeps id tenant now = record { at = finalize-IsBalanced id tenant now }

advance-Keeps :
    (id : ℕ) (end : Date) (interval : Interval) → Keeps IsBalanced (advance_period id end interval)
advance-Keeps id end interval = record { at = advance_period-IsBalanced id end interval }

pure-Keeps : (r : Bool) → Keeps IsBalanced (pure r)
pure-Keeps r = record { at = λ db b. b }

bill_invoice-Keeps :
    (now : Date) (id : ℕ) (sub : Subscription) (o : Option (ℕ × Invoice))
    → Keeps IsBalanced (bill_invoice now id sub o)
unfolding bill_invoice
bill_invoice-Keeps now id sub none = pure-Keeps false
bill_invoice-Keeps now id sub (some (k, inv)) =
    Keeps-bind IsBalanced _ _ (finalize-Keeps k sub.tenant_id now) (λ _.
      Keeps-bind IsBalanced _ _ (advance-Keeps id sub.period_end sub.price.interval)
        (λ _. pure-Keeps true))

bill_subscription-Keeps :
    (now : Date) (id : ℕ) (sub : Subscription) → Keeps IsBalanced (bill_subscription now id sub)
unfolding bill_subscription
bill_subscription-Keeps now id sub =
    Keeps-bind IsBalanced (generate id sub) _ (record { at = generate-IsBalanced id sub })
      (λ o. bill_invoice-Keeps now id sub o)

bill_prorated_invoice-Keeps :
    (now : Date) (sub : Subscription) (o : Option (ℕ × Invoice))
    → Keeps IsBalanced (bill_prorated_invoice now sub o)
unfolding bill_prorated_invoice
bill_prorated_invoice-Keeps now sub none = pure-Keeps false
bill_prorated_invoice-Keeps now sub (some (k, inv)) =
    Keeps-bind IsBalanced _ _ (finalize-Keeps k sub.tenant_id now) (λ _. pure-Keeps true)

bill_cancelled-Keeps :
    (now : Date) (id : ℕ) (sub : Subscription) (at : Date)
    → Keeps IsBalanced (bill_cancelled now id sub at)
unfolding bill_cancelled
bill_cancelled-Keeps now id sub at =
    Keeps-bind IsBalanced (generate_prorated id sub at) _
      (record { at = λ db b. generate_prorated-IsBalanced id sub db b at })
      (λ o. bill_prorated_invoice-Keeps now sub o)

bill_all-IsBalanced :
    (now : Date) (subs : Table Subscription) (t : Tally) (db : Database)
    → IsBalanced db
    → IsBalanced (bill_all now subs t db).1
unfolding bill_all
bill_all-IsBalanced now [] t db b = b
bill_all-IsBalanced now ((id, sub) ∷ rest) t db b =
    let (r, db') = bill_subscription now id sub db in
    bill_all-IsBalanced now rest (count r t) db' ((bill_subscription-Keeps now id sub).at db b)

bill_all_cancelled-IsBalanced :
    (now : Date) (subs : List (ℕ × Subscription × Date)) (t : Tally) (db : Database)
    → IsBalanced db
    → IsBalanced (bill_all_cancelled now subs t db).1
unfolding bill_all_cancelled
bill_all_cancelled-IsBalanced now [] t db b = b
bill_all_cancelled-IsBalanced now ((id, sub, at) ∷ rest) t db b =
    let (r, db') = bill_cancelled now id sub at db in
    bill_all_cancelled-IsBalanced now rest (count r t) db'
      ((bill_cancelled-Keeps now id sub at).at db b)

-- A tick keeps balanced books balanced, whatever subscriptions it bills and whatever fails in it.
pub run_cycle-IsBalanced :
    (now : Date) (db : Database) → IsBalanced db → IsBalanced (run_cycle now db).1
run_cycle-IsBalanced now db b =
    unfold run_cycle in
    let t : Tally = record { generated = 0; failed = 0 } in
    let due = find_billable_subscriptions now db in
    let (t', db') = bill_all now due t db in
    bill_all_cancelled-IsBalanced now (find_cancelled_subscriptions db') t' db'
      (bill_all-IsBalanced now due t db b)

abbrev pub processed : Tally → ℕ
processed t = t.generated + t.failed

count-processed : (r : Result Bool) (t : Tally) → processed (count r t) ≡ processed t + 1
count-processed (ok true) t = omega arith
count-processed (ok false) t = omega arith
count-processed (err e) t = omega arith

bill_all-processed :
    (now : Date) (subs : Table Subscription) (t : Tally) (db : Database)
    → processed (bill_all now subs t db).0 ≡ processed t + length subs
unfolding bill_all
bill_all-processed now [] t db = omega arith
bill_all-processed now ((id, sub) ∷ rest) t db =
    let (r, db') = bill_subscription now id sub db in
    omega (arith, bill_all-processed now rest (count r t) db', count-processed r t)

bill_all_cancelled-processed :
    (now : Date) (subs : List (ℕ × Subscription × Date)) (t : Tally) (db : Database)
    → processed (bill_all_cancelled now subs t db).0 ≡ processed t + length subs
unfolding bill_all_cancelled
bill_all_cancelled-processed now [] t db = omega arith
bill_all_cancelled-processed now ((id, sub, at) ∷ rest) t db =
    let (r, db') = bill_cancelled now id sub at db in
    omega (arith, bill_all_cancelled-processed now rest (count r t) db', count-processed r t)

-- Every subscription that a tick selects counts once, as billed or as failed: those that are due,
-- and then those that are cancelled in the database as the first loop left it.
pub run_cycle-processed :
    (now : Date) (db : Database)
    → let due = find_billable_subscriptions now db in
      let db' = (bill_all now due (record { generated = 0; failed = 0 }) db).1 in
      processed (run_cycle now db).0 ≡ length due + length (find_cancelled_subscriptions db')
run_cycle-processed now db =
    unfold run_cycle in
    let t : Tally = record { generated = 0; failed = 0 } in
    let due = find_billable_subscriptions now db in
    let (t', db') = bill_all now due t db in
    omega (
      arith,
      bill_all-processed now due t db,
      bill_all_cancelled-processed now (find_cancelled_subscriptions db') t' db',
    )
