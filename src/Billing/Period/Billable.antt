-- ===== src/Billing/Period/Billable.antt =====
-- Which subscriptions billing-period.service.ts selects, in plain terms.
use mathlib.Core.Path.{subst}
use mathlib.Core.List.{Memᴰ}
use mathlib.Core.List.Memᴰ
use meterplex.Prelude.{
  ℕ, ◌≤◌, sym, ◌≡◌, ◌⊎◌, ◌↔◌, refl, Bool, true, false, not, ◌&&◌, [], ◌∷◌, arith, inl, inr,
  Bool-cases, leb,
}
use meterplex.Prelude.Table
use meterplex.Prelude.Table.{Table}
use meterplex.Calendar.{Date, get_time}
use meterplex.Billing.State.{SubscriptionStatus, Invoice, Subscription, Database}
use meterplex.Billing.Period.{
  is_current, is_due, has_invoice, invoices_period, find_billable_subscriptions,
}
use meterplex.Billing.Period.Due.{find_billable_lem}

module _ {V : Type 0} (p : ℕ → V → Bool) where
  -- The rows of a search are those of the table that fit.
  from_search :
      (k : ℕ) (v : V) (t : Table V)
      → Memᴰ (k, v) (Table.find_many p t)
      → Memᴰ (k, v) t × (p k v ≡ true)
  unfolding Table.find_many
  from_search k v [] m = absurd (Memᴰ.not-nil m)
  from_search k v ((j, w) ∷ t) m = elim (Bool-cases (p j w)) [
    | inl fits ↦
        let kept : Table.find_many p ((j, w) ∷ t) ≡ (j, w) ∷ Table.find_many p t = rw fits refl in
        elim (Memᴰ.cases_cons (subst (λ r. Memᴰ (k, v) r) kept m)) [
          | inl e ↦ (Memᴰ.head e, subst (λ (r : ℕ × V). p r.0 r.1 ≡ true) (sym e) fits)
          | inr later ↦ let (there, fit) = from_search k v t later in (Memᴰ.tail there, fit)
        ]
    | inr other ↦
        let left : Table.find_many p ((j, w) ∷ t) ≡ Table.find_many p t = rw other refl in
        let (there, fit) = from_search k v t (subst (λ r. Memᴰ (k, v) r) left m) in
        (Memᴰ.tail there, fit)
  ]

  to_search :
      (k : ℕ) (v : V) (t : Table V)
      → Memᴰ (k, v) t
      → p k v ≡ true
      → Memᴰ (k, v) (Table.find_many p t)
  unfolding Table.find_many
  to_search k v [] m fit = absurd (Memᴰ.not-nil m)
  to_search k v ((j, w) ∷ t) m fit = elim (Memᴰ.cases_cons m) [
    | inl e ↦
        let fits : p j w ≡ true = subst (λ (r : ℕ × V). p r.0 r.1 ≡ true) e fit in
        rw fits (Memᴰ.head e)
    | inr later ↦
        let there : Memᴰ (k, v) (Table.find_many p t) = to_search k v t later fit in
        elim (Bool-cases (p j w)) [
          | inl fits ↦ rw fits (Memᴰ.tail there)
          | inr other ↦ rw other there
        ]
  ]

  -- Nothing is found exactly if no row fits.
  from_none :
      (k : ℕ) (v : V) (t : Table V)
      → Table.is_found (Table.find_first p t) ≡ false
      → Memᴰ (k, v) t
      → p k v ≡ false
  unfolding Table.find_first
  from_none k v [] none_found m = absurd (Memᴰ.not-nil m)
  from_none k v ((j, w) ∷ t) none_found m = elim (Bool-cases (p j w)) [
    | inl fits ↦ absurd (ground (arith, none_found, fits))
    | inr other ↦ elim (Memᴰ.cases_cons m) [
      | inl e ↦ subst (λ (r : ℕ × V). p r.0 r.1 ≡ false) (sym e) other
      | inr later ↦ from_none k v t (ground (arith, none_found, other)) later
    ]
  ]

  to_none :
      (t : Table V)
      → ((k : ℕ) (v : V) → Memᴰ (k, v) t → p k v ≡ false)
      → Table.is_found (Table.find_first p t) ≡ false
  unfolding Table.find_first
  to_none [] h = refl
  to_none ((j, w) ∷ t) h = rw (h j w (Memᴰ.head refl)) (to_none t (λ k v m. h k v (Memᴰ.tail m)))

-- A subscription that is to be billed: active or on trial, past its period's end, and without an
-- invoice, of whatever status, for exactly this period.
pub record IsUnbilled (now : Date) (id : ℕ) (sub : Subscription) (db : Database) : Type 0 where
  pub current :
      (sub.status ≡ SubscriptionStatus.active) ⊎ (sub.status ≡ SubscriptionStatus.trialing)
  pub ended : get_time sub.period_end ≤ get_time now
  pub uninvoiced :
      (k : ℕ) (inv : Invoice)
      → Memᴰ (k, inv) db.invoices
      → inv.subscription_id ≡ id
      → get_time inv.period_start ≡ get_time sub.period_start
      → get_time inv.period_end ≡ get_time sub.period_end
      → ⊥

status_cases :
    (s : SubscriptionStatus)
    → is_current s ≡ true
    → (s ≡ SubscriptionStatus.active) ⊎ (s ≡ SubscriptionStatus.trialing)
status_cases SubscriptionStatus.active h = inl refl
status_cases SubscriptionStatus.trialing h = inr refl
status_cases SubscriptionStatus.past_due h = absurd cc
status_cases SubscriptionStatus.cancelled h = absurd cc
status_cases SubscriptionStatus.paused h = absurd cc

cases_status :
    (s : SubscriptionStatus)
    → (s ≡ SubscriptionStatus.active) ⊎ (s ≡ SubscriptionStatus.trialing)
    → is_current s ≡ true
cases_status s (inl e) = rw e refl
cases_status s (inr e) = rw e refl

both_true : (a b : Bool) → (a && b) ≡ true → (a ≡ true) × (b ≡ true)
both_true true b h = (refl, h)
both_true false b h = absurd cc

module _ (now : Date) (id : ℕ) (sub : Subscription) (db : Database) where
  abbrev test : Bool
  test = is_due now id sub && not (has_invoice id sub db)

  from_test : test ≡ true → IsUnbilled now id sub db
  unfolding is_due has_invoice
  from_test h =
      let (due, without) = both_true (is_due now id sub) (not (has_invoice id sub db)) h in
      let (on, ended) =
        both_true (is_current sub.status) (leb (get_time sub.period_end) (get_time now)) due in
      record {
        current = status_cases sub.status on;
        ended = ground (arith, ended);
        uninvoiced = λ k inv m own start end.
            let other : invoices_period id sub k inv ≡ false =
              from_none (invoices_period id sub) k inv db.invoices (ground (arith, without)) m in
            ground (arith, other, own, start, end);
      }

  to_test : IsUnbilled now id sub db → test ≡ true
  unfolding is_due has_invoice
  to_test b =
      let clear : Table.is_found (Table.find_first (invoices_period id sub) db.invoices) ≡ false =
        to_none (invoices_period id sub) db.invoices (λ k inv m.
          elim (Bool-cases (invoices_period id sub k inv)) [
            | inr other ↦ other
            | inl same ↦ absurd (
                b.uninvoiced k inv m (ground (arith, same)) (ground (arith, same))
                  (ground (arith, same)))
          ]) in
      ground (arith, cases_status sub.status b.current, b.ended, clear)

-- A subscription is selected for billing exactly if it is stored, is active or on trial, its period
-- has ended, at the latest now, and no invoice, whatever its status, is for its current period.
pub find_billable_iff :
    (now : Date) (id : ℕ) (sub : Subscription) (db : Database)
    → Memᴰ (id, sub) (find_billable_subscriptions now db)
      ↔ (Memᴰ (id, sub) db.subscriptions × IsUnbilled now id sub db)
find_billable_iff now id sub db = (
  λ m.
      let (there, fits) =
        from_search (λ k v. test now k v db) id sub db.subscriptions
          (subst (λ r. Memᴰ (id, sub) r) (find_billable_lem now db) m) in
      (there, from_test now id sub db fits),
  λ (there, b).
      subst (λ r. Memᴰ (id, sub) r) (sym (find_billable_lem now db))
        (to_search (λ k v. test now k v db) id sub db.subscriptions there
          (to_test now id sub db b)),
)
