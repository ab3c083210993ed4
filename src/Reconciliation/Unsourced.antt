-- ===== src/Reconciliation/Unsourced.antt =====
-- What a run makes of usage whose events carry no source.
use meterplex.Prelude.{
  ℕ, ◌+◌, Bool, String, Option, none, List, [], ◌∷◌, filter, length, ◌≡◌, refl, ap, ◌∙◌,
  if◌then◌else◌, arith, ltb, Bool-cases, inl, inr,
}
use meterplex.Prelude.Table.{Table}
use meterplex.Text.{Text}
use meterplex.Billing.State.{UsageEvent, Aggregate}
use meterplex.Prelude.Service.{Result, ok, pure, bind_ok, ◌>>=◌}
use meterplex.Reconciliation.State.{
  Reports, Tally, Exec, Error, add, nothing, add_issue, create_issue, report, report_if, for_each,
}
use meterplex.Reconciliation.Usage.{
  expected_of, is_expected, has_events, find_phantom, compare_tenant, usage_issue,
}

-- Events without a source are not counted, whatever their amounts.
pub expected_of_unsourced :
    (source : ℕ → Option String) (tenant : ℕ) (rows : Table UsageEvent)
    → ((id : ℕ) → source id ≡ none)
    → expected_of source tenant rows ≡ []
unfolding expected_of
expected_of_unsourced source tenant [] h = refl
expected_of_unsourced source tenant ((id, e) ∷ rows) h =
    elim (Bool-cases (is_expected source tenant id e)) [
      | inl counted ↦ absurd (ground (arith, h id, counted))
      | inr other ↦ rw (other, expected_of_unsourced source tenant rows h) refl
    ]

abbrev pub is_used : Aggregate → Bool
is_used a = ltb 0 a.amount

-- What the search for phantoms answers, with no expected usage
abbrev Found : ℕ → Result Error Tally × Reports → Type 0
Found n o = (r' : Reports) × (o ≡ (ok (record { checked = 0; found = n }), r'))

module _ (run tenant : ℕ) (period : Text) where
  one-Found :
      (a : Aggregate) (r : Reports)
      → Found (if is_used a then 1 else 0) (find_phantom run tenant period [] a r)
  unfolding find_phantom report_if report has_events create_issue
  one-Found a r = elim (Bool-cases (is_used a)) [
    | inl used ↦
        rw used (add_issue (usage_issue run tenant period a.feature_lookup_key 0 a.amount) r, refl)
    | inr unused ↦ rw unused (r, refl)
  ]

  all-Found :
      (aggregates : List Aggregate) (r : Reports)
      → Found
          (length (filter is_used aggregates))
          (for_each (find_phantom run tenant period []) aggregates r)
  unfolding for_each
  all-Found [] r = (r, refl)
  all-Found (a ∷ rows) r =
      let (r1, done1) = one-Found a r in
      let (r2, done2) = all-Found rows r1 in
      let body : Aggregate → Exec Tally = find_phantom run tenant period [] in
      let n : ℕ = if is_used a then 1 else 0 in
      let k : ℕ = length (filter is_used rows) in
      let sum : n + k ≡ length (filter is_used (a ∷ rows)) = ground arith in
      (
        r2,
        bind_ok (body a) (λ t. for_each body rows >>= λ u. pure (add t u)) {s = r} {s' = r1}
              {a = record { checked = 0; found = n }} done1
            ∙ bind_ok (for_each body rows) (λ u. pure (add (record { checked = 0; found = n }) u))
                {s = r1} {s' = r2} {a = record { checked = 0; found = k }} done2
            ∙ ap (λ m. (ok (record { checked = 0; found = m }), r2)) sum,
      )

-- Where no usage event has a source, a tenant's comparison checks nothing against events and reports
-- each aggregate of the period with usage as one that has no events.
unsourced_all_phantoms :
    (source : ℕ → Option String) (run tenant : ℕ) (period : Text) (rows : Table UsageEvent)
    (aggregates : List Aggregate) (r : Reports)
    → ((id : ℕ) → source id ≡ none)
    → (compare_tenant run tenant period (expected_of source tenant rows) aggregates r).0
      ≡ ok (record { checked = 0; found = length (filter is_used aggregates) })
unfolding compare_tenant for_each
unsourced_all_phantoms source run tenant period rows aggregates r h =
    let (r', done) = all-Found run tenant period aggregates r in
    let n : ℕ = length (filter is_used aggregates) in
    let same : 0 + n ≡ n = omega arith in
    rw (expected_of_unsourced source tenant rows h) (
      ap (λ o. o.0)
        (bind_ok (for_each (find_phantom run tenant period []) aggregates)
          (λ u. pure (add nothing u)) {s = r} {s' = r'} {a = record { checked = 0; found = n }}
          done)
      ∙ ap (λ m. ok (record { checked = 0; found = m })) same)
