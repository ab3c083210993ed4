-- ===== src/Usage/Sequence.antt =====
-- Sequences of calls of `consume` in entitlement-check.service.ts.
use meterplex.Prelude.{
  ℕ, ◌+◌, ◌≤◌, ◌≡◌, ◌∙◌, refl, String, some, List, [], ◌∷◌, arith, ltb, inl, inr, Bool-cases,
}
use meterplex.Calendar.{Date}
use meterplex.Billing.State.{Snapshot, Database}
use meterplex.Billing.Monad.{Result, ok, err}
use meterplex.Usage.Entitlement.{get_snapshot}
use meterplex.Usage.Check.{ConsumeResponse, consume, hard_limit}
use meterplex.Usage.Limit.{Kept, current_usage}
use meterplex.Usage.Requests.{consume-Kept, consume_fits, consume_full}

-- What a request was granted.
abbrev pub granted_amount : Result ConsumeResponse → ℕ
granted_amount (ok r) = r.consumed
granted_amount (err e) = 0

-- Requests one after the other: the amount granted to them, and the last database.
unfoldable pub serve : ℕ → String → Date → List ℕ → Database → ℕ × Database
serve tenant_id feature now [] db = (0, db)
serve tenant_id feature now (amount ∷ rest) db =
    let (r, db') = consume tenant_id feature now amount db in
    let (total, db₂) = serve tenant_id feature now rest db' in (granted_amount r + total, db₂)

module _ (tenant_id : ℕ) (feature : String) (now : Date) (limit : ℕ) (s : Snapshot)
    (hard : hard_limit tenant_id feature now s ≡ some limit) where
  abbrev usage : Database → ℕ
  usage = current_usage tenant_id feature now s.reset_period

  get_snapshot-Kept :
      (db db' : Database)
      → Kept tenant_id feature now s.reset_period db' db
      → get_snapshot tenant_id feature db' ≡ get_snapshot tenant_id feature db
  unfolding get_snapshot
  get_snapshot-Kept db db' (_, subs, snaps) = rw (subs, snaps) refl

  -- One request moves the usage by what it grants, and stays within the limit.
  one_step :
      (amount : ℕ) (db : Database)
      → get_snapshot tenant_id feature db ≡ some s
      → db.faults ≡ []
      → usage db ≤ limit
      → let (r, db') = consume tenant_id feature now amount db in
        (usage db' ≡ usage db + granted_amount r) × (usage db' ≤ limit)
  one_step amount db found up within = elim (Bool-cases (ltb limit (usage db + amount))) [
    | inl full ↦
        let (refused, stays) =
          consume_full tenant_id feature now amount limit s db found hard up
            (ground (arith, full)) in
        rw (refused, stays) (omega arith, within)
    | inr room ↦
        let (grant, kept) =
          consume_fits tenant_id feature now amount limit s db found hard up
            (ground (arith, room)) in
        rw (grant, kept) (refl, ground (arith, room))
  ]

  -- With Redis up and no counter expiring, a sequence of requests of a feature with a hard limit,
  -- from a usage within the limit, raises the usage by exactly what it grants, and leaves it within
  -- the limit.
  pub serve_lem :
      (amounts : List ℕ) (db : Database)
      → get_snapshot tenant_id feature db ≡ some s
      → db.faults ≡ []
      → usage db ≤ limit
      → let (total, db') = serve tenant_id feature now amounts db in
        (usage db' ≡ usage db + total) × (usage db' ≤ limit)
  unfolding serve
  serve_lem [] db found up within = (omega arith, within)
  serve_lem (amount ∷ rest) db found up within =
      let (r, db') = consume tenant_id feature now amount db in
      let kept = consume-Kept tenant_id feature now amount limit s db found hard up in
      let (moved, within') = one_step amount db found up within in
      let (sum, last) = serve_lem rest db' (get_snapshot-Kept db db' kept ∙ found) kept.0 within' in
      (omega (arith, sum, moved), last)
