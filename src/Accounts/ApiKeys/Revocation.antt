-- ===== src/Accounts/ApiKeys/Revocation.antt =====
-- An API key works from its creation until it is revoked, and never after.
use meterplex.Prelude.{
  ℕ, true, false, not, none, some, List, ◌≡◌, refl, sym, ap, ◌∙◌, arith, Option-cases, inl, inr,
}
use meterplex.Prelude.Table
use meterplex.Prelude.Table.{find_first_holds, sat-update_found}
use meterplex.Prelude.Table.Many.{sat-create, sat-update_keep}
use meterplex.Prelude.Table.Keyed.{lookup-find_first}
use meterplex.Prelude.Service.{ok, err, throw, rethrow, catch_ok, catch_err, bind_ok, bind_err}
use meterplex.Text.{Text, text_eq}
use meterplex.Accounts.State.{
  Accounts, ApiKey, ApiKeyStatus, Env, api_key_not_found, record_not_found,
}
use meterplex.Accounts.Rows.{has_key, find_key, update_key}
use meterplex.Accounts.Rows.Done.{update_key_found}
use meterplex.Accounts.Passwords.{on_not_found}
use meterplex.Accounts.ApiKeys.{
  authenticate, use_key, find_owned, find_of_tenant, revoke, set_status, is_active, hash_key,
}
use meterplex.Accounts.Calls.{Call, run}
use meterplex.Accounts.Calls.Closed.{IsClosed}
use meterplex.Accounts.Calls.Kept.{run_keeps}
use meterplex.Accounts.Invariant.Keys.{HasKeys}
use meterplex.Accounts.Sessions.Reuse.{is_ok}

-- The key with this hash is stored, and revoked or expired.
unfoldable pub IsDead : Text → Accounts → Type 0
unfolding find_key
IsDead hash s = Table.sat (λ k. not (is_active k.status)) (find_key hash s) ≡ true

IsDead-IsClosed : (hash : Text) → IsClosed true (IsDead hash)
unfolding IsDead find_key
IsDead-IsClosed hash = record {
  draws = λ d s h. h;
  user = λ u s new h. h;
  opening = λ t u s new free h. h;
  alone = λ all t s new h. h;
  joining = λ m s other new there h. h;
  token = λ t s h. h;
  reset = λ t s h. h;
  key = λ k s h.
      sat-create (λ _. has_key hash) (λ v. not (is_active v.status)) s.next_id k s.api_keys h;
  users = λ id f s same h. h;
  tenants = λ id f s same h. h;
  keys = λ id f s same dead h.
      sat-update_keep (λ _. has_key hash) (λ v. not (is_active v.status)) id f s.api_keys
        (λ j v. ap (λ x. text_eq x hash) (same v)) (λ v k. ap not (dead v (ground arith))) h;
  revoke_many = λ g s h. h;
  revoke = λ id s h. h;
  spend_many = λ g s h. h;
  spend = λ id s h. h;
}

dead_row :
    (now id : ℕ) (k : ApiKey) (s : Accounts)
    → not (is_active k.status) ≡ true
    → use_key now (id, k) s ≡ (err api_key_not_found, s)
unfolding use_key
dead_row now id k s h = rw h refl

module _ (env : Env) (raw : Text) (now : ℕ) (s : Accounts) where
  unknown : find_key (hash_key env raw) s ≡ none → is_ok (authenticate env raw now s).0 ≡ false
  unfolding authenticate
  unknown h = rw h refl

  pub known :
      (row : ℕ × ApiKey)
      → find_key (hash_key env raw) s ≡ some row
      → authenticate env raw now s ≡ rethrow (on_not_found api_key_not_found) (use_key now row) s
  unfolding authenticate
  known row h = rw h refl

  -- A key that is not active does not authenticate.
  refused : IsDead (hash_key env raw) s → is_ok (authenticate env raw now s).0 ≡ false
  unfolding IsDead
  refused h = elim (Option-cases (find_key (hash_key env raw) s)) [
    | inl absent ↦ unknown absent
    | inr ((id, k), found) ↦
        let dead : not (is_active k.status) ≡ true =
          sym (ap (Table.sat (λ v. not (is_active v.status))) found) ∙ h in
        rw
          (known (id, k) found
            ∙ catch_err (use_key now (id, k)) {s = s} {s' = s}
                (λ e. throw (on_not_found api_key_not_found e)) {x = api_key_not_found}
                (dead_row now id k s dead))
          refl
  ]

-- The search of a row of the tenant
owned :
    (id tenant : ℕ) (k : ApiKey) (s : Accounts)
    → find_of_tenant id tenant s ≡ some (id, k)
    → find_owned id tenant s ≡ (ok k, s)
unfolding find_owned
owned id tenant k s h = rw h refl

not_owned :
    (id tenant : ℕ) (s : Accounts)
    → find_of_tenant id tenant s ≡ none
    → find_owned id tenant s ≡ (err record_not_found, s)
unfolding find_owned
not_owned id tenant s h = rw h refl

owned_row :
    (id tenant : ℕ) (k : ApiKey) (s : Accounts)
    → find_of_tenant id tenant s ≡ some (id, k)
    → Table.lookup id s.api_keys ≡ some k
    → revoke id tenant s ≡ (
      ok (set_status ApiKeyStatus.revoked k),
      record s { api_keys = Table.update id (set_status ApiKeyStatus.revoked) s.api_keys },
    )
unfolding revoke
owned_row id tenant k s found row =
    bind_ok (rethrow (on_not_found api_key_not_found) (find_owned id tenant))
      (λ _. update_key id (set_status ApiKeyStatus.revoked)) {s = s} {s' = s} {a = k}
      (catch_ok (find_owned id tenant) {s = s} {s' = s}
        (λ e. throw (on_not_found api_key_not_found e)) {a = k} (owned id tenant k s found))
    ∙ update_key_found s id (set_status ApiKeyStatus.revoked) k row

-- A stored key that its tenant revokes is refused from then on, whatever calls are made in between,
-- if every id was given out once.
pub revoked_for_good :
    (env : Env) (raw : Text) (later id tenant : ℕ) (k : ApiKey) (calls : List Call) (s : Accounts)
    → HasKeys s
    → find_key (hash_key env raw) s ≡ some (id, k)
    → find_of_tenant id tenant s ≡ some (id, k)
    → ((revoke id tenant s).0 ≡ ok (set_status ApiKeyStatus.revoked k))
      × (is_ok (authenticate env raw later (run env calls (revoke id tenant s).1)).0 ≡ false)
unfolding find_key IsDead
revoked_for_good env raw later id tenant k calls s keys found mine =
    let hash : Text = hash_key env raw in
    let stored : Table.lookup id s.api_keys ≡ some k =
      lookup-find_first (λ _. has_key hash) s.api_keys id k keys.3.unique found in
    let s' : Accounts = record s {
      api_keys = Table.update id (set_status ApiKeyStatus.revoked) s.api_keys;
    } in
    rw (owned_row id tenant k s mine stored) (
      refl,
      refused env raw later (run env calls s') (
          run_keeps (IsDead hash) (IsDead-IsClosed hash) env calls s' (
            sat-update_found (has_key hash) (λ v. not (is_active v.status)) id k
              (set_status ApiKeyStatus.revoked) s.api_keys (λ w. refl) (λ w. refl)
              (find_first_holds (λ _. has_key hash) s.api_keys id k found) stored found)),
    )

-- A key of another tenant, or one that does not exist, is not revoked, and nothing is written.
pub revoke_foreign :
    (id tenant : ℕ) (s : Accounts)
    → find_of_tenant id tenant s ≡ none
    → revoke id tenant s ≡ (err api_key_not_found, s)
unfolding revoke
revoke_foreign id tenant s h =
    bind_err (rethrow (on_not_found api_key_not_found) (find_owned id tenant))
      (λ _. update_key id (set_status ApiKeyStatus.revoked)) {s = s} {s' = s}
      {e = api_key_not_found}
      (catch_err (find_owned id tenant) {s = s} {s' = s}
        (λ e. throw (on_not_found api_key_not_found e)) {x = record_not_found}
        (not_owned id tenant s h))
