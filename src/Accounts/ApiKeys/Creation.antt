-- ===== src/Accounts/ApiKeys/Creation.antt =====
-- A new API key authenticates its tenant.
use meterplex.Prelude.{
  ℕ, ◌+◌, String, true, false, Option, none, some, ◌≡◌, refl, ap, sym, ◌∙◌, Option-cases, inl, inr,
}
use meterplex.Prelude.Table
use meterplex.Prelude.Table.Many.{find_first-create_new}
use meterplex.Prelude.Service.{ok, throw, catch_ok, catch_err, bind_ok, bind_err, pure, ◌>>=◌}
use meterplex.Text.{Text, text_eq_refl}
use meterplex.Accounts.State.{Accounts, ApiKey, Exec, Env, record_not_found, api_key_not_found}
use meterplex.Accounts.Rows.{has_key, find_key, update_key, create_key, draw, is_some}
use meterplex.Accounts.Rows.Done.{create_key_done, update_key_found, update_key_missing}
use meterplex.Accounts.Passwords.{on_not_found}
use meterplex.Accounts.ApiKeys.{
  authenticate, use_key, best_effort, create, touch, is_active, is_past, expiry, hash_key, raw_key,
  stored_key,
}
use meterplex.Accounts.Calls.Closed.{with_key}
use meterplex.Accounts.ApiKeys.Revocation.{known}

settled :
    (id : ℕ) (f : ApiKey → ApiKey) (s s' : Accounts)
    → best_effort id f s ≡ (ok tt, s')
    → best_effort id f s ≡ (ok tt, (best_effort id f s).1)
settled id f s s' h = h ∙ ap (λ o. (ok tt, o.1)) (sym h)

best_effort_ok :
    (id : ℕ) (f : ApiKey → ApiKey) (s : Accounts)
    → best_effort id f s ≡ (ok tt, (best_effort id f s).1)
unfolding best_effort
best_effort_ok id f s =
    let m : Exec (Unit {0}) = update_key id f >>= λ _. pure tt in
    elim (Option-cases (Table.lookup id s.api_keys)) [
      | inl absent ↦ settled id f s s (
          catch_err m {s = s} {s' = s} (λ e. pure tt) {x = record_not_found}
            (bind_err (update_key id f) (λ _. pure tt) {s = s} {s' = s} {e = record_not_found}
              (update_key_missing s id f absent)))
      | inr (k, found) ↦
          let s' : Accounts = record s { api_keys = Table.update id f s.api_keys } in
          settled id f s s' (
            catch_ok m {s = s} {s' = s'} (λ e. pure tt) {a = tt}
              (bind_ok (update_key id f) (λ _. pure tt) {s = s} {s' = s'} {a = f k}
                (update_key_found s id f k found)))
    ]

good_row :
    (now id : ℕ) (k : ApiKey) (s : Accounts)
    → is_active k.status ≡ true
    → is_past k.expires_at now ≡ false
    → use_key now (id, k) s ≡ (ok (k.tenant_id, id), (best_effort id (touch now) s).1)
unfolding use_key
good_row now id k s active valid =
    rw (active, valid)
      (bind_ok (best_effort id (touch now)) (λ u. pure (k.tenant_id, id)) {s = s}
        {s' = (best_effort id (touch now) s).1} {a = tt} (best_effort_ok id (touch now) s))

-- The key that `create` returns authenticates as the tenant it was created for, with the id of its
-- row, until it expires; the tenant and the user exist, and the generator gave a new key.
pub create_then_authenticate :
    (env : Env) (name : String) (days : Option ℕ) (tenant user now later : ℕ) (s : Accounts)
    → is_some (Table.lookup user s.users) ≡ true
    → is_some (Table.lookup tenant s.tenants) ≡ true
    → find_key (hash_key env (raw_key env s.draws)) s ≡ none
    → is_past (expiry days now) later ≡ false
    → ((create env name days tenant user now s).0 ≡ ok (s.next_id, raw_key env s.draws))
      × ((authenticate env (raw_key env s.draws) later (create env name days tenant user now s).1).0
          ≡ ok (tenant, s.next_id))
unfolding create draw find_key
create_then_authenticate env name days tenant user now later s known_user known_tenant fresh valid =
    let k : ApiKey = stored_key env name days tenant user now s.draws in
    let s1 : Accounts = record s { draws = s.draws + 1 } in
    let s2 : Accounts = with_key s1 k in
    let raw : Text = raw_key env s.draws in
    let created : create env name days tenant user now s ≡ (ok (s.next_id, raw), s2) =
      bind_ok (create_key k) (λ id. pure (id, raw)) {s = s1} {s' = s2} {a = s.next_id}
        (create_key_done s1 k (ap is_some fresh) known_user known_tenant) in
    let found : find_key (hash_key env raw) s2 ≡ some (s.next_id, k) =
      find_first-create_new (λ _. has_key (hash_key env raw)) s.next_id k s.api_keys fresh
        (text_eq_refl (hash_key env raw)) in
    rw created (
      refl,
      ap (λ o. o.0)
          (known env raw later s2 (s.next_id, k) found
            ∙ catch_ok (use_key later (s.next_id, k)) {s = s2}
                {s' = (best_effort s.next_id (touch later) s2).1}
                (λ e. throw (on_not_found api_key_not_found e)) {a = (tenant, s.next_id)}
                (good_row later s.next_id k s2 refl valid)),
    )
