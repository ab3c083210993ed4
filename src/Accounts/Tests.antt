-- ===== src/Accounts/Tests.antt =====
-- One account, its tokens and an API key, and the theorems about accounts at them.
use meterplex.Prelude.{
  ℕ, ◌+◌, ◌*◌, ◌≡◌, refl, true, false, Option, none, some, List, [], ◌∷◌, arith, ltb,
}
use meterplex.Prelude.Table
use meterplex.Prelude.Table.Keyed.{IsKeyed}
use meterplex.Prelude.Service.{ok, err}
use meterplex.Text.{Text, codes, text_eq, text_eq_refl}
use meterplex.Accounts.State.{
  Accounts, Env, JwtPayload, User, TenantStatus, MembershipRole, RefreshToken, PasswordResetToken,
  ApiKey, ApiKeyStatus, refresh_token_revoked,
}
use meterplex.Accounts.Rows.{find_user, find_token, find_reset, find_key}
use meterplex.Accounts.Tokens.{
  split_duration, parse_expiry_to_seconds, calculate_expiry, refresh, is_live, tokens_of, stored_of,
}
use meterplex.Accounts.Tokens.Expiry.{expiries_agree}
use meterplex.Accounts.Passwords.{reset_password, change_password, login}
use meterplex.Accounts.ApiKeys.{create, authenticate, revoke, find_of_tenant, raw_key, set_status}
use meterplex.Accounts.ApiKeys.Creation.{create_then_authenticate}
use meterplex.Accounts.ApiKeys.Revocation.{revoked_for_good}
use meterplex.Accounts.Calls.{Call, run}
use meterplex.Accounts.Invariant.Keys.{HasKeys}
use meterplex.Accounts.Invariant.Owners.{HasOneOwner, run-HasOneOwner}
use meterplex.Accounts.Invariant.Unique.{HasUniqueRows}
use meterplex.Accounts.Sessions.Revoked.{IsRevoked, IsUsed}
use meterplex.Accounts.Sessions.Reuse.{is_ok, refresh_once, reuse_revokes_all}
use meterplex.Accounts.Sessions.Reset.{after_reset, reset_ends_sessions, reset_once}
use meterplex.Accounts.Sessions.Change.{change_leaves_one_session, change_then_login}
use meterplex.Accounts.Guards.{guarded}
use meterplex.Accounts.Guards.Access.{is_allowed, guarded_lem}

-- Libraries that are easy to run: no hashing, and tokens that carry their user.
abbrev subject : Text → Option JwtPayload
subject [] = none
subject (user ∷ jti) = some (record { sub = user; email = codes "ann@x.io"; jti = jti })

abbrev env : Env
env = record {
  to_lower_case = λ t. t;
  random_bytes = λ d n. d ∷ n ∷ [];
  bcrypt_hash = λ d p n. p;
  bcrypt_compare = text_eq;
  sha256 = λ t. t;
  sign = λ p now. p.jti;
  sign_refresh = λ p seconds now. p.sub ∷ p.jti;
  verify_refresh = λ t now. subject t;
  violation_fields = λ i. [];
  refresh_expiration = codes "7d";
}

abbrev ann : User
ann = record {
  email = codes "ann@x.io";
  password_hash = codes "old";
  first_name = "Ann";
  last_name = "Lee";
  is_active = true;
  is_platform_admin = false;
}

abbrev ann_token : RefreshToken
ann_token = record {
  user_id = 1;
  token_hash = 1 ∷ 0 ∷ 16 ∷ [];
  expires_at = 604800000;
  is_revoked = false;
}

abbrev ann_reset : PasswordResetToken
ann_reset = record { user_id = 1; token_hash = codes "reset"; expires_at = 900000; is_used = false }

abbrev ann_key : ApiKey
ann_key = record {
  tenant_id = 2;
  created_by_user_id = 1;
  key_prefix = codes "mp_live_ab";
  key_hash = codes "mp_live_abc";
  name = "key";
  status = ApiKeyStatus.active;
  expires_at = none;
  last_used_at = none;
}

abbrev store : Accounts
store = record {
  users = (1, ann) ∷ [];
  tenants = (2, record { name = "X"; slug = codes "x"; status = TenantStatus.active }) ∷ [];
  memberships = (3, record { user_id = 1; tenant_id = 2; role = MembershipRole.owner }) ∷ [];
  refresh_tokens = (4, ann_token) ∷ [];
  reset_tokens = (5, ann_reset) ∷ [];
  api_keys = (6, ann_key) ∷ [];
  next_id = 7;
  draws = 1;
}

one_key : {V : Type 0} (k n : ℕ) (v : V) → ltb k n ≡ true → IsKeyed n ((k, v) ∷ [])
unfolding Table.lookup
one_key k n v h = record { unique = (refl, tt); below = λ j w row. ground arith }

store-HasKeys : HasKeys store
store-HasKeys = (
  one_key 1 7 ann refl,
  one_key 2 7 (record { name = "X"; slug = codes "x"; status = TenantStatus.active }) refl,
  one_key 3 7 (record { user_id = 1; tenant_id = 2; role = MembershipRole.owner }) refl,
  one_key 6 7 ann_key refl,
  one_key 4 7 ann_token refl,
  one_key 5 7 ann_reset refl,
)

store-HasUniqueRows : HasUniqueRows store
unfolding Table.find_many
store-HasUniqueRows = (λ e. ground arith, λ g. ground arith, λ (u, t). ground arith)

abbrev first_token : Text
first_token = 1 ∷ 0 ∷ 16 ∷ []

-- Ann refreshes, logs in again and logs out; then somebody shows the old token.
abbrev calls : List Call
calls =
    Call.logged_in (codes "ann@x.io") (codes "old") 2000 ∷ Call.logged_out (1 ∷ 2 ∷ 16 ∷ []) ∷ []

refresh_once_example :
    is_ok (refresh env first_token 3000 (run env calls (refresh env first_token 1000 store).1)).0
    ≡ false
unfolding refresh find_token text_eq Table.find_first
refresh_once_example =
    refresh_once env first_token 1000 3000 (tokens_of env 1 (codes "ann@x.io") 1000 1) calls store
      store-HasKeys refl

abbrev stolen : Accounts
stolen = record store {
  refresh_tokens =
      (4, record ann_token { is_revoked = true })
      ∷ (7, record ann_token { token_hash = 1 ∷ 1 ∷ 16 ∷ [] })
      ∷ [];
}

reuse_revokes_all_example :
    ((refresh env first_token 1000 stolen).0 ≡ err refresh_token_revoked)
    × (Table.find_many (λ _. is_live 1) (refresh env first_token 1000 stolen).1.refresh_tokens ≡ [])
unfolding IsRevoked find_token text_eq Table.find_first
reuse_revokes_all_example =
    reuse_revokes_all env first_token 1000
      (record { sub = 1; email = codes "ann@x.io"; jti = 0 ∷ 16 ∷ [] }) stolen refl refl

reset_ends_sessions_example :
    (reset_password env (codes "reset") (codes "new") 1000 store
      ≡ (ok tt, after_reset env (codes "new") 1 5 store))
    × IsUsed (codes "reset") (reset_password env (codes "reset") (codes "new") 1000 store).1
    × (Table.find_many
          (λ _. is_live 1)
          (reset_password env (codes "reset") (codes "new") 1000 store).1.refresh_tokens
        ≡ [])
unfolding find_reset text_eq Table.lookup Table.find_first
reset_ends_sessions_example =
    reset_ends_sessions env (codes "reset") (codes "new") 1000 5 ann_reset ann store store-HasKeys
      refl refl refl refl

reset_once_example :
    is_ok
      (reset_password env
        (codes "reset")
        (codes "third")
        3000
        (run env calls (reset_password env (codes "reset") (codes "new") 1000 store).1)).0
    ≡ false
unfolding find_reset text_eq Table.lookup Table.find_first
reset_once_example =
    reset_once env (codes "reset") (codes "new") (codes "third") 1000 3000 5 ann_reset ann calls
      store store-HasKeys refl refl refl refl

change_leaves_one_session_example :
    ((change_password env 1 (codes "old") (codes "new") 1000 store).0
      ≡ ok (tokens_of env 1 ann.email 1000 2))
    × (Table.find_many
          (λ _. is_live 1)
          (change_password env 1 (codes "old") (codes "new") 1000 store).1.refresh_tokens
        ≡ (7, stored_of env 1 ann.email 1000 2) ∷ [])
unfolding find_token text_eq Table.lookup Table.find_first
change_leaves_one_session_example =
    change_leaves_one_session env 1 (codes "old") (codes "new") 1000 ann store refl refl refl

change_then_login_example :
    (login env
      (codes "ann@x.io")
      (codes "new")
      2000
      (change_password env 1 (codes "old") (codes "new") 1000 store).1).0
    ≡ ok (tokens_of env 1 ann.email 2000 3, 1)
unfolding find_token find_user text_eq Table.lookup change_password Table.find_first Table.create
change_then_login_example =
    change_then_login env 1 (codes "ann@x.io") (codes "old") (codes "new") 1000 2000 ann store
      (λ d p n. text_eq_refl p) store-HasKeys refl refl refl refl refl

revoked_for_good_example :
    ((revoke 6 2 store).0 ≡ ok (set_status ApiKeyStatus.revoked ann_key))
    × (is_ok (authenticate env (codes "mp_live_abc") 9 (run env calls (revoke 6 2 store).1)).0
        ≡ false)
unfolding find_key find_of_tenant text_eq Table.find_first
revoked_for_good_example =
    revoked_for_good env (codes "mp_live_abc") 9 6 2 ann_key calls store store-HasKeys refl refl

create_then_authenticate_example :
    ((create env "new key" (some 30) 2 1 1000 store).0 ≡ ok (7, raw_key env 1))
    × ((authenticate env (raw_key env 1) 2000 (create env "new key" (some 30) 2 1 1000 store).1).0
        ≡ ok (2, 7))
unfolding find_key text_eq Table.lookup Table.find_first
create_then_authenticate_example =
    create_then_authenticate env "new key" (some 30) 2 1 1000 2000 store refl refl refl refl

store-HasOneOwner : HasOneOwner store
unfolding Table.find_many Table.lookup
store-HasOneOwner = (
  one_key 2 7 (record { name = "X"; slug = codes "x"; status = TenantStatus.active }) refl,
  λ id. ground arith,
)

abbrev new_tenants : List Call
new_tenants =
    Call.tenant_added (record { name = "Y"; slug = codes "y" }) 1
    ∷ Call.tenant_changed 7 7 (record { name = some "Z"; status = none })
    ∷ Call.tenant_cancelled 2 2
    ∷ calls

run-HasOneOwner_example : HasOneOwner (run env new_tenants store)
run-HasOneOwner_example =
    run-HasOneOwner env new_tenants store (refl, (refl, (refl, (refl, (refl, tt)))))
      store-HasOneOwner

expiries_agree_example :
    calculate_expiry (codes "7d") 1000 ≡ 1000 + parse_expiry_to_seconds (codes "7d") * 1000
unfolding split_duration
expiries_agree_example = expiries_agree (codes "7d") 1000 refl

-- Only a number of seconds is read in two ways: 45 seconds, and 7 days.
forty_five_seconds :
    (parse_expiry_to_seconds (codes "45s") ≡ 45) × (calculate_expiry (codes "45s") 0 ≡ 604800000)
unfolding parse_expiry_to_seconds calculate_expiry split_duration
forty_five_seconds = (refl, refl)

abbrev tenant_uuid : Text
tenant_uuid = codes "6f9619ff-8b86-d011-b42d-00cf4fc964ff"

abbrev only_tenant : Text → ℕ
only_tenant t = 2

abbrev signed : JwtPayload
signed = record { sub = 1; email = codes "ann@x.io"; jti = [] }

guarded_lem_example :
    is_ok (guarded only_tenant (MembershipRole.owner ∷ []) signed tenant_uuid store).0
    ≡ is_allowed only_tenant (MembershipRole.owner ∷ []) signed tenant_uuid store
guarded_lem_example = guarded_lem only_tenant (MembershipRole.owner ∷ []) signed tenant_uuid store
