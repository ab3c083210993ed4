-- ===== src/Accounts/Guards/Access.antt =====
-- Who gets through the guards.
use meterplex.Prelude.{
  ℕ, Bool, true, false, ◌&&◌, ◌||◌, Option, none, some, List, [], ◌∷◌, ◌≡◌, refl, ap, ◌∙◌,
  Option-cases, Bool-cases, inl, inr,
}
use meterplex.Prelude.Table
use meterplex.Prelude.Service.{Result, Result-cases, ok, err, bind_ok, bind_err, ◌>>=◌}
use meterplex.Text.{Text}
use meterplex.Accounts.State.{
  Accounts, Error, User, Membership, MembershipRole, JwtPayload, Exec, account_disabled,
}
use meterplex.Accounts.Rows.{find_membership}
use meterplex.Accounts.Users.{includes_role}
use meterplex.Accounts.Sessions.Reuse.{is_ok}
use meterplex.Accounts.Guards.{
  Request, is_empty, is_uuid, hex_run, validate, tenant_guard, check_roles, roles_guard, guarded,
}

abbrev pub is_active_user : Option User → Bool
is_active_user none = false
is_active_user (some u) = u.is_active

abbrev pub has_role : List MembershipRole → Option (ℕ × Membership) → Bool
has_role roles none = false
has_role roles (some row) = is_empty roles || includes_role row.1.role roles

-- What the guards are to demand: an active user, a tenant named by a uuid, a membership of the user
-- in that tenant, and one of the required roles if there are any.
abbrev pub is_allowed : (Text → ℕ) → List MembershipRole → JwtPayload → Text → Accounts → Bool
is_allowed uuid_key roles payload header s =
    is_active_user (Table.lookup payload.sub s.users)
    && is_uuid header
    && has_role roles (find_membership payload.sub (uuid_key header) s)

empty_is_no_uuid : (t : Text) → is_empty t ≡ true → is_uuid t ≡ false
unfolding is_uuid hex_run
empty_is_no_uuid [] h = refl
empty_is_no_uuid (c ∷ t) h = cc

module _ (uuid_key : Text → ℕ) (payload : JwtPayload) (header : Text) (s : Accounts) where
  attached : User → Request
  attached u = record {
    user = some (payload.sub, u);
    tenant_header = header;
    tenant_id = none;
    membership = none;
  }

  -- The tenant guard, by what it reads
  bad_header :
      (u : User) → is_uuid header ≡ false → is_ok (tenant_guard uuid_key (attached u) s).0 ≡ false
  unfolding tenant_guard attached
  bad_header u h = elim (Bool-cases (is_empty header)) [
    | inl empty ↦ rw empty refl
    | inr some_text ↦ rw (some_text, h) refl
  ]

  module _ (u : User) (uuid : is_uuid header ≡ true) where
    not_empty : is_empty header ≡ false
    not_empty = elim (Bool-cases (is_empty header)) [
      | inl empty ↦ absurd (cc (empty_is_no_uuid header empty, uuid))
      | inr some_text ↦ some_text
    ]

    no_member :
        find_membership payload.sub (uuid_key header) s ≡ none
        → is_ok (tenant_guard uuid_key (attached u) s).0 ≡ false
    unfolding tenant_guard attached
    no_member h = rw (not_empty, uuid, h) refl

    admitted : Membership → Request
    admitted m = record (attached u) { tenant_id = some (uuid_key header); membership = some m }

    member_passes :
        (id : ℕ) (m : Membership)
        → find_membership payload.sub (uuid_key header) s ≡ some (id, m)
        → tenant_guard uuid_key (attached u) s ≡ (ok (admitted m), s)
    unfolding tenant_guard attached admitted
    member_passes id m h = rw (not_empty, uuid, h) refl

    -- The roles guard behind it
    roles_decide :
        (m : Membership) (roles : List MembershipRole)
        → is_ok (roles_guard uuid_key roles (admitted m) s).0
          ≡ (is_empty roles || includes_role m.role roles)
    unfolding roles_guard check_roles attached admitted
    roles_decide m [] = refl
    roles_decide m (r ∷ roles) = elim (Bool-cases (includes_role m.role (r ∷ roles))) [
      | inl fits ↦ rw (not_empty, fits) refl
      | inr other ↦ rw (not_empty, other) refl
    ]

  -- The tenant guard and the roles guard in turn
  behind : List MembershipRole → User → Result Error Request × Accounts
  behind roles u = (tenant_guard uuid_key (attached u) >>= roles_guard uuid_key roles) s

  behind_refused :
      (roles : List MembershipRole) (u : User)
      → is_ok (tenant_guard uuid_key (attached u) s).0 ≡ false
      → is_ok (behind roles u).0 ≡ false
  unfolding behind
  behind_refused roles u h = elim (Result-cases (tenant_guard uuid_key (attached u) s).0) [
    | inl (r, done) ↦ absurd (cc (ap is_ok done, h))
    | inr (e, failed) ↦
        rw
          (bind_err (tenant_guard uuid_key (attached u)) (roles_guard uuid_key roles) {s = s}
            {s' = (tenant_guard uuid_key (attached u) s).1} {e = e}
            (ap (λ o. (o, (tenant_guard uuid_key (attached u) s).1)) failed))
          refl
  ]

  behind_lem :
      (roles : List MembershipRole) (u : User)
      → is_ok (behind roles u).0
        ≡ (is_uuid header && has_role roles (find_membership payload.sub (uuid_key header) s))
  unfolding behind
  behind_lem roles u = elim (Bool-cases (is_uuid header)) [
    | inr bad ↦ cc (behind_refused roles u (bad_header u bad), bad)
    | inl uuid ↦ elim (Option-cases (find_membership payload.sub (uuid_key header) s)) [
      | inl absent ↦ rw (uuid, absent) (behind_refused roles u (no_member u uuid absent))
      | inr ((id, m), found) ↦
          rw
            (
              uuid,
              found,
              bind_ok (tenant_guard uuid_key (attached u)) (roles_guard uuid_key roles) {s = s}
                  {s' = s} {a = admitted u uuid m} (member_passes u uuid id m found),
            )
            (roles_decide u uuid m roles)
    ]
  ]

  -- The strategy in front of both
  inactive :
      (u : User)
      → Table.lookup payload.sub s.users ≡ some u
      → u.is_active ≡ false
      → validate payload s ≡ (err account_disabled, s)
  unfolding validate
  inactive u found h = rw (found, h) refl

  active :
      (u : User)
      → Table.lookup payload.sub s.users ≡ some u
      → u.is_active ≡ true
      → validate payload s ≡ (ok (payload.sub, u), s)
  unfolding validate
  active u found h = rw (found, h) refl

  unknown : Table.lookup payload.sub s.users ≡ none → validate payload s ≡ (err account_disabled, s)
  unfolding validate
  unknown h = rw h refl

  -- What follows the strategy
  rest : List MembershipRole → ℕ × User → Exec Request
  rest roles user =
      tenant_guard uuid_key
        (record { user = some user; tenant_header = header; tenant_id = none; membership = none })
      >>= roles_guard uuid_key roles

  stopped :
      (roles : List MembershipRole)
      → validate payload s ≡ (err account_disabled, s)
      → is_ok (guarded uuid_key roles payload header s).0 ≡ false
  unfolding guarded rest
  stopped roles h =
      ap (λ o. is_ok o.0)
        (bind_err (validate payload) (rest roles) {s = s} {s' = s} {e = account_disabled} h)

  went_on :
      (roles : List MembershipRole) (u : User)
      → validate payload s ≡ (ok (payload.sub, u), s)
      → is_ok (guarded uuid_key roles payload header s).0 ≡ is_ok (behind roles u).0
  unfolding guarded rest behind attached
  went_on roles u h =
      ap (λ o. is_ok o.0)
        (bind_ok (validate payload) (rest roles) {s = s} {s' = s} {a = (payload.sub, u)} h)

-- A request with a verified access token gets through the three guards of a tenant's route exactly
-- if its user is active, the header is a uuid, and the user is a member of that tenant with one of
-- the required roles, if there are any.
pub guarded_lem :
    (uuid_key : Text → ℕ) (roles : List MembershipRole) (payload : JwtPayload) (header : Text)
    (s : Accounts)
    → is_ok (guarded uuid_key roles payload header s).0 ≡ is_allowed uuid_key roles payload header s
guarded_lem uuid_key roles payload header s =
    elim (Option-cases (Table.lookup payload.sub s.users)) [
      | inl absent ↦
          rw absent
            (stopped uuid_key payload header s roles (unknown uuid_key payload header s absent))
      | inr (u, found) ↦ elim (Bool-cases u.is_active) [
        | inl enabled ↦
            rw (found, enabled)
              (went_on uuid_key payload header s roles u
                  (active uuid_key payload header s u found enabled)
                ∙ behind_lem uuid_key payload header s roles u)
        | inr disabled ↦
            rw (found, disabled)
              (stopped uuid_key payload header s roles
                (inactive uuid_key payload header s u found disabled))
      ]
    ]
