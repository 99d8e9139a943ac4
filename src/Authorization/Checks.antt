-- ===== src/Authorization/Checks.antt =====
-- `authz_check_privilege` of src/security/authorization.c against what the records and roles say, and
-- what a grant does to it.
use micro_meow_db.Prelude.{
  ℕ, ◌+◌, ◌%◌, ◌^◌, bit_or, ◌≡◌, refl, sym, ap, ◌∙◌, ◌⊎◌, Bool, true, false, ◌&&◌, ◌||◌, Option,
  none, some, List, [], ◌∷◌, Bytes, bytes_eq, bytes_eq_refl, bytes_eq_iff, All, ltb, leb, ◌==◌,
  arith, Bool-cases, Option-cases, inl, inr,
}
use micro_meow_db.Prelude.Digits.{
  digit, digit-lt, digit-zero, digit-bit_or, digit-pow, masked-eq-digit,
}
use micro_meow_db.Authentication.{
  User, AuthenticationManager, auth_get_user, auth_check_user_status, is_active,
}
use micro_meow_db.Authorization.{
  Privilege, AuthorizationManager, is_prefix, same_scope, change_privilege, collect_roles,
  authz_get_user_privileges, authz_check_privilege, authz_grant_privilege,
}
use micro_meow_db.Authorization.Bits.{
  named, covers, has_direct, has_by_role, collect_direct-bits, collect_roles-bits,
}

-- every record below the global scope has a name
abbrev pub IsNamed : AuthorizationManager → Type 0
IsNamed m = All (λ p. named p ≡ true) m.privileges

-- On a manager whose records are named, the check of the k-th privilege is defined: it holds exactly
-- if the user is active and has that privilege by a record that covers the request or by a role.
pub check-has :
    (users : AuthenticationManager) (m : AuthorizationManager) (name : Bytes) (scope_type : ℕ)
    (scope : Option Bytes) (k : ℕ)
    → IsNamed m
    → authz_check_privilege users m name scope_type scope (2 ^ k)
      ≡ some (
          auth_check_user_status users name
          && (has_direct k m.privileges name scope_type scope
              || has_by_role k m.roles m.user_roles name))
unfolding authz_check_privilege authz_get_user_privileges
check-has users m name scope_type scope k n =
    let (t, run, bits) = collect_direct-bits 0 m.privileges name scope_type scope n in
    let all = collect_roles t m.roles m.user_roles name in
    elim (Bool-cases (auth_check_user_status users name)) [
      | inr e ↦ rw (authz_check_privilege, e) refl
      | inl e ↦
          rw (authz_check_privilege, e, run)
            (ground (
              arith,
              masked-eq-digit k all,
              collect_roles-bits t m.roles m.user_roles name k,
              bits k,
              digit-zero k,
            ))
    ]

-- A request with a name exactly below the global scope.
abbrev pub is_proper : ℕ → Option Bytes → Bool
is_proper scope_type none = scope_type == 0
is_proper scope_type (some s) = ltb 0 scope_type && leb scope_type 3

is_prefix_refl : (s : Bytes) → is_prefix s s ≡ true
unfolding is_prefix
is_prefix_refl [] = refl
is_prefix_refl (b ∷ s) = ground (arith, is_prefix_refl s)

-- On a named record the test of a proper request is defined, and a record that passes it covers
-- the request.
same_scope_lem :
    (p : Privilege) (name : Bytes) (scope_type : ℕ) (scope : Option Bytes)
    → named p ≡ true
    → is_proper scope_type scope ≡ true
    → (b : Bool) × (same_scope p name scope_type scope ≡ some b)
      × (b ≡ true → (bytes_eq p.username name && covers p scope_type scope) ≡ true)
unfolding same_scope
same_scope_lem p name scope_type none n h = (_, refl, λ e. ground arith)
same_scope_lem p name scope_type (some s) n h =
    elim (Bool-cases (bytes_eq p.username name && (p.scope_type == scope_type))) [
      | inr e ↦ (false, rw e refl, λ e. ground arith)
      | inl e ↦ elim (Option-cases p.scope_name) [
        | inl f ↦ absurd (ground arith)
        | inr (t, f) ↦ (
          bytes_eq t s,
          rw (e, f) refl,
          λ k.
              let same : t ≡ s = (bytes_eq_iff t s).0 k in
              ground (arith, k, ap (is_prefix t) (sym same) ∙ is_prefix_refl t),
        )
      ]
    ]

abbrev add : ℕ → Privilege → Option Privilege
add privileges p = some (record p { privileges = bit_or p.privileges privileges })

-- what the walk of a grant finds or leaves
change_cases :
    (k : ℕ) (ps : List Privilege) (name : Bytes) (scope_type : ℕ) (scope : Option Bytes)
    → All (λ p. named p ≡ true) ps
    → is_proper scope_type scope ≡ true
    → (change_privilege (add (2 ^ k)) ps name scope_type scope ≡ some none)
      ⊎ ((qs : List Privilege) × (change_privilege (add (2 ^ k)) ps name scope_type scope
            ≡ some (some qs))
          × All (λ p. named p ≡ true) qs
          × (has_direct k qs name scope_type scope ≡ true))
unfolding change_privilege
change_cases k [] name scope_type scope n h = inl refl
change_cases k (p ∷ ps) name scope_type scope n h =
    let (b, run, own) = same_scope_lem p name scope_type scope n.0 h in
    elim (Bool-cases b) [
      | inl e ↦ inr (
        record p { privileges = bit_or p.privileges (2 ^ k) } ∷ ps,
        rw (run, e) refl,
        (n.0, n.1),
        ground (
          arith,
          own e,
          digit-bit_or k p.privileges (2 ^ k),
          digit-pow k k,
          digit-lt k p.privileges,
        ),
      )
      | inr e ↦ elim (change_cases k ps name scope_type scope n.1 h) [
        | inl r ↦ inl (rw (run, e, r) refl)
        | inr (qs, r, m, has) ↦ inr (p ∷ qs, rw (run, e, r) refl, (n.0, m), ground arith)
      ]
    ]

covers_own :
    (name : Bytes) (scope_type : ℕ) (scope : Option Bytes) (privileges : ℕ)
    → is_proper scope_type scope ≡ true
    → let p : Privilege = record {
      username = name;
      scope_type = scope_type;
      scope_name = scope;
      privileges = privileges;
    } in
      (named p ≡ true) × (covers p scope_type scope ≡ true)
covers_own name scope_type none privileges h = (ground arith, ground arith)
covers_own name scope_type (some s) privileges h =
    (ground arith, ground (arith, bytes_eq_refl s, is_prefix_refl s))

-- what a grant leaves
pub record Grants (users : AuthenticationManager) (name : Bytes) (scope_type : ℕ)
    (scope : Option Bytes) (k : ℕ) (r : AuthorizationManager × Bool) : Type 0 where
  pub done : r.1 ≡ true
  pub records : IsNamed r.0
  pub allowed : authz_check_privilege users r.0 name scope_type scope (2 ^ k) ≡ some true

-- The grant of the k-th privilege to an active user, on a manager whose records are named and with a
-- scope name given exactly below the global scope, is defined and succeeds where its record can be
-- allocated. The records are named afterwards, and the check of the request holds.
pub grant-Grants :
    (users : AuthenticationManager) (m : AuthorizationManager) (name : Bytes) (u : User)
    (scope_type : ℕ) (scope : Option Bytes) (k : ℕ)
    → auth_get_user users name ≡ some u
    → is_active u.status ≡ true
    → IsNamed m
    → is_proper scope_type scope ≡ true
    → (r : AuthorizationManager × Bool) × (authz_grant_privilege true users m name scope_type scope
          (2 ^ k)
        ≡ some r)
      × Grants users name scope_type scope k r
unfolding authz_grant_privilege auth_check_user_status
grant-Grants users m name u scope_type scope k e a n h =
    let status : auth_check_user_status users name ≡ true = rw (auth_check_user_status, e) a in
    let low : ltb 3 scope_type ≡ false = proper_low scope_type scope h in
    elim (change_cases k m.privileges name scope_type scope n h) [
      | inr (qs, run, m', has) ↦ (
        (record m { privileges = qs }, true),
        rw (authz_grant_privilege, e, low, run) refl,
        record {
          done = refl;
          records = m';
          allowed =
              check-has users (record m { privileges = qs }) name scope_type scope k m'
              ∙ rw (status, has) refl;
        },
      )
      | inl run ↦
          let p : Privilege = record {
            username = name;
            scope_type = scope_type;
            scope_name = scope;
            privileges = 2 ^ k;
          } in
          let (n', c) = covers_own name scope_type scope (2 ^ k) h in
          let next : AuthorizationManager = record m {
            privileges = p ∷ m.privileges;
            privilege_count = (m.privilege_count + 1) % 2 ^ 64;
          } in
          let bit : (digit k (2 ^ k) == 1) ≡ true = rw (digit-pow k k) (ground arith) in
          (
            (next, true),
            rw (authz_grant_privilege, e, low, run) refl,
            record {
              done = refl;
              records = (n', n);
              allowed =
                  check-has users next name scope_type scope k (n', n)
                  ∙ rw (status, bytes_eq_refl name, c, bit) refl;
            },
          )
    ]
  where
    proper_low :
        (scope_type : ℕ) (scope : Option Bytes)
        → is_proper scope_type scope ≡ true
        → ltb 3 scope_type ≡ false
    proper_low scope_type none h = ground arith
    proper_low scope_type (some s) h = ground arith
