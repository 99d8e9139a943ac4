-- ===== src/Authorization/Scopes.antt =====
-- What src/security/authorization.c makes of records without a scope name, and of users who are
-- deleted and created again.
use micro_meow_db.Prelude.{
  ℕ, ◌+◌, ◌%◌, ◌^◌, ◌≤◌, ◌<◌, ◌≡◌, refl, Bool, true, false, ◌&&◌, ◌||◌, Option, none, some, List,
  [], ◌∷◌, Bytes, bytes_eq, bytes_eq_refl, ltb, ◌==◌, arith,
}
use micro_meow_db.Authentication.{
  User, AuthenticationManager, Digests, PasswordAlloc, auth_get_user, auth_check_user_status,
  is_active, auth_create_user, auth_delete_user,
}
use micro_meow_db.Authentication.Passwords.{verify-create, verified_user}
use micro_meow_db.Authorization.{
  Privilege, AuthorizationManager, same_scope, change_privilege, applies, collect_direct,
  authz_get_user_privileges, authz_check_privilege, authz_grant_privilege,
}

-- whether there is a record of the user with this type of scope
abbrev pub has_record : List Privilege → Bytes → ℕ → Bool
has_record [] name scope_type = false
has_record (p ∷ ps) name scope_type =
    (bytes_eq p.username name && (p.scope_type == scope_type)) || has_record ps name scope_type

no_record :
    (f : Privilege → Option Privilege) (ps : List Privilege) (name : Bytes) (scope_type : ℕ)
    → has_record ps name scope_type ≡ false
    → change_privilege f ps name scope_type none ≡ some none
unfolding change_privilege same_scope
no_record f [] name scope_type h = refl
no_record f (p ∷ ps) name scope_type h = ground (arith, no_record f ps name scope_type)

-- The first privilege of an active user in a scope of a database, a table or a column, granted
-- without the name of the scope, is recorded where memory can be had. In the state right after the
-- grant, with the same users, every check of that user in that kind of scope, for any name and
-- privilege, reads a `NULL` name.
pub unnamed_grant_faults :
    (users : AuthenticationManager) (m : AuthorizationManager) (name scope : Bytes) (u : User)
    (scope_type privileges privilege : ℕ)
    → auth_get_user users name ≡ some u
    → is_active u.status ≡ true
    → 0 < scope_type
    → scope_type ≤ 3
    → has_record m.privileges name scope_type ≡ false
    → (next : AuthorizationManager) × (authz_grant_privilege true users m name scope_type none
          privileges
        ≡ some (next, true))
      × (authz_check_privilege users next name scope_type (some scope) privilege ≡ none)
unfolding authz_grant_privilege authz_check_privilege auth_check_user_status
    authz_get_user_privileges collect_direct applies
unnamed_grant_faults users m name scope u scope_type privileges privilege e a lo hi h =
    let low : ltb 3 scope_type ≡ false = ground arith in
    let status : auth_check_user_status users name ≡ true = rw (auth_check_user_status, e) a in
    let p : Privilege = record {
      username = name;
      scope_type = scope_type;
      scope_name = none;
      privileges = privileges;
    } in
    let next : AuthorizationManager = record m {
      privileges = p ∷ m.privileges;
      privilege_count = (m.privilege_count + 1) % 2 ^ 64;
    } in
    let faults : applies p scope_type (some scope) ≡ none = ground arith in
    (
      next,
      rw (authz_grant_privilege, e, low, no_record _ m.privileges name scope_type h) refl,
      rw (authz_check_privilege, status)
          (rw (authz_get_user_privileges, collect_direct, bytes_eq_refl name, faults) refl),
    )

-- A user who is active, is deleted, and is created again with any password has every privilege as
-- before: each check, for any scope and privilege, has the outcome that it had before the deletion.
pub check_recreated :
    (d : Digests) (granted : PasswordAlloc) (rand : ℕ → ℕ) (now : ℕ) (users : AuthenticationManager)
    (m : AuthorizationManager) (name password : Bytes) (scope_type : ℕ) (scope : Option Bytes)
    (privilege : ℕ)
    → auth_check_user_status users name ≡ true
    → let again =
        auth_create_user d granted rand now (auth_delete_user users name).0 name password in
      again.1 ≡ true
      → authz_check_privilege again.0 m name scope_type scope privilege
        ≡ authz_check_privilege users m name scope_type scope privilege
unfolding authz_check_privilege auth_check_user_status auth_get_user
check_recreated d granted rand now users m name password scope_type scope privilege before done =
    let gone = (auth_delete_user users name).0 in
    let again = auth_create_user d granted rand now gone name password in
    let login = verify-create d granted rand now now gone name password true done in
    let (u, found, a, _) = verified_user d ((true, true), true) now again.0 name password login in
    let after : auth_check_user_status again.0 name ≡ true = rw (auth_check_user_status, found) a in
    rw (authz_check_privilege, before, after) refl
