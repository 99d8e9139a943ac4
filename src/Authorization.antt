-- ===== src/Authorization.antt =====
-- src/security/authorization.c: roles, the roles of users, and privileges of users in a scope. The
-- manager points to the manager of the users, whose current state is the argument `users`. Outside,
-- `none` is what C leaves undefined, a `NULL` handed to `strcmp` or `strstr`. Strings but the name
-- of a scope are never `NULL`, scope types are not negative, and `strdup` is taken to succeed.
pub mod Bits
pub mod Checks
pub mod Scopes
mod Examples
use micro_meow_db.Prelude.{
  ℕ, zero, suc, ◌+◌, ◌-◌, ◌*◌, ◌%◌, ◌^◌, bit_and, bit_or, Bool, true, false, ◌&&◌, ◌||◌, Option,
  none, some, List, [], ◌∷◌, Bytes, bytes_eq, length, ltb, leb, ◌==◌, if◌then◌else◌, ◌>>=◌,
}
use micro_meow_db.Prelude.Digits.{complement}
use micro_meow_db.Authentication.{AuthenticationManager, auth_get_user, auth_check_user_status}

pub record Role : Type 0 where
  pub role_name : Bytes
  pub privileges : ℕ

pub record Privilege : Type 0 where
  pub username : Bytes
  pub scope_type : ℕ
  pub scope_name : Option Bytes
  pub privileges : ℕ

pub record UserRole : Type 0 where
  pub username : Bytes
  pub role_name : Bytes

pub record AuthorizationManager : Type 0 where
  pub roles : List Role
  pub role_count : ℕ
  pub privileges : List Privilege
  pub privilege_count : ℕ
  pub user_roles : List UserRole
  pub user_role_count : ℕ

unfoldable pub authz_manager_init : Bool → Option AuthorizationManager
authz_manager_init granted =
    if granted
    then some (record {
      roles = [];
      role_count = 0;
      privileges = [];
      privilege_count = 0;
      user_roles = [];
      user_role_count = 0;
    })
    else none

unfoldable pub find_role : List Role → Bytes → Option Role
find_role [] name = none
find_role (r ∷ rs) name = if bytes_eq r.role_name name then some r else find_role rs name

unfoldable pub authz_get_role : AuthorizationManager → Bytes → Option Role
authz_get_role m name = find_role m.roles name

-- the new role behind the last one
unfoldable pub append_role : List Role → Role → List Role
append_role [] role = role ∷ []
append_role (r ∷ rs) role = r ∷ append_role rs role

unfoldable pub authz_create_role :
    Bool → AuthorizationManager → Bytes → ℕ → AuthorizationManager × Bool
authz_create_role granted m name privileges = elim (authz_get_role m name) [
  | some r ↦ (m, false)
  | none ↦
      if granted
      then (
        record m {
          roles = append_role m.roles (record { role_name = name; privileges = privileges });
          role_count = (m.role_count + 1) % 2 ^ 64;
        },
        true,
      )
      else (m, false)
]

unfoldable pub unlink_role : List Role → Bytes → List Role
unlink_role [] name = []
unlink_role (r ∷ rs) name = if bytes_eq r.role_name name then rs else r ∷ unlink_role rs name

unfoldable pub authz_drop_role : AuthorizationManager → Bytes → AuthorizationManager × Bool
authz_drop_role m name = elim (authz_get_role m name) [
  | none ↦ (m, false)
  | some r ↦ (
    record m {
      roles = unlink_role m.roles name;
      role_count = (m.role_count + (2 ^ 64 - 1)) % 2 ^ 64;
    },
    true,
  )
]

-- a write to the privileges of the role that the walk finds
unfoldable pub modify_role : (ℕ → ℕ) → List Role → Bytes → List Role
modify_role f [] name = []
modify_role f (r ∷ rs) name =
    if bytes_eq r.role_name name
    then record r { privileges = f r.privileges } ∷ rs
    else r ∷ modify_role f rs name

unfoldable pub authz_grant_role_privileges :
    AuthorizationManager → Bytes → ℕ → AuthorizationManager × Bool
authz_grant_role_privileges m name privileges = elim (authz_get_role m name) [
  | none ↦ (m, false)
  | some r ↦ (record m { roles = modify_role (λ p. bit_or p privileges) m.roles name }, true)
]

unfoldable pub authz_revoke_role_privileges :
    AuthorizationManager → Bytes → ℕ → AuthorizationManager × Bool
authz_revoke_role_privileges m name privileges = elim (authz_get_role m name) [
  | none ↦ (m, false)
  | some r ↦ (
    record m { roles = modify_role (λ p. bit_and p (complement 16 privileges)) m.roles name },
    true,
  )
]

unfoldable pub has_role : List UserRole → Bytes → Bytes → Bool
has_role [] name role = false
has_role (r ∷ rs) name role =
    (bytes_eq r.username name && bytes_eq r.role_name role) || has_role rs name role

unfoldable pub authz_grant_role_to_user :
    Bool
    → AuthenticationManager
    → AuthorizationManager
    → Bytes
    → Bytes
    → AuthorizationManager × Bool
authz_grant_role_to_user granted users m name role = elim (auth_get_user users name) [
  | none ↦ (m, false)
  | some u ↦ elim (authz_get_role m role) [
    | none ↦ (m, false)
    | some r ↦
        if has_role m.user_roles name role
        then (m, false)
        else if granted
        then (
          record m {
            user_roles = record { username = name; role_name = role } ∷ m.user_roles;
            user_role_count = (m.user_role_count + 1) % 2 ^ 64;
          },
          true,
        )
        else (m, false)
  ]
]

unfoldable pub unlink_user_role : List UserRole → Bytes → Bytes → List UserRole
unlink_user_role [] name role = []
unlink_user_role (r ∷ rs) name role =
    if bytes_eq r.username name && bytes_eq r.role_name role
    then rs
    else r ∷ unlink_user_role rs name role

unfoldable pub authz_revoke_role_from_user :
    AuthorizationManager → Bytes → Bytes → AuthorizationManager × Bool
authz_revoke_role_from_user m name role =
    if has_role m.user_roles name role
    then (
      record m {
        user_roles = unlink_user_role m.user_roles name role;
        user_role_count = (m.user_role_count + (2 ^ 64 - 1)) % 2 ^ 64;
      },
      true,
    )
    else (m, false)

-- the test of the walks of `authz_grant_privilege` and `authz_revoke_privilege`
unfoldable pub same_scope : Privilege → Bytes → ℕ → Option Bytes → Option Bool
same_scope p name scope_type none = some (bytes_eq p.username name && (p.scope_type == scope_type))
same_scope p name scope_type (some scope) =
    if bytes_eq p.username name && (p.scope_type == scope_type)
    then (p.scope_name >>= λ t. some (bytes_eq t scope))
    else some false

-- The walk with a change of the record that it finds: `none` as a change removes the record. The
-- inner `none` says that there is no such record.
unfoldable pub change_privilege :
    (Privilege → Option Privilege)
    → List Privilege
    → Bytes
    → ℕ
    → Option Bytes
    → Option (Option (List Privilege))
change_privilege f [] name scope_type scope = some none
change_privilege f (p ∷ ps) name scope_type scope = do
  let rest = change_privilege f ps name scope_type scope
  here ← same_scope p name scope_type scope
  if here
      then some (some (elim (f p) [ none ↦ ps | some q ↦ q ∷ ps ]))
      else (rest >>= λ r. some (r >>= λ qs. some (p ∷ qs)))

unfoldable pub authz_grant_privilege :
    Bool
    → AuthenticationManager
    → AuthorizationManager
    → Bytes
    → ℕ
    → Option Bytes
    → ℕ
    → Option (AuthorizationManager × Bool)
authz_grant_privilege granted users m name scope_type scope privileges =
    elim (auth_get_user users name) [
      | none ↦ some (m, false)
      | some u ↦
          if ltb 3 scope_type
          then some (m, false)
          else elim (change_privilege
              (λ p. some (record p { privileges = bit_or p.privileges privileges })) m.privileges
              name scope_type scope) [
                | none ↦ none
                | some (some ps) ↦ some (record m { privileges = ps }, true)
                | some none ↦
                    if granted
                    then some (
                      record m {
                        privileges =
                            record {
                              username = name;
                              scope_type = scope_type;
                              scope_name = scope;
                              privileges = privileges;
                            }
                            ∷ m.privileges;
                        privilege_count = (m.privilege_count + 1) % 2 ^ 64;
                      },
                      true,
                    )
                    else some (m, false)
              ]
    ]

-- A record without privileges left is removed.
unfoldable pub revoke_from : ℕ → Privilege → Option Privilege
revoke_from privileges p =
    let rest = bit_and p.privileges (complement 16 privileges) in
    if rest == 0 then none else some (record p { privileges = rest })

unfoldable pub authz_revoke_privilege :
    AuthorizationManager → Bytes → ℕ → Option Bytes → ℕ → Option (AuthorizationManager × Bool)
authz_revoke_privilege m name scope_type scope privileges =
    elim (change_privilege (revoke_from privileges) m.privileges name scope_type scope) [
      | none ↦ none
      | some none ↦ some (m, false)
      | some (some ps) ↦ some (
        record m {
          privileges = ps;
          privilege_count =
              if ltb (length ps) (length m.privileges)
              then (m.privilege_count + (2 ^ 64 - 1)) % 2 ^ 64
              else m.privilege_count;
        },
        true,
      )
    ]

-- `strstr(s, t) == s`
unfoldable pub is_prefix : Bytes → Bytes → Bool
is_prefix [] s = true
is_prefix (b ∷ t) [] = false
is_prefix (b ∷ t) (c ∷ s) = (b == c) && is_prefix t s

-- whether a record of the user counts for a request
unfoldable pub applies : Privilege → ℕ → Option Bytes → Option Bool
applies p scope_type scope =
    if p.scope_type == 0
    then some true
    else if (p.scope_type == 1) && leb 1 scope_type
    then elim scope [ none ↦ some true | some s ↦ p.scope_name >>= λ t. some (is_prefix t s) ]
    else if ((p.scope_type == 2) && leb 2 scope_type) || ((p.scope_type == 3) && (scope_type == 3))
    then elim scope [ none ↦ some false | some s ↦ p.scope_name >>= λ t. some (bytes_eq t s) ]
    else some false

-- the loop over the records, from a total
unfoldable pub collect_direct : ℕ → List Privilege → Bytes → ℕ → Option Bytes → Option ℕ
collect_direct total [] name scope_type scope = some total
collect_direct total (p ∷ ps) name scope_type scope = do
  counts ← if bytes_eq p.username name then applies p scope_type scope else some false
  collect_direct (if counts then bit_or total p.privileges else total) ps name scope_type scope

-- the loop over the roles of users, from a total
unfoldable pub collect_roles : ℕ → List Role → List UserRole → Bytes → ℕ
collect_roles total roles [] name = total
collect_roles total roles (r ∷ rs) name =
    collect_roles
      (if bytes_eq r.username name
        then (elim (find_role roles r.role_name) [
          | none ↦ total
          | some role ↦ bit_or total role.privileges
        ])
        else total)
      roles rs name

unfoldable pub authz_get_user_privileges :
    AuthorizationManager → Bytes → ℕ → Option Bytes → Option ℕ
authz_get_user_privileges m name scope_type scope = do
  direct ← collect_direct 0 m.privileges name scope_type scope
  some (collect_roles direct m.roles m.user_roles name)

unfoldable pub authz_check_privilege :
    AuthenticationManager → AuthorizationManager → Bytes → ℕ → Option Bytes → ℕ → Option Bool
authz_check_privilege users m name scope_type scope privilege =
    if auth_check_user_status users name
    then (authz_get_user_privileges m name scope_type scope >>= λ all.
        some (if bit_and all privilege == 0 then false else true))
    else some false

unfoldable pub count_roles : List UserRole → Bytes → ℕ
count_roles [] name = 0
count_roles (r ∷ rs) name =
    if bytes_eq r.username name then suc (count_roles rs name) else count_roles rs name

unfoldable pub roles_of : List Role → List UserRole → Bytes → List Role
roles_of roles [] name = []
roles_of roles (r ∷ rs) name =
    let rest = roles_of roles rs name in
    if bytes_eq r.username name
    then (elim (find_role roles r.role_name) [ none ↦ rest | some role ↦ role ∷ rest ])
    else rest

-- the number that is written to `*role_count`, and the roles that are written to an array of as many
unfoldable pub authz_get_user_roles : Bool → AuthorizationManager → Bytes → ℕ × Option (List Role)
authz_get_user_roles granted m name =
    let count = count_roles m.user_roles name in
    (
      count,
      if count == 0
          then none
          else if granted
          then some (roles_of m.roles m.user_roles name)
          else none,
    )
