-- ===== src/Authorization/Examples.antt =====
-- Concrete runs of the authorization.
use micro_meow_db.Prelude.{
  ◌^◌, ◌≡◌, refl, Bool, true, ◌&&◌, ◌||◌, none, some, [], ◌∷◌, bytes_eq, arith,
}
use micro_meow_db.Authentication.{
  User, active, sha512, AuthenticationManager, Digests, PasswordAlloc, find_user, auth_get_user,
  auth_check_user_status, is_active, auth_create_user, auth_delete_user, unlink_user,
  auth_generate_salt, auth_generate_password_hash,
}
use micro_meow_db.Authorization.{AuthorizationManager, authz_check_privilege, authz_grant_privilege}
use micro_meow_db.Authorization.Bits.{has_direct, has_by_role}
use micro_meow_db.Authorization.Checks.{check-has, Grants, grant-Grants}
use micro_meow_db.Authorization.Scopes.{unnamed_grant_faults, check_recreated}

abbrev mia : User
mia = record {
  username = 109 ∷ [];
  password_hash = [];
  salt = [];
  password_hash_algorithm = sha512;
  status = active;
  created_at = 1;
  last_login = 0;
  password_changed_at = 1;
}

abbrev users : AuthenticationManager
users = record {
  users = mia ∷ [];
  user_count = 1;
  encryption_key = none;
  max_login_attempts = 2;
  lockout_duration = 300;
  login_attempts = [];
}

-- mia may select in each database whose name begins with "d"
abbrev manager : AuthorizationManager
manager = record {
  roles = [];
  role_count = 0;
  privileges =
      record { username = 109 ∷ []; scope_type = 1; scope_name = some (100 ∷ []); privileges = 1 }
      ∷ [];
  privilege_count = 1;
  user_roles = [];
  user_role_count = 0;
}

abbrev empty : AuthorizationManager
empty = record manager { privileges = []; privilege_count = 0 }

found : auth_get_user users (109 ∷ []) ≡ some mia
unfolding auth_get_user find_user bytes_eq
found = refl

allowed_active : is_active mia.status ≡ true
unfolding is_active
allowed_active = refl

check-has_example :
    authz_check_privilege users manager (109 ∷ []) 1 (some (100 ∷ 98 ∷ [])) (2 ^ 0)
    ≡ some (
        auth_check_user_status users (109 ∷ [])
        && (has_direct 0 manager.privileges (109 ∷ []) 1 (some (100 ∷ 98 ∷ []))
            || has_by_role 0 manager.roles manager.user_roles (109 ∷ [])))
check-has_example = check-has users manager (109 ∷ []) 1 (some (100 ∷ 98 ∷ [])) 0 (refl, tt)

grant-Grants_example :
    (r : AuthorizationManager × Bool) × (authz_grant_privilege true users manager
        (109 ∷ [])
        2
        (some (116 ∷ []))
        (2 ^ 1)
      ≡ some r)
    × Grants users (109 ∷ []) 2 (some (116 ∷ [])) 1 r
grant-Grants_example =
    grant-Grants users manager (109 ∷ []) mia 2 (some (116 ∷ [])) 1 found allowed_active (refl, tt)
      refl

unnamed_grant_faults_example :
    (next : AuthorizationManager) × (authz_grant_privilege true users empty (109 ∷ []) 2 none 1
      ≡ some (next, true))
    × (authz_check_privilege users next (109 ∷ []) 2 (some (116 ∷ [])) 1 ≡ none)
unnamed_grant_faults_example =
    unnamed_grant_faults users empty (109 ∷ []) (116 ∷ []) mia 2 1 1 found allowed_active
      (omega arith) (omega arith) refl

abbrev plain : Digests
plain = record { digest256 = λ s. s; digest512 = λ s. s }

abbrev all_granted : PasswordAlloc
all_granted = record { salt = true; hash = (true, true); user = true }

abbrev again : AuthenticationManager × Bool
again =
    auth_create_user plain all_granted (λ i. i) 7 (auth_delete_user users (109 ∷ [])).0 (109 ∷ [])
      (65 ∷ [])

created : again.1 ≡ true
unfolding auth_create_user auth_delete_user auth_get_user find_user unlink_user auth_generate_salt
    auth_generate_password_hash bytes_eq
created = refl

was_active : auth_check_user_status users (109 ∷ []) ≡ true
unfolding auth_check_user_status auth_get_user find_user is_active bytes_eq
was_active = refl

check_recreated_example :
    authz_check_privilege again.0 manager (109 ∷ []) 1 (some (100 ∷ [])) 1
    ≡ authz_check_privilege users manager (109 ∷ []) 1 (some (100 ∷ [])) 1
check_recreated_example =
    check_recreated plain all_granted (λ i. i) 7 users manager (109 ∷ []) (65 ∷ []) 1
      (some (100 ∷ [])) 1 was_active created
