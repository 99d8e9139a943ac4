-- ===== src/Authentication/Invariant.antt =====
-- Every call of src/security/authentication.c keeps the list of users and its count in order.
use micro_meow_db.Prelude.{
  ℕ, ◌+◌, ◌%◌, ◌^◌, ◌<◌, ◌≡◌, refl, Bool, List, [], ◌∷◌, Bytes, bytes_eq, length, length-append,
  leb, arith, Bool-cases, Option-cases, inl, inr,
}
use micro_meow_db.Authentication.{
  User, UserStatus, locked, sha512, LoginAttempt, AuthenticationManager, Digests, PasswordAlloc,
  find_user, modify_user, auth_get_user, auth_create_user, auth_generate_salt,
  auth_generate_password_hash, set_status, auth_lock_user, find_or_create_attempt,
  auth_record_login_attempt, auth_verify_password, auth_change_password, auth_delete_user,
  is_active,
}
use micro_meow_db.Authentication.Lists.{
  IsDistinct, length-modify, length-unlink, modify-IsDistinct, unlink-IsDistinct, append-IsDistinct,
}

-- The users have different names, their number is counted in 64 bits, and the limit is positive.
pub record IsValid (m : AuthenticationManager) : Type 0 where
  pub distinct : IsDistinct m.users
  pub counted : m.user_count ≡ length m.users % 2 ^ 64
  pub limit : 0 < m.max_login_attempts

modify-IsValid :
    (m : AuthenticationManager) (f : User → User) (name : Bytes)
    → ((u : User) → (f u).username ≡ u.username)
    → IsValid m
    → IsValid (record m { users = modify_user f m.users name })
modify-IsValid m f name n v = record {
  distinct = modify-IsDistinct f m.users name n v.distinct;
  counted = omega (arith, v.counted, length-modify f m.users name);
  limit = v.limit;
}

attempts-IsValid :
    (m : AuthenticationManager) (as' : List LoginAttempt)
    → IsValid m
    → IsValid (record m { login_attempts = as' })
attempts-IsValid m as' v = record { distinct = v.distinct; counted = v.counted; limit = v.limit }

pub set_status-IsValid :
    (s : UserStatus) (m : AuthenticationManager) (name : Bytes)
    → IsValid m
    → IsValid (set_status s m name).0
unfolding set_status
set_status-IsValid s m name v = elim (Option-cases (auth_get_user m name)) [
  | inl e ↦ rw (set_status, e) v
  | inr (u, e) ↦
      rw (set_status, e) (modify-IsValid m (λ u. record u { status = s }) name (λ u. refl) v)
]

pub create-IsValid :
    (d : Digests) (granted : PasswordAlloc) (rand : ℕ → ℕ) (now : ℕ) (m : AuthenticationManager)
    (name password : Bytes)
    → IsValid m
    → IsValid (auth_create_user d granted rand now m name password).0
unfolding auth_create_user auth_get_user
create-IsValid d granted rand now m name password v = elim (Option-cases (find_user m.users name)) [
  | inr (u, e) ↦ rw (auth_create_user, e) v
  | inl e ↦ elim (Option-cases (auth_generate_salt granted.salt rand 16)) [
    | inl s ↦ rw (auth_create_user, e, s) v
    | inr (salt, s) ↦
        elim (Option-cases (auth_generate_password_hash d granted.hash password salt sha512)) [
          | inl h ↦ rw (auth_create_user, e, s, h) v
          | inr (hash, h) ↦ elim (Bool-cases granted.user) [
            | inr g ↦ rw (auth_create_user, e, s, h, g) v
            | inl g ↦
                rw (auth_create_user, e, s, h, g)
                  (record {
                    distinct = append-IsDistinct m.users _ v.distinct e;
                    counted = omega (arith, v.counted, length-append {A = User} m.users (_ ∷ []));
                    limit = v.limit;
                  })
          ]
        ]
  ]
]

pub record-IsValid :
    (granted : Bool) (now : ℕ) (m : AuthenticationManager) (name : Bytes) (success : Bool)
    → IsValid m
    → IsValid (auth_record_login_attempt granted now m name success).0
unfolding auth_record_login_attempt auth_lock_user
record-IsValid granted now m name success v =
    elim (Option-cases (find_or_create_attempt granted m.login_attempts name)) [
      | inl e ↦ rw (auth_record_login_attempt, e) v
      | inr ((as', a), e) ↦ elim (Bool-cases success) [
        | inl s ↦ rw (auth_record_login_attempt, e, s) (attempts-IsValid m _ v)
        | inr s ↦ elim (Bool-cases (leb m.max_login_attempts (a.failed_attempts + 1))) [
          | inr l ↦ rw (auth_record_login_attempt, e, s, l) (attempts-IsValid m _ v)
          | inl l ↦
              rw (auth_record_login_attempt, e, s, l)
                (set_status-IsValid locked _ name (attempts-IsValid m _ v))
        ]
      ]
    ]

pub verify-IsValid :
    (d : Digests) (granted : (Bool × Bool) × Bool) (now : ℕ) (m : AuthenticationManager)
    (name password : Bytes)
    → IsValid m
    → IsValid (auth_verify_password d granted now m name password).0
unfolding auth_verify_password
verify-IsValid d granted now m name password v = elim (Option-cases (auth_get_user m name)) [
  | inl e ↦ rw (auth_verify_password, e) v
  | inr (u, e) ↦ elim (Bool-cases (is_active u.status)) [
    | inr a ↦ rw (auth_verify_password, e, a) v
    | inl a ↦
        elim (Option-cases
          (auth_generate_password_hash d granted.0 password u.salt u.password_hash_algorithm)) [
            | inl h ↦ rw (auth_verify_password, e, a, h) v
            | inr (hash, h) ↦
                let recorded =
                  record-IsValid granted.1 now m name (bytes_eq hash u.password_hash) v in
                elim (Bool-cases (bytes_eq hash u.password_hash)) [
                  | inl r ↦
                      rw (auth_verify_password, e, a, h, r)
                        (modify-IsValid _ (λ u. record u { last_login = now }) name (λ u. refl)
                          (rw r at recorded))
                  | inr r ↦ rw (auth_verify_password, e, a, h, r) (rw r at recorded)
                ]
          ]
  ]
]

pub change-IsValid :
    (d : Digests) (verifying : (Bool × Bool) × Bool) (granted : PasswordAlloc) (rand : ℕ → ℕ)
    (now : ℕ) (m : AuthenticationManager) (name old new : Bytes)
    → IsValid m
    → IsValid (auth_change_password d verifying granted rand now m name old new).0
unfolding auth_change_password
change-IsValid d verifying granted rand now m name old new v =
    let r = auth_verify_password d verifying now m name old in
    let verified = verify-IsValid d verifying now m name old v in
    elim (Bool-cases r.1) [
      | inr e ↦ rw (auth_change_password, e) verified
      | inl e ↦ elim (Option-cases (auth_get_user r.0 name)) [
        | inl g ↦ rw (auth_change_password, e, g) verified
        | inr (u, g) ↦ elim (Option-cases (auth_generate_salt granted.salt rand 16)) [
          | inl s ↦ rw (auth_change_password, e, g, s) verified
          | inr (salt, s) ↦
              elim (Option-cases
                (auth_generate_password_hash d granted.hash new salt u.password_hash_algorithm)) [
                  | inl h ↦ rw (auth_change_password, e, g, s, h) verified
                  | inr (hash, h) ↦
                      rw (auth_change_password, e, g, s, h)
                        (modify-IsValid r.0
                          (λ u. record u {
                            password_hash = hash;
                            salt = salt;
                            password_changed_at = now;
                          })
                          name (λ u. refl) verified)
                ]
        ]
      ]
    ]

pub delete-IsValid :
    (m : AuthenticationManager) (name : Bytes) → IsValid m → IsValid (auth_delete_user m name).0
unfolding auth_delete_user auth_get_user
delete-IsValid m name v = elim (Option-cases (find_user m.users name)) [
  | inl e ↦ rw (auth_delete_user, e) v
  | inr (u, e) ↦
      rw (auth_delete_user, e)
        (record {
          distinct = unlink-IsDistinct m.users name v.distinct;
          counted = omega (arith, v.counted, length-unlink m.users name u e);
          limit = v.limit;
        })
]
