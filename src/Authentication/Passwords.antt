-- ===== src/Authentication/Passwords.antt =====
-- A password that src/security/authentication.c has stored is the one that it accepts.
use micro_meow_db.Prelude.{
  ℕ, ◌≡◌, refl, ◌∙◌, Bool, true, none, some, List, [], ◌∷◌, ◌++◌, Bytes, bytes_eq, bytes_eq_refl,
  arith, Bool-cases, Option-cases, inl, inr,
}
use micro_meow_db.Authentication.{
  User, active, HashAlgorithm, sha256, sha512, bcrypt, unknown, AuthenticationManager, Digests,
  PasswordAlloc, find_user, modify_user, auth_get_user, auth_generate_salt,
  auth_generate_password_hash, auth_create_user, find_or_create_attempt, auth_record_login_attempt,
  auth_verify_password, auth_change_password, is_active,
}
use micro_meow_db.Authentication.Lists.{find-modify, find-append}

-- Two computations of a hash that both come to an end agree.
hash_agree :
    (d : Digests) (g : Bool × Bool) (password salt : Bytes) (a : HashAlgorithm) (hash : Bytes)
    → auth_generate_password_hash d g password salt a ≡ some hash
    → auth_generate_password_hash d (true, true) password salt a ≡ some hash
unfolding auth_generate_password_hash
hash_agree d (g, h) password salt sha256 hash e = ground arith
hash_agree d (g, h) password salt sha512 hash e = ground arith
hash_agree d (g, h) password salt bcrypt hash e = ground arith
hash_agree d (g, h) password salt (unknown n) hash e = ground arith

-- the outcome of a verification of an active user
verify_lem :
    (d : Digests) (granted : (Bool × Bool) × Bool) (now : ℕ) (m : AuthenticationManager)
    (name : Bytes) (u : User) (password hash : Bytes)
    → find_user m.users name ≡ some u
    → is_active u.status ≡ true
    → auth_generate_password_hash d granted.0 password u.salt u.password_hash_algorithm ≡ some hash
    → (auth_verify_password d granted now m name password).1 ≡ bytes_eq hash u.password_hash
unfolding auth_verify_password auth_get_user
verify_lem d granted now m name u password hash e a h =
    elim (Bool-cases (bytes_eq hash u.password_hash)) [
      | inl r ↦ rw (auth_verify_password, e, a, h, r) refl
      | inr r ↦ rw (auth_verify_password, e, a, h, r) refl
    ]

found_last :
    (us : List User) (u : User)
    → find_user us u.username ≡ none
    → find_user (us ++ u ∷ []) u.username ≡ some u
unfolding find_user
found_last us u e = find-append us (u ∷ []) u.username ∙ rw (e, bytes_eq_refl u.username) refl

-- A user whom a creation has added is accepted with that password, where the hash of the login can
-- be allocated: at any later time, and whatever the salt.
pub verify-create :
    (d : Digests) (granted : PasswordAlloc) (rand : ℕ → ℕ) (now later : ℕ)
    (m : AuthenticationManager) (name password : Bytes) (recorded : Bool)
    → (auth_create_user d granted rand now m name password).1 ≡ true
    → (auth_verify_password d
        ((true, true), recorded)
        later
        (auth_create_user d granted rand now m name password).0
        name
        password).1
      ≡ true
unfolding auth_create_user auth_get_user is_active
verify-create d granted rand now later m name password recorded done =
    elim (Option-cases (find_user m.users name)) [
      | inr (u, e) ↦ let k = rw (auth_create_user, e) at done in cc
      | inl e ↦ elim (Option-cases (auth_generate_salt granted.salt rand 16)) [
        | inl s ↦ let k = rw (auth_create_user, e, s) at done in cc
        | inr (salt, s) ↦
            elim (Option-cases (auth_generate_password_hash d granted.hash password salt sha512)) [
              | inl h ↦ let k = rw (auth_create_user, e, s, h) at done in cc
              | inr (hash, h) ↦ elim (Bool-cases granted.user) [
                | inr g ↦ let k = rw (auth_create_user, e, s, h, g) at done in cc
                | inl g ↦
                    let u : User = record {
                      username = name;
                      password_hash = hash;
                      salt = salt;
                      password_hash_algorithm = sha512;
                      status = active;
                      created_at = now;
                      last_login = 0;
                      password_changed_at = now;
                    } in
                    let found : find_user (m.users ++ u ∷ []) name ≡ some u =
                      found_last m.users u e in
                    rw (auth_create_user, e, s, h, g)
                      (verify_lem d ((true, true), recorded) later _ name u password hash found refl
                          (hash_agree d granted.hash password salt sha512 hash h)
                        ∙ bytes_eq_refl hash)
              ]
            ]
      ]
    ]

-- A success changes no user.
success_users :
    (granted : Bool) (now : ℕ) (m : AuthenticationManager) (name : Bytes)
    → (auth_record_login_attempt granted now m name true).0.users ≡ m.users
unfolding auth_record_login_attempt
success_users granted now m name =
    elim (Option-cases (find_or_create_attempt granted m.login_attempts name)) [
      | inl e ↦ rw (auth_record_login_attempt, e) refl
      | inr (r, e) ↦ rw (auth_record_login_attempt, e) refl
    ]

-- what a verification with the result true says of the user, before it and after it
pub verified_user :
    (d : Digests) (granted : (Bool × Bool) × Bool) (now : ℕ) (m : AuthenticationManager)
    (name password : Bytes)
    → (auth_verify_password d granted now m name password).1 ≡ true
    → (u : User) × (find_user m.users name ≡ some u)
      × (is_active u.status ≡ true)
      × (find_user (auth_verify_password d granted now m name password).0.users name
          ≡ some (record u { last_login = now }))
unfolding auth_verify_password auth_get_user auth_record_login_attempt
verified_user d granted now m name password done = elim (Option-cases (find_user m.users name)) [
  | inl e ↦ let k = rw (auth_verify_password, e) at done in cc
  | inr (u, e) ↦ elim (Bool-cases (is_active u.status)) [
    | inr a ↦ let k = rw (auth_verify_password, e, a) at done in cc
    | inl a ↦
        elim (Option-cases
          (auth_generate_password_hash d granted.0 password u.salt u.password_hash_algorithm)) [
            | inl h ↦ let k = rw (auth_verify_password, e, a, h) at done in cc
            | inr (hash, h) ↦ elim (Bool-cases (bytes_eq hash u.password_hash)) [
              | inr r ↦ let k = rw (auth_verify_password, e, a, h, r) at done in cc
              | inl r ↦
                  let login = λ (u : User). record u { last_login = now } in
                  let kept : (auth_record_login_attempt granted.1 now m name true).0.users
                      ≡ m.users =
                    success_users granted.1 now m name in
                  (
                    u,
                    e,
                    a,
                    rw (auth_verify_password, e, a, h, r)
                        (rw kept (
                          find-modify login (λ u. refl) m.users name name
                          ∙ ground (arith, bytes_eq_refl name))),
                  )
            ]
          ]
  ]
]

-- After a change of the password with the result true, the new one is accepted, where the hash of
-- the login can be allocated.
pub verify-change :
    (d : Digests) (verifying : (Bool × Bool) × Bool) (granted : PasswordAlloc) (rand : ℕ → ℕ)
    (now later : ℕ) (m : AuthenticationManager) (name old new : Bytes) (recorded : Bool)
    → (auth_change_password d verifying granted rand now m name old new).1 ≡ true
    → (auth_verify_password d
        ((true, true), recorded)
        later
        (auth_change_password d verifying granted rand now m name old new).0
        name
        new).1
      ≡ true
unfolding auth_change_password auth_get_user
verify-change d verifying granted rand now later m name old new recorded done =
    let r = auth_verify_password d verifying now m name old in
    elim (Bool-cases r.1) [
      | inr e ↦ let k = rw (auth_change_password, e) at done in cc
      | inl e ↦
          let (u, before, a, after) = verified_user d verifying now m name old e in
          elim (Option-cases (auth_generate_salt granted.salt rand 16)) [
            | inl s ↦ let k = rw (auth_change_password, e, after, s) at done in cc
            | inr (salt, s) ↦
                elim (Option-cases
                  (auth_generate_password_hash d granted.hash new salt u.password_hash_algorithm)) [
                    | inl h ↦ let k = rw (auth_change_password, e, after, s, h) at done in cc
                    | inr (hash, h) ↦
                        let put = λ (u : User). record u {
                          password_hash = hash;
                          salt = salt;
                          password_changed_at = now;
                        } in
                        let found : find_user (modify_user put r.0.users name) name
                            ≡ some (put (record u { last_login = now })) =
                          find-modify put (λ u. refl) r.0.users name name
                          ∙ rw (after, bytes_eq_refl name) refl in
                        rw (auth_change_password, e, after, s, h)
                          (verify_lem d ((true, true), recorded) later _ name
                              (put (record u { last_login = now })) new hash found a
                              (hash_agree d granted.hash new salt u.password_hash_algorithm hash h)
                            ∙ bytes_eq_refl hash)
                  ]
          ]
    ]
