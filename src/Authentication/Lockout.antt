-- ===== src/Authentication/Lockout.antt =====
-- The locking of users after failed logins in src/security/authentication.c.
use micro_meow_db.Prelude.{
  ℕ, ◌+◌, ◌≡◌, refl, ◌∙◌, Bool, true, false, none, some, List, [], ◌∷◌, Bytes, bytes_eq,
  bytes_eq_refl, length, All, ltb, ◌&&◌, ◌||◌, if◌then◌else◌, leb, arith, Bool-cases, Option-cases,
  inl, inr,
}
use micro_meow_db.Authentication.{
  User, locked, active, LoginAttempt, AuthenticationManager, Digests, find_user, modify_user,
  auth_get_user, auth_generate_password_hash, set_status, auth_lock_user, find_attempt,
  modify_attempt, find_or_create_attempt, auth_record_login_attempt, auth_verify_password,
  is_active,
}
use micro_meow_db.Authentication.Lists.{find-modify, find_attempt-modify}

-- the failures that are counted for a name
abbrev pub failures : AuthenticationManager → Bytes → ℕ
failures m name = elim (find_attempt m.login_attempts name) [
  | none ↦ 0
  | some a ↦ a.failed_attempts
]

-- A password whose hash with the salt of the user is not the one that is stored.
abbrev pub IsWrong : Digests → User → Bytes → Type 0
IsWrong d u password =
    (hash : Bytes) × (auth_generate_password_hash d (true, true) password u.salt
        u.password_hash_algorithm
      ≡ some hash)
    × (bytes_eq hash u.password_hash ≡ false)

-- what a failure leaves: the counter, the status of the user, and all other users
record Fails (m : AuthenticationManager) (name : Bytes) (u : User)
    (r : AuthenticationManager × Bool) : Type 0 where
  refused : r.1 ≡ false
  counted : failures r.0 name ≡ failures m name + 1
  status :
      find_user r.0.users name
      ≡ some (record u {
        status = if leb m.max_login_attempts (failures m name + 1) then locked else active;
      })
  others : (b : Bytes) → bytes_eq name b ≡ false → find_user r.0.users b ≡ find_user m.users b
  limit : r.0.max_login_attempts ≡ m.max_login_attempts

-- the records of a name after the search with creation
created_attempt :
    (as' : List LoginAttempt) (name : Bytes)
    → (bs : List LoginAttempt) × (a : LoginAttempt) × (find_or_create_attempt true as' name
        ≡ some (bs, a))
      × (find_attempt bs name ≡ some a)
      × (a.failed_attempts
          ≡ (elim (find_attempt as' name) [ none ↦ 0 | some a ↦ a.failed_attempts ]))
unfolding find_or_create_attempt find_attempt
created_attempt as' name = elim (Option-cases (find_attempt as' name)) [
  | inr (a, e) ↦ (as', a, rw (find_or_create_attempt, e) refl, e, rw e refl)
  | inl e ↦
      let fresh : LoginAttempt = record {
        username = name;
        failed_attempts = 0;
        last_failed_attempt = 0;
      } in
      (
        fresh ∷ as',
        fresh,
        rw (find_or_create_attempt, e) refl,
        rw (bytes_eq_refl name) refl,
        rw e refl,
      )
]

lock_lem :
    (m : AuthenticationManager) (name : Bytes) (u : User)
    → find_user m.users name ≡ some u
    → auth_lock_user m name
      ≡ (record m { users = modify_user (λ u. record u { status = locked }) m.users name }, true)
unfolding auth_lock_user set_status auth_get_user
lock_lem m name u e = rw (auth_lock_user, set_status, e) refl

record-Fails :
    (now : ℕ) (m : AuthenticationManager) (name : Bytes) (u : User)
    → find_user m.users name ≡ some u
    → u.status ≡ active
    → Fails m name u ((auth_record_login_attempt true now m name false).0, false)
unfolding auth_record_login_attempt
record-Fails now m name u e act =
    let (bs, a, run, found, counted) = created_attempt m.login_attempts name in
    let fail = λ (a : LoginAttempt). record a {
      failed_attempts = a.failed_attempts + 1;
      last_failed_attempt = now;
    } in
    let after : find_attempt (modify_attempt fail bs name) name ≡ some (fail a) =
      find_attempt-modify fail (λ a. refl) bs name name ∙ ground (arith, bytes_eq_refl name) in
    let lock = λ (u : User). record u { status = locked } in
    elim (Bool-cases (leb m.max_login_attempts (a.failed_attempts + 1))) [
      | inl l ↦
          rw
            (
              auth_record_login_attempt,
              run,
              l,
              lock_lem (record m { login_attempts = modify_attempt fail bs name }) name u e,
            )
            (record {
              refused = refl;
              counted = rw (failures, after) (ground arith);
              status =
                  find-modify lock (λ u. refl) m.users name name
                  ∙ ground (arith, bytes_eq_refl name);
              others = λ b n. find-modify lock (λ u. refl) m.users name b ∙ rw n refl;
              limit = refl;
            })
      | inr l ↦
          rw (auth_record_login_attempt, run, l)
            (record {
              refused = refl;
              counted = rw (failures, after) (ground arith);
              status = ground arith;
              others = λ b n. refl;
              limit = refl;
            })
    ]

verify-Fails :
    (d : Digests) (now : ℕ) (m : AuthenticationManager) (name : Bytes) (u : User) (password : Bytes)
    → find_user m.users name ≡ some u
    → u.status ≡ active
    → IsWrong d u password
    → Fails m name u (auth_verify_password d ((true, true), true) now m name password)
unfolding auth_verify_password auth_get_user is_active
verify-Fails d now m name u password e act (hash, h, wrong) =
    let a : is_active u.status ≡ true = rw act refl in
    rw (auth_verify_password, e, a, h, wrong) (record-Fails now m name u e act)

-- A user that is not active is refused, and nothing changes.
verify_inactive :
    (d : Digests) (granted : (Bool × Bool) × Bool) (now : ℕ) (m : AuthenticationManager)
    (name : Bytes) (u : User) (password : Bytes)
    → find_user m.users name ≡ some u
    → is_active u.status ≡ false
    → auth_verify_password d granted now m name password ≡ (m, false)
unfolding auth_verify_password auth_get_user
verify_inactive d granted now m name u password e a = rw (auth_verify_password, e, a) refl

-- the manager after logins of one user, and whether one of them succeeded
unfoldable pub logins :
    Digests → ℕ → AuthenticationManager → Bytes → List Bytes → AuthenticationManager × Bool
logins d now m name [] = (m, false)
logins d now m name (password ∷ ps) =
    let one = auth_verify_password d ((true, true), true) now m name password in
    let rest = logins d now one.0 name ps in (rest.0, one.1 || rest.1)

logins_inactive :
    (d : Digests) (now : ℕ) (m : AuthenticationManager) (name : Bytes) (u : User) (ps : List Bytes)
    → find_user m.users name ≡ some u
    → is_active u.status ≡ false
    → logins d now m name ps ≡ (m, false)
unfolding logins is_active
logins_inactive d now m name u [] e a = refl
logins_inactive d now m name u (p ∷ ps) e a =
    rw (verify_inactive d ((true, true), true) now m name u p e a)
      (rw (logins_inactive d now m name u ps e a) refl)

-- what logins with wrong passwords leave
pub record Locks (m : AuthenticationManager) (name : Bytes) (u : User) (tried : ℕ)
    (r : AuthenticationManager × Bool) : Type 0 where
  pub refused : r.1 ≡ false
  pub status :
      find_user r.0.users name
      ≡ some (record u {
        status =
            if (ltb 0 tried) && leb m.max_login_attempts (failures m name + tried)
            then locked
            else active;
      })
  pub others : (b : Bytes) → bytes_eq name b ≡ false → find_user r.0.users b ≡ find_user m.users b

-- Any number of logins of an active user with wrong passwords, where all allocations succeed, are
-- all refused. They lock the user exactly if there is one at least and the failures counted before
-- and they together reach the limit; no other user changes.
pub logins-Locks :
    (d : Digests) (now : ℕ) (m : AuthenticationManager) (name : Bytes) (u : User) (ps : List Bytes)
    → find_user m.users name ≡ some u
    → u.status ≡ active
    → All (IsWrong d u) ps
    → Locks m name u (length ps) (logins d now m name ps)
unfolding logins is_active
logins-Locks d now m name u [] e act wrong = record {
  refused = refl;
  status = ground arith;
  others = λ b n. refl;
}
logins-Locks d now m name u (p ∷ ps) e act wrong =
    let f = verify-Fails d now m name u p e act wrong.0 in
    let one = auth_verify_password d ((true, true), true) now m name p in
    elim (Bool-cases (leb m.max_login_attempts (failures m name + 1))) [
      | inl l ↦
          let s : find_user one.0.users name ≡ some (record u { status = locked }) =
            f.status ∙ rw l refl in
          let stop = logins_inactive d now one.0 name (record u { status = locked }) ps s refl in
          rw stop
            (record { refused = rw f.refused refl; status = s ∙ ground arith; others = f.others })
      | inr l ↦
          let s : find_user one.0.users name ≡ some (record u { status = active }) =
            f.status ∙ rw l refl in
          let rest =
            logins-Locks d now one.0 name (record u { status = active }) ps s refl wrong.1 in
          record {
            refused = rw (f.refused, rest.refused) refl;
            status = rest.status ∙ ground (arith, f.counted, f.limit);
            others = λ b n. rest.others b n ∙ f.others b n;
          }
    ]
