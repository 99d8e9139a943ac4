-- ===== src/Authentication/Examples.antt =====
-- Concrete runs of the authentication.
use micro_meow_db.Prelude.{◌≡◌, refl, true, none, some, [], ◌∷◌, bytes_eq, arith}
use micro_meow_db.Authentication.{
  User, active, sha512, AuthenticationManager, Digests, PasswordAlloc, auth_create_user,
  auth_verify_password, auth_change_password, find_user, auth_get_user, auth_generate_salt,
  auth_generate_password_hash, hex, hex_digit, find_attempt, find_or_create_attempt,
  auth_record_login_attempt, modify_user, modify_attempt, is_active,
}
use micro_meow_db.Authentication.Invariant.{IsValid}
use micro_meow_db.Authentication.Calls.{create, delete, run, run-IsValid}
use micro_meow_db.Authentication.Lockout.{IsWrong, Locks, logins, logins-Locks}
use micro_meow_db.Authentication.Passwords.{verify-create, verify-change}

-- digests that keep their input
abbrev plain : Digests
plain = record { digest256 = λ s. s; digest512 = λ s. s }

abbrev all_granted : PasswordAlloc
all_granted = record { salt = true; hash = (true, true); user = true }

abbrev nobody : AuthenticationManager
nobody = record {
  users = [];
  user_count = 0;
  encryption_key = none;
  max_login_attempts = 2;
  lockout_duration = 300;
  login_attempts = [];
}

abbrev mia : User
mia = record {
  username = 109 ∷ [];
  password_hash = 52 ∷ 49 ∷ [];
  salt = [];
  password_hash_algorithm = sha512;
  status = active;
  created_at = 1;
  last_login = 0;
  password_changed_at = 1;
}

abbrev with_mia : AuthenticationManager
with_mia = record nobody { users = mia ∷ []; user_count = 1 }

nobody-IsValid : IsValid nobody
nobody-IsValid = record { distinct = tt; counted = refl; limit = omega arith }

run-IsValid_example :
    IsValid (
      run plain nobody
        (create all_granted (λ i. i) 7 (109 ∷ []) (65 ∷ []) ∷ delete (109 ∷ []) ∷ []))
run-IsValid_example =
    run-IsValid plain nobody
      (create all_granted (λ i. i) 7 (109 ∷ []) (65 ∷ []) ∷ delete (109 ∷ []) ∷ []) nobody-IsValid

found_mia : find_user with_mia.users (109 ∷ []) ≡ some mia
unfolding find_user bytes_eq
found_mia = refl

wrong : IsWrong plain mia (66 ∷ [])
unfolding auth_generate_password_hash hex hex_digit bytes_eq
wrong = (52 ∷ 50 ∷ [], refl, refl)

logins-Locks_example :
    Locks with_mia
      (109 ∷ [])
      mia
      2
      (logins plain 7 with_mia (109 ∷ []) ((66 ∷ []) ∷ (66 ∷ []) ∷ []))
logins-Locks_example =
    logins-Locks plain 7 with_mia (109 ∷ []) mia ((66 ∷ []) ∷ (66 ∷ []) ∷ []) found_mia refl
      (wrong, (wrong, tt))

created : (auth_create_user plain all_granted (λ i. i) 7 nobody (109 ∷ []) (65 ∷ [])).1 ≡ true
unfolding auth_create_user auth_get_user find_user auth_generate_salt auth_generate_password_hash
created = refl

verify-create_example :
    (auth_verify_password plain
      ((true, true), true)
      9
      (auth_create_user plain all_granted (λ i. i) 7 nobody (109 ∷ []) (65 ∷ [])).0
      (109 ∷ [])
      (65 ∷ [])).1
    ≡ true
verify-create_example =
    verify-create plain all_granted (λ i. i) 7 9 nobody (109 ∷ []) (65 ∷ []) true created

changed :
    (auth_change_password plain
      ((true, true), true)
      all_granted
      (λ i. i)
      7
      with_mia
      (109 ∷ [])
      (65 ∷ [])
      (66 ∷ [])).1
    ≡ true
unfolding auth_change_password auth_verify_password auth_get_user find_user auth_generate_salt
    auth_generate_password_hash auth_record_login_attempt find_or_create_attempt find_attempt
    modify_user modify_attempt is_active hex hex_digit bytes_eq
changed = refl

verify-change_example :
    (auth_verify_password plain
      ((true, true), true)
      9
      (auth_change_password plain
        ((true, true), true)
        all_granted
        (λ i. i)
        7
        with_mia
        (109 ∷ [])
        (65 ∷ [])
        (66 ∷ [])).0
      (109 ∷ [])
      (66 ∷ [])).1
    ≡ true
verify-change_example =
    verify-change plain ((true, true), true) all_granted (λ i. i) 7 9 with_mia (109 ∷ []) (65 ∷ [])
      (66 ∷ []) true changed
