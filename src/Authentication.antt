-- ===== src/Authentication.antt =====
-- src/security/authentication.c: users with salted password hashes, and the count of failed logins
-- that locks them. Strings are their bytes before the final 0 and are never `NULL`: the guards that
-- return false for a `NULL` handle, name or password have no counterpart. OpenSSL's digests and
-- `rand` are arguments, `granted` answers for an allocation, and `strdup`, which the source does not
-- check, is taken to succeed. A limit that is not positive is 0, and fewer than 2 ^ 31 failures of a
-- user are recorded, so that the `int` that counts them does not overflow.
pub mod Lists
pub mod Invariant
pub mod Calls
pub mod Lockout
pub mod Passwords
mod Examples
use micro_meow_db.Prelude.{
  ℕ, zero, suc, ◌+◌, ◌-◌, ◌*◌, ◌/◌, ◌%◌, ◌^◌, Bool, true, false, ◌&&◌, Option, none, some, List, [],
  ◌∷◌, ◌++◌, Bytes, bytes_eq, ltb, leb, ◌==◌, if◌then◌else◌, ◌>>=◌,
}

pub data UserStatus : Type 0 where
  active locked disabled : UserStatus

pub data HashAlgorithm : Type 0 where
  sha256 sha512 bcrypt : HashAlgorithm
  unknown : ℕ → HashAlgorithm

pub record User : Type 0 where
  pub username : Bytes
  pub password_hash : Bytes
  pub salt : Bytes
  pub password_hash_algorithm : HashAlgorithm
  pub status : UserStatus
  pub created_at : ℕ
  pub last_login : ℕ
  pub password_changed_at : ℕ

pub record LoginAttempt : Type 0 where
  pub username : Bytes
  pub failed_attempts : ℕ
  pub last_failed_attempt : ℕ

pub record AuthenticationManager : Type 0 where
  pub users : List User
  pub user_count : ℕ
  pub encryption_key : Option Bytes
  pub max_login_attempts : ℕ
  pub lockout_duration : ℕ
  pub login_attempts : List LoginAttempt

-- the digests of OpenSSL
pub record Digests : Type 0 where
  pub digest256 : Bytes → Bytes
  pub digest512 : Bytes → Bytes

-- the letters, the capitals and the figures of the character set
unfoldable pub charset : ℕ → ℕ
charset i = if ltb i 26 then 97 + i else if ltb i 52 then 65 + (i - 26) else 48 + (i - 52)

-- the `length` characters that the numbers of `rand` from the i-th on choose
unfoldable pub salt_from : (ℕ → ℕ) → ℕ → ℕ → Bytes
salt_from rand i zero = []
salt_from rand i (suc n) = charset (rand i % 62) ∷ salt_from rand (i + 1) n

unfoldable pub auth_generate_salt : Bool → (ℕ → ℕ) → ℕ → Option Bytes
auth_generate_salt granted rand length =
    if granted then some (salt_from rand 0 (if length == 0 then 16 else length)) else none

unfoldable pub hex_digit : ℕ → ℕ
hex_digit d = if ltb d 10 then 48 + d else 87 + d

-- `sprintf("%02x")` of each byte
unfoldable pub hex : Bytes → Bytes
hex [] = []
hex (b ∷ bs) = hex_digit (b / 16) ∷ hex_digit (b % 16) ∷ hex bs

-- `granted` answers for the buffer of the password with the salt, and for the result.
unfoldable pub auth_generate_password_hash :
    Digests → Bool × Bool → Bytes → Bytes → HashAlgorithm → Option Bytes
auth_generate_password_hash d granted password salt algorithm =
    if granted.0
    then elim algorithm [
      | sha256 ↦ if granted.1 then some (hex (d.digest256 (password ++ salt))) else none
      | sha512 ↦ if granted.1 then some (hex (d.digest512 (password ++ salt))) else none
      | bcrypt ↦ if granted.1 then some (hex (d.digest512 (password ++ salt))) else none
      | unknown n ↦ none
    ]
    else none

unfoldable pub auth_manager_init : Bool → Option Bytes → ℕ → ℕ → Option AuthenticationManager
auth_manager_init granted encryption_key max_login_attempts lockout_duration =
    if granted
    then some (record {
      users = [];
      user_count = 0;
      encryption_key = encryption_key;
      max_login_attempts = if max_login_attempts == 0 then 5 else max_login_attempts;
      lockout_duration = if lockout_duration == 0 then 300 else lockout_duration;
      login_attempts = [];
    })
    else none

-- the walk over the list of users
unfoldable pub find_user : List User → Bytes → Option User
find_user [] name = none
find_user (u ∷ us) name = if bytes_eq u.username name then some u else find_user us name

unfoldable pub auth_get_user : AuthenticationManager → Bytes → Option User
auth_get_user m name = find_user m.users name

-- a write through the pointer that the walk returns
unfoldable pub modify_user : (User → User) → List User → Bytes → List User
modify_user f [] name = []
modify_user f (u ∷ us) name =
    if bytes_eq u.username name then f u ∷ us else u ∷ modify_user f us name

-- the answers of the allocator where a user is created or a password changed
pub record PasswordAlloc : Type 0 where
  pub salt : Bool
  pub hash : Bool × Bool
  pub user : Bool

unfoldable pub auth_create_user :
    Digests
    → PasswordAlloc
    → (ℕ → ℕ)
    → ℕ
    → AuthenticationManager
    → Bytes
    → Bytes
    → AuthenticationManager × Bool
auth_create_user d granted rand now m name password = elim (auth_get_user m name) [
  | some u ↦ (m, false)
  | none ↦ elim (auth_generate_salt granted.salt rand 16) [
    | none ↦ (m, false)
    | some salt ↦ elim (auth_generate_password_hash d granted.hash password salt sha512) [
      | none ↦ (m, false)
      | some hash ↦
          if granted.user
          then (
            record m {
              users =
                  m.users
                  ++ record {
                    username = name;
                    password_hash = hash;
                    salt = salt;
                    password_hash_algorithm = sha512;
                    status = active;
                    created_at = now;
                    last_login = 0;
                    password_changed_at = now;
                  }
                    ∷ [];
              user_count = (m.user_count + 1) % 2 ^ 64;
            },
            true,
          )
          else (m, false)
    ]
  ]
]

-- what the four changes of the status share
unfoldable pub set_status :
    UserStatus → AuthenticationManager → Bytes → AuthenticationManager × Bool
set_status status m name = elim (auth_get_user m name) [
  | none ↦ (m, false)
  | some u ↦
      (record m { users = modify_user (λ u. record u { status = status }) m.users name }, true)
]

unfoldable pub auth_lock_user : AuthenticationManager → Bytes → AuthenticationManager × Bool
auth_lock_user m name = set_status locked m name

unfoldable pub auth_unlock_user : AuthenticationManager → Bytes → AuthenticationManager × Bool
auth_unlock_user m name = set_status active m name

unfoldable pub auth_disable_user : AuthenticationManager → Bytes → AuthenticationManager × Bool
auth_disable_user m name = set_status disabled m name

unfoldable pub auth_enable_user : AuthenticationManager → Bytes → AuthenticationManager × Bool
auth_enable_user m name = set_status active m name

unfoldable pub find_attempt : List LoginAttempt → Bytes → Option LoginAttempt
find_attempt [] name = none
find_attempt (a ∷ as') name = if bytes_eq a.username name then some a else find_attempt as' name

unfoldable pub modify_attempt :
    (LoginAttempt → LoginAttempt) → List LoginAttempt → Bytes → List LoginAttempt
modify_attempt f [] name = []
modify_attempt f (a ∷ as') name =
    if bytes_eq a.username name then f a ∷ as' else a ∷ modify_attempt f as' name

-- the record of a user, a new one in front if there is none
unfoldable pub find_or_create_attempt :
    Bool → List LoginAttempt → Bytes → Option (List LoginAttempt × LoginAttempt)
find_or_create_attempt granted as' name = elim (find_attempt as' name) [
  | some a ↦ some (as', a)
  | none ↦
      let fresh : LoginAttempt = record {
        username = name;
        failed_attempts = 0;
        last_failed_attempt = 0;
      } in
      if granted then some (fresh ∷ as', fresh) else none
]

unfoldable pub auth_record_login_attempt :
    Bool → ℕ → AuthenticationManager → Bytes → Bool → AuthenticationManager × Bool
auth_record_login_attempt granted now m name success =
    elim (find_or_create_attempt granted m.login_attempts name) [
      | none ↦ (m, false)
      | some (as', a) ↦
          let write = λ (f : LoginAttempt → LoginAttempt). record m {
            login_attempts = modify_attempt f as' name;
          } in
          if success
          then (write (λ a. record a { failed_attempts = 0 }), true)
          else let failed = write (λ a. record a {
            failed_attempts = a.failed_attempts + 1;
            last_failed_attempt = now;
          }) in
            if leb m.max_login_attempts (a.failed_attempts + 1)
            then ((auth_lock_user failed name).0, true)
            else (failed, true)
    ]

unfoldable pub is_active : UserStatus → Bool
is_active active = true
is_active _ = false

-- `granted` answers for the hash, and then for the record of the attempt.
unfoldable pub auth_verify_password :
    Digests
    → (Bool × Bool) × Bool
    → ℕ
    → AuthenticationManager
    → Bytes
    → Bytes
    → AuthenticationManager × Bool
auth_verify_password d granted now m name password = elim (auth_get_user m name) [
  | none ↦ (m, false)
  | some u ↦
      if is_active u.status
      then elim (auth_generate_password_hash d granted.0 password u.salt
          u.password_hash_algorithm) [
            | none ↦ (m, false)
            | some hash ↦
                let result = bytes_eq hash u.password_hash in
                let recorded = (auth_record_login_attempt granted.1 now m name result).0 in
                if result
                then (
                  record recorded {
                    users = modify_user (λ u. record u { last_login = now }) recorded.users name;
                  },
                  true,
                )
                else (recorded, false)
          ]
      else (m, false)
]

unfoldable pub auth_change_password :
    Digests
    → (Bool × Bool) × Bool
    → PasswordAlloc
    → (ℕ → ℕ)
    → ℕ
    → AuthenticationManager
    → Bytes
    → Bytes
    → Bytes
    → AuthenticationManager × Bool
auth_change_password d verifying granted rand now m name old_password new_password =
    let verified = auth_verify_password d verifying now m name old_password in
    if verified.1
    then elim (auth_get_user verified.0 name) [
      | none ↦ (verified.0, false)
      | some u ↦ elim (auth_generate_salt granted.salt rand 16) [
        | none ↦ (verified.0, false)
        | some salt ↦
            elim (auth_generate_password_hash d granted.hash new_password salt
              u.password_hash_algorithm) [
                | none ↦ (verified.0, false)
                | some hash ↦ (
                  record verified.0 {
                    users =
                        modify_user
                          (λ u. record u {
                            password_hash = hash;
                            salt = salt;
                            password_changed_at = now;
                          })
                          verified.0.users name;
                  },
                  true,
                )
              ]
      ]
    ]
    else (verified.0, false)

-- the user unlinked from the list
unfoldable pub unlink_user : List User → Bytes → List User
unlink_user [] name = []
unlink_user (u ∷ us) name = if bytes_eq u.username name then us else u ∷ unlink_user us name

unfoldable pub auth_delete_user : AuthenticationManager → Bytes → AuthenticationManager × Bool
auth_delete_user m name = elim (auth_get_user m name) [
  | none ↦ (m, false)
  | some u ↦ (
    record m {
      users = unlink_user m.users name;
      user_count = (m.user_count + (2 ^ 64 - 1)) % 2 ^ 64;
    },
    true,
  )
]

unfoldable pub auth_check_user_status : AuthenticationManager → Bytes → Bool
auth_check_user_status m name = elim (auth_get_user m name) [
  | none ↦ false
  | some u ↦ is_active u.status
]
