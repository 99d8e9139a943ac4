-- ===== src/Authentication/Calls.antt =====
-- Sequences of calls of src/security/authentication.c.
use micro_meow_db.Prelude.{ℕ, Bool, List, [], ◌∷◌, Bytes}
use micro_meow_db.Authentication.{
  locked, active, disabled, AuthenticationManager, Digests, PasswordAlloc, auth_create_user,
  auth_lock_user, auth_unlock_user, auth_disable_user, auth_enable_user, auth_record_login_attempt,
  auth_verify_password, auth_change_password, auth_delete_user,
}
use micro_meow_db.Authentication.Invariant.{
  IsValid, set_status-IsValid, create-IsValid, record-IsValid, verify-IsValid, change-IsValid,
  delete-IsValid,
}

-- The calls that change the manager, with the time and the answers of the allocator in each.
pub data Call : Type 0 where
  create : PasswordAlloc → (ℕ → ℕ) → ℕ → Bytes → Bytes → Call
  verify : (Bool × Bool) × Bool → ℕ → Bytes → Bytes → Call
  lock unlock disable enable delete : Bytes → Call
  change : (Bool × Bool) × Bool → PasswordAlloc → (ℕ → ℕ) → ℕ → Bytes → Bytes → Bytes → Call
  attempt : Bool → ℕ → Bytes → Bool → Call

unfoldable pub apply : Digests → AuthenticationManager → Call → AuthenticationManager
apply d m (create granted rand now name password) =
    (auth_create_user d granted rand now m name password).0
apply d m (verify granted now name password) =
    (auth_verify_password d granted now m name password).0
apply d m (lock name) = (auth_lock_user m name).0
apply d m (unlock name) = (auth_unlock_user m name).0
apply d m (disable name) = (auth_disable_user m name).0
apply d m (enable name) = (auth_enable_user m name).0
apply d m (delete name) = (auth_delete_user m name).0
apply d m (change verifying granted rand now name old new) =
    (auth_change_password d verifying granted rand now m name old new).0
apply d m (attempt granted now name success) =
    (auth_record_login_attempt granted now m name success).0

unfoldable pub run : Digests → AuthenticationManager → List Call → AuthenticationManager
run d m [] = m
run d m (c ∷ cs) = run d (apply d m c) cs

apply-IsValid :
    (d : Digests) (m : AuthenticationManager) (c : Call) → IsValid m → IsValid (apply d m c)
unfolding apply auth_lock_user auth_unlock_user auth_disable_user auth_enable_user
apply-IsValid d m (create granted rand now name password) v =
    create-IsValid d granted rand now m name password v
apply-IsValid d m (verify granted now name password) v =
    verify-IsValid d granted now m name password v
apply-IsValid d m (lock name) v = set_status-IsValid locked m name v
apply-IsValid d m (unlock name) v = set_status-IsValid active m name v
apply-IsValid d m (disable name) v = set_status-IsValid disabled m name v
apply-IsValid d m (enable name) v = set_status-IsValid active m name v
apply-IsValid d m (delete name) v = delete-IsValid m name v
apply-IsValid d m (change verifying granted rand now name old new) v =
    change-IsValid d verifying granted rand now m name old new v
apply-IsValid d m (attempt granted now name success) v = record-IsValid granted now m name success v

-- Whatever calls are made on a valid manager, with whatever answers of the allocator, the users
-- keep different names, their number is counted modulo 2 ^ 64, and the limit of failures stays positive.
pub run-IsValid :
    (d : Digests) (m : AuthenticationManager) (cs : List Call) → IsValid m → IsValid (run d m cs)
unfolding run
run-IsValid d m [] v = v
run-IsValid d m (c ∷ cs) v = run-IsValid d (apply d m c) cs (apply-IsValid d m c v)
