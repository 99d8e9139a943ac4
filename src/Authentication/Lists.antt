-- ===== src/Authentication/Lists.antt =====
-- The walks over the list of users and over the records of failed logins of
-- src/security/authentication.c, as lookups and updates by name.
use micro_meow_db.Prelude.{
  suc, ◌≡◌, refl, sym, ap, ◌∙◌, false, Option, none, some, List, [], ◌∷◌, ◌++◌, Bytes, bytes_eq,
  bytes_eq_iff, bytes_eq_comm, bytes_eq_apart, bytes_eq_same, length, if◌then◌else◌, arith,
  Bool-cases, inl, inr,
}
use micro_meow_db.Authentication.{
  User, LoginAttempt, find_user, modify_user, unlink_user, find_attempt, modify_attempt,
}

-- the result of a search after a change of what it finds
abbrev pub changed {ℓ} : {A : Type ℓ} → (A → A) → Option A → Option A
changed f none = none
changed f (some a) = some (f a)

module _ (f : User → User) (same_name : (u : User) → (f u).username ≡ u.username) where
  pub find-modify :
      (us : List User) (a b : Bytes)
      → find_user (modify_user f us a) b
        ≡ (if bytes_eq a b then changed f (find_user us b) else find_user us b)
  unfolding find_user modify_user
  find-modify [] a b = ground arith
  find-modify (u ∷ us) a b = ground (
    arith,
    same_name u,
    find-modify us a b,
    bytes_eq_apart u.username a b,
    bytes_eq_same u.username a b,
  )

pub length-modify :
    (f : User → User) (us : List User) (a : Bytes) → length (modify_user f us a) ≡ length us
unfolding modify_user
length-modify f [] a = refl
length-modify f (u ∷ us) a = ground (arith, length-modify f us a)

pub find-append :
    (us vs : List User) (b : Bytes)
    → find_user (us ++ vs) b ≡ (elim (find_user us b) [ none ↦ find_user vs b | some u ↦ some u ])
unfolding find_user
find-append [] vs b = refl
find-append (u ∷ us) vs b = ground (arith, find-append us vs b)

-- no two users of one name
abbrev pub IsDistinct : List User → Type 0
IsDistinct [] = Unit
IsDistinct (u ∷ us) = (find_user us u.username ≡ none) × IsDistinct us

pub find-unlink :
    (us : List User) (a b : Bytes)
    → IsDistinct us
    → find_user (unlink_user us a) b ≡ (if bytes_eq a b then none else find_user us b)
unfolding find_user unlink_user
find-unlink [] a b d = ground arith
find-unlink (u ∷ us) a b d = elim (Bool-cases (bytes_eq u.username a)) [
  | inl e ↦
      let same : find_user us b ≡ (if bytes_eq u.username b then none else find_user us b) =
        gone us u.username b d.0 in
      rw e (ground (arith, same, bytes_eq_same u.username a b e))
  | inr e ↦ rw e (ground (arith, find-unlink us a b d.1, bytes_eq_apart u.username a b e))
]
  where
    gone :
        (us : List User) (a b : Bytes)
        → find_user us a ≡ none
        → find_user us b ≡ (if bytes_eq a b then none else find_user us b)
    gone us a b e = elim (Bool-cases (bytes_eq a b)) [
      | inl s ↦ rw s (ap (find_user us) (sym ((bytes_eq_iff a b).0 s)) ∙ e)
      | inr s ↦ rw s refl
    ]

pub length-unlink :
    (us : List User) (a : Bytes) (u : User)
    → find_user us a ≡ some u
    → suc (length (unlink_user us a)) ≡ length us
unfolding find_user unlink_user
length-unlink [] a u e = cc
length-unlink (v ∷ us) a u e = ground (arith, length-unlink us a u)

pub modify-IsDistinct :
    (f : User → User) (us : List User) (a : Bytes)
    → ((u : User) → (f u).username ≡ u.username)
    → IsDistinct us
    → IsDistinct (modify_user f us a)
unfolding modify_user
modify-IsDistinct f [] a n d = tt
modify-IsDistinct f (u ∷ us) a n d = elim (Bool-cases (bytes_eq u.username a)) [
  | inl e ↦ rw e (ap (find_user us) (n u) ∙ d.0, d.1)
  | inr e ↦
      rw e (find-modify f n us a u.username ∙ ground (arith, d.0), modify-IsDistinct f us a n d.1)
]

pub unlink-IsDistinct : (us : List User) (a : Bytes) → IsDistinct us → IsDistinct (unlink_user us a)
unfolding unlink_user
unlink-IsDistinct [] a d = tt
unlink-IsDistinct (u ∷ us) a d = elim (Bool-cases (bytes_eq u.username a)) [
  | inl e ↦ rw e d.1
  | inr e ↦ rw e (find-unlink us a u.username d.1 ∙ ground (arith, d.0), unlink-IsDistinct us a d.1)
]

pub append-IsDistinct :
    (us : List User) (u : User)
    → IsDistinct us
    → find_user us u.username ≡ none
    → IsDistinct (us ++ u ∷ [])
unfolding find_user
append-IsDistinct [] u d e = (refl, tt)
append-IsDistinct (v ∷ us) u d e =
    let other : bytes_eq u.username v.username ≡ false =
      ground (arith, bytes_eq_comm u.username v.username) in
    (
      find-append us (u ∷ []) v.username ∙ ground (arith, d.0),
      append-IsDistinct us u d.1 (ground arith),
    )

module _ (f : LoginAttempt → LoginAttempt)
    (same_name : (a : LoginAttempt) → (f a).username ≡ a.username) where
  pub find_attempt-modify :
      (as' : List LoginAttempt) (a b : Bytes)
      → find_attempt (modify_attempt f as' a) b
        ≡ (if bytes_eq a b then changed f (find_attempt as' b) else find_attempt as' b)
  unfolding find_attempt modify_attempt
  find_attempt-modify [] a b = ground arith
  find_attempt-modify (l ∷ as') a b = ground (
    arith,
    same_name l,
    find_attempt-modify as' a b,
    bytes_eq_apart l.username a b,
    bytes_eq_same l.username a b,
  )
