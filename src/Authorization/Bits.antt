-- ===== src/Authorization/Bits.antt =====
-- The single privileges that the walks of src/security/authorization.c put together.
use micro_meow_db.Prelude.{
  ℕ, bit_or, ◌≡◌, refl, ◌∙◌, Bool, true, false, ◌&&◌, ◌||◌, Option, none, some, List, [], ◌∷◌,
  Bytes, bytes_eq, All, leb, ◌==◌, if◌then◌else◌, arith, Bool-cases, Option-cases, inl, inr,
}
use micro_meow_db.Prelude.Digits.{digit, digit-lt, digit-bit_or}
use micro_meow_db.Authorization.{
  Role, Privilege, UserRole, find_role, is_prefix, applies, collect_direct, collect_roles,
}

-- A record of a scope below the global one has a name.
abbrev pub named : Privilege → Bool
named p = (p.scope_type == 0) || (elim p.scope_name [ none ↦ false | some s ↦ true ])

-- The scopes that a record covers: the global one covers all; a database each request below the
-- global one whose name begins with its own, or that has no name; a table and a column their own name.
abbrev pub covers : Privilege → ℕ → Option Bytes → Bool
covers p scope_type scope =
    (p.scope_type == 0)
    || ((p.scope_type == 1) && leb 1 scope_type && begins p.scope_name scope)
    || ((((p.scope_type == 2) && leb 2 scope_type) || ((p.scope_type == 3) && (scope_type == 3)))
        && equals p.scope_name scope)
  where
    begins : Option Bytes → Option Bytes → Bool
    begins o none = true
    begins none (some s) = false
    begins (some t) (some s) = is_prefix t s

    equals : Option Bytes → Option Bytes → Bool
    equals o none = false
    equals none (some s) = false
    equals (some t) (some s) = bytes_eq t s

applies-covers :
    (p : Privilege) (scope_type : ℕ) (scope : Option Bytes)
    → named p ≡ true
    → applies p scope_type scope ≡ some (covers p scope_type scope)
unfolding applies
applies-covers p scope_type none n = ground arith
applies-covers p scope_type (some s) n = elim (Option-cases p.scope_name) [
  | inl e ↦ ground arith
  | inr (t, e) ↦ ground arith
]

-- some record of the user that covers the request has the k-th privilege
abbrev pub has_direct : ℕ → List Privilege → Bytes → ℕ → Option Bytes → Bool
has_direct k [] name scope_type scope = false
has_direct k (p ∷ ps) name scope_type scope =
    (bytes_eq p.username name && (covers p scope_type scope && (digit k p.privileges == 1)))
    || has_direct k ps name scope_type scope

-- some role of the user has it
abbrev pub has_by_role : ℕ → List Role → List UserRole → Bytes → Bool
has_by_role k roles [] name = false
has_by_role k roles (r ∷ rs) name =
    (bytes_eq r.username name && (elim (find_role roles r.role_name) [
      | none ↦ false
      | some role ↦ digit k role.privileges == 1
    ]))
    || has_by_role k roles rs name

pub collect_direct-bits :
    (total : ℕ) (ps : List Privilege) (name : Bytes) (scope_type : ℕ) (scope : Option Bytes)
    → All (λ p. named p ≡ true) ps
    → (t : ℕ) × (collect_direct total ps name scope_type scope ≡ some t)
      × ((k : ℕ) → digit k t ≡ (if has_direct k ps name scope_type scope then 1 else digit k total))
unfolding collect_direct
collect_direct-bits total [] name scope_type scope n = (total, refl, λ k. refl)
collect_direct-bits total (p ∷ ps) name scope_type scope n =
    elim (Bool-cases (bytes_eq p.username name && covers p scope_type scope)) [
      | inl e ↦
          let (t, run, bits) =
            collect_direct-bits (bit_or total p.privileges) ps name scope_type scope n.1 in
          (
            t,
            ground (arith, run, applies-covers p scope_type scope n.0),
            λ k.
                bits k
                ∙ ground (
                  arith,
                  digit-bit_or k total p.privileges,
                  digit-lt k total,
                  digit-lt k p.privileges,
                ),
          )
      | inr e ↦
          let (t, run, bits) = collect_direct-bits total ps name scope_type scope n.1 in
          (
            t,
            ground (arith, run, applies-covers p scope_type scope n.0),
            λ k. bits k ∙ ground arith,
          )
    ]

pub collect_roles-bits :
    (total : ℕ) (roles : List Role) (rs : List UserRole) (name : Bytes) (k : ℕ)
    → digit k (collect_roles total roles rs name)
      ≡ (if has_by_role k roles rs name then 1 else digit k total)
unfolding collect_roles
collect_roles-bits total roles [] name k = refl
collect_roles-bits total roles (r ∷ rs) name k =
    let named_here = bytes_eq r.username name in
    elim (Option-cases (find_role roles r.role_name)) [
      | inl e ↦
          rw (e, collect_roles)
            (collect_roles-bits (if named_here then total else total) roles rs name k
              ∙ ground arith)
      | inr (role, e) ↦
          rw (e, collect_roles)
            (collect_roles-bits (if named_here then bit_or total role.privileges else total) roles
                rs name k
              ∙ ground (
                arith,
                digit-bit_or k total role.privileges,
                digit-lt k total,
                digit-lt k role.privileges,
              ))
    ]
