-- ===== src/ResourceManager/Limits.antt =====
-- What the checks of src/resource/resource.c promise to the updates after them.
use micro_meow_db.Prelude.{
  ℕ, ◌+◌, ◌%◌, ◌^◌, ◌≤◌, ◌<◌, ◌≡◌, refl, Bool, true, false, ◌&&◌, some, List, [], ◌∷◌, All, ltb,
  ◌==◌, if◌then◌else◌, arith, Bool-cases, inl, inr,
}
use micro_meow_db.ResourceManager.{
  Status, success, ResourceType, memory, connection, query, transaction, disk, cpu, unknown, number,
  ResourceLimit, ResourceManager, extend, usage_of, is_hard, check_limits,
  resource_manager_check_limit, add_int, resource_manager_update_usage,
}

-- whether a usage keeps a limit, if that is a hard one of the type
abbrev pub Keeps : ResourceType → ℕ → ResourceLimit → Type 0
Keeps resource_type used l =
    (number l.resource_type ≡ number resource_type) → (is_hard l.limit_type ≡ true) → used ≤ l.value

checked :
    (used : ℕ) (ls : List ResourceLimit) (resource_type : ResourceType) (usage : ℕ)
    → check_limits (some used) ls resource_type usage ≡ success
    → All (Keeps resource_type ((used + usage) % 2 ^ 64)) ls
unfolding check_limits
checked used [] resource_type usage h = tt
checked used (l ∷ ls) resource_type usage h =
    elim (Bool-cases (number l.resource_type == number resource_type)) [
      | inr e ↦
          (λ same is. ground arith, checked used ls resource_type usage (rw (check_limits, e) at h))
      | inl e ↦ elim (Bool-cases (is_hard l.limit_type && ltb l.value ((used + usage) % 2 ^ 64))) [
        | inl over ↦ let refused = rw (check_limits, e, over) at h in ground arith
        | inr fine ↦ (
          λ same is. ground arith,
          checked used ls resource_type usage (rw (check_limits, e, fine) at h),
        )
      ]
    ]

-- the types whose usage is an `int`
unfoldable pub is_int : ResourceType → Bool
is_int memory = false
is_int disk = false
is_int _ = true

-- the limits on an `int` are below 2 ^ 31
abbrev pub Small : ResourceType → List ResourceLimit → Type 0
Small resource_type ls = All (λ l. is_int resource_type ≡ true → l.value < 2 ^ 31) ls

-- the usage after an addition
abbrev pub used_after : ResourceType → ℕ → ℕ → ℕ
used_after resource_type used delta =
    if is_int resource_type then extend ((used + delta) % 2 ^ 32) else (used + delta) % 2 ^ 64

used_after-Keeps :
    (resource_type : ResourceType) (used delta : ℕ) (ls : List ResourceLimit)
    → Small resource_type ls
    → All (Keeps resource_type ((used + delta) % 2 ^ 64)) ls
    → All (Keeps resource_type (used_after resource_type used delta)) ls
unfolding extend
used_after-Keeps resource_type used delta [] s a = tt
used_after-Keeps resource_type used delta (l ∷ ls) s a = (
  λ same is.
      let kept = a.0 same is in
      elim (Bool-cases (is_int resource_type)) [
        | inl e ↦ let low = s.0 e in rw e (ground arith)
        | inr e ↦ rw e kept
      ],
  used_after-Keeps resource_type used delta ls s.1 a.1,
)

usage-update :
    (rm : ResourceManager) (resource_type : ResourceType) (used delta : ℕ)
    → usage_of rm resource_type ≡ some used
    → usage_of (resource_manager_update_usage rm resource_type delta).0 resource_type
      ≡ some (used_after resource_type used delta)
unfolding usage_of resource_manager_update_usage add_int is_int
usage-update rm memory used delta e = cc
usage-update rm connection used delta e = cc
usage-update rm query used delta e = cc
usage-update rm transaction used delta e = cc
usage-update rm disk used delta e = cc
usage-update rm cpu used delta e = cc
usage-update rm (unknown n) used delta e = cc

-- The result, and the limits, which stay.
update_done :
    (rm : ResourceManager) (resource_type : ResourceType) (used delta : ℕ)
    → usage_of rm resource_type ≡ some used
    → ((resource_manager_update_usage rm resource_type delta).1 ≡ success)
      × ((resource_manager_update_usage rm resource_type delta).0.limits ≡ rm.limits)
unfolding usage_of resource_manager_update_usage
update_done rm memory used delta e = (refl, refl)
update_done rm connection used delta e = (refl, refl)
update_done rm query used delta e = (refl, refl)
update_done rm transaction used delta e = (refl, refl)
update_done rm disk used delta e = (refl, refl)
update_done rm cpu used delta e = (refl, refl)
update_done rm (unknown n) used delta e = cc

-- what an update leaves
pub record Stays (rm : ResourceManager) (resource_type : ResourceType)
    (r : ResourceManager × Status) : Type 0 where
  pub done : r.1 ≡ success
  pub limits : r.0.limits ≡ rm.limits
  pub used : ℕ
  pub is_used : usage_of r.0 resource_type ≡ some used
  pub keeps : All (Keeps resource_type used) r.0.limits

-- An update that the check has allowed, with the same number, for one of the six types, where the
-- limits are below 2 ^ 31 if the usage is an `int`: it succeeds, the limits stay, and the usage
-- keeps every hard limit of the type.
pub update-Stays :
    (rm : ResourceManager) (resource_type : ResourceType) (used delta : ℕ)
    → usage_of rm resource_type ≡ some used
    → Small resource_type rm.limits
    → resource_manager_check_limit rm resource_type delta ≡ success
    → Stays rm resource_type (resource_manager_update_usage rm resource_type delta)
unfolding resource_manager_check_limit
update-Stays rm resource_type used delta e s h =
    let (done, same) = update_done rm resource_type used delta e in
    record {
      done = done;
      limits = same;
      used = used_after resource_type used delta;
      is_used = usage-update rm resource_type used delta e;
      keeps = rw same (
          used_after-Keeps resource_type used delta rm.limits s
            (checked used rm.limits resource_type delta (rw e at h)));
    }
