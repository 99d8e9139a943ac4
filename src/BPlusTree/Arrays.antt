-- ===== src/BPlusTree/Arrays.antt =====
-- The loops over arrays of slots in src/index/b_plus_tree.c.
use micro_meow_db.Prelude.{
  ℕ, zero, suc, ◌+◌, ◌≡◌, refl, ap, ◌∙◌, Option, some, List, [], ◌∷◌, ◌++◌, length, get_elem?, set,
  ◌>>=◌, arith, Option-cases, inl, inr,
}
use micro_meow_db.BPlusTree.{Slot, write, copy_slot, shift_up}

module _ {ℓ} {A : Type ℓ} where
  -- A slot behind the first one is written in the rest.
  write-rest :
      (x : Slot A) (xs : List (Slot A)) (i : ℕ) (s : Slot A)
      → write (x ∷ xs) (suc i) s ≡ (write xs i s >>= λ ys. some (x ∷ ys))
  unfolding write set
  write-rest x xs i s = ground arith

  copy_slot-rest :
      (x : Slot A) (xs : List (Slot A)) (i j : ℕ)
      → copy_slot (x ∷ xs) (suc i) (x ∷ xs) (suc j) ≡ (copy_slot xs i xs j >>= λ ys. some (x ∷ ys))
  unfolding copy_slot
  copy_slot-rest x xs i j = elim (Option-cases (get_elem? xs i)) [
    | inl e ↦ rw e refl
    | inr (s, e) ↦ rw e (write-rest x xs j s)
  ]

  shift_up-rest :
      (x : Slot A) (n i : ℕ) (xs : List (Slot A))
      → shift_up n (suc i) (x ∷ xs) ≡ (shift_up n i xs >>= λ ys. some (x ∷ ys))
  unfolding shift_up
  shift_up-rest x zero i xs = refl
  shift_up-rest x (suc n) i xs =
      let ahead : suc i + n ≡ suc (i + n) = omega arith in
      let next : suc i + n + 1 ≡ suc (i + n + 1) = omega arith in
      let step : copy_slot (x ∷ xs) (suc i + n) (x ∷ xs) (suc i + n + 1)
          ≡ (copy_slot xs (i + n) xs (i + n + 1) >>= λ ys. some (x ∷ ys)) =
        ap (λ (t : ℕ). copy_slot (x ∷ xs) t (x ∷ xs) (suc i + n + 1)) ahead
        ∙ ap (λ (t : ℕ). copy_slot (x ∷ xs) (suc (i + n)) (x ∷ xs) t) next
        ∙ copy_slot-rest x xs (i + n) (i + n + 1) in
      ap (λ (t : Option (List (Slot A))). t >>= λ ys. shift_up n (suc i) ys) step
      ∙ elim (Option-cases (copy_slot xs (i + n) xs (i + n + 1))) [
        | inl e ↦ rw e refl
        | inr (ys, e) ↦ rw e (shift_up-rest x n i ys)
      ]

  -- A longer shift is a shorter one further up, and one more slot.
  shift_up-last :
      (n i : ℕ) (xs : List (Slot A))
      → shift_up (suc n) i xs ≡ (shift_up n (suc i) xs >>= λ ys. copy_slot ys i ys (suc i))
  unfolding shift_up
  shift_up-last zero i xs =
      let e₀ : i + 0 ≡ i = omega arith in
      let e₁ : i + 1 ≡ suc i = omega arith in
      rw (e₀, e₁) (ground (arith, Option-cases (copy_slot xs i xs (suc i))))
  shift_up-last (suc n) i xs =
      let e : i + suc n ≡ suc i + n = omega arith in
      rw e (elim (Option-cases (copy_slot xs (suc i + n) xs (suc i + n + 1))) [
        | inl k ↦ rw (shift_up, k) refl
        | inr (ys, k) ↦ rw (shift_up, k) (shift_up-last n i ys)
      ])

  write-first :
      (y : Slot A) (ys : List (Slot A)) (new : Slot A) → write (y ∷ ys) 0 new ≡ some (new ∷ ys)
  unfolding write set
  write-first y ys new = ground arith

  copy_slot-first :
      (x : Slot A) (ys : List (Slot A))
      → copy_slot (x ∷ ys) 0 (x ∷ ys) 1 ≡ (write ys 0 x >>= λ zs. some (x ∷ zs))
  unfolding copy_slot
  copy_slot-first x ys = write-rest x ys 0 x

  -- one more slot in front of what is moved
  shift_up-more :
      (x : Slot A) (n : ℕ) (xs ys : List (Slot A)) (new : Slot A)
      → (shift_up n 0 xs >>= λ zs. write zs 0 x) ≡ some (x ∷ ys)
      → (shift_up (suc n) 0 (x ∷ xs) >>= λ zs. write zs 0 new) ≡ some (new ∷ x ∷ ys)
  shift_up-more x n xs ys new h =
      ap (λ (t : Option (List (Slot A))). t >>= λ zs. write zs 0 new)
        (shift_up-last n 0 (x ∷ xs)
          ∙ ap (λ (t : Option (List (Slot A))). t >>= λ zs. copy_slot zs 0 zs 1)
              (shift_up-rest x n 0 xs))
      ∙ elim (Option-cases (shift_up n 0 xs)) [
        | inl e ↦ let nothing = rw e at h in cc
        | inr (zs, e) ↦ rw (e, copy_slot-first x zs, rw e at h) (write-first x (x ∷ ys) new)
      ]

  shift_up-before :
      (x : Slot A) (n i : ℕ) (xs ys : List (Slot A)) (new : Slot A)
      → (shift_up n i xs >>= λ zs. write zs i new) ≡ some ys
      → (shift_up n (suc i) (x ∷ xs) >>= λ zs. write zs (suc i) new) ≡ some (x ∷ ys)
  shift_up-before x n i xs ys new h =
      ap (λ (t : Option (List (Slot A))). t >>= λ zs. write zs (suc i) new) (shift_up-rest x n i xs)
      ∙ elim (Option-cases (shift_up n i xs)) [
        | inl e ↦ let nothing = rw e at h in cc
        | inr (zs, e) ↦ rw (e, write-rest x zs i new, rw e at h) refl
      ]

  -- A slot is put in at a place: those from there on move up by one, over the next one.
  pub shift_up-write :
      (before after : List (Slot A)) (last : Slot A) (rest : List (Slot A)) (new : Slot A)
      → (shift_up (length after) (length before) (before ++ after ++ last ∷ rest) >>= λ xs.
          write xs (length before) new)
        ≡ some (before ++ new ∷ after ++ rest)
  unfolding shift_up
  shift_up-write [] [] last rest new = write-first last rest new
  shift_up-write [] (x ∷ after) last rest new =
      shift_up-more x (length after) (after ++ last ∷ rest) (after ++ rest) new
        (shift_up-write [] after last rest x)
  shift_up-write (x ∷ before) after last rest new =
      shift_up-before x (length after) (length before) (before ++ after ++ last ∷ rest)
        (before ++ new ∷ after ++ rest) new (shift_up-write before after last rest new)

  -- the slot behind some others is written
  pub write-at :
      (before after : List (Slot A)) (old new : Slot A)
      → write (before ++ old ∷ after) (length before) new ≡ some (before ++ new ∷ after)
  write-at [] after old new = write-first old after new
  write-at (x ∷ before) after old new =
      write-rest x (before ++ old ∷ after) (length before) new
      ∙ rw (write-at before after old new) refl
