-- ===== src/Metadata/Ownership.antt =====
-- The data of the objects of src/metadata/metadata.c in memory: each object keeps its own, whatever
-- becomes of the others.
use micro_meow_db.Prelude.{
  ℕ, zero, suc, ◌<◌, ◌≡◌, ◌≢◌, refl, sym, ap, ◌∙◌, Option, none, some, List, [], ◌∷◌, ◌++◌, Bytes,
  length, get_elem?, set, All, arith, Option-cases, inl, inr,
}
use mathlib.Core.Path.{subst}
use micro_meow_db.Metadata.{
  ObjectData, Memory, place, load, Metadata, has_key, exists_key, is_of_type,
}
use micro_meow_db.Metadata.Objects.{fate, NodupKeys, Owned, Apart, Owns}

module _ {ℓ} {A : Type ℓ} where
  get-append_first :
      (xs ys : List A) (i : ℕ) (a : A) → get_elem? xs i ≡ some a → get_elem? (xs ++ ys) i ≡ some a
  get-append_first [] ys i a e = cc
  get-append_first (x ∷ xs) ys zero a e = e
  get-append_first (x ∷ xs) ys (suc i) a e = get-append_first xs ys i a e

  get-append_end : (xs : List A) (a : A) → get_elem? (xs ++ a ∷ []) (length xs) ≡ some a
  get-append_end [] a = refl
  get-append_end (x ∷ xs) a = get-append_end xs a

  get-length : (xs : List A) (i : ℕ) (a : A) → get_elem? xs i ≡ some a → i < length xs
  get-length [] i a e = cc
  get-length (x ∷ xs) zero a e = omega arith
  get-length (x ∷ xs) (suc i) a e = omega (arith, get-length xs i a e)

  get-set_other :
      (xs : List A) (i j : ℕ) (a : A) → i ≢ j → get_elem? (set xs i a) j ≡ get_elem? xs j
  unfolding set
  get-set_other [] i j a n = refl
  get-set_other (x ∷ xs) zero zero a n = absurd (n refl)
  get-set_other (x ∷ xs) zero (suc j) a n = refl
  get-set_other (x ∷ xs) (suc i) zero a n = refl
  get-set_other (x ∷ xs) (suc i) (suc j) a n = get-set_other xs i j a (λ e. n (ap suc e))

  pub All-get :
      (P : A → Type 0) (xs : List A) (i : ℕ) (a : A) → All P xs → get_elem? xs i ≡ some a → P a
  All-get P [] i a all e = cc
  All-get P (x ∷ xs) zero a all e = let same : x ≡ a = cc in rw (← same) all.0
  All-get P (x ∷ xs) (suc i) a all e = All-get P xs i a all.1 e

  All-set : (P : A → Type 0) (xs : List A) (i : ℕ) (a : A) → All P xs → P a → All P (set xs i a)
  unfolding set
  All-set P [] i a all p = tt
  All-set P (x ∷ xs) zero a all p = (p, all.1)
  All-set P (x ∷ xs) (suc i) a all p = (all.0, All-set P xs i a all.1 p)

-- the memory after a cell is freed
abbrev pub freed : Memory → ℕ → Memory
freed mem p = record mem { cells = set mem.cells p none }

-- what the same pointers lead to in two memories
abbrev pub SameLoads : Memory → Memory → List Metadata → Type 0
SameLoads mem mem' os = All (λ o. load mem' o.contents ≡ load mem o.contents) os

pub fate-SameLoads :
    (mem mem' : Memory) (os : List Metadata) (name : Bytes) (schema : Option Bytes) (type : ℕ)
    → SameLoads mem mem' os
    → fate mem' os name schema type ≡ fate mem os name schema type
fate-SameLoads mem mem' [] name schema type s = refl
fate-SameLoads mem mem' (o ∷ os) name schema type s =
    rw (s.0, fate-SameLoads mem mem' os name schema type s.1) refl

abbrev Owned-loads :
    (mem mem' : Memory) (o : Metadata)
    → load mem' o.contents ≡ load mem o.contents
    → Owned mem o
    → Owned mem' o
Owned-loads mem mem' o e own = record {
  address = own.address;
  points = own.points;
  value = own.value;
  stored = ap (load mem') (sym own.points) ∙ e ∙ ap (load mem) own.points ∙ own.stored;
  typed = own.typed;
}

pub Owns-SameLoads :
    (mem mem' : Memory) (os : List Metadata) → SameLoads mem mem' os → Owns mem os → Owns mem' os
Owns-SameLoads mem mem' [] s owns = tt
Owns-SameLoads mem mem' (o ∷ os) s owns =
    (Owned-loads mem mem' o s.0 owns.0, owns.1, Owns-SameLoads mem mem' os s.1 owns.2)

load_place :
    (mem : Memory) (d value : ObjectData) (p : ℕ)
    → load mem (some p) ≡ some value
    → load (place mem d).0 (some p) ≡ some value
unfolding load place
load_place mem d value p e = elim (Option-cases (get_elem? mem.cells p)) [
  | inl n ↦ let nothing = rw n at e in cc
  | inr (cell, n) ↦ rw (get-append_first mem.cells (some d ∷ []) p cell n) (rw n at e)
]

load_bound :
    (mem : Memory) (value : ObjectData) (p : ℕ)
    → load mem (some p) ≡ some value
    → p < length mem.cells
unfolding load
load_bound mem value p e = elim (Option-cases (get_elem? mem.cells p)) [
  | inl n ↦ let nothing = rw n at e in cc
  | inr (cell, n) ↦ get-length mem.cells p cell n
]

pub place_new :
    (mem : Memory) (d : ObjectData) → load (place mem d).0 (some (length mem.cells)) ≡ some d
unfolding load place
place_new mem d = rw (get-append_end mem.cells (some d)) refl

pub place-SameLoads :
    (mem : Memory) (d : ObjectData) (os : List Metadata)
    → Owns mem os
    → SameLoads mem (place mem d).0 os
place-SameLoads mem d [] owns = tt
place-SameLoads mem d (o ∷ os) owns =
    let own = owns.0 in
    (
      rw own.points (load_place mem d own.value own.address own.stored ∙ sym own.stored),
      place-SameLoads mem d os owns.2,
    )

same_pointer : (c : Option ℕ) (p q : ℕ) → c ≡ some p → c ≡ some q → p ≡ q
same_pointer c p q e f = cc

pub place-Apart : (mem : Memory) (os : List Metadata) → Owns mem os → Apart (length mem.cells) os
place-Apart mem [] owns = tt
place-Apart mem (o ∷ os) owns = (
  λ e.
      let low = load_bound mem owns.0.value owns.0.address owns.0.stored in
      let same : owns.0.address ≡ length mem.cells = same_pointer o.contents _ _ owns.0.points e in
      absurd (omega arith),
  place-Apart mem os owns.2,
)

load-freed_other :
    (mem : Memory) (p q : ℕ) → p ≢ q → load (freed mem p) (some q) ≡ load mem (some q)
unfolding load
load-freed_other mem p q n = rw (get-set_other mem.cells p q none n) refl

nowhere : (mem mem' : Memory) → load mem' none ≡ load mem none
unfolding load
nowhere mem mem' = refl

elsewhere : (mem : Memory) (p : ℕ) (c : Option ℕ) → c ≢ some p → load (freed mem p) c ≡ load mem c
elsewhere mem p none n = nowhere mem (freed mem p)
elsewhere mem p (some q) n = load-freed_other mem p q (λ e. n (ap some (sym e)))

pub freed-SameLoads :
    (mem : Memory) (p : ℕ) (os : List Metadata) → Apart p os → SameLoads mem (freed mem p) os
freed-SameLoads mem p [] a = tt
freed-SameLoads mem p (o ∷ os) a = (elsewhere mem p o.contents a.0, freed-SameLoads mem p os a.1)

pub owned_at :
    (mem : Memory) (os : List Metadata) (i : ℕ) (o : Metadata)
    → Owns mem os
    → get_elem? os i ≡ some o
    → Owned mem o
owned_at mem [] i o owns e = cc
owned_at mem (x ∷ os) zero o owns e = let same : x ≡ o = cc in rw (← same) owns.0
owned_at mem (x ∷ os) (suc i) o owns e = owned_at mem os i o owns.2 e

Apart-append :
    (os : List Metadata) (o : Metadata) (p : ℕ)
    → Apart p os
    → o.contents ≢ some p
    → Apart p (os ++ o ∷ [])
Apart-append [] o p a n = (n, tt)
Apart-append (x ∷ os) o p a n = (a.0, Apart-append os o p a.1 n)

-- A new object with data apart from all others.
pub Owns-append :
    (mem : Memory) (os : List Metadata) (o : Metadata) (own : Owned mem o)
    → Apart own.address os
    → Owns mem os
    → Owns mem (os ++ o ∷ [])
Owns-append mem [] o own a owns = (own, tt, tt)
Owns-append mem (x ∷ os) o own a owns = (
  owns.0,
  Apart-append os o owns.0.address owns.1
      (λ e. a.0 (owns.0.points ∙ ap some (same_pointer o.contents _ _ e own.points))),
  Owns-append mem os o own a.1 owns.2,
)

-- An object changed to one with data apart from all.
pub Owns-set :
    (mem : Memory) (os : List Metadata) (i : ℕ) (o : Metadata) (own : Owned mem o)
    → Apart own.address os
    → Owns mem os
    → Owns mem (set os i o)
unfolding set
Owns-set mem [] i o own a owns = tt
Owns-set mem (x ∷ os) zero o own a owns = (own, a.1, owns.2)
Owns-set mem (x ∷ os) (suc i) o own a owns = (
  owns.0,
  All-set (λ y. y.contents ≢ some owns.0.address) os i o owns.1
      (λ e. a.0 (owns.0.points ∙ ap some (same_pointer o.contents _ _ e own.points))),
  Owns-set mem os i o own a.1 owns.2,
)

-- An object changed and its data kept.
pub Owns-set_same :
    (mem : Memory) (os : List Metadata) (i : ℕ) (o o' : Metadata)
    → get_elem? os i ≡ some o
    → o'.contents ≡ o.contents
    → o'.type ≡ o.type
    → Owns mem os
    → Owns mem (set os i o')
unfolding set
Owns-set_same mem [] i o o' e c t owns = tt
Owns-set_same mem (x ∷ os) zero o o' e c t owns =
    let same : x ≡ o = cc in
    let own = owns.0 in
    (
      record {
        address = own.address;
        points = c ∙ ap (λ y. y.contents) (sym same) ∙ own.points;
        value = own.value;
        stored = own.stored;
        typed = ap (λ y. is_of_type y own.value) (t ∙ ap (λ y. y.type) (sym same)) ∙ own.typed;
      },
      owns.1,
      owns.2,
    )
Owns-set_same mem (x ∷ os) (suc i) o o' e c t owns = (
  owns.0,
  All-set (λ y. y.contents ≢ some owns.0.address) os i o' owns.1
      (λ k. All-get (λ y. y.contents ≢ some owns.0.address) os i o owns.1 e (sym c ∙ k)),
  Owns-set_same mem os i o o' e c t owns.2,
)

-- Once an object has other data, its old ones are apart from all.
pub Apart-set :
    (mem : Memory) (os : List Metadata) (i p : ℕ) (o o' : Metadata)
    → get_elem? os i ≡ some o
    → o.contents ≡ some p
    → o'.contents ≢ some p
    → Owns mem os
    → Apart p (set os i o')
unfolding set
Apart-set mem [] i p o o' e c n owns = tt
Apart-set mem (x ∷ os) zero p o o' e c n owns =
    let same : x ≡ o = cc in
    let pointer : owns.0.address ≡ p =
      same_pointer o.contents _ _ (ap (λ y. y.contents) (sym same) ∙ owns.0.points) c in
    (n, subst (λ k. Apart k os) pointer owns.1)
Apart-set mem (x ∷ os) (suc i) p o o' e c n owns = (
  λ k. All-get (λ y. y.contents ≢ some owns.0.address) os i o owns.1 e (c ∙ sym k ∙ owns.0.points),
  Apart-set mem os i p o o' e c n owns.2,
)

exists-set :
    (os : List Metadata) (i : ℕ) (o o' : Metadata) (name : Bytes) (schema : Option Bytes) (type : ℕ)
    → get_elem? os i ≡ some o
    → has_key o' name schema type ≡ has_key o name schema type
    → exists_key (set os i o') name schema type ≡ exists_key os name schema type
unfolding set exists_key
exists-set [] i o o' name schema type e k = refl
exists-set (x ∷ os) zero o o' name schema type e k = let same : o ≡ x = cc in rw (k, same) refl
exists-set (x ∷ os) (suc i) o o' name schema type e k =
    rw (exists-set os i o o' name schema type e k) refl

-- A change that leaves the key leaves the keys different.
pub NodupKeys-set :
    (os : List Metadata) (i : ℕ) (o o' : Metadata)
    → get_elem? os i ≡ some o
    → ((name : Bytes) (schema : Option Bytes) (type : ℕ)
        → has_key o' name schema type ≡ has_key o name schema type)
    → (o'.name ≡ o.name) × (o'.schema ≡ o.schema) × (o'.type ≡ o.type)
    → NodupKeys os
    → NodupKeys (set os i o')
unfolding set
NodupKeys-set [] i o o' e k same n = tt
NodupKeys-set (x ∷ os) zero o o' e k same n =
    let there : x ≡ o = cc in (rw (same.0, same.1, same.2, ← there) n.0, n.1)
NodupKeys-set (x ∷ os) (suc i) o o' e k same n = (
  exists-set os i o o' x.name x.schema x.type e (k x.name x.schema x.type) ∙ n.0,
  NodupKeys-set os i o o' e k same n.1,
)
