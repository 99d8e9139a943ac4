-- ===== src/Metadata/Objects.antt =====
-- The list of objects of src/metadata/metadata.c: what is stored under a key, and that every object
-- has data of its own.
use micro_meow_db.Prelude.{
  ℕ, suc, ◌≡◌, ◌≢◌, refl, sym, ap, ◌∙◌, Bool, true, false, ◌&&◌, Option, none, some, List, [], ◌∷◌,
  Bytes, bytes_eq, bytes_eq_same, bytes_eq_comm, get_elem?, set, All, ◌==◌, ◌⊎◌, if◌then◌else◌,
  arith, Bool-cases, inl, inr,
}
use micro_meow_db.Metadata.{
  ObjectData, Memory, load, Metadata, same_schema, has_key, is_active, exists_key, find_active,
  is_of_type,
}

-- what became of a key: nothing so far, an object with these data, or an object that was deleted
pub data Fate : Type 0 where
  absent : Fate
  live : Option ObjectData → Fate
  gone : Fate

abbrev pub fate : Memory → List Metadata → Bytes → Option Bytes → ℕ → Fate
fate mem [] name schema type = absent
fate mem (o ∷ os) name schema type =
    if has_key o name schema type
    then if is_active o then live (load mem o.contents) else gone
    else fate mem os name schema type

-- No two objects have one key.
abbrev pub NodupKeys : List Metadata → Type 0
NodupKeys [] = Unit
NodupKeys (o ∷ os) = (exists_key os o.name o.schema o.type ≡ false) × NodupKeys os

-- The object has data of its type.
pub record Owned (mem : Memory) (o : Metadata) : Type 0 where
  pub address : ℕ
  pub points : o.contents ≡ some address
  pub value : ObjectData
  pub stored : load mem (some address) ≡ some value
  pub typed : is_of_type o.type value ≡ true

abbrev pub Apart : ℕ → List Metadata → Type 0
Apart p os = All (λ o. o.contents ≢ some p) os

-- Every object has data of its own.
abbrev pub Owns : Memory → List Metadata → Type 0
Owns mem [] = Unit
Owns mem (o ∷ os) = (own : Owned mem o) × Apart own.address os × Owns mem os

-- the first active object with a key changed
abbrev pub modify : (Metadata → Metadata) → List Metadata → Bytes → Option Bytes → ℕ → List Metadata
modify f [] name schema type = []
modify f (o ∷ os) name schema type =
    if has_key o name schema type && is_active o then f o ∷ os else o ∷ modify f os name schema type

-- what the search for the first active object finds
pub record Finds (os : List Metadata) (name : Bytes) (schema : Option Bytes) (type : ℕ)
    : Type 0 where
  pub place : ℕ
  pub object : Metadata
  pub found : find_active os name schema type ≡ some (place, object)
  pub at : get_elem? os place ≡ some object
  pub keyed : has_key object name schema type ≡ true
  pub live : is_active object ≡ true
  pub change : (f : Metadata → Metadata) → set os place (f object) ≡ modify f os name schema type

pub find_cases :
    (os : List Metadata) (name : Bytes) (schema : Option Bytes) (type : ℕ)
    → ((find_active os name schema type ≡ none)
        × ((f : Metadata → Metadata) → modify f os name schema type ≡ os))
      ⊎ Finds os name schema type
unfolding find_active set
find_cases [] name schema type = inl (refl, λ f. refl)
find_cases (x ∷ os) name schema type = elim (Bool-cases (has_key x name schema type)) [
  | inr h ↦ elim (find_cases os name schema type) [
    | inl (e, k) ↦ inl (rw (find_active, h, e) refl, λ f. rw h (ap (λ t. x ∷ t) (k f)))
    | inr r ↦ inr (record {
      place = suc r.place;
      object = r.object;
      found = rw (find_active, h, r.found) refl;
      at = r.at;
      keyed = r.keyed;
      live = r.live;
      change = λ f. rw h (ap (λ t. x ∷ t) (r.change f));
    })
  ]
  | inl h ↦ elim (Bool-cases (is_active x)) [
    | inl a ↦ inr (record {
      place = 0;
      object = x;
      found = rw (find_active, h, a) refl;
      at = refl;
      keyed = h;
      live = a;
      change = λ f. rw (h, a) refl;
    })
    | inr a ↦ elim (find_cases os name schema type) [
      | inl (e, k) ↦ inl (rw (find_active, h, a, e) refl, λ f. rw (h, a) (ap (λ t. x ∷ t) (k f)))
      | inr r ↦ inr (record {
        place = suc r.place;
        object = r.object;
        found = rw (find_active, h, a, r.found) refl;
        at = r.at;
        keyed = r.keyed;
        live = r.live;
        change = λ f. rw (h, a) (ap (λ t. x ∷ t) (r.change f));
      })
    ]
  ]
]

-- Where an object has a key, another key is the same as the object's or as that key.
pub same_schema_same :
    (s t u : Option Bytes) → same_schema s t ≡ true → same_schema u t ≡ same_schema u s
unfolding same_schema
same_schema_same none none u h = refl
same_schema_same none (some t) u h = cc
same_schema_same (some s) none u h = cc
same_schema_same (some s) (some t) none h = refl
same_schema_same (some s) (some t) (some u) h =
    bytes_eq_comm u t ∙ sym (bytes_eq_same s t u h) ∙ bytes_eq_comm s u

-- the test of two keys
abbrev pub same_key : Bytes → Option Bytes → ℕ → Bytes → Option Bytes → ℕ → Bool
same_key name schema type name' schema' type' =
    (type == type') && bytes_eq name name' && same_schema schema' schema

pub has_key_same :
    (o : Metadata) (name : Bytes) (schema : Option Bytes) (type : ℕ) (name' : Bytes)
    (schema' : Option Bytes) (type' : ℕ)
    → has_key o name schema type ≡ true
    → has_key o name' schema' type' ≡ same_key name schema type name' schema' type'
unfolding has_key
has_key_same o name schema type name' schema' type' h =
    let typed : o.type ≡ type = ground arith in
    let named : bytes_eq o.name name ≡ true = ground arith in
    let schemed : same_schema schema o.schema ≡ true = ground arith in
    rw
      (
        typed,
        bytes_eq_same o.name name name' named,
        same_schema_same schema o.schema schema' schemed,
      )
      refl
