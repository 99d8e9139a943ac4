-- ===== src/Metadata/Fates.antt =====
-- How creations and changes of objects of src/metadata/metadata.c change what is stored under a key.
use micro_meow_db.Prelude.{
  ℕ, ◌≡◌, refl, sym, ◌∙◌, true, false, Option, none, some, List, [], ◌∷◌, ◌++◌, Bytes, bytes_eq,
  bytes_eq_comm, bytes_eq_same, ◌==◌, if◌then◌else◌, ◌>>=◌, arith, Bool-cases, Option-cases, inl,
  inr,
}
use micro_meow_db.Metadata.{
  ObjectData, Memory, load, Metadata, same_schema, has_key, is_active, exists_key, find_active,
}
use micro_meow_db.Metadata.Objects.{
  Fate, absent, live, gone, fate, NodupKeys, modify, same_key, has_key_same, same_schema_same,
}

-- a change of what is live
abbrev pub changed : Fate → Fate → Fate
changed new absent = absent
changed new (live d) = new
changed new gone = gone

same_schema_comm : (s t : Option Bytes) → same_schema s t ≡ same_schema t s
unfolding same_schema
same_schema_comm none none = refl
same_schema_comm none (some t) = refl
same_schema_comm (some s) none = refl
same_schema_comm (some s) (some t) = bytes_eq_comm s t

pub same_key_comm :
    (name : Bytes) (schema : Option Bytes) (type : ℕ) (name' : Bytes) (schema' : Option Bytes)
    (type' : ℕ)
    → same_key name schema type name' schema' type' ≡ same_key name' schema' type' name schema type
same_key_comm name schema type name' schema' type' =
    let types : (type == type') ≡ (type' == type) = ground arith in
    rw (types, bytes_eq_comm name name', same_schema_comm schema schema') refl

-- A change that keeps the key of an object changes the fate of that key alone.
pub fate-modify :
    (mem : Memory) (f : Metadata → Metadata) (new : Fate) (os : List Metadata) (name : Bytes)
    (schema : Option Bytes) (type : ℕ) (name' : Bytes) (schema' : Option Bytes) (type' : ℕ)
    → ((o : Metadata) → has_key (f o) name' schema' type' ≡ has_key o name' schema' type')
    → ((o : Metadata)
        → is_active o ≡ true
        → (if is_active (f o) then live (load mem (f o).contents) else gone) ≡ new)
    → fate mem (modify f os name schema type) name' schema' type' ≡ (
        if same_key name schema type name' schema' type'
        then changed new (fate mem os name' schema' type')
        else fate mem os name' schema' type')
fate-modify mem f new [] name schema type name' schema' type' keeps result =
    elim (Bool-cases (same_key name schema type name' schema' type')) [
      | inl e ↦ rw e refl
      | inr e ↦ rw e refl
    ]
fate-modify mem f new (o ∷ os) name schema type name' schema' type' keeps result =
    let rest = fate-modify mem f new os name schema type name' schema' type' keeps result in
    elim (Bool-cases (has_key o name schema type)) [
      | inl h ↦
          let same = has_key_same o name schema type name' schema' type' h in
          elim (Bool-cases (is_active o)) [
            | inl a ↦ elim (Bool-cases (has_key o name' schema' type')) [
              | inl k ↦ rw (h, a, keeps o, k, sym same ∙ k) (result o a)
              | inr k ↦ rw (h, a, keeps o, k, sym same ∙ k) refl
            ]
            | inr a ↦ elim (Bool-cases (has_key o name' schema' type')) [
              | inl k ↦ rw (h, a, k, sym same ∙ k, a) refl
              | inr k ↦ rw (h, a, k) rest
            ]
          ]
      | inr h ↦ elim (Bool-cases (has_key o name' schema' type')) [
        | inl k ↦
            let same = has_key_same o name' schema' type' name schema type k in
            let apart : same_key name schema type name' schema' type' ≡ false =
              same_key_comm name schema type name' schema' type' ∙ sym same ∙ h in
            rw (h, k, apart) refl
        | inr k ↦ rw (h, k) rest
      ]
    ]

-- A new object behind the others has the fate of its key, if that was absent.
pub fate-append :
    (mem : Memory) (os : List Metadata) (o : Metadata) (name : Bytes) (schema : Option Bytes)
    (type : ℕ)
    → is_active o ≡ true
    → fate mem (os ++ o ∷ []) name schema type ≡ elim (fate mem os name schema type) [
      | absent ↦ if has_key o name schema type then live (load mem o.contents) else absent
      | live d ↦ live d
      | gone ↦ gone
    ]
fate-append mem [] o name schema type a = rw a refl
fate-append mem (x ∷ os) o name schema type a = elim (Bool-cases (has_key x name schema type)) [
  | inl h ↦ elim (Bool-cases (is_active x)) [ inl b ↦ rw (h, b) refl | inr b ↦ rw (h, b) refl ]
  | inr h ↦ rw h (fate-append mem os o name schema type a)
]

-- A key is absent exactly if no object has it.
pub exists-fate :
    (mem : Memory) (os : List Metadata) (name : Bytes) (schema : Option Bytes) (type : ℕ)
    → exists_key os name schema type
      ≡ elim (fate mem os name schema type) [ absent ↦ false | live d ↦ true | gone ↦ true ]
unfolding exists_key
exists-fate mem [] name schema type = refl
exists-fate mem (o ∷ os) name schema type = elim (Bool-cases (has_key o name schema type)) [
  | inl h ↦ elim (Bool-cases (is_active o)) [
    | inl b ↦ rw (exists_key, h, b) refl
    | inr b ↦ rw (exists_key, h, b) refl
  ]
  | inr h ↦ rw (exists_key, h) (exists-fate mem os name schema type)
]

not_found :
    (os : List Metadata) (name : Bytes) (schema : Option Bytes) (type : ℕ)
    → exists_key os name schema type ≡ false
    → find_active os name schema type ≡ none
unfolding find_active exists_key
not_found [] name schema type e = refl
not_found (o ∷ os) name schema type e = elim (Bool-cases (has_key o name schema type)) [
  | inl h ↦ let there = rw (exists_key, h) at e in cc
  | inr h ↦ rw (find_active, h, not_found os name schema type (rw (exists_key, h) at e)) refl
]

same_schema_swap :
    (s t u : Option Bytes) → same_schema s t ≡ true → same_schema s u ≡ same_schema t u
same_schema_swap s t u h =
    same_schema_comm s u ∙ sym (same_schema_same s t u h) ∙ same_schema_comm u t

key_swap :
    (x o : Metadata) (name : Bytes) (schema : Option Bytes) (type : ℕ)
    → has_key o name schema type ≡ true
    → has_key x name schema type ≡ has_key x o.name o.schema o.type
unfolding has_key
key_swap x o name schema type h =
    let typed : o.type ≡ type = ground arith in
    let named : bytes_eq o.name name ≡ true = ground arith in
    let schemed : same_schema schema o.schema ≡ true = ground arith in
    let names : bytes_eq x.name name ≡ bytes_eq x.name o.name =
      bytes_eq_comm x.name name
      ∙ sym (bytes_eq_same o.name name x.name named)
      ∙ bytes_eq_comm o.name x.name in
    rw (typed, names, same_schema_swap schema o.schema x.schema schemed) refl

-- Two keys of one object are found alike.
pub exists-same :
    (os : List Metadata) (o : Metadata) (name : Bytes) (schema : Option Bytes) (type : ℕ)
    → has_key o name schema type ≡ true
    → exists_key os name schema type ≡ exists_key os o.name o.schema o.type
unfolding exists_key
exists-same [] o name schema type h = refl
exists-same (x ∷ os) o name schema type h =
    rw (key_swap x o name schema type h, exists-same os o name schema type h) refl

-- the data that a search is to find
abbrev pub shown : Fate → Option (Option ObjectData)
shown absent = none
shown (live d) = some d
shown gone = none

-- The search finds an object exactly under a live key, with the data.
pub find-fate :
    (mem : Memory) (os : List Metadata) (name : Bytes) (schema : Option Bytes) (type : ℕ)
    → NodupKeys os
    → (find_active os name schema type >>= λ r. some (load mem r.1.contents))
      ≡ shown (fate mem os name schema type)
unfolding find_active
find-fate mem [] name schema type n = refl
find-fate mem (o ∷ os) name schema type n = elim (Bool-cases (has_key o name schema type)) [
  | inl h ↦ elim (Bool-cases (is_active o)) [
    | inl b ↦ rw (find_active, h, b) refl
    | inr b ↦
        let nowhere = not_found os name schema type (exists-same os o name schema type h ∙ n.0) in
        rw (find_active, h, b, nowhere) refl
  ]
  | inr h ↦ elim (Option-cases (find_active os name schema type)) [
    | inl e ↦ rw (find_active, h, e) (rw e at (find-fate mem os name schema type n.1))
    | inr (r, e) ↦ rw (find_active, h, e) (rw e at (find-fate mem os name schema type n.1))
  ]
]

key_comm : (x o : Metadata) → has_key o x.name x.schema x.type ≡ has_key x o.name o.schema o.type
unfolding has_key
key_comm x o = same_key_comm o.name o.schema o.type x.name x.schema x.type

exists-append :
    (os : List Metadata) (o : Metadata) (name : Bytes) (schema : Option Bytes) (type : ℕ)
    → exists_key os name schema type ≡ false
    → has_key o name schema type ≡ false
    → exists_key (os ++ o ∷ []) name schema type ≡ false
unfolding exists_key
exists-append [] o name schema type e h = rw h refl
exists-append (x ∷ os) o name schema type e h = elim (Bool-cases (has_key x name schema type)) [
  | inl k ↦ let there = rw (exists_key, k) at e in cc
  | inr k ↦ rw (exists_key, k) (exists-append os o name schema type (rw (exists_key, k) at e) h)
]

-- A new object with a key of its own leaves all keys different.
pub NodupKeys-append :
    (os : List Metadata) (o : Metadata)
    → exists_key os o.name o.schema o.type ≡ false
    → NodupKeys os
    → NodupKeys (os ++ o ∷ [])
unfolding exists_key
NodupKeys-append [] o e n = (refl, tt)
NodupKeys-append (x ∷ os) o e n = elim (Bool-cases (has_key x o.name o.schema o.type)) [
  | inl k ↦ let there = rw (exists_key, k) at e in cc
  | inr k ↦ (
    exists-append os o x.name x.schema x.type n.0 (key_comm x o ∙ k),
    NodupKeys-append os o (rw (exists_key, k) at e) n.1,
  )
]
