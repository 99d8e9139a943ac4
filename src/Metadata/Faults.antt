-- ===== src/Metadata/Faults.antt =====
-- Where the operations of src/metadata/metadata.c do what their callers cannot expect.
use micro_meow_db.Prelude.{
  ℕ, zero, suc, ◌≡◌, refl, sym, ap, ◌∙◌, Bool, true, false, Option, none, some, List, [], ◌∷◌,
  Bytes, get_elem?, set, ◌>>=◌, arith, Bool-cases, Option-cases, inl, inr,
}
use micro_meow_db.Metadata.{
  TableMetadata, table, ObjectData, Memory, load, store, as_table, Metadata, MetadataManager,
  has_key, is_active, is_of_type, free_data, exists_key, find_active, metadata_create, metadata_get,
  metadata_update, metadata_delete,
}
use micro_meow_db.Metadata.Tables.{load_table, metadata_get_table, metadata_update_table}
use micro_meow_db.Metadata.Renaming.{metadata_rename_table}
use micro_meow_db.Metadata.Objects.{modify, find_cases}
use micro_meow_db.Metadata.Ownership.{freed}
use micro_meow_db.Metadata.Deletion.{mark, mark_key, delete_found, delete_missing}
use micro_meow_db.Metadata.Change.{renew, renew_key, update_found, update_missing}
use micro_meow_db.Metadata.Creation.{create_refused}
use micro_meow_db.Metadata.History.{found_data}

module _ {ℓ} {A : Type ℓ} where
  get-set_same :
      (xs : List A) (i : ℕ) (a b : A) → get_elem? xs i ≡ some b → get_elem? (set xs i a) i ≡ some a
  unfolding set
  get-set_same [] i a b e = cc
  get-set_same (x ∷ xs) zero a b e = refl
  get-set_same (x ∷ xs) (suc i) a b e = get-set_same xs i a b e

-- A change that keeps the key of an object keeps the key in use.
exists-modify :
    (f : Metadata → Metadata) (os : List Metadata) (name : Bytes) (schema : Option Bytes) (type : ℕ)
    (r : ℕ × Metadata)
    → ((o : Metadata) → has_key (f o) name schema type ≡ has_key o name schema type)
    → find_active os name schema type ≡ some r
    → exists_key (modify f os name schema type) name schema type ≡ true
unfolding exists_key find_active
exists-modify f [] name schema type r keeps e = cc
exists-modify f (x ∷ os) name schema type r keeps e =
    elim (Bool-cases (has_key x name schema type)) [
      | inl h ↦ elim (Bool-cases (is_active x)) [
        | inl a ↦ rw (h, a, exists_key, keeps x, h) refl
        | inr a ↦ rw (h, a, exists_key, h) refl
      ]
      | inr h ↦ elim (Option-cases (find_active os name schema type)) [
        | inl n ↦ let nothing = rw (find_active, h, n) at e in cc
        | inr (r', n) ↦ rw (h, exists_key, h) (exists-modify f os name schema type r' keeps n)
      ]
    ]

-- A change that keeps the key of an object and its state is found in its place.
find-modify :
    (f : Metadata → Metadata) (os : List Metadata) (name : Bytes) (schema : Option Bytes) (type : ℕ)
    → ((o : Metadata) → has_key (f o) name schema type ≡ has_key o name schema type)
    → ((o : Metadata) → is_active (f o) ≡ is_active o)
    → find_active (modify f os name schema type) name schema type
      ≡ (find_active os name schema type >>= λ r. some (r.0, f r.1))
unfolding find_active
find-modify f [] name schema type keys states = refl
find-modify f (x ∷ os) name schema type keys states =
    elim (Bool-cases (has_key x name schema type)) [
      | inl h ↦ elim (Bool-cases (is_active x)) [
        | inl a ↦ rw (h, a, find_active, keys x, states x, h, a) refl
        | inr a ↦
            rw (h, a, find_active, h, a, find-modify f os name schema type keys states)
              (ground (arith, Option-cases (find_active os name schema type)))
      ]
      | inr h ↦
          rw (h, find_active, h, find-modify f os name schema type keys states)
            (ground (arith, Option-cases (find_active os name schema type)))
    ]

find-set :
    (f : Metadata → Metadata) (os : List Metadata) (name : Bytes) (schema : Option Bytes)
    (type i : ℕ) (o : Metadata)
    → ((x : Metadata) → has_key (f x) name schema type ≡ has_key x name schema type)
    → ((x : Metadata) → is_active (f x) ≡ is_active x)
    → find_active os name schema type ≡ some (i, o)
    → find_active (set os i (f o)) name schema type ≡ some (i, f o)
find-set f os name schema type i o keys states e = elim (find_cases os name schema type) [
  | inl (n, keep) ↦ let nothing = sym n ∙ e in cc
  | inr r ↦
      let place : r.place ≡ i = let k = sym r.found ∙ e in cc in
      let object : r.object ≡ o = let k = sym r.found ∙ e in cc in
      let changed : set os i (f o) ≡ modify f os name schema type =
        ap (λ (j : ℕ). set os j (f o)) (sym place)
        ∙ ap (λ (x : Metadata). set os r.place (f x)) (sym object)
        ∙ r.change f in
      ap (λ (t : List Metadata). find_active t name schema type) changed
      ∙ find-modify f os name schema type keys states
      ∙ ap (λ (q : Option (ℕ × Metadata)). q >>= λ t. some (t.0, f t.1)) e
]

-- Once a deletion has succeeded, any creation under the name, the schema and the type is refused.
pub create-delete :
    (now now' : ℕ) (mem : Memory) (m m' : MetadataManager) (name : Bytes) (schema : Option Bytes)
    (type : ℕ) (p : Option ℕ)
    → metadata_delete now m name schema type ≡ some (m', true)
    → metadata_create now' mem m' name schema type p ≡ some (mem, m', none)
unfolding metadata_delete
create-delete now now' mem m m' name schema type p e = elim (Option-cases m.objects) [
  | inl h ↦ let nothing = rw h at e in cc
  | inr (os, h) ↦ elim (find_cases os name schema type) [
    | inl (n, keep) ↦ let refused = sym (delete_missing now m os name schema type h n) ∙ e in cc
    | inr r ↦
        let there = sym (delete_found now m os name schema type r.place r.object h r.found) ∙ e in
        let objects : m'.objects ≡ some (set os r.place (mark now r.object)) =
          ap (λ (t : Option (MetadataManager × Bool)). t >>= λ q. q.0.objects) (sym there) in
        create_refused now' mem m' (set os r.place (mark now r.object)) name schema type p objects (
          ap (λ (t : List Metadata). exists_key t name schema type) (r.change (mark now))
          ∙ exists-modify (mark now) os name schema type _ (λ o. mark_key now o name schema type)
              r.found)
  ]
]

-- an object that a search finds, with its data
record Found (mem : Memory) (m : MetadataManager) (name : Bytes) (schema : Option Bytes) (type : ℕ)
    (d : ObjectData) : Type 0 where
  all : List Metadata
  place : ℕ
  object : Metadata
  address : ℕ
  objects : m.objects ≡ some all
  found : find_active all name schema type ≡ some (place, object)
  points : object.contents ≡ some address
  stored : load mem (some address) ≡ some d

address_of :
    (mem : Memory) (c : Option ℕ) (d : ObjectData)
    → load mem c ≡ some d
    → (p : ℕ) × (c ≡ some p) × (load mem (some p) ≡ some d)
unfolding load
address_of mem none d e = cc
address_of mem (some p) d e = (p, refl, e)

stored_object :
    (mem : Memory) (m : MetadataManager) (name : Bytes) (schema : Option Bytes) (type : ℕ)
    (d : ObjectData)
    → found_data mem m name schema type ≡ some (some (some d))
    → Found mem m name schema type d
unfolding found_data metadata_get
stored_object mem m name schema type d e = elim (Option-cases m.objects) [
  | inl h ↦ let nothing = rw h at e in cc
  | inr (os, h) ↦ elim (Option-cases (find_active os name schema type)) [
    | inl n ↦ let nothing = rw (h, n) at e in cc
    | inr (r, n) ↦
        let read : load mem r.1.contents ≡ some d = let k = rw (h, n) at e in cc in
        let (p, points, stored) = address_of mem r.1.contents d read in
        record {
          all = os;
          place = r.0;
          object = r.1;
          address = p;
          objects = h;
          found = n;
          points = points;
          stored = stored;
        }
  ]
]

load-store :
    (mem : Memory) (p : ℕ) (d d' : ObjectData)
    → load mem (some p) ≡ some d
    → load (store mem p d') (some p) ≡ some d'
unfolding load store
load-store mem p d d' e = elim (Option-cases (get_elem? mem.cells p)) [
  | inl n ↦ let nothing = rw n at e in cc
  | inr (cell, n) ↦ rw (get-set_same mem.cells p (some d') cell n) refl
]

load-freed :
    (mem : Memory) (p : ℕ) (d : ObjectData)
    → load mem (some p) ≡ some d
    → load (freed mem p) (some p) ≡ none
unfolding load
load-freed mem p d e = elim (Option-cases (get_elem? mem.cells p)) [
  | inl n ↦ let nothing = rw n at e in cc
  | inr (cell, n) ↦ rw (get-set_same mem.cells p none cell n) refl
]

no_object :
    (mem : Memory) (m : MetadataManager) (os : List Metadata) (name : Bytes) (schema : Option Bytes)
    (type : ℕ)
    → found_data mem m name schema type ≡ some none
    → m.objects ≡ some os
    → find_active os name schema type ≡ none
unfolding found_data metadata_get
no_object mem m os name schema type e h = elim (Option-cases (find_active os name schema type)) [
  | inl n ↦ n
  | inr (r, n) ↦ let nothing = rw (h, n) at e in cc
]

found_through :
    (mem : Memory) (m : MetadataManager) (os : List Metadata) (name : Bytes) (schema : Option Bytes)
    (type : ℕ) (r : ℕ × Metadata)
    → m.objects ≡ some os
    → find_active os name schema type ≡ some r
    → found_data mem m name schema type ≡ some (some (load mem r.1.contents))
unfolding found_data metadata_get
found_through mem m os name schema type r h n = rw (h, n) refl

get-Found :
    (mem : Memory) (m : MetadataManager) (name : Bytes) (schema : Option Bytes) (type : ℕ)
    (d : ObjectData) (f : Found mem m name schema type d)
    → metadata_get m name schema type ≡ some (some f.object)
unfolding metadata_get
get-Found mem m name schema type d f = rw (f.objects, f.found) refl

rename_refused :
    (now : ℕ) (mem : Memory) (m : MetadataManager) (old new : Bytes) (schema : Option Bytes)
    (t : TableMetadata) (o : Metadata) (p : ℕ)
    → metadata_get m old schema 1 ≡ some (some o)
    → o.contents ≡ some p
    → load mem (some p) ≡ some (table t)
    → load (store mem p (table (record t { name = new }))) (some p)
      ≡ some (table (record t { name = new }))
    → metadata_update now (store mem p (table (record t { name = new }))) m new t.schema 1 (some p)
      ≡ some (store mem p (table (record t { name = new })), m, false)
    → metadata_rename_table now mem m old new schema
      ≡ some (store mem p (table (record t { name = new })), m, false)
unfolding metadata_rename_table metadata_get_table metadata_update_table load_table as_table
rename_refused now mem m old new schema t o p e c l w u = rw (e, c, l, w, u) refl

-- A renaming of a table that is found, where no object is found under the new name and the table's
-- schema, returns `false`, and the table is found under the old name still, but its data say the
-- new name.
pub rename_table_half :
    (now : ℕ) (mem : Memory) (m : MetadataManager) (old new : Bytes) (schema : Option Bytes)
    (t : TableMetadata)
    → found_data mem m old schema 1 ≡ some (some (some (table t)))
    → found_data mem m new t.schema 1 ≡ some none
    → (mem' : Memory) × (metadata_rename_table now mem m old new schema ≡ some (mem', m, false))
      × (found_data mem' m old schema 1 ≡ some (some (some (table (record t { name = new })))))
rename_table_half now mem m old new schema t e n =
    let f = stored_object mem m old schema 1 (table t) e in
    let absent = no_object mem m f.all new t.schema 1 n f.objects in
    let t' : TableMetadata = record t { name = new } in
    let mem' : Memory = store mem f.address (table t') in
    let written = load-store mem f.address (table t) (table t') f.stored in
    (
      mem',
      rename_refused now mem m old new schema t f.object f.address
          (get-Found mem m old schema 1 (table t) f) f.points f.stored written
          (update_missing now mem' m f.all new t.schema 1 (some f.address) f.objects absent),
      found_through mem' m f.all old schema 1 (f.place, f.object) f.objects f.found
          ∙ ap (λ (c : Option ℕ). some (some (load mem' c))) f.points
          ∙ ap (λ (d : Option ObjectData). some (some d)) written,
    )

found_get :
    (mem : Memory) (m : MetadataManager) (name : Bytes) (schema : Option Bytes) (type : ℕ)
    (o : Metadata) (d : ObjectData)
    → metadata_get m name schema type ≡ some (some o)
    → load mem o.contents ≡ some d
    → found_data mem m name schema type ≡ some (some (some d))
unfolding found_data
found_get mem m name schema type o d e l = rw (e, l) refl

freed_lem :
    (mem : Memory) (type p : ℕ) (d : ObjectData)
    → load mem (some p) ≡ some d
    → is_of_type type d ≡ true
    → free_data mem type (some p) ≡ some (freed mem p)
unfolding free_data
freed_lem mem type p d l t = rw (l, t) refl

freed_twice :
    (mem : Memory) (type p : ℕ) (d : ObjectData)
    → load mem (some p) ≡ some d
    → free_data (freed mem p) type (some p) ≡ none
unfolding free_data
freed_twice mem type p d l = rw (load-freed mem p d l) refl

update_fails :
    (now : ℕ) (mem : Memory) (m : MetadataManager) (os : List Metadata) (name : Bytes)
    (schema : Option Bytes) (type : ℕ) (r : ℕ × Metadata) (p : Option ℕ)
    → m.objects ≡ some os
    → find_active os name schema type ≡ some r
    → free_data mem type r.1.contents ≡ none
    → metadata_update now mem m name schema type p ≡ none
unfolding metadata_update
update_fails now mem m os name schema type r p h n f = ground arith

renew_active : (now p : ℕ) (o : Metadata) → is_active (renew now p o) ≡ is_active o
unfolding is_active
renew_active now p o = refl

-- An update that hands back the data of the object itself, of its type, succeeds, but frees them:
-- the object is found, its data cannot be read, and any further update of it is undefined.
pub update_own :
    (now : ℕ) (mem : Memory) (m : MetadataManager) (name : Bytes) (schema : Option Bytes) (type : ℕ)
    (o : Metadata) (d : ObjectData)
    → metadata_get m name schema type ≡ some (some o)
    → load mem o.contents ≡ some d
    → is_of_type type d ≡ true
    → (mem' : Memory) × (m' : MetadataManager) × (metadata_update now mem m name schema type
          o.contents
        ≡ some (mem', m', true))
      × (found_data mem' m' name schema type ≡ some (some none))
      × ((now' : ℕ) (p : Option ℕ) → metadata_update now' mem' m' name schema type p ≡ none)
update_own now mem m name schema type o d e l t =
    let f = stored_object mem m name schema type d (found_get mem m name schema type o d e l) in
    let own : o ≡ f.object = let k = sym e ∙ get-Found mem m name schema type d f in cc in
    let change = renew now f.address in
    let all' : List Metadata = set f.all f.place (change f.object) in
    let m' : MetadataManager = record m { objects = some all'; dirty = true } in
    let found' =
      find-set change f.all name schema type f.place f.object
        (λ x. renew_key now f.address x name schema type) (λ x. renew_active now f.address x)
        f.found in
    (
      freed mem f.address,
      m',
      ap (metadata_update now mem m name schema type)
            (ap (λ (x : Metadata). x.contents) own ∙ f.points)
          ∙ update_found now mem (freed mem f.address) m f.all name schema type f.place f.address
              f.object f.objects f.found
              (ap (free_data mem type) f.points ∙ freed_lem mem type f.address d f.stored t),
      found_through (freed mem f.address) m' all' name schema type (f.place, change f.object) refl
            found'
          ∙ ap (λ (x : Option ObjectData). some (some x)) (load-freed mem f.address d f.stored),
      λ now' p.
          update_fails now' (freed mem f.address) m' all' name schema type
            (f.place, change f.object) p refl found' (freed_twice mem type f.address d f.stored),
    )
