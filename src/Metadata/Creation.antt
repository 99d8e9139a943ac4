-- ===== src/Metadata/Creation.antt =====
-- What a creation in the catalogue of src/metadata/metadata.c leaves.
use micro_meow_db.Prelude.{
  ℕ, ◌+◌, ◌%◌, ◌^◌, ◌≡◌, refl, sym, ap, ◌∙◌, Bool, true, false, Option, none, some, List, [], ◌∷◌,
  ◌++◌, Bytes, if◌then◌else◌, arith, Bool-cases, inl, inr,
}
use micro_meow_db.Metadata.{
  ObjectData, Memory, malloc, place, load, Metadata, active, MetadataManager, has_key, is_active,
  create_metadata_object, exists_key, metadata_create,
}
use micro_meow_db.Metadata.Objects.{Fate, absent, live, gone, fate, same_key}
use micro_meow_db.Metadata.Fates.{fate-append, exists-fate, exists-same, NodupKeys-append}
use micro_meow_db.Metadata.Ownership.{
  SameLoads, fate-SameLoads, Owns-SameLoads, place_new, place-SameLoads, place-Apart, Owns-append,
}
use micro_meow_db.Metadata.Calls.{create, step, effect, Typed, Holds, Steps, place-Holds, owned_by}

-- what a creation leaves that finds no object with the key
create_new :
    (now : ℕ) (mem : Memory) (m : MetadataManager) (os : List Metadata) (name : Bytes)
    (schema : Option Bytes) (type p : ℕ)
    → m.objects ≡ some os
    → exists_key os name schema type ≡ false
    → ((n : ℕ) → mem.grants n ≡ true)
    → (m' : MetadataManager) × (metadata_create now mem m name schema type (some p)
        ≡ some (
          record mem { asked = mem.asked + 1 + 1 },
          m',
          some (create_metadata_object now name schema type active (some p)),
        ))
      × (m'.objects ≡ some (os ++ create_metadata_object now name schema type active (some p) ∷ []))
unfolding metadata_create malloc
create_new now mem m os name schema type p h e g = (
  record m {
    objects = some (os ++ create_metadata_object now name schema type active (some p) ∷ []);
    object_count = (m.object_count + 1) % 2 ^ 64;
    dirty = true;
  },
  ground (arith, g mem.asked, g (mem.asked + 1)),
  refl,
)

pub create_refused :
    (now : ℕ) (mem : Memory) (m : MetadataManager) (os : List Metadata) (name : Bytes)
    (schema : Option Bytes) (type : ℕ) (p : Option ℕ)
    → m.objects ≡ some os
    → exists_key os name schema type ≡ true
    → metadata_create now mem m name schema type p ≡ some (mem, m, none)
unfolding metadata_create
create_refused now mem m os name schema type p h e = ground arith

-- the fate of a new object's key among the others
create_fate :
    (same : Bool) (f d : Fate)
    → elim f [ absent ↦ if same then d else absent | live d' ↦ live d' | gone ↦ gone ]
      ≡ (if same then elim f [ absent ↦ d | live d' ↦ live d' | gone ↦ gone ] else f)
create_fate true absent d = refl
create_fate true (live x) d = refl
create_fate true gone d = refl
create_fate false absent d = refl
create_fate false (live x) d = refl
create_fate false gone d = refl

new_key :
    (now : ℕ) (name : Bytes) (schema : Option Bytes) (type : ℕ) (p : Option ℕ) (name' : Bytes)
    (schema' : Option Bytes) (type' : ℕ)
    → has_key (create_metadata_object now name schema type active p) name' schema' type'
      ≡ same_key name schema type name' schema' type'
unfolding has_key create_metadata_object
new_key now name schema type p name' schema' type' = refl

new_active :
    (now : ℕ) (name : Bytes) (schema : Option Bytes) (type : ℕ) (p : Option ℕ)
    → is_active (create_metadata_object now name schema type active p) ≡ true
unfolding is_active create_metadata_object
new_active now name schema type p = refl

-- a key that is in use keeps its fate
kept_fate :
    (f d : Fate)
    → elim f [ absent ↦ false | live d' ↦ true | gone ↦ true ] ≡ true
    → f ≡ elim f [ absent ↦ d | live d' ↦ live d' | gone ↦ gone ]
kept_fate absent d h = cc
kept_fate (live x) d h = refl
kept_fate gone d h = refl

create_kept :
    (now : ℕ) (name : Bytes) (schema : Option Bytes) (type : ℕ) (d : ObjectData) (mem : Memory)
    (os : List Metadata) (name' : Bytes) (schema' : Option Bytes) (type' : ℕ)
    → exists_key os name schema type ≡ true
    → fate mem os name' schema' type'
      ≡ effect (create now name schema type d) name' schema' type' (fate mem os name' schema' type')
unfolding create_metadata_object
create_kept now name schema type d mem os name' schema' type' e =
    let o : Metadata = create_metadata_object now name schema type active none in
    elim (Bool-cases (same_key name schema type name' schema' type')) [
      | inr s ↦ rw s refl
      | inl s ↦
          let there =
            exists-same os o name' schema' type'
              (new_key now name schema type none name' schema' type' ∙ s)
            ∙ e in
          rw s (
            kept_fate (fate mem os name' schema' type') (live (some d))
              (sym (exists-fate mem os name' schema' type') ∙ there))
    ]

new_contents :
    (now : ℕ) (name : Bytes) (schema : Option Bytes) (type : ℕ) (p : Option ℕ)
    → (create_metadata_object now name schema type active p).contents ≡ p
unfolding create_metadata_object
new_contents now name schema type p = refl

-- The fate of a new object's key is told from equal parts.
create_told :
    (f g : Fate) (b same : Bool) (l : Option ObjectData) (d : ObjectData)
    → f ≡ g
    → b ≡ same
    → l ≡ some d
    → elim f [ absent ↦ if b then live l else absent | live d' ↦ live d' | gone ↦ gone ]
      ≡ (if same then elim g [ absent ↦ live (some d) | live d' ↦ live d' | gone ↦ gone ] else g)
create_told f g b same l d e₁ e₂ e₃ =
    create_fate b f (live l)
    ∙ ap
        (λ (t : Option ObjectData).
          if b then elim f [ absent ↦ live t | live d' ↦ live d' | gone ↦ gone ] else f)
        e₃
    ∙ ap
        (λ (t : Bool).
          if t then elim f [ absent ↦ live (some d) | live d' ↦ live d' | gone ↦ gone ] else f)
        e₂
    ∙ ap
        (λ (t : Fate).
          if same then elim t [ absent ↦ live (some d) | live d' ↦ live d' | gone ↦ gone ] else t)
        e₁

-- what a creation that is granted makes of each key
create_fates :
    (now : ℕ) (mem mem₁ : Memory) (os : List Metadata) (name : Bytes) (schema : Option Bytes)
    (type p : ℕ) (d : ObjectData) (name' : Bytes) (schema' : Option Bytes) (type' : ℕ)
    → fate mem₁ os name' schema' type' ≡ fate mem os name' schema' type'
    → load mem₁ (some p) ≡ some d
    → fate mem₁
        (os ++ create_metadata_object now name schema type active (some p) ∷ [])
        name'
        schema'
        type'
      ≡ effect (create now name schema type d) name' schema' type' (fate mem os name' schema' type')
create_fates now mem mem₁ os name schema type p d name' schema' type' before new =
    let o : Metadata = create_metadata_object now name schema type active (some p) in
    fate-append mem₁ os o name' schema' type' (new_active now name schema type (some p))
    ∙ create_told (fate mem₁ os name' schema' type') (fate mem os name' schema' type')
        (has_key o name' schema' type') (same_key name schema type name' schema' type')
        (load mem₁ o.contents) d before (new_key now name schema type (some p) name' schema' type')
        (ap (load mem₁) (new_contents now name schema type (some p)) ∙ new)

abbrev ask_twice : Memory → Memory
ask_twice mem = record mem { asked = mem.asked + 1 + 1 }

asked-load : (mem : Memory) (p : Option ℕ) → load (ask_twice mem) p ≡ load mem p
unfolding load
asked-load mem none = refl
asked-load mem (some p) = refl

asked-SameLoads : (mem : Memory) (os : List Metadata) → SameLoads mem (ask_twice mem) os
asked-SameLoads mem [] = tt
asked-SameLoads mem (o ∷ os) = (asked-load mem o.contents, asked-SameLoads mem os)

pub create-Steps :
    (now : ℕ) (name : Bytes) (schema : Option Bytes) (type : ℕ) (d : ObjectData) (mem : Memory)
    (m : MetadataManager) (os : List Metadata)
    → Typed (create now name schema type d)
    → Holds mem m os
    → Steps (create now name schema type d) mem m os
unfolding step place create_metadata_object
create-Steps now name schema type d mem m os typed h =
    let mem₁ : Memory = (place mem d).0 in
    let p : ℕ = (place mem d).1 in
    let h₁ = place-Holds mem m os d h in
    let o : Metadata = create_metadata_object now name schema type active (some p) in
    let new : load mem₁ (some p) ≡ some d = place_new mem d in
    let before = λ (name' : Bytes) (schema' : Option Bytes) (type' : ℕ).
      fate-SameLoads mem mem₁ os name' schema' type' (place-SameLoads mem d os h.owns) in
    elim (Bool-cases (exists_key os name schema type)) [
      | inl e ↦ record {
        mem' = mem₁;
        m' = m;
        os' = os;
        done = rw (create_refused now mem₁ m os name schema type (some p) h.objects e) refl;
        holds = h₁;
        fates = λ name' schema' type'.
            before name' schema' type'
            ∙ create_kept now name schema type d mem os name' schema' type' e;
      }
      | inr e ↦
          let (m', done, objects) =
            create_new now mem₁ m os name schema type p h.objects e h₁.granted in
          record {
            mem' = record mem₁ { asked = mem₁.asked + 1 + 1 };
            m' = m';
            os' = os ++ o ∷ [];
            done = rw done refl;
            holds = record {
              objects = objects;
              keys = NodupKeys-append os o e h.keys;
              owns =
                  Owns-append (ask_twice mem₁) os o
                    (owned_by (ask_twice mem₁) o p d refl (asked-load mem₁ (some p) ∙ new) typed)
                    (place-Apart mem os h.owns)
                    (Owns-SameLoads mem₁ (ask_twice mem₁) os (asked-SameLoads mem₁ os) h₁.owns);
              granted = h₁.granted;
            };
            fates = λ name' schema' type'.
                fate-SameLoads mem₁ (ask_twice mem₁) (os ++ o ∷ []) name' schema' type'
                  (asked-SameLoads mem₁ (os ++ o ∷ []))
                ∙ create_fates now mem mem₁ os name schema type p d name' schema' type'
                    (before name' schema' type') new;
          }
    ]
