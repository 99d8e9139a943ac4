-- ===== src/Metadata/Change.antt =====
-- What an update in the catalogue of src/metadata/metadata.c leaves.
use micro_meow_db.Prelude.{
  ℕ, ◌≡◌, ◌≢◌, refl, sym, ap, ◌∙◌, true, false, Option, none, some, List, Bytes, set, if◌then◌else◌,
  arith, inl, inr,
}
use micro_meow_db.Metadata.{
  ObjectData, Memory, place, load, Metadata, MetadataManager, has_key, is_active, is_of_type,
  free_data, find_active, metadata_update,
}
use micro_meow_db.Metadata.Objects.{live, gone, fate, Owned, find_cases}
use micro_meow_db.Metadata.Fates.{fate-modify}
use micro_meow_db.Metadata.Ownership.{
  freed, fate-SameLoads, Owns-SameLoads, place_new, place-SameLoads, place-Apart, freed-SameLoads,
  All-get, owned_at, Owns-set, Apart-set, NodupKeys-set,
}
use micro_meow_db.Metadata.Calls.{update, step, effect, Typed, Holds, Steps, place-Holds, owned_by}

-- the change of an object by an update
abbrev pub renew : ℕ → ℕ → Metadata → Metadata
renew now p o = record o { contents = some p; updated_at = now }

pub renew_key :
    (now p : ℕ) (o : Metadata) (name : Bytes) (schema : Option Bytes) (type : ℕ)
    → has_key (renew now p o) name schema type ≡ has_key o name schema type
unfolding has_key
renew_key now p o name schema type = refl

renew_live :
    (mem : Memory) (now p : ℕ) (o : Metadata) (d : Option ObjectData)
    → load mem (some p) ≡ d
    → is_active o ≡ true
    → (if is_active (renew now p o) then live (load mem (renew now p o).contents) else gone)
      ≡ live d
unfolding is_active
renew_live mem now p o d e a = rw (a, e) refl

free_lem :
    (mem : Memory) (o : Metadata) (type : ℕ) (own : Owned mem o)
    → o.type ≡ type
    → free_data mem type o.contents ≡ some (freed mem own.address)
unfolding free_data
free_lem mem o type own e = rw (own.points, free_data, own.stored, ← e, own.typed) refl

key_type :
    (o : Metadata) (name : Bytes) (schema : Option Bytes) (type : ℕ)
    → has_key o name schema type ≡ true
    → o.type ≡ type
unfolding has_key
key_type o name schema type h = ground arith

pub update_missing :
    (now : ℕ) (mem : Memory) (m : MetadataManager) (os : List Metadata) (name : Bytes)
    (schema : Option Bytes) (type : ℕ) (contents : Option ℕ)
    → m.objects ≡ some os
    → find_active os name schema type ≡ none
    → metadata_update now mem m name schema type contents ≡ some (mem, m, false)
unfolding metadata_update
update_missing now mem m os name schema type contents h e = ground arith

pub update_found :
    (now : ℕ) (mem mem' : Memory) (m : MetadataManager) (os : List Metadata) (name : Bytes)
    (schema : Option Bytes) (type i p : ℕ) (o : Metadata)
    → m.objects ≡ some os
    → find_active os name schema type ≡ some (i, o)
    → free_data mem type o.contents ≡ some mem'
    → metadata_update now mem m name schema type (some p)
      ≡ some (mem', record m { objects = some (set os i (renew now p o)); dirty = true }, true)
unfolding metadata_update
update_found now mem mem' m os name schema type i p o h e f = ground arith

pub update-Steps :
    (now : ℕ) (name : Bytes) (schema : Option Bytes) (type : ℕ) (d : ObjectData) (mem : Memory)
    (m : MetadataManager) (os : List Metadata)
    → Typed (update now name schema type d)
    → Holds mem m os
    → Steps (update now name schema type d) mem m os
unfolding step place
update-Steps now name schema type d mem m os typed h =
    let mem₁ : Memory = (place mem d).0 in
    let p : ℕ = (place mem d).1 in
    let h₁ = place-Holds mem m os d h in
    let new : load mem₁ (some p) ≡ some d = place_new mem d in
    let before = λ (name' : Bytes) (schema' : Option Bytes) (type' : ℕ).
      fate-SameLoads mem mem₁ os name' schema' type' (place-SameLoads mem d os h.owns) in
    let told_fates = λ (name' : Bytes) (schema' : Option Bytes) (type' : ℕ).
      fate-modify mem₁ (renew now p) (live (some d)) os name schema type name' schema' type'
        (λ o. renew_key now p o name' schema' type') (λ o a. renew_live mem₁ now p o (some d) new a)
      ∙ ap (λ f. effect (update now name schema type d) name' schema' type' f)
          (before name' schema' type') in
    elim (find_cases os name schema type) [
      | inl (e, keep) ↦ record {
        mem' = mem₁;
        m' = m;
        os' = os;
        done = rw (update_missing now mem₁ m os name schema type (some p) h.objects e) refl;
        holds = h₁;
        fates = λ name' schema' type'.
            ap (λ t. fate mem₁ t name' schema' type') (sym (keep (renew now p)))
            ∙ told_fates name' schema' type';
      }
      | inr r ↦
          let own = owned_at mem₁ os r.place r.object h₁.owns r.at in
          let o' = renew now p r.object in
          let fresh = place-Apart mem os h.owns in
          let free = free_lem mem₁ r.object type own (key_type r.object name schema type r.keyed) in
          let other : o'.contents ≢ some own.address = λ e.
            All-get (λ y. y.contents ≢ some p) os r.place r.object fresh r.at
              (own.points ∙ sym e) in
          let apart =
            Apart-set mem₁ os r.place own.address r.object o' r.at own.points other h₁.owns in
          let loads = freed-SameLoads mem₁ own.address (set os r.place o') apart in
          let owned =
            owned_by mem₁ o' p d refl new
              (ap (λ t. is_of_type t d) (key_type r.object name schema type r.keyed) ∙ typed) in
          record {
            mem' = freed mem₁ own.address;
            m' = record m { objects = some (set os r.place o'); dirty = true };
            os' = set os r.place o';
            done =
                rw
                  (update_found now mem₁ (freed mem₁ own.address) m os name schema type r.place p
                    r.object h.objects r.found free)
                  refl;
            holds = record {
              objects = refl;
              keys =
                  NodupKeys-set os r.place r.object o' r.at (renew_key now p r.object)
                    (refl, refl, refl) h.keys;
              owns =
                  Owns-SameLoads mem₁ (freed mem₁ own.address) (set os r.place o') loads
                    (Owns-set mem₁ os r.place o' owned fresh h₁.owns);
              granted = h₁.granted;
            };
            fates = λ name' schema' type'.
                fate-SameLoads mem₁ (freed mem₁ own.address) (set os r.place o') name' schema' type'
                  loads
                ∙ ap (λ t. fate mem₁ t name' schema' type') (r.change (renew now p))
                ∙ told_fates name' schema' type';
          }
    ]
