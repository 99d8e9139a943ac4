-- ===== src/Metadata/Deletion.antt =====
-- What a deletion in the catalogue of src/metadata/metadata.c leaves.
use micro_meow_db.Prelude.{
  ℕ, ◌≡◌, refl, sym, ap, ◌∙◌, true, false, Option, none, some, List, Bytes, set, if◌then◌else◌,
  arith, inl, inr,
}
use micro_meow_db.Metadata.{
  Memory, load, Metadata, deleted, MetadataManager, has_key, is_active, find_active,
  metadata_delete,
}
use micro_meow_db.Metadata.Objects.{live, gone, fate, find_cases}
use micro_meow_db.Metadata.Fates.{fate-modify}
use micro_meow_db.Metadata.Ownership.{Owns-set_same, NodupKeys-set}
use micro_meow_db.Metadata.Calls.{delete, step, Holds, Steps}

-- the change of an object by a deletion
abbrev pub mark : ℕ → Metadata → Metadata
mark now o = record o { status = deleted; updated_at = now }

pub mark_key :
    (now : ℕ) (o : Metadata) (name : Bytes) (schema : Option Bytes) (type : ℕ)
    → has_key (mark now o) name schema type ≡ has_key o name schema type
unfolding has_key
mark_key now o name schema type = refl

mark_gone :
    (mem : Memory) (now : ℕ) (o : Metadata)
    → (if is_active (mark now o) then live (load mem (mark now o).contents) else gone) ≡ gone
unfolding is_active
mark_gone mem now o = refl

pub delete_missing :
    (now : ℕ) (m : MetadataManager) (os : List Metadata) (name : Bytes) (schema : Option Bytes)
    (type : ℕ)
    → m.objects ≡ some os
    → find_active os name schema type ≡ none
    → metadata_delete now m name schema type ≡ some (m, false)
unfolding metadata_delete
delete_missing now m os name schema type h e = ground arith

pub delete_found :
    (now : ℕ) (m : MetadataManager) (os : List Metadata) (name : Bytes) (schema : Option Bytes)
    (type i : ℕ) (o : Metadata)
    → m.objects ≡ some os
    → find_active os name schema type ≡ some (i, o)
    → metadata_delete now m name schema type
      ≡ some (record m { objects = some (set os i (mark now o)); dirty = true }, true)
unfolding metadata_delete
delete_found now m os name schema type i o h e = ground arith

pub delete-Steps :
    (now : ℕ) (name : Bytes) (schema : Option Bytes) (type : ℕ) (mem : Memory) (m : MetadataManager)
    (os : List Metadata)
    → Holds mem m os
    → Steps (delete now name schema type) mem m os
unfolding step
delete-Steps now name schema type mem m os h =
    let told_fates = λ (name' : Bytes) (schema' : Option Bytes) (type' : ℕ).
      fate-modify mem (mark now) gone os name schema type name' schema' type'
        (λ o. mark_key now o name' schema' type') (λ o a. mark_gone mem now o) in
    elim (find_cases os name schema type) [
      | inl (e, keep) ↦ record {
        mem' = mem;
        m' = m;
        os' = os;
        done = rw (delete_missing now m os name schema type h.objects e) refl;
        holds = h;
        fates = λ name' schema' type'.
            ap (λ t. fate mem t name' schema' type') (sym (keep (mark now)))
            ∙ told_fates name' schema' type';
      }
      | inr r ↦ record {
        mem' = mem;
        m' = record m { objects = some (set os r.place (mark now r.object)); dirty = true };
        os' = set os r.place (mark now r.object);
        done = rw (delete_found now m os name schema type r.place r.object h.objects r.found) refl;
        holds = record {
          objects = refl;
          keys =
              NodupKeys-set os r.place r.object (mark now r.object) r.at (mark_key now r.object)
                (refl, refl, refl) h.keys;
          owns = Owns-set_same mem os r.place r.object (mark now r.object) r.at refl refl h.owns;
          granted = h.granted;
        };
        fates = λ name' schema' type'.
            ap (λ t. fate mem t name' schema' type') (r.change (mark now))
            ∙ told_fates name' schema' type';
      }
    ]
