-- ===== src/Metadata/History.antt =====
-- Any creations, updates and deletions in the catalogue of src/metadata/metadata.c, against what
-- they make of each key.
use micro_meow_db.Prelude.{
  ℕ, ◌≡◌, refl, sym, ap, ◌∙◌, Bool, true, Option, none, some, List, [], ◌∷◌, Bytes, All, ◌>>=◌,
  Option-cases, inl, inr,
}
use micro_meow_db.Metadata.{
  ObjectData, Memory, load, Metadata, MetadataManager, find_active, metadata_manager_init,
  metadata_get,
}
use micro_meow_db.Metadata.Objects.{Fate, absent, fate}
use micro_meow_db.Metadata.Fates.{shown, find-fate}
use micro_meow_db.Metadata.Calls.{
  Call, create, update, delete, run, told, Typed, Holds, Steps, new_memory,
}
use micro_meow_db.Metadata.Creation.{create-Steps}
use micro_meow_db.Metadata.Change.{update-Steps}
use micro_meow_db.Metadata.Deletion.{delete-Steps}

step-Steps :
    (c : Call) (mem : Memory) (m : MetadataManager) (os : List Metadata)
    → Typed c
    → Holds mem m os
    → Steps c mem m os
step-Steps (create now name schema type d) mem m os typed h =
    create-Steps now name schema type d mem m os typed h
step-Steps (update now name schema type d) mem m os typed h =
    update-Steps now name schema type d mem m os typed h
step-Steps (delete now name schema type) mem m os typed h =
    delete-Steps now name schema type mem m os h

-- what any calls leave
pub record Runs (calls : List Call) (mem : Memory) (m : MetadataManager) (os : List Metadata)
    : Type 0 where
  pub mem' : Memory
  pub m' : MetadataManager
  pub os' : List Metadata
  pub done : run calls mem m ≡ some (mem', m')
  pub holds : Holds mem' m' os'
  pub fates :
      (name : Bytes) (schema : Option Bytes) (type : ℕ)
      → fate mem' os' name schema type ≡ told calls name schema type (fate mem os name schema type)

run-Runs :
    (calls : List Call) (mem : Memory) (m : MetadataManager) (os : List Metadata)
    → All Typed calls
    → Holds mem m os
    → Runs calls mem m os
unfolding run
run-Runs [] mem m os typed h = record {
  mem' = mem;
  m' = m;
  os' = os;
  done = refl;
  holds = h;
  fates = λ name schema type. refl;
}
run-Runs (c ∷ cs) mem m os typed h =
    let s = step-Steps c mem m os typed.0 h in
    let r = run-Runs cs s.mem' s.m' s.os' typed.1 s.holds in
    record {
      mem' = r.mem';
      m' = r.m';
      os' = r.os';
      done = rw (run, s.done) r.done;
      holds = r.holds;
      fates = λ name schema type.
          r.fates name schema type ∙ ap (told cs name schema type) (s.fates name schema type);
    }

-- what a search finds: the data of the object, as far as they can be read
unfoldable pub found_data :
    Memory → MetadataManager → Bytes → Option Bytes → ℕ → Option (Option (Option ObjectData))
found_data mem m name schema type =
    metadata_get m name schema type >>= λ o. some (o >>= λ o'. some (load mem o'.contents))

found-fate :
    (mem : Memory) (m : MetadataManager) (os : List Metadata) (name : Bytes) (schema : Option Bytes)
    (type : ℕ)
    → Holds mem m os
    → found_data mem m name schema type ≡ some (shown (fate mem os name schema type))
unfolding found_data metadata_get
found-fate mem m os name schema type h =
    let e = find-fate mem os name schema type h.keys in
    elim (Option-cases (find_active os name schema type)) [
      | inl n ↦ rw (h.objects, n) (ap some (rw n at e))
      | inr (r, n) ↦ rw (h.objects, n) (ap some (rw n at e))
    ]

init_objects :
    (dir : Option Bytes) (m : MetadataManager)
    → metadata_manager_init true dir ≡ some m
    → m.objects ≡ some []
unfolding metadata_manager_init
init_objects none m e = ap (λ o. o >>= λ t. t.objects) (sym e)
init_objects (some d) m e = ap (λ o. o >>= λ t. t.objects) (sym e)

-- After any creations, updates and deletions, with data of the types of their objects and where
-- memory can be had, on a new catalogue: the calls are defined, and a search for any key finds an
-- object exactly if the key was created and not deleted since, and it finds the data that the
-- creation stored or the last update of it put in their place.
pub found_data-run :
    (granted : (ℕ → Bool)) (dir : Option Bytes) (m : MetadataManager) (calls : List Call)
    (name : Bytes) (schema : Option Bytes) (type : ℕ)
    → metadata_manager_init true dir ≡ some m
    → ((n : ℕ) → granted n ≡ true)
    → All Typed calls
    → (run calls (new_memory granted) m >>= λ r. found_data r.0 r.1 name schema type)
      ≡ some (shown (told calls name schema type absent))
found_data-run granted dir m calls name schema type init g typed =
    let h : Holds (new_memory granted) m [] = record {
      objects = init_objects dir m init;
      keys = tt;
      owns = tt;
      granted = g;
    } in
    let r = run-Runs calls (new_memory granted) m [] typed h in
    rw r.done (
      found-fate r.mem' r.m' r.os' name schema type r.holds
      ∙ ap (λ (f : Fate). some (shown f)) (r.fates name schema type))
