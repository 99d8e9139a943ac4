-- ===== src/Metadata/Calls.antt =====
-- Creations, updates and deletions in the catalogue of src/metadata/metadata.c as calls, and what
-- they are to make of each key.
use micro_meow_db.Prelude.{
  ℕ, ◌≡◌, Bool, true, Option, some, List, [], ◌∷◌, Bytes, if◌then◌else◌, ◌>>=◌,
}
use micro_meow_db.Metadata.{
  ObjectData, Memory, place, load, Metadata, MetadataManager, is_of_type, metadata_create,
  metadata_update, metadata_delete,
}
use micro_meow_db.Metadata.Objects.{
  Fate, absent, live, gone, fate, NodupKeys, Owned, Owns, same_key,
}
use micro_meow_db.Metadata.Fates.{changed}
use micro_meow_db.Metadata.Ownership.{Owns-SameLoads, place-SameLoads}

-- no cells yet
abbrev pub new_memory : (ℕ → Bool) → Memory
new_memory granted = record { cells = []; grants = granted; asked = 0 }

-- A call at a time: new data are handed over with a creation and an update.
pub data Call : Type 0 where
  create update : ℕ → Bytes → Option Bytes → ℕ → ObjectData → Call
  delete : ℕ → Bytes → Option Bytes → ℕ → Call

unfoldable pub step : Call → Memory → MetadataManager → Option (Memory × MetadataManager)
step (create now name schema type d) mem m =
    let p : ℕ = (place mem d).1 in
    metadata_create now (place mem d).0 m name schema type (some p) >>= λ r. some (r.0, r.1)
step (update now name schema type d) mem m =
    let p : ℕ = (place mem d).1 in
    metadata_update now (place mem d).0 m name schema type (some p) >>= λ r. some (r.0, r.1)
step (delete now name schema type) mem m =
    metadata_delete now m name schema type >>= λ r. some (mem, r.0)

unfoldable pub run : List Call → Memory → MetadataManager → Option (Memory × MetadataManager)
run [] mem m = some (mem, m)
run (c ∷ cs) mem m = step c mem m >>= λ r. run cs r.0 r.1

-- What a call makes of a key: only a key that nothing was ever stored under takes a new object.
abbrev pub effect : Call → Bytes → Option Bytes → ℕ → Fate → Fate
effect (create now name schema type d) name' schema' type' f =
    if same_key name schema type name' schema' type'
    then elim f [ absent ↦ live (some d) | live d' ↦ live d' | gone ↦ gone ]
    else f
effect (update now name schema type d) name' schema' type' f =
    if same_key name schema type name' schema' type' then changed (live (some d)) f else f
effect (delete now name schema type) name' schema' type' f =
    if same_key name schema type name' schema' type' then changed gone f else f

abbrev pub told : List Call → Bytes → Option Bytes → ℕ → Fate → Fate
told [] name schema type f = f
told (c ∷ cs) name schema type f = told cs name schema type (effect c name schema type f)

-- The data of a call are of the type of its object.
abbrev pub Typed : Call → Type 0
Typed (create now name schema type d) = is_of_type type d ≡ true
Typed (update now name schema type d) = is_of_type type d ≡ true
Typed (delete now name schema type) = Unit

-- A catalogue whose objects have different keys and data of their own, where memory can be had.
pub record Holds (mem : Memory) (m : MetadataManager) (os : List Metadata) : Type 0 where
  pub objects : m.objects ≡ some os
  pub keys : NodupKeys os
  pub owns : Owns mem os
  pub granted : (n : ℕ) → mem.grants n ≡ true

-- what a call leaves
pub record Steps (c : Call) (mem : Memory) (m : MetadataManager) (os : List Metadata) : Type 0 where
  pub mem' : Memory
  pub m' : MetadataManager
  pub os' : List Metadata
  pub done : step c mem m ≡ some (mem', m')
  pub holds : Holds mem' m' os'
  pub fates :
      (name : Bytes) (schema : Option Bytes) (type : ℕ)
      → fate mem' os' name schema type ≡ effect c name schema type (fate mem os name schema type)

-- New data leave a catalogue as it is.
pub place-Holds :
    (mem : Memory) (m : MetadataManager) (os : List Metadata) (d : ObjectData)
    → Holds mem m os
    → Holds (place mem d).0 m os
unfolding place
place-Holds mem m os d h = record {
  objects = h.objects;
  keys = h.keys;
  owns = Owns-SameLoads mem _ os (place-SameLoads mem d os h.owns) h.owns;
  granted = h.granted;
}

-- An object with new data owns them.
abbrev pub owned_by :
    (mem : Memory) (o : Metadata) (p : ℕ) (d : ObjectData)
    → o.contents ≡ some p
    → load mem (some p) ≡ some d
    → is_of_type o.type d ≡ true
    → Owned mem o
owned_by mem o p d e l t = record { address = p; points = e; value = d; stored = l; typed = t }
