-- ===== src/LsmTree/Flushing.antt =====
-- What an insertion into a full table of src/index/lsm_tree.c does: the table is written to a file.
use micro_meow_db.Prelude.{
  ◌+◌, ◌%◌, ◌^◌, ◌≤◌, ◌<◌, ◌≡◌, refl, sym, ap, ◌∙◌, Bool, true, false, none, some, [], ◌∷◌, ◌++◌,
  Bytes, bytes_eq, bytes_eq_refl, bytes_eq_iff, bytes_eq_same, bytes_eq_apart, bytes_eq_comm,
  length, length-append, ltb, All, if◌then◌else◌, arith, Bool-cases, Option-cases, inl, inr,
}
use micro_meow_db.LsmTree.{
  LsmTree, LsmMemtable, LsmSstableMeta, Files, FlushAnswers, put32, read_file, write_file,
  generate_sstable_filename, flush_memtable_to_sstable, add_table, lsm_tree_flush, lsm_tree_compact,
}
use micro_meow_db.LsmTree.Entries.{Entries, encode, prefer, first_value, count_entries_lem}
use micro_meow_db.LsmTree.Tables.{Holds, Kept, Tables, metas, first_table}

read-write :
    (files : Files) (name content wanted : Bytes)
    → read_file (write_file files name content) wanted
      ≡ (if bytes_eq name wanted then some content else read_file files wanted)
unfolding read_file write_file
read-write [] name content wanted = refl
read-write (f ∷ fs) name content wanted = elim (Bool-cases (bytes_eq f.0 name)) [
  | inl e ↦ elim (Bool-cases (bytes_eq f.0 wanted)) [
    | inl w ↦ rw (e, w, sym (bytes_eq_same f.0 name wanted e) ∙ w) refl
    | inr w ↦ rw (e, w, sym (bytes_eq_same f.0 name wanted e) ∙ w) refl
  ]
  | inr e ↦ elim (Bool-cases (bytes_eq f.0 wanted)) [
    | inl w ↦
        let apart = bytes_eq_apart name f.0 wanted (bytes_eq_comm name f.0 ∙ e) w in
        rw (e, w, apart) refl
    | inr w ↦ rw (e, w) (read-write fs name content wanted)
  ]
]

-- A file under a name that no file has leaves all others.
Kept-write :
    (files : Files) (name content : Bytes) (m : LsmSstableMeta) (es : Entries)
    → read_file files name ≡ none
    → Kept files m es
    → Kept (write_file files name content) m es
Kept-write files name content m es fresh k = elim (Bool-cases (bytes_eq name m.filename)) [
  | inl e ↦
      let same = (bytes_eq_iff name m.filename).0 e in
      let found = ap (read_file files) same ∙ k.0 in cc
  | inr e ↦ (rw (read-write files name content m.filename, e) k.0, k.1)
]

pub All-Kept-write :
    (files : Files) (name content : Bytes) (ts : Tables)
    → read_file files name ≡ none
    → All (λ t. Kept files t.0 t.1) ts
    → All (λ t. Kept (write_file files name content) t.0 t.1) ts
All-Kept-write files name content [] fresh a = tt
All-Kept-write files name content (t ∷ ts) fresh a = (
  Kept-write files name content t.0 t.1 fresh a.0,
  All-Kept-write files name content ts fresh a.1,
)

-- the record of a new file
abbrev pub meta_of : Bytes → Entries → LsmSstableMeta
meta_of name es = record {
  filename = name;
  min_key = 0;
  max_key = 0;
  entry_count = length es;
  level = 0;
}

-- the answers with which a flush writes a file of that name and adds it
pub record Succeeds (a : FlushAnswers) (tree : LsmTree) (name : Bytes) : Type 0 where
  pub named : generate_sstable_filename a.filename a.now tree.base_dir 0 ≡ some name
  pub opened : a.opened ≡ true
  pub meta : a.meta ≡ true
  pub grown : a.grown ≡ true

abbrev pub flushed : LsmTree → Bytes → Entries → LsmTree
flushed tree name es = record tree {
  level0 = record {
    tables = some (elim tree.level0.tables [ none ↦ [] | some ms ↦ ms ] ++ meta_of name es ∷ []);
    count = (tree.level0.count + 1) % 2 ^ 32;
  };
  immutable_memtable = none;
}

-- The compaction changes nothing.
either_way : (b : Bool) (tree : LsmTree) → (if b then tree else (lsm_tree_compact tree).0) ≡ tree
unfolding lsm_tree_compact
either_way true tree = refl
either_way false tree = refl

pub flush_lem :
    (a : FlushAnswers) (files : Files) (tree : LsmTree) (t : LsmMemtable) (es : Entries)
    (name : Bytes)
    → tree.immutable_memtable ≡ some t
    → Holds t es
    → Succeeds a tree name
    → lsm_tree_flush a files tree
      ≡ some (write_file files name (put32 (length es) ++ encode es), flushed tree name es, true)
unfolding lsm_tree_flush flush_memtable_to_sstable add_table
flush_lem a files tree t es name i h s =
    let small : length (encode es) < 2 ^ 32 =
      omega (arith, ap length h.content, h.within, h.capacity) in
    let written : flush_memtable_to_sstable a files t name
        ≡ some (write_file files name (put32 (length es) ++ encode es), some (meta_of name es)) =
      rw (flush_memtable_to_sstable, s.opened, h.content, count_entries_lem es small, s.meta)
        refl in
    let added : add_table a.grown tree (meta_of name es) ≡ (flushed tree name es, true) =
      rw (add_table, s.grown) refl in
    rw (lsm_tree_flush, i, s.named, written, added)
      (ap (λ r. some (write_file files name (put32 (length es) ++ encode es), r, true))
        (either_way (ltb (flushed tree name es).level0.count 10) (flushed tree name es)))

pub metas-append :
    (ts : Tables) (m : LsmSstableMeta) (es : Entries)
    → metas (ts ++ (m, es) ∷ []) ≡ metas ts ++ m ∷ []
metas-append [] m es = refl
metas-append (t ∷ ts) m es = ap (λ r. t.0 ∷ r) (metas-append ts m es)

pub length-snoc :
    (ts : Tables) (m : LsmSstableMeta) (es : Entries) → length (ts ++ (m, es) ∷ []) ≡ length ts + 1
length-snoc ts m es = omega (arith, length-append ts ((m, es) ∷ []))

pub All-snoc :
    (files : Files) (ts : Tables) (m : LsmSstableMeta) (es : Entries)
    → All (λ t. Kept files t.0 t.1) ts
    → Kept files m es
    → All (λ t. Kept files t.0 t.1) (ts ++ (m, es) ∷ [])
All-snoc files [] m es a k = (k, tt)
All-snoc files (t ∷ ts) m es a k = (a.0, All-snoc files ts m es a.1 k)

pub first_table-snoc :
    (ts : Tables) (m : LsmSstableMeta) (es : Entries) (key : Bytes)
    → first_table (ts ++ (m, es) ∷ []) key ≡ prefer (first_table ts key) (first_value es key)
first_table-snoc [] m es key = elim (Option-cases (first_value es key)) [
  | inl e ↦ rw e refl
  | inr (v, e) ↦ rw e refl
]
first_table-snoc (t ∷ ts) m es key = elim (Option-cases (first_value t.1 key)) [
  | inl e ↦ rw e (first_table-snoc ts m es key)
  | inr (v, e) ↦ rw e refl
]

-- the file that a flush writes
pub written_Kept :
    (files : Files) (name : Bytes) (es : Entries)
    → length (encode es) ≤ 1048576
    → Kept (write_file files name (put32 (length es) ++ encode es)) (meta_of name es) es
written_Kept files name es small = (
  rw (read-write files name (put32 (length es) ++ encode es) name, bytes_eq_refl name) refl,
  small,
)
