-- ===== src/LsmTree/Tables.antt =====
-- The tables of src/index/lsm_tree.c, in memory and in files, and the tree over them.
use micro_meow_db.Prelude.{
  ℕ, zero, suc, ◌+◌, ◌-◌, ◌%◌, ◌^◌, ◌≤◌, ◌<◌, ◌≡◌, refl, sym, ap, Bool, true, false, Option, none,
  some, List, [], ◌∷◌, ◌++◌, Bytes, length, length-append, ltb, All, inl, inr, if◌then◌else◌, arith,
  Bool-cases, Option-cases,
}
use micro_meow_db.LsmTree.{
  LsmMemtable, LsmSstableMeta, LsmTree, Level, Files, put32, behind, at_most, entry, memtable_put,
  memtable_get, read_file, sstable_get, or_else, search_tables, search_level, lsm_tree_get,
}
use micro_meow_db.LsmTree.Entries.{
  Entries, encode, prefer, first_value, length-entry, find_entry_lem, encode-append,
}

-- a table in memory, and its entries
pub record Holds (t : LsmMemtable) (es : Entries) : Type 0 where
  pub content : t.content ≡ encode es
  pub within : length t.content ≤ t.capacity
  pub capacity : t.capacity ≡ 10485760

pub memtable_get-Holds :
    (t : LsmMemtable) (es : Entries) (granted : Bool) (key : Bytes)
    → Holds t es
    → memtable_get granted t key ≡ some (if granted then first_value es key else none)
unfolding memtable_get
memtable_get-Holds t es granted key h =
    let small : length (encode es) < 2 ^ 32 =
      omega (arith, ap length h.content, h.within, h.capacity) in
    rw (memtable_get, h.content, find_entry_lem es key small) refl

-- whether there is room for an entry
abbrev pub Fits : LsmMemtable → Bytes → Bytes → Type 0
Fits t key value = length t.content + length key + length value + 8 ≤ t.capacity

pub put_fitting :
    (t : LsmMemtable) (es : Entries) (key value : Bytes)
    → Holds t es
    → t.immutable ≡ false
    → Fits t key value
    → (memtable_put t key value ≡ some (record t { content = t.content ++ entry key value }, true))
      × Holds (record t { content = t.content ++ entry key value }) (es ++ (key, value) ∷ [])
unfolding memtable_put
put_fitting t es key value h i f =
    let room : ltb t.capacity ((length t.content + length key + length value + 8) % 2 ^ 32)
        ≡ false =
      ground (arith, h.capacity) in
    let fits : ltb t.capacity (length t.content + length key + length value + 8) ≡ false =
      ground arith in
    (
      rw (memtable_put, i, room, fits) refl,
      record {
        content = rw h.content (sym (encode-append es key value));
        within =
            omega (arith, f, length-append t.content (entry key value), length-entry key value);
        capacity = h.capacity;
      },
    )

pub put_full :
    (t : LsmMemtable) (key value : Bytes)
    → t.capacity < length t.content + length key + length value + 8
    → length t.content + length key + length value + 8 < 2 ^ 32
    → memtable_put t key value ≡ some (t, false)
unfolding memtable_put
put_full t key value f s =
    let full : ltb t.capacity ((length t.content + length key + length value + 8) % 2 ^ 32) ≡ true =
      ground arith in
    elim (Bool-cases t.immutable) [
      | inl e ↦ rw (memtable_put, e) refl
      | inr e ↦ rw (memtable_put, e, full) refl
    ]

-- a table in a file that a search reads in full
abbrev pub Kept : Files → LsmSstableMeta → Entries → Type 0
Kept files m es =
    (read_file files m.filename ≡ some (put32 (length es) ++ encode es))
    × (length (encode es) ≤ 1048576)

at_most_lem : (n : ℕ) (bs : Bytes) → length bs ≤ n → at_most n bs ≡ bs
unfolding at_most
at_most_lem zero [] h = refl
at_most_lem zero (b ∷ bs) h = ground arith
at_most_lem (suc n) [] h = refl
at_most_lem (suc n) (b ∷ bs) h = ap (λ t. b ∷ t) (at_most_lem n bs (omega (arith, h)))

pub behind-put32 : (n : ℕ) (bs : Bytes) → behind 4 (put32 n ++ bs) ≡ bs
unfolding behind put32
behind-put32 n bs = refl

pub sstable_get-Kept :
    (files : Files) (m : LsmSstableMeta) (es : Entries) (key : Bytes)
    → Kept files m es
    → sstable_get true true files m.filename key ≡ some (first_value es key)
unfolding sstable_get
sstable_get-Kept files m es key k =
    rw
      (
        sstable_get,
        k.0,
        behind-put32 (length es) (encode es),
        at_most_lem 1048576 (encode es) k.1,
        find_entry_lem es key (omega (arith, k.1)),
      )
      refl

-- the files of a level with their entries
abbrev pub Tables : Type 0
Tables = List (LsmSstableMeta × Entries)

abbrev pub metas : Tables → List LsmSstableMeta
metas [] = []
metas (t ∷ ts) = t.0 ∷ metas ts

-- the value in the first table that has the key
abbrev pub first_table : Tables → Bytes → Option Bytes
first_table [] key = none
first_table (t ∷ ts) key = prefer (first_value t.1 key) (first_table ts key)

pub search_tables-Kept :
    (files : Files) (ts : Tables) (key : Bytes)
    → All (λ t. Kept files t.0 t.1) ts
    → search_tables true true files (length ts) (metas ts) key ≡ some (first_table ts key)
unfolding search_tables
search_tables-Kept files [] key a = refl
search_tables-Kept files (t ∷ ts) key a =
    let here = sstable_get-Kept files t.0 t.1 key a.0 in
    elim (Option-cases (first_value t.1 key)) [
      | inl e ↦ rw (search_tables, here, e) (search_tables-Kept files ts key a.1)
      | inr (v, e) ↦ rw (search_tables, here, e) refl
    ]

-- what the pointer to the immutable table leads to
abbrev pub Frozen : Option LsmMemtable → Entries → Type 0
Frozen none ims = ims ≡ []
Frozen (some i) ims = Holds i ims

-- A tree in its directory, with the entries of the active and the immutable table and of the files.
pub record Stores (files : Files) (tree : LsmTree) (es ims : Entries) (ts : Tables) : Type 0 where
  pub active : LsmMemtable
  pub is_active : tree.active_memtable ≡ some active
  pub holds : Holds active es
  pub mutable : active.immutable ≡ false
  pub frozen : Frozen tree.immutable_memtable ims
  pub tables : elim tree.level0.tables [ none ↦ [] | some ms ↦ ms ] ≡ metas ts
  pub kept : All (λ t. Kept files t.0 t.1) ts
  pub count : tree.level0.count ≡ length ts
  pub few : length ts < 2 ^ 32 - 1
  pub none1 : tree.level1.count ≡ 0
  pub none2 : tree.level2.count ≡ 0

-- the value that a search is to find
abbrev pub value_of : Entries → Entries → Tables → Bytes → Option Bytes
value_of es ims ts key =
    prefer (first_value es key) (prefer (first_value ims key) (first_table ts key))

or_else-some : (a b : Option Bytes) → or_else (some a) (some b) ≡ some (prefer a b)
unfolding or_else
or_else-some none b = refl
or_else-some (some v) b = refl

get-Frozen :
    (i : Option LsmMemtable) (ims : Entries) (key : Bytes)
    → Frozen i ims
    → elim i [ none ↦ some none | some t ↦ memtable_get true t key ] ≡ some (first_value ims key)
get-Frozen none ims key e = rw e refl
get-Frozen (some i) ims key h = memtable_get-Holds i ims true key h

empty_search :
    (files : Files) (l : Level) (key : Bytes)
    → l.count ≡ 0
    → search_level true true files l key ≡ some none
unfolding search_level search_tables
empty_search files l key e = rw (search_level, e) refl

prefer-none : (a : Option Bytes) → prefer a none ≡ a
prefer-none none = refl
prefer-none (some v) = refl

pub get-value_of :
    (files : Files) (tree : LsmTree) (es ims : Entries) (ts : Tables) (key : Bytes)
    → Stores files tree es ims ts
    → lsm_tree_get true true files tree key ≡ some (value_of es ims ts key)
unfolding lsm_tree_get search_level
get-value_of files tree es ims ts key s =
    let level0 : search_level true true files tree.level0 key ≡ some (first_table ts key) =
      rw (search_level, s.count, s.tables) (search_tables-Kept files ts key s.kept) in
    rw
      (
        lsm_tree_get,
        s.is_active,
        memtable_get-Holds s.active es true key s.holds,
        get-Frozen tree.immutable_memtable ims key s.frozen,
        level0,
        empty_search files tree.level1 key s.none1,
        empty_search files tree.level2 key s.none2,
        or_else-some none none,
        or_else-some (first_table ts key) none,
        prefer-none (first_table ts key),
        or_else-some (first_value ims key) (first_table ts key),
        or_else-some (first_value es key) (prefer (first_value ims key) (first_table ts key)),
      )
      refl
