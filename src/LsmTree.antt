-- ===== src/LsmTree.antt =====
-- src/index/lsm_tree.c: tables of entries in memory, written to files when they are full. An entry is
-- the bytes of two 32-bit sizes, little-endian, then the key and the value. The directory is an
-- association list from file names to contents. `none` outside of any `none` that stands for a
-- `NULL` is what C leaves undefined: a write past the buffer of a table, a read of bytes that no call
-- has written, a `NULL` that is followed. A file that opens is written and read in full.

pub mod Entries
pub mod Tables
pub mod Insertion
pub mod Flushing
pub mod Rotation
pub mod Truncation
mod Examples
use micro_meow_db.Prelude.{
  ℕ, zero, suc, ◌+◌, ◌*◌, ◌/◌, ◌%◌, ◌^◌, Bool, true, false, ◌||◌, Option, none, some, List, [], ◌∷◌,
  ◌++◌, Bytes, bytes_eq, length, ltb, ◌==◌, if◌then◌else◌, ◌>>=◌,
}

-- The buffer up to `size`: the size is the number of bytes in `content`, all others are still 0.
pub record LsmMemtable : Type 0 where
  pub content : Bytes
  pub capacity : ℕ
  pub immutable : Bool

pub record LsmSstableMeta : Type 0 where
  pub filename : Bytes
  pub min_key : ℕ
  pub max_key : ℕ
  pub entry_count : ℕ
  pub level : ℕ

-- One level: `none` for a `NULL` array, and the number that `sstable_counts` has.
pub record Level : Type 0 where
  pub tables : Option (List LsmSstableMeta)
  pub count : ℕ

pub record LsmTree : Type 0 where
  pub active_memtable : Option LsmMemtable
  pub immutable_memtable : Option LsmMemtable
  pub level0 : Level
  pub level1 : Level
  pub level2 : Level
  pub base_dir : Bytes

-- `memcpy` of a `uint32_t`
unfoldable pub put32 : ℕ → Bytes
put32 n = (n % 256) ∷ (n / 256 % 256) ∷ (n / 65536 % 256) ∷ (n / 16777216 % 256) ∷ []

-- The number, and the bytes behind it.
unfoldable pub get32 : Bytes → Option (ℕ × Bytes)
get32 (a ∷ b ∷ c ∷ d ∷ bs) = some (a + b * 256 + c * 65536 + d * 16777216, bs)
get32 bs = none

-- the first n bytes, if there are as many
unfoldable pub first : ℕ → Bytes → Option Bytes
first zero bs = some []
first (suc n) [] = none
first (suc n) (b ∷ bs) = first n bs >>= λ r. some (b ∷ r)

unfoldable pub behind : ℕ → Bytes → Bytes
behind zero bs = bs
behind (suc n) [] = []
behind (suc n) (b ∷ bs) = behind n bs

-- the first n bytes, or all of them: an `fread`
unfoldable pub at_most : ℕ → Bytes → Bytes
at_most zero bs = []
at_most (suc n) [] = []
at_most (suc n) (b ∷ bs) = b ∷ at_most n bs

unfoldable pub memtable_create : Bool → ℕ → Option LsmMemtable
memtable_create granted capacity =
    if granted then some (record { content = []; capacity = capacity; immutable = false }) else none

unfoldable pub entry : Bytes → Bytes → Bytes
entry key value = put32 (length key) ++ (put32 (length value) ++ (key ++ value))

unfoldable pub memtable_put : LsmMemtable → Bytes → Bytes → Option (LsmMemtable × Bool)
memtable_put t key value =
    let end = length t.content + length key + length value + 8 in
    if t.immutable || ltb t.capacity (end % 2 ^ 32)
    then some (t, false)
    else if ltb t.capacity end
    then none
    else some (record t { content = t.content ++ entry key value }, true)

-- whether the entry with that size of its key has the key
unfoldable pub has_key : ℕ → Bytes → Bytes → Option Bool
has_key key_size body key =
    if key_size == length key
    then (first key_size body >>= λ k. some (bytes_eq k key))
    else some false

-- The walk over the entries from an offset: the value, if an entry has the key. The fuel runs out
-- only on an offset that came up before, where the walk goes on for ever.
unfoldable pub find_entry : ℕ → Bytes → ℕ → Bytes → Option (Option Bytes)
find_entry zero content offset key = none
find_entry (suc fuel) content offset key = elim (ltb offset (length content)) [
  | false ↦ some none
  | true ↦ get32 (behind offset content) >>= λ k. get32 k.1 >>= λ v. has_key k.0 v.1 key >>= λ same.
      elim same [
        | true ↦ first v.0 (behind k.0 v.1) >>= λ value. some (some value)
        | false ↦ find_entry fuel content ((offset + 8 + k.0 + v.0) % 2 ^ 32) key
      ]
]

-- `granted` answers for the copy of the value, which is a pointer for an empty value too where
-- `malloc` of no bytes returns one.
unfoldable pub memtable_get : Bool → LsmMemtable → Bytes → Option (Option Bytes)
memtable_get granted t key = do
  value ← find_entry (suc (length t.content)) t.content 0 key
  some (if granted then value else none)

-- the decimal digits of a number, on fuel for their count
unfoldable pub decimal : ℕ → ℕ → Bytes
decimal zero n = []
decimal (suc fuel) n = elim (ltb n 10) [
  | true ↦ (48 + n) ∷ []
  | false ↦ decimal fuel (n / 10) ++ (48 + n % 10) ∷ []
]

-- `%s/%d_%ld.sst`
unfoldable pub generate_sstable_filename : Bool → ℕ → Bytes → ℕ → Option Bytes
generate_sstable_filename granted now base_dir level =
    if granted
    then some
        (base_dir ++ 47 ∷ decimal 10 level ++ 95 ∷ decimal 20 now ++ 46 ∷ 115 ∷ 115 ∷ 116 ∷ [])
    else none

-- the loop that counts the entries, from an offset
unfoldable pub count_entries : ℕ → Bytes → ℕ → ℕ → Option ℕ
count_entries zero content offset count = none
count_entries (suc fuel) content offset count = elim (ltb offset (length content)) [
  | false ↦ some count
  | true ↦ get32 (behind offset content) >>= λ k. get32 k.1 >>= λ v.
      count_entries fuel content ((offset + 8 + k.0 + v.0) % 2 ^ 32) ((count + 1) % 2 ^ 32)
]

-- the files of the directory
abbrev pub Files : Type 0
Files = List (Bytes × Bytes)

unfoldable pub read_file : Files → Bytes → Option Bytes
read_file [] name = none
read_file (f ∷ fs) name = if bytes_eq f.0 name then some f.1 else read_file fs name

unfoldable pub write_file : Files → Bytes → Bytes → Files
write_file [] name content = (name, content) ∷ []
write_file (f ∷ fs) name content =
    if bytes_eq f.0 name then (f.0, content) ∷ fs else f ∷ write_file fs name content

-- what the clock, the allocator and the file system answer to a flush
pub record FlushAnswers : Type 0 where
  pub now : ℕ
  pub filename : Bool
  pub opened : Bool
  pub meta : Bool
  pub grown : Bool

unfoldable pub flush_memtable_to_sstable :
    FlushAnswers → Files → LsmMemtable → Bytes → Option (Files × Option LsmSstableMeta)
flush_memtable_to_sstable a files t filename =
    if a.opened
    then (count_entries (suc (length t.content)) t.content 0 0 >>= λ count. some (
      write_file files filename (put32 count ++ t.content),
      if a.meta
          then some (record {
            filename = filename;
            min_key = 0;
            max_key = 0;
            entry_count = count;
            level = 0;
          })
          else none,
    ))
    else some (files, none)

-- `buffer` and `granted` answer for the buffer of the file and for the copy of the value.
unfoldable pub sstable_get : Bool → Bool → Files → Bytes → Bytes → Option (Option Bytes)
sstable_get buffer granted files filename key = elim (read_file files filename) [
  | none ↦ some none
  | some file ↦
      if buffer
      then (let content = at_most 1048576 (behind 4 file) in
          find_entry (suc (length content)) content 0 key >>= λ value.
          some (if granted then value else none))
      else some none
]

abbrev empty_level : Level
empty_level = record { tables = none; count = 0 }

unfoldable pub lsm_tree_create : Bool → Bool → Bytes → Option LsmTree
lsm_tree_create granted memtable base_dir =
    if granted
    then (memtable_create memtable 10485760 >>= λ t. some (record {
      active_memtable = some t;
      immutable_memtable = none;
      level0 = empty_level;
      level1 = empty_level;
      level2 = empty_level;
      base_dir = base_dir;
    }))
    else none

-- The body does nothing.
unfoldable pub lsm_tree_compact : LsmTree → LsmTree × Bool
lsm_tree_compact tree = (tree, true)

-- A failed `realloc` leaves `NULL` in place of the array.
unfoldable pub add_table : Bool → LsmTree → LsmSstableMeta → LsmTree × Bool
add_table grown tree meta =
    if grown
    then (
      record tree {
        level0 = record {
          tables = some (elim tree.level0.tables [ none ↦ [] | some ms ↦ ms ] ++ meta ∷ []);
          count = (tree.level0.count + 1) % 2 ^ 32;
        };
        immutable_memtable = none;
      },
      true,
    )
    else (record tree { level0 = record tree.level0 { tables = none } }, false)

unfoldable pub lsm_tree_flush : FlushAnswers → Files → LsmTree → Option (Files × LsmTree × Bool)
lsm_tree_flush a files tree = elim tree.immutable_memtable [
  | none ↦ some (files, tree, true)
  | some t ↦ elim (generate_sstable_filename a.filename a.now tree.base_dir 0) [
    | none ↦ some (files, tree, false)
    | some filename ↦ flush_memtable_to_sstable a files t filename >>= λ written. elim written.1 [
      | none ↦ some (written.0, tree, false)
      | some meta ↦
          let added = add_table a.grown tree meta in
          some (
            written.0,
            if added.1
                then if ltb added.0.level0.count 10 then added.0 else (lsm_tree_compact added.0).0
                else added.0,
            added.1,
          )
    ]
  ]
]

-- The full table becomes the immutable one, a new one takes its place, and the old one is flushed.
unfoldable pub rotate :
    Bool → FlushAnswers → Files → LsmTree → LsmMemtable → Option (Files × LsmTree × Bool)
rotate created a files tree t =
    let turned = record tree {
      immutable_memtable = some (record t { immutable = true });
      active_memtable = memtable_create created 10485760;
    } in
    if created
    then (lsm_tree_flush a files turned >>= λ r. some (r.0, r.1, true))
    else some (files, turned, false)

unfoldable pub put_active : LsmTree → Bytes → Bytes → Option (LsmTree × Bool)
put_active tree key value = do
  t ← tree.active_memtable
  r ← memtable_put t key value
  some (record tree { active_memtable = some r.0 }, r.1)

unfoldable pub lsm_tree_insert :
    Bool → FlushAnswers → Files → LsmTree → Bytes → Bytes → Option (Files × LsmTree × Bool)
lsm_tree_insert created a files tree key value = do
  t ← tree.active_memtable
  r ← put_active tree key value
  if r.1 then some (files, r.0, true) else elim tree.immutable_memtable [
    | some i ↦ put_active tree key value >>= λ s. some (files, s.0, s.1)
    | none ↦ rotate created a files tree t >>= λ q.
        if q.2
        then (put_active q.1 key value >>= λ s. some (q.0, s.0, s.1))
        else some (q.0, q.1, false)
  ]

unfoldable pub lsm_tree_delete :
    Bool → FlushAnswers → Files → LsmTree → Bytes → Option (Files × LsmTree × Bool)
lsm_tree_delete created a files tree key = lsm_tree_insert created a files tree key []

-- the walk over the files of a level, up to their number
unfoldable pub search_tables :
    Bool → Bool → Files → ℕ → List LsmSstableMeta → Bytes → Option (Option Bytes)
search_tables buffer granted files zero ms key = some none
search_tables buffer granted files (suc n) [] key = none
search_tables buffer granted files (suc n) (m ∷ ms) key =
    sstable_get buffer granted files m.filename key >>= λ value. elim value [
      | some v ↦ some (some v)
      | none ↦ search_tables buffer granted files n ms key
    ]

unfoldable pub search_level : Bool → Bool → Files → Level → Bytes → Option (Option Bytes)
search_level buffer granted files l key =
    search_tables buffer granted files l.count (elim l.tables [ none ↦ [] | some ms ↦ ms ]) key

-- the next place, where the key was not found
unfoldable pub or_else : Option (Option Bytes) → Option (Option Bytes) → Option (Option Bytes)
or_else found next = found >>= λ value. elim value [ some v ↦ some (some v) | none ↦ next ]

unfoldable pub lsm_tree_get : Bool → Bool → Files → LsmTree → Bytes → Option (Option Bytes)
lsm_tree_get buffer granted files tree key = do
  t ← tree.active_memtable
  or_else (memtable_get granted t key) (
      or_else
        (elim tree.immutable_memtable [ none ↦ some none | some i ↦ memtable_get granted i key ])
        (or_else (search_level buffer granted files tree.level0 key) (
          or_else (search_level buffer granted files tree.level1 key)
            (search_level buffer granted files tree.level2 key))))
