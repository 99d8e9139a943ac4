-- ===== src/BitmapIndex/Insertion.antt =====
-- `bitmap_index_insert` of src/index/bitmap_index.c, step by step.
use micro_meow_db.Prelude.{
  bytes_eq_apart, bytes_eq_same, ℕ, zero, suc, ◌+◌, ◌*◌, ◌%◌, ◌^◌, ◌≤◌, ◌<◌, ◌≡◌, refl, ◌∙◌, ◌⊎◌,
  inl, inr, Bool, true, false, ◌&&◌, Option, none, some, List, [], ◌∷◌, ◌++◌, Bytes, bytes_eq,
  length, get_elem?, set, All, All-set, All-append, leb, ◌==◌, if◌then◌else◌, arith, Bool-cases,
}
use mathlib.Core.Path.{subst}
use mathlib.Core.Option.{some-injective}
use micro_meow_db.BitmapIndex.{
  Bitmap, bitmap_create, BitmapIndex, BitmapIndexItem, InsertAlloc, find_bitmap_index_item,
  expand_bitmaps, make_room, create_item, find_or_create, set_row, bitmap_index_insert,
}
use micro_meow_db.BitmapIndex.Words.{bit_at-lt}
use micro_meow_db.BitmapIndex.Bits.{holds, set-Writes}
use micro_meow_db.BitmapIndex.Algebra.{blank-Represents, Represents}
use micro_meow_db.BitmapIndex.Index.{IsRow, IsIndex, view, expand-Expands}

module _ (m : ℕ) where
  pub All-get_elem? :
      (items : List BitmapIndexItem) (i : ℕ) (item : BitmapIndexItem)
      → All (IsRow m) items
      → get_elem? items i ≡ some item
      → IsRow m item
  All-get_elem? [] i item h e = cc
  All-get_elem? (x ∷ items) zero item h e = subst (IsRow m) (some-injective x item e) h.0
  All-get_elem? (x ∷ items) (suc i) item h e = All-get_elem? items i item h.1 e

-- the item that a search finds, and what a change of its bitmap does to the pairs
pub record Finds (items : List BitmapIndexItem) (value : Bytes) (i : ℕ) (item : BitmapIndexItem)
    : Type 0 where
  pub at : get_elem? items i ≡ some item
  pub reads : (w : Bytes) (q : ℕ) → bytes_eq value w ≡ true → view items w q ≡ holds item.bits q
  pub writes :
      (b : Bitmap) (w : Bytes) (q : ℕ)
      → view (set items i (record item { bits = b })) w q
        ≡ (if bytes_eq value w then holds b q else view items w q)

pub find-cases :
    (items : List BitmapIndexItem) (value : Bytes)
    → (find_bitmap_index_item items value ≡ none)
      ⊎ ((i : ℕ) × (item : BitmapIndexItem) × (find_bitmap_index_item items value ≡ some i)
          × Finds items value i item)
unfolding find_bitmap_index_item set
find-cases [] value = inl refl
find-cases (x ∷ items) value = elim (Bool-cases (bytes_eq x.value value)) [
  | inl same ↦ inr (
    0,
    x,
    rw same refl,
    record {
      at = refl;
      reads = λ w q h. rw (bytes_eq_same x.value value w same, h) refl;
      writes = λ b w q. rw (bytes_eq_same x.value value w same) (ground arith);
    },
  )
  | inr other ↦ elim (find-cases items value) [
    | inl e ↦ inl (rw (other, e) refl)
    | inr (i, item, e, f) ↦ inr (
      suc i,
      item,
      rw (other, e) refl,
      record {
        at = f.at;
        reads = λ w q h. ground (arith, bytes_eq_apart x.value value w other, f.reads w q);
        writes = λ b w q. ground (arith, bytes_eq_apart x.value value w other, f.writes b w q);
      },
    )
  ]
]

-- what a step of an insertion leaves of the index
pub record Keeps (index : BitmapIndex) (next : BitmapIndex) : Type 0 where
  pub valid : IsIndex next
  pub reads : (w : Bytes) (q : ℕ) → view next.items w q ≡ view index.items w q

make_room-Keeps :
    (m : InsertAlloc) (index : BitmapIndex) (row_id : ℕ)
    → IsIndex index
    → row_id + 64 < 2 ^ 32
    → Keeps index (make_room m index row_id).0
      × ((make_room m index row_id).1 ≡ true
          → row_id < (make_room m index row_id).0.max_bit_position)
unfolding make_room
make_room-Keeps m index row_id v fits =
    let n = (row_id + 1) % 2 ^ 32 in
    elim (Bool-cases (leb index.max_bit_position row_id)) [
      | inr e ↦ rw (e) (record { valid = v; reads = λ w q. refl }, λ _. ground arith)
      | inl e ↦
          let x =
            expand-Expands m.expanding 0 n index.max_bit_position index.items (omega arith)
              (ground arith) v.0 in
          elim (Bool-cases (expand_bitmaps m.expanding 0 n index.items).1) [
            | inl done ↦
                rw (e, done)
                  (
                    record { valid = (x.grown done, omega arith); reads = x.reads },
                    λ _. omega arith,
                  )
            | inr done ↦
                rw (e, done) (record { valid = (x.kept, v.1); reads = x.reads }, λ h. ground arith)
          ]
    ]

-- the search after an item with the value is put behind items without it
append-Finds :
    (items : List BitmapIndexItem) (x : BitmapIndexItem)
    → find_bitmap_index_item items x.value ≡ none
    → Finds (items ++ x ∷ []) x.value (length items) x
unfolding find_bitmap_index_item set
append-Finds [] x e = record {
  at = refl;
  reads = λ w q h. rw h refl;
  writes = λ b w q. ground arith;
}
append-Finds (y ∷ items) x e = elim (Bool-cases (bytes_eq y.value x.value)) [
  | inl same ↦ let k : find_bitmap_index_item (y ∷ items) x.value ≡ some 0 = rw same refl in cc
  | inr other ↦
      let f = append-Finds items x (elim (find-cases items x.value) [
        | inl n ↦ n
        | inr (i, item, k, g) ↦
            let l : find_bitmap_index_item (y ∷ items) x.value ≡ some (suc i) =
              rw (other, k) refl in
            cc
      ]) in
      record {
        at = f.at;
        reads = λ w q h. ground (arith, bytes_eq_apart y.value x.value w other, f.reads w q);
        writes = λ b w q. ground (arith, bytes_eq_apart y.value x.value w other, f.writes b w q);
      }
]

view-append :
    (items : List BitmapIndexItem) (x : BitmapIndexItem) (w : Bytes) (q : ℕ)
    → holds x.bits q ≡ false
    → view (items ++ x ∷ []) w q ≡ view items w q
view-append [] x w q h = ground arith
view-append (y ∷ items) x w q h = ground (arith, view-append items x w q h)

-- what the search with creation leaves
pub record Creates (index : BitmapIndex) (value : Bytes) (r : BitmapIndex × Option ℕ) : Type 0 where
  pub keeps : Keeps index r.0
  pub same : r.0.max_bit_position ≡ index.max_bit_position
  pub found :
      (r.1 ≡ none)
      ⊎ ((i : ℕ) × (item : BitmapIndexItem) × (r.1 ≡ some i) × Finds r.0.items value i item)

module _ (index : BitmapIndex) (value : Bytes) (capacity : ℕ) (v : IsIndex index) where
  refused-Creates : Creates index value (record index { capacity = capacity }, none)
  refused-Creates = record {
    keeps = record { valid = v; reads = λ w q. refl };
    same = refl;
    found = inl refl;
  }

  created-Creates :
      find_bitmap_index_item index.items value ≡ none
      → (b : Bitmap) → Represents b index.max_bit_position (λ _. false)
      → Creates index value (
        record index {
          items = index.items ++ record { value = value; bits = b } ∷ [];
          capacity = capacity;
        },
        some (length index.items),
      )
  created-Creates e b rep =
      let item : BitmapIndexItem = record { value = value; bits = b } in
      record {
        keeps = record {
          valid = (
            All-append (IsRow index.max_bit_position) index.items (item ∷ []) v.0 (
              record {
                valid = rep.valid;
                room = omega (arith, rep.size);
                clear = λ q h. rep.valid.clear q (omega (arith, rep.size));
              },
              tt,
            ),
            v.1,
          );
          reads = λ w q. view-append index.items item w q (rep.reads q);
        };
        same = refl;
        found = inr (length index.items, item, refl, append-Finds index.items item e);
      }

create_item-Creates :
    (m : InsertAlloc) (index : BitmapIndex) (value : Bytes) (capacity : ℕ)
    → IsIndex index
    → find_bitmap_index_item index.items value ≡ none
    → Creates index value (create_item m (record index { capacity = capacity }) value)
unfolding create_item bitmap_create
create_item-Creates m index value capacity v e = elim (Bool-cases (m.item && m.value)) [
  | inr failed ↦ rw (failed, create_item) (refused-Creates index value capacity v)
  | inl made ↦ elim (Bool-cases m.bits) [
    | inr b ↦ rw (made, b, create_item) (refused-Creates index value capacity v)
    | inl b ↦
        rw (made, b, create_item)
          (created-Creates index value capacity v e _ (blank-Represents index.max_bit_position v.1))
  ]
]

pub find_or_create-Creates :
    (m : InsertAlloc) (index : BitmapIndex) (value : Bytes)
    → IsIndex index
    → Creates index value (find_or_create m index value)
unfolding find_or_create create_item
find_or_create-Creates m index value v = elim (find-cases index.items value) [
  | inr (i, item, e, f) ↦
      rw (e, find_or_create)
        (record {
          keeps = record { valid = v; reads = λ w q. refl };
          same = refl;
          found = inr (i, item, refl, f);
        })
  | inl e ↦ elim (Bool-cases (leb index.capacity (length index.items))) [
    | inl full ↦ elim (Bool-cases m.growing) [
      | inr less ↦ rw (e, find_or_create, full, less) (refused-Creates index value index.capacity v)
      | inl more ↦
          rw (e, find_or_create, full, more)
            (create_item-Creates m index value (index.capacity * 2 % 2 ^ 32) v e)
    ]
    | inr room ↦ rw (e, find_or_create, room) (create_item-Creates m index value index.capacity v e)
  ]
]

-- A row number below the number of rows is put into the bitmap of the item that a search found.
set_row-Sets :
    (index : BitmapIndex) (value : Bytes) (i : ℕ) (item : BitmapIndexItem) (row_id : ℕ)
    → IsIndex index
    → Finds index.items value i item
    → row_id < index.max_bit_position
    → (next : BitmapIndex) × (set_row index i row_id ≡ some (next, true))
      × IsIndex next
      × ((w : Bytes) (q : ℕ)
          → view next.items w q
            ≡ (if bytes_eq value w && (q == row_id) then true else view index.items w q))
unfolding set_row
set_row-Sets index value i item row_id v f lt =
    let m = index.max_bit_position in
    let r = All-get_elem? m index.items i item v.0 f.at in
    let (done, run, writes) = set-Writes item.bits row_id r.valid (omega (arith, r.room)) in
    let one : (q : ℕ) → m ≤ q → holds done.0 q ≡ false =
      λ q h. writes.reads q ∙ ground (arith, r.clear q h) in
    let kept : IsRow m (record item { bits = done.0 }) = record {
      valid = writes.valid;
      room = omega (arith, writes.size, r.room);
      clear = λ q h. ground (arith, one q h, bit_at-lt done.0.blocks q);
    } in
    (
      record index { items = set index.items i (record item { bits = done.0 }) },
      rw (f.at, set_row, run, writes.done) refl,
      (All-set (IsRow m) index.items i _ v.0 kept, v.1),
      λ w q. f.writes done.0 w q ∙ ground (arith, writes.reads q, f.reads w q),
    )

-- what an insertion leaves: the index, with the pair if it returned true
pub record Inserts (index : BitmapIndex) (value : Bytes) (row_id : ℕ) (r : BitmapIndex × Bool)
    : Type 0 where
  pub valid : IsIndex r.0
  pub reads :
      (w : Bytes) (q : ℕ)
      → view r.0.items w q
        ≡ (if r.1 && bytes_eq value w && (q == row_id) then true else view index.items w q)

-- An insertion into a valid index with a row number below 2 ^ 32 - 64 is defined whatever the
-- allocator answers, and leaves a valid index: with the pair added if it returns true, and with the
-- same pairs if it returns false.
pub insert-Inserts :
    (m : InsertAlloc) (index : BitmapIndex) (value : Bytes) (row_id : ℕ)
    → IsIndex index
    → row_id + 64 < 2 ^ 32
    → (r : BitmapIndex × Bool) × (bitmap_index_insert m index (some value) row_id ≡ some r)
      × Inserts index value row_id r
unfolding bitmap_index_insert
insert-Inserts m index value row_id v fits =
    let room = make_room m index row_id in
    let (keeps, lt) = make_room-Keeps m index row_id v fits in
    let found = find_or_create m room.0 value in
    let c = find_or_create-Creates m room.0 value keeps.valid in
    elim (Bool-cases room.1) [
      | inr e ↦ (
        (room.0, false),
        rw (e, bitmap_index_insert) refl,
        record { valid = keeps.valid; reads = keeps.reads },
      )
      | inl e ↦ elim c.found [
        | inl f ↦ (
          (found.0, false),
          rw (e, f) refl,
          record { valid = c.keeps.valid; reads = λ w q. c.keeps.reads w q ∙ keeps.reads w q },
        )
        | inr (i, item, f, finds) ↦
            let (next, run, valid, reads) =
              set_row-Sets found.0 value i item row_id c.keeps.valid finds
                (omega (arith, lt e, c.same)) in
            (
              (next, true),
              rw (e, f, run) refl,
              record {
                valid = valid;
                reads = λ w q. reads w q ∙ ground (arith, c.keeps.reads w q, keeps.reads w q);
              },
            )
      ]
    ]
