-- ===== src/BitmapIndex/Wrap.antt =====
-- The largest row number in `bitmap_index_insert` of src/index/bitmap_index.c: the new size wraps to 0.
use micro_meow_db.Prelude.{
  ℕ, ◌+◌, ◌-◌, ◌%◌, ◌^◌, ◌≤◌, ◌≡◌, refl, ◌∙◌, Bool, true, false, some, List, [], ◌∷◌, Bytes, get_or,
  set, replicate, All, leb, arith, inl, inr,
}
use micro_meow_db.Prelude.Digits.{digit-zero}
use micro_meow_db.BitmapIndex.{
  calculate_blocks, bitmap_create, bitmap_set, copy_blocks, BitmapIndex, BitmapIndexItem,
  InsertAlloc, expand_bitmaps, make_room, find_or_create, set_row, bitmap_index_insert,
}
use micro_meow_db.BitmapIndex.Index.{IsRow, IsIndex, view}
use micro_meow_db.BitmapIndex.Insertion.{All-get_elem?, Finds, find_or_create-Creates}

-- what an enlargement to the size 0 leaves
record Empties (r : List BitmapIndexItem × Bool) : Type 0 where
  done : r.1 ≡ true
  rows : All (IsRow 0) r.0
  reads : (w : Bytes) (q : ℕ) → view r.0 w q ≡ false

expand-Empties :
    (granted : ℕ → Bool) (i : ℕ) (items : List BitmapIndexItem)
    → ((j : ℕ) → granted j ≡ true)
    → Empties (expand_bitmaps granted i 0 items)
unfolding expand_bitmaps bitmap_create copy_blocks calculate_blocks replicate get_or
expand-Empties granted i [] g = record { done = refl; rows = tt; reads = λ w q. refl }
expand-Empties granted i (item ∷ items) g =
    let rest = expand-Empties granted (i + 1) items g in
    rw (g i, expand_bitmaps)
      (record {
        done = rest.done;
        rows = (
          record {
            valid = record {
              fits = omega arith;
              counted = refl;
              sized = refl;
              words = tt;
              clear = λ q _. digit-zero (q % 64);
            };
            room = omega arith;
            clear = λ q _. digit-zero (q % 64);
          },
          rest.rows,
        );
        reads = λ w q. ground (arith, digit-zero (q % 64), rest.reads w q);
      })

-- a row number past the end of the bitmap
set_row_past :
    (index : BitmapIndex) (value : Bytes) (i : ℕ) (item : BitmapIndexItem) (row_id : ℕ)
    → Finds index.items value i item
    → item.bits.bit_count ≤ row_id
    → ((w : Bytes) (q : ℕ) → view index.items w q ≡ false)
    → (next : BitmapIndex) × (set_row index i row_id ≡ some (next, false))
      × ((w : Bytes) (q : ℕ) → view next.items w q ≡ false)
unfolding set_row bitmap_set
set_row_past index value i item row_id f past none_held =
    let e : leb item.bits.bit_count row_id ≡ true = ground arith in
    (
      record index { items = set index.items i (record item { bits = item.bits }) },
      rw (f.at, set_row, bitmap_set, e) refl,
      λ w q. f.writes item.bits w q ∙ ground (arith, f.reads w q, none_held w q),
    )

make_room_last :
    (m : InsertAlloc) (index : BitmapIndex)
    → ((j : ℕ) → m.expanding j ≡ true)
    → IsIndex index
    → ((make_room m index (2 ^ 32 - 1)).1 ≡ true)
      × IsIndex (make_room m index (2 ^ 32 - 1)).0
      × ((w : Bytes) (q : ℕ) → view (make_room m index (2 ^ 32 - 1)).0.items w q ≡ false)
unfolding make_room
make_room_last m index g v =
    let x = expand-Empties m.expanding 0 index.items g in
    let e : leb index.max_bit_position 4294967295 ≡ true = ground (arith, v.1) in
    rw (make_room, e, x.done) (refl, (x.rows, omega arith), x.reads)

-- The row number 2 ^ 32 - 1 in a valid index, where the larger bitmaps can be allocated, empties it:
-- the insertion is defined and returns false, and no row has any value afterwards.
pub last_row_empties :
    (m : InsertAlloc) (index : BitmapIndex) (value : Bytes)
    → ((j : ℕ) → m.expanding j ≡ true)
    → IsIndex index
    → (next : BitmapIndex) × (bitmap_index_insert m index (some value) (2 ^ 32 - 1)
        ≡ some (next, false))
      × ((w : Bytes) (q : ℕ) → view next.items w q ≡ false)
unfolding bitmap_index_insert
last_row_empties m index value g v =
    let room = make_room m index (2 ^ 32 - 1) in
    let (done, valid, none_held) = make_room_last m index g v in
    let found = find_or_create m room.0 value in
    let c = find_or_create-Creates m room.0 value valid in
    let held : (w : Bytes) (q : ℕ) → view found.0.items w q ≡ false =
      λ w q. c.keeps.reads w q ∙ none_held w q in
    elim c.found [
      | inl f ↦ (found.0, rw (done, f, bitmap_index_insert) refl, held)
      | inr (i, item, f, finds) ↦
          let r =
            All-get_elem? found.0.max_bit_position found.0.items i item c.keeps.valid.0 finds.at in
          let (next, run, empty) =
            set_row_past found.0 value i item (2 ^ 32 - 1) finds (omega (arith, r.valid.fits))
              held in
          (next, rw (done, f, run) refl, empty)
    ]
