-- ===== src/BitmapIndex.antt =====
-- src/index/bitmap_index.c: bitmaps of 64-bit blocks, and an index from values to bitmaps of row
-- numbers. `none` outside is what C leaves undefined, an access past an array; `none` inside is a
-- `NULL` that is returned. `granted` says whether the allocations of a step succeed.
pub mod Words
pub mod Bits
pub mod Algebra
pub mod Index
pub mod Insertion
pub mod History
pub mod Wrap
mod Examples
use micro_meow_db.Prelude.{
  ℕ, zero, suc, ◌+◌, ◌-◌, ◌*◌, ◌/◌, ◌%◌, ◌^◌, bit_and, bit_or, min, max, Bool, true, false, ◌&&◌,
  Option, none, some, List, [], ◌∷◌, ◌++◌, Bytes, bytes_eq, length, get_or, get_elem?, set,
  replicate, ltb, leb, ◌==◌, if◌then◌else◌, ◌>>=◌,
}
use micro_meow_db.Prelude.Digits.{complement}

pub record Bitmap : Type 0 where
  pub blocks : List ℕ
  pub block_count : ℕ
  pub bit_count : ℕ

unfoldable pub calculate_blocks : ℕ → ℕ
calculate_blocks bit_count = (bit_count + 63) % 2 ^ 32 / 64

unfoldable pub bitmap_create : Bool → ℕ → Option Bitmap
bitmap_create granted size =
    if granted
    then some (record {
      blocks = replicate (calculate_blocks size) 0;
      block_count = calculate_blocks size;
      bit_count = size;
    })
    else none

-- a write of `f` of a block to that block
unfoldable pub update_block : (ℕ → ℕ) → List ℕ → ℕ → Option (List ℕ)
update_block f blocks i =
    if ltb i (length blocks) then some (set blocks i (f (get_or blocks i 0))) else none

unfoldable pub bitmap_set : Bitmap → ℕ → Option (Bitmap × Bool)
bitmap_set b position =
    if leb b.bit_count position
    then some (b, false)
    else (update_block (λ w. bit_or w (2 ^ (position % 64))) b.blocks (position / 64) >>= λ blocks.
        some (record b { blocks = blocks }, true))

unfoldable pub bitmap_clear : Bitmap → ℕ → Option (Bitmap × Bool)
bitmap_clear b position =
    if leb b.bit_count position
    then some (b, false)
    else (update_block (λ w. bit_and w (complement 64 (2 ^ (position % 64)))) b.blocks
          (position / 64)
        >>= λ blocks. some (record b { blocks = blocks }, true))

unfoldable pub bitmap_test : Bitmap → ℕ → Option Bool
bitmap_test b position =
    if leb b.bit_count position
    then some false
    else if ltb (position / 64) (length b.blocks)
    then some (
        if bit_and (get_or b.blocks (position / 64) 0) (2 ^ (position % 64)) == 0
        then false
        else true)
    else none

-- the loop `result[i] = a[i] & b[i]` for `n` rounds
unfoldable pub and_blocks : ℕ → List ℕ → List ℕ → Option (List ℕ)
and_blocks zero xs ys = some []
and_blocks (suc n) [] ys = none
and_blocks (suc n) (x ∷ xs) [] = none
and_blocks (suc n) (x ∷ xs) (y ∷ ys) = do rest ← and_blocks n xs ys; some (bit_and x y ∷ rest)

unfoldable pub bitmap_and : Bool → Bitmap → Bitmap → Option (Option Bitmap)
bitmap_and granted a b =
    elim (bitmap_create granted
      (if ltb a.bit_count b.bit_count then a.bit_count else b.bit_count)) [
        | none ↦ some none
        | some result ↦ do
          blocks ← and_blocks result.block_count a.blocks b.blocks
          some (some (record result { blocks = blocks }))
      ]

-- the blocks that the loops of `bitmap_or` write
unfoldable pub or_blocks : List ℕ → List ℕ → List ℕ
or_blocks [] ys = ys
or_blocks (x ∷ xs) [] = x ∷ xs
or_blocks (x ∷ xs) (y ∷ ys) = bit_or x y ∷ or_blocks xs ys

-- the writes to the blocks of a result, from the first on
unfoldable pub overwrite : List ℕ → List ℕ → Option (List ℕ)
overwrite old [] = some old
overwrite [] (w ∷ ws) = none
overwrite (o ∷ old) (w ∷ ws) = do rest ← overwrite old ws; some (w ∷ rest)

unfoldable pub bitmap_or : Bool → Bitmap → Bitmap → Option (Option Bitmap)
bitmap_or granted a b =
    elim (bitmap_create granted
      (if ltb b.bit_count a.bit_count then a.bit_count else b.bit_count)) [
        | none ↦ some none
        | some result ↦ do
          blocks ← overwrite result.blocks (or_blocks a.blocks b.blocks)
          some (some (record result { blocks = blocks }))
      ]

unfoldable pub not_blocks : List ℕ → List ℕ
not_blocks [] = []
not_blocks (x ∷ xs) = complement 64 x ∷ not_blocks xs

unfoldable pub bitmap_not : Bool → Bitmap → Option (Option Bitmap)
bitmap_not granted b = elim (bitmap_create granted b.bit_count) [
  | none ↦ some none
  | some result ↦ do
    blocks ← overwrite result.blocks (not_blocks b.blocks)
    let tail = b.bit_count % 64
    masked ←
        if tail == 0
        then some blocks
        else update_block (λ w. bit_and w (2 ^ tail - 1)) blocks (b.block_count - 1)
    some (some (record result { blocks = masked }))
]

pub record BitmapIndexItem : Type 0 where
  pub value : Bytes
  pub bits : Bitmap

-- `items` are the slots in use: `item_count` is the length of the list.
pub record BitmapIndex : Type 0 where
  pub items : List BitmapIndexItem
  pub capacity : ℕ
  pub max_bit_position : ℕ

unfoldable pub bitmap_index_create : Bool → ℕ → Option BitmapIndex
bitmap_index_create granted capacity =
    if granted
    then some (record {
      items = [];
      capacity = if capacity == 0 then 16 else capacity;
      max_bit_position = 0;
    })
    else none

unfoldable pub find_bitmap_index_item : List BitmapIndexItem → Bytes → Option ℕ
find_bitmap_index_item [] value = none
find_bitmap_index_item (item ∷ items) value =
    if bytes_eq item.value value
    then some 0
    else (find_bitmap_index_item items value >>= λ i. some (suc i))

-- `memcpy` of as many blocks as both have
unfoldable pub copy_blocks : List ℕ → List ℕ → List ℕ
copy_blocks [] old = []
copy_blocks (n ∷ new) [] = n ∷ new
copy_blocks (n ∷ new) (o ∷ old) = o ∷ copy_blocks new old

-- The items from the i-th on. Where an allocation fails, those before it have been enlarged.
unfoldable pub expand_bitmaps :
    (ℕ → Bool) → ℕ → ℕ → List BitmapIndexItem → List BitmapIndexItem × Bool
expand_bitmaps granted i new_size [] = ([], true)
expand_bitmaps granted i new_size (item ∷ items) =
    let rest = expand_bitmaps granted (i + 1) new_size items in
    elim (bitmap_create (granted i) new_size) [
      | none ↦ (item ∷ items, false)
      | some b ↦ (
        record item { bits = record b { blocks = copy_blocks b.blocks item.bits.blocks } } ∷ rest.0,
        rest.1,
      )
    ]

-- the answers of the allocator in an insertion
pub record InsertAlloc : Type 0 where
  pub expanding : ℕ → Bool
  pub growing : Bool
  pub item : Bool
  pub value : Bool
  pub bits : Bool

-- the first part: room for the row number in every bitmap
unfoldable pub make_room : InsertAlloc → BitmapIndex → ℕ → BitmapIndex × Bool
make_room m index row_id =
    if leb index.max_bit_position row_id
    then (let new_size = (row_id + 1) % 2 ^ 32 in
        let r = expand_bitmaps m.expanding 0 new_size index.items in
        if r.1
        then (record index { items = r.0; max_bit_position = new_size }, true)
        else (record index { items = r.0 }, false))
    else (index, true)

-- a new item behind those in use
unfoldable pub create_item : InsertAlloc → BitmapIndex → Bytes → BitmapIndex × Option ℕ
create_item m index value =
    if m.item && m.value
    then elim (bitmap_create m.bits index.max_bit_position) [
      | none ↦ (index, none)
      | some b ↦ (
        record index { items = index.items ++ record { value = value; bits = b } ∷ [] },
        some (length index.items),
      )
    ]
    else (index, none)

-- the second part: the item of the value, a new one if there is none
unfoldable pub find_or_create : InsertAlloc → BitmapIndex → Bytes → BitmapIndex × Option ℕ
find_or_create m index value = elim (find_bitmap_index_item index.items value) [
  | some i ↦ (index, some i)
  | none ↦
      if leb index.capacity (length index.items)
      then if m.growing
        then create_item m (record index { capacity = index.capacity * 2 % 2 ^ 32 }) value
        else (index, none)
      else create_item m index value
]

-- the last part: `bitmap_set` on the bitmap of the item
unfoldable pub set_row : BitmapIndex → ℕ → ℕ → Option (BitmapIndex × Bool)
set_row index i row_id = elim (get_elem? index.items i) [
  | none ↦ none
  | some item ↦ do
    (b, done) ← bitmap_set item.bits row_id
    some (record index { items = set index.items i (record item { bits = b }) }, done)
]

unfoldable pub bitmap_index_insert :
    InsertAlloc → BitmapIndex → Option Bytes → ℕ → Option (BitmapIndex × Bool)
bitmap_index_insert m index none row_id = some (index, false)
bitmap_index_insert m index (some value) row_id =
    let room = make_room m index row_id in
    if room.1
    then (let found = find_or_create m room.0 value in
        elim found.1 [ none ↦ some (found.0, false) | some i ↦ set_row found.0 i row_id ])
    else some (room.0, false)

unfoldable pub bitmap_index_query : Bool → BitmapIndex → Option Bytes → Option Bitmap
bitmap_index_query granted index none = none
bitmap_index_query granted index (some value) =
    elim (find_bitmap_index_item index.items value >>= get_elem? index.items) [
      | none ↦ none
      | some item ↦ elim (bitmap_create granted item.bits.bit_count) [
        | none ↦ none
        | some b ↦ some (record b { blocks = copy_blocks b.blocks item.bits.blocks })
      ]
    ]

unfoldable pub bitmap_index_size : BitmapIndex → ℕ
bitmap_index_size index = length index.items
