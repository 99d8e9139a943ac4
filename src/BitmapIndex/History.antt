-- ===== src/BitmapIndex/History.antt =====
-- Sequences of insertions into an index of src/index/bitmap_index.c, and what queries then return.
use micro_meow_db.Prelude.{
  ℕ, suc, ◌+◌, ◌^◌, ◌<◌, ◌≡◌, refl, sym, ◌∙◌, ◌⊎◌, inl, inr, Bool, true, false, ◌&&◌, ◌||◌, Option,
  none, some, List, [], ◌∷◌, Bytes, bytes_eq, bytes_eq_refl, All, ◌==◌, if◌then◌else◌, arith, ◌>>=◌,
  Bool-cases,
}
use micro_meow_db.BitmapIndex.{
  Bitmap, bitmap_create, BitmapIndex, BitmapIndexItem, InsertAlloc, bitmap_index_create,
  find_bitmap_index_item, bitmap_index_insert, bitmap_index_query,
}
use micro_meow_db.BitmapIndex.Bits.{IsValid, holds}
use micro_meow_db.BitmapIndex.Index.{IsIndex, view, copied, copied-IsRow, copied_bit}
use micro_meow_db.BitmapIndex.Insertion.{All-get_elem?, find-cases, insert-Inserts}

view-none :
    (items : List BitmapIndexItem) (value : Bytes) (q : ℕ)
    → find_bitmap_index_item items value ≡ none
    → view items value q ≡ false
unfolding find_bitmap_index_item
view-none [] value q e = refl
view-none (x ∷ items) value q e = elim (Bool-cases (bytes_eq x.value value)) [
  | inl same ↦ let k : find_bitmap_index_item (x ∷ items) value ≡ some 0 = rw same refl in cc
  | inr other ↦ elim (find-cases items value) [
    | inl n ↦ rw other (view-none items value q n)
    | inr (i, item, k, f) ↦
        let l : find_bitmap_index_item (x ∷ items) value ≡ some (suc i) = rw (other, k) refl in cc
  ]
]

-- On a valid index a query finds nothing, and no row has the value, or it returns a valid bitmap of
-- the rows that have it.
pub query-view :
    (index : BitmapIndex) (value : Bytes)
    → IsIndex index
    → ((bitmap_index_query true index (some value) ≡ none)
        × ((q : ℕ) → view index.items value q ≡ false))
      ⊎ ((b : Bitmap) × (bitmap_index_query true index (some value) ≡ some b)
          × IsValid b
          × ((q : ℕ) → holds b q ≡ view index.items value q))
unfolding bitmap_index_query bitmap_create
query-view index value v = elim (find-cases index.items value) [
  | inl e ↦ inl (rw (e, bitmap_index_query) refl, λ q. view-none index.items value q e)
  | inr (i, item, e, f) ↦
      let r = All-get_elem? index.max_bit_position index.items i item v.0 f.at in
      let c =
        copied-IsRow item.bits.bit_count item.bits.bit_count item r.valid.fits (omega arith)
          (record { valid = r.valid; room = omega arith; clear = r.valid.clear }) in
      inr (
        copied item.bits.bit_count item.bits,
        rw (e, bitmap_index_query, f.at) refl,
        c.valid,
        λ q. ground (
          arith,
          copied_bit item.bits.bit_count item.bits.bit_count q item.bits r.valid.fits (omega arith)
              r.valid.clear,
          f.reads value q (bytes_eq_refl value),
        ),
      )
]

-- a call of `bitmap_index_insert` with the answers of the allocator
pub record Call : Type 0 where
  pub alloc : InsertAlloc
  pub value : Bytes
  pub row_id : ℕ

-- The index after a sequence of calls, and what each of them returned.
unfoldable pub run : BitmapIndex → List Call → Option (BitmapIndex × List Bool)
run index [] = some (index, [])
run index (c ∷ cs) = do
  (next, done) ← bitmap_index_insert c.alloc index (some c.value) c.row_id
  (last, results) ← run next cs
  some (last, done ∷ results)

-- whether some call with this value and row number returned true
unfoldable pub inserted : List Call → List Bool → Bytes → ℕ → Bool
inserted [] results w q = false
inserted (c ∷ cs) [] w q = false
inserted (c ∷ cs) (done ∷ results) w q =
    (done && (bytes_eq c.value w && (q == c.row_id))) || inserted cs results w q

run-view :
    (index : BitmapIndex) (cs : List Call)
    → IsIndex index
    → All (λ c. c.row_id + 64 < 2 ^ 32) cs
    → (last : BitmapIndex) × (results : List Bool) × (run index cs ≡ some (last, results))
      × IsIndex last
      × ((w : Bytes) (q : ℕ)
          → view last.items w q ≡ (view index.items w q || inserted cs results w q))
unfolding run inserted
run-view index [] v fits = (index, [], refl, v, λ w q. ground arith)
run-view index (c ∷ cs) v fits =
    let ((next, done), one, i) = insert-Inserts c.alloc index c.value c.row_id v fits.0 in
    let (last, results, rest, valid, reads) = run-view next cs i.valid fits.1 in
    (
      last,
      done ∷ results,
      rw (one, rest) refl,
      valid,
      λ w q. reads w q ∙ ground (arith, i.reads w q),
    )

-- the set of the pairs of an index after calls on a new one, as its queries show it
abbrev pub Answers : BitmapIndex → (Bytes → ℕ → Bool) → Type 0
Answers index f =
    (value : Bytes)
    → ((bitmap_index_query true index (some value) ≡ none) × ((q : ℕ) → f value q ≡ false))
      ⊎ ((b : Bitmap) × (bitmap_index_query true index (some value) ≡ some b)
          × IsValid b
          × ((q : ℕ) → holds b q ≡ f value q))

-- Any sequence of insertions into a new index, with row numbers below 2 ^ 32 - 64 and any answers
-- of the allocator, is defined; then a query whose copy can be allocated returns a valid bitmap of
-- exactly the rows that calls with that value inserted with the result true, or nothing if there
-- is no such row.
pub query-run :
    (capacity : ℕ) (cs : List Call)
    → All (λ c. c.row_id + 64 < 2 ^ 32) cs
    → (index : BitmapIndex) × (last : BitmapIndex) × (results : List Bool) × (bitmap_index_create
          true capacity
        ≡ some index)
      × (run index cs ≡ some (last, results))
      × Answers last (inserted cs results)
unfolding bitmap_index_create
query-run capacity cs fits =
    let (last, results, done, valid, reads) =
      run-view
        (record {
          items = [];
          capacity = if capacity == 0 then 16 else capacity;
          max_bit_position = 0;
        })
        cs (tt, omega arith) fits in
    (
      _,
      last,
      results,
      refl,
      done,
      λ value. elim (query-view last value valid) [
        | inl (e, h) ↦ inl (e, λ q. sym (reads value q) ∙ h q)
        | inr (b, e, v, h) ↦ inr (b, e, v, λ q. h q ∙ reads value q)
      ],
    )
