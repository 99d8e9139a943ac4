-- ===== src/MemoryEngine/Rows.antt =====
-- The rows of one table of src/storage/memory_engine.c as a map from row numbers.
use micro_meow_db.Prelude.{
  ℕ, zero, suc, ◌+◌, ◌%◌, ◌^◌, ◌<◌, ◌≡◌, refl, ◌∙◌, Bool, true, false, Option, none, some, List, [],
  ◌∷◌, length, get_or, get_elem?, set, get_or-set, length-set, ◌&&◌, sym, ◌==◌, if◌then◌else◌,
  arith, Bool-cases, inl, inr,
}
use native.Mathlib.Nat.{mod-lt}
use micro_meow_db.MemoryEngine.{
  Row, MemoryEngineRow, MemoryEngineTableData, memory_engine_hash, bucket, push_row, add_row,
  count_rows, is_full, insert_row, find_row, replace_row, update_row,
}

-- A table has as many buckets as its capacity, and at least one.
pub record IsTable (t : MemoryEngineTableData) : Type 0 where
  pub positive : 0 < t.capacity
  pub sized : length t.rows ≡ t.capacity

-- the row with a number
abbrev pub lookup : MemoryEngineTableData → ℕ → Option Row
lookup t row_id = find_row (get_or t.rows (row_id % t.capacity) []) row_id

get_elem?-get_or :
    {A : Type 0} (xs : List A) (i : ℕ) (d : A)
    → i < length xs
    → get_elem? xs i ≡ some (get_or xs i d)
unfolding get_or
get_elem?-get_or [] i d h = absurd (omega arith)
get_elem?-get_or (x ∷ xs) zero d h = refl
get_elem?-get_or (x ∷ xs) (suc i) d h = get_elem?-get_or xs i d (omega arith)

pub bucket-get_or :
    (t : MemoryEngineTableData) (row_id : ℕ)
    → IsTable t
    → bucket t row_id ≡ some (get_or t.rows (row_id % t.capacity) [])
unfolding bucket memory_engine_hash
bucket-get_or t row_id v = ground (
  arith,
  get_elem?-get_or t.rows (row_id % t.capacity) [],
  mod-lt row_id {m = t.capacity} v.positive,
  v.sized,
  v.positive,
)

-- what an update of one number makes of a bucket
find-replace :
    (rs : List MemoryEngineRow) (a b : ℕ) (row : Row)
    → find_row (replace_row rs a row).0 b
      ≡ (if (replace_row rs a row).1 && (b == a) then some row else find_row rs b)
unfolding find_row replace_row
find-replace [] a b row = refl
find-replace (r ∷ rs) a b row = ground (arith, find-replace rs a b row)

replace-found :
    (rs : List MemoryEngineRow) (a : ℕ) (row : Row)
    → (replace_row rs a row).1 ≡ (elim (find_row rs a) [ none ↦ false | some r ↦ true ])
unfolding find_row replace_row
replace-found [] a row = refl
replace-found (r ∷ rs) a row = ground (arith, replace-found rs a row)

-- what a call leaves of a table: a table with the same numbers to look up but one
pub record Puts (t : MemoryEngineTableData) (a : ℕ) (row : Row) (r : MemoryEngineTableData × Bool)
    : Type 0 where
  pub valid : IsTable r.0
  pub reads : (b : ℕ) → lookup r.0 b ≡ (if r.1 && (b == a) then some row else lookup t b)

-- An update of a table is defined and leaves a table. It succeeds exactly if the number has a row,
-- which is then the new one; every other number keeps its row.
update_row-Puts :
    (t : MemoryEngineTableData) (row_id : ℕ) (row : Row)
    → IsTable t
    → (r : MemoryEngineTableData × Bool) × (update_row row_id row t ≡ some r)
      × (r.1 ≡ (elim (lookup t row_id) [ none ↦ false | some old ↦ true ]))
      × Puts t row_id row r
unfolding update_row memory_engine_hash
update_row-Puts t row_id row v =
    let i = row_id % t.capacity in
    let old = get_or t.rows i [] in
    let new = replace_row old row_id row in
    let inside : i < length t.rows =
      omega (arith, mod-lt row_id {m = t.capacity} v.positive, v.sized) in
    (
      (record t { rows = set t.rows i new.0 }, new.1),
      rw (bucket-get_or t row_id v) refl,
      replace-found old row_id row,
      record {
        valid = record { positive = v.positive; sized = length-set t.rows i new.0 ∙ v.sized };
        reads = λ b.
            rw (get_or-set t.rows i (b % t.capacity) new.0 [] inside)
              (ground (arith, find-replace old row_id b row));
      },
    )

-- An insertion into a table that need not grow is defined and leaves a table. If it succeeds, the next number has the new row and every other its old one;
-- if the row cannot be allocated, no number changes its row.
pub insert_row-Puts :
    (granted : Bool × Bool) (t : MemoryEngineTableData) (row : Row)
    → IsTable t
    → is_full t.row_count t.capacity ≡ false
    → (r : MemoryEngineTableData × Bool) × (insert_row granted row t ≡ some r)
      × (r.1 ≡ granted.1)
      × Puts t t.next_row_id row r
unfolding insert_row add_row count_rows push_row memory_engine_hash find_row
insert_row-Puts granted t row v room =
    let i = t.next_row_id % t.capacity in
    let inside : i < length t.rows =
      omega (arith, mod-lt t.next_row_id {m = t.capacity} v.positive, v.sized) in
    elim (Bool-cases granted.1) [
      | inl e ↦ (
        (
          count_rows
              (record t {
                next_row_id = (t.next_row_id + 1) % 2 ^ 64;
                rows = push_row t.rows t.capacity (record { row = row; row_id = t.next_row_id });
              })
              ((t.row_count + 1) % 2 ^ 64),
          true,
        ),
        rw (insert_row, room, add_row, bucket-get_or t t.next_row_id v, e) refl,
        sym e,
        record {
          valid = record { positive = v.positive; sized = length-set t.rows i _ ∙ v.sized };
          reads = λ b. rw (get_or-set t.rows i (b % t.capacity) _ [] inside) (ground arith);
        },
      )
      | inr e ↦ (
        (record t { next_row_id = (t.next_row_id + 1) % 2 ^ 64 }, false),
        rw (insert_row, room, add_row, bucket-get_or t t.next_row_id v, e) refl,
        sym e,
        record { valid = record { positive = v.positive; sized = v.sized }; reads = λ b. refl },
      )
    ]
