-- ===== src/BitmapIndex/Examples.antt =====
-- Concrete runs of the bitmap operations.
use micro_meow_db.Prelude.{
  false, refl, Bytes, ◌-◌, ℕ, ◌+◌, ◌^◌, ◌<◌, ◌≡◌, Bool, true, ◌&&◌, ◌||◌, not, some, List, [], ◌∷◌,
  min, max, replicate, ltb, arith,
}
use micro_meow_db.BitmapIndex.{
  Bitmap, calculate_blocks, bitmap_and, bitmap_or, bitmap_not, BitmapIndex, InsertAlloc,
  bitmap_index_create, bitmap_index_insert,
}
use micro_meow_db.BitmapIndex.Bits.{IsValid, holds}
use micro_meow_db.BitmapIndex.Algebra.{
  Represents, with_blocks, blank-Represents, and-Represents, or-Represents, not-Represents,
}
use micro_meow_db.BitmapIndex.Insertion.{Inserts, insert-Inserts}
use micro_meow_db.BitmapIndex.Index.{view}
use micro_meow_db.BitmapIndex.Wrap.{last_row_empties}
use micro_meow_db.BitmapIndex.History.{Call, Answers, run, inserted, query-run}

abbrev blank : ℕ → Bitmap
blank n = with_blocks n (replicate (calculate_blocks n) 0)

blank-IsValid : (n : ℕ) → n + 63 < 2 ^ 32 → IsValid (blank n)
blank-IsValid n h = (blank-Represents n h).valid

and-Represents_example :
    (r : Bitmap) × (bitmap_and true (blank 70) (blank 5) ≡ some (some r))
    × Represents r (min 70 5) (λ q. holds (blank 70) q && holds (blank 5) q)
and-Represents_example =
    and-Represents (blank 70) (blank 5) (blank-IsValid 70 (omega arith))
      (blank-IsValid 5 (omega arith))

or-Represents_example :
    (r : Bitmap) × (bitmap_or true (blank 70) (blank 5) ≡ some (some r))
    × Represents r (max 70 5) (λ q. holds (blank 70) q || holds (blank 5) q)
or-Represents_example =
    or-Represents (blank 70) (blank 5) (blank-IsValid 70 (omega arith))
      (blank-IsValid 5 (omega arith))

not-Represents_example :
    (r : Bitmap) × (bitmap_not true (blank 70) ≡ some (some r))
    × Represents r 70 (λ q. ltb q 70 && not (holds (blank 70) q))
not-Represents_example = not-Represents (blank 70) (blank-IsValid 70 (omega arith))

abbrev all_granted : InsertAlloc
all_granted = record {
  expanding = λ _. true;
  growing = true;
  item = true;
  value = true;
  bits = true;
}

abbrev empty : BitmapIndex
empty = record { items = []; capacity = 16; max_bit_position = 0 }

insert-Inserts_example :
    (r : BitmapIndex × Bool) × (bitmap_index_insert all_granted empty (some (7 ∷ [])) 3 ≡ some r)
    × Inserts empty (7 ∷ []) 3 r
insert-Inserts_example = insert-Inserts all_granted empty (7 ∷ []) 3 (tt, omega arith) (omega arith)

abbrev calls : List Call
calls =
    record { alloc = all_granted; value = 7 ∷ []; row_id = 3 }
    ∷ record { alloc = all_granted; value = 8 ∷ []; row_id = 70 }
    ∷ []

query-run_example :
    (index : BitmapIndex) × (last : BitmapIndex) × (results : List Bool) × (bitmap_index_create true
        0
      ≡ some index)
    × (run index calls ≡ some (last, results))
    × Answers last (inserted calls results)
query-run_example = query-run 0 calls (omega arith, (omega arith, tt))

last_row_empties_example :
    (next : BitmapIndex) × (bitmap_index_insert all_granted empty (some (7 ∷ [])) (2 ^ 32 - 1)
      ≡ some (next, false))
    × ((w : Bytes) (q : ℕ) → view next.items w q ≡ false)
last_row_empties_example = last_row_empties all_granted empty (7 ∷ []) (λ _. refl) (tt, omega arith)
