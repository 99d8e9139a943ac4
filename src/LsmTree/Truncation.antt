-- ===== src/LsmTree/Truncation.antt =====
-- What searches of src/index/lsm_tree.c miss in a file longer than the buffer they read it into.
use mathlib.Core.List.{append_assoc, append-nil}
use micro_meow_db.Prelude.{
  ℕ, zero, suc, ◌+◌, ◌-◌, ◌%◌, ◌^◌, ◌≤◌, ◌<◌, ◌≡◌, refl, sym, ap, ◌∙◌, true, false, none, some, [],
  ◌∷◌, ◌++◌, Bytes, bytes_eq, length, length-append, ltb, if◌then◌else◌, arith, Bool-cases, inl,
  inr,
}
use micro_meow_db.LsmTree.{
  Files, put32, get32, first, behind, at_most, find_entry, entry, read_file, sstable_get,
}
use micro_meow_db.LsmTree.Entries.{
  Entries, encode, first_value, length-encode, behind-append, get32-put32, find_entry-entry,
  has_key-append, entry-parts, length-put32,
}
use micro_meow_db.LsmTree.Tables.{behind-put32}

-- The walk over entries in front of other bytes goes on behind them, if none has the key.
find_entry-passes :
    (fuel : ℕ) (p : Bytes) (es : Entries) (tail wanted : Bytes)
    → first_value es wanted ≡ none
    → length p + length (encode es ++ tail) < 2 ^ 32
    → find_entry (length es + fuel) (p ++ (encode es ++ tail)) (length p) wanted
      ≡ find_entry fuel ((p ++ encode es) ++ tail) (length (p ++ encode es)) wanted
find_entry-passes fuel p [] tail wanted n h =
    rw (append-nil p) (ap (λ k. find_entry k (p ++ tail) (length p) wanted) (omega arith))
find_entry-passes fuel p (e ∷ es) tail wanted n h =
    let e' = entry e.0 e.1 in
    let whole : encode (e ∷ es) ++ tail ≡ e' ++ (encode es ++ tail) =
      append_assoc e' (encode es) tail in
    let sizes : length (encode (e ∷ es) ++ tail) ≡ length (e' ++ (encode es ++ tail)) =
      ap length whole in
    let step =
      find_entry-entry (length es + fuel) p e.0 e.1 (encode es ++ tail) wanted
        (omega (arith, h, sizes)) in
    elim (Bool-cases (bytes_eq e.0 wanted)) [
      | inl s ↦ let found = rw s at n in cc
      | inr s ↦
          let later : first_value es wanted ≡ none = rw s at n in
          let rest =
            find_entry-passes fuel (p ++ e') es tail wanted later
              (omega (arith, h, sizes, length-append p e', length-append e' (encode es ++ tail))) in
          ap (λ t. find_entry (suc (length es) + fuel) (p ++ t) (length p) wanted) whole
          ∙ ap (λ k. find_entry k (p ++ (e' ++ (encode es ++ tail))) (length p) wanted)
              (omega arith)
          ∙ step
          ∙ rw s rest
          ∙ ap (λ t. find_entry fuel (t ++ tail) (length t) wanted) (append_assoc p e' (encode es))
    ]

at_most-append :
    (n : ℕ) (a b : Bytes) → length a ≤ n → at_most n (a ++ b) ≡ a ++ at_most (n - length a) b
unfolding at_most
at_most-append n [] b h = ap (λ k. at_most k b) (omega arith)
at_most-append zero (x ∷ a) b h = ground arith
at_most-append (suc n) (x ∷ a) b h =
    ap (λ t. x ∷ t)
      (at_most-append n a b (omega (arith, h)) ∙ ap (λ k. a ++ at_most k b) (omega arith))

length-at_most : (n : ℕ) (bs : Bytes) → length (at_most n bs) ≤ n
unfolding at_most
length-at_most zero bs = omega arith
length-at_most (suc n) [] = omega arith
length-at_most (suc n) (b ∷ bs) = omega (arith, length-at_most n bs)

first_short : (n : ℕ) (bs : Bytes) → length bs < n → first n bs ≡ none
unfolding first
first_short zero bs h = ground arith
first_short (suc n) [] h = refl
first_short (suc n) (b ∷ bs) h = rw (first_short n bs (omega (arith, h))) refl

-- The walk at an entry whose value is cut: reading the value leaves the bytes that were read.
find_entry-last :
    (fuel : ℕ) (content : Bytes) (offset : ℕ) (key part behind_key wanted : Bytes) (size : ℕ)
    → length part < size
    → ltb offset (length content) ≡ true
    → get32 (behind offset content) ≡ some (length key, behind_key)
    → get32 behind_key ≡ some (size, key ++ part)
    → find_entry (suc fuel) content offset wanted ≡ (
        if bytes_eq key wanted
        then none
        else find_entry fuel content ((offset + 8 + length key + size) % 2 ^ 32) wanted)
unfolding find_entry
find_entry-last fuel content offset key part behind_key wanted size short at key_size value_size =
    elim (Bool-cases (bytes_eq key wanted)) [
      | inl e ↦
          rw
            (
              find_entry,
              at,
              key_size,
              value_size,
              has_key-append key part wanted,
              e,
              behind-append key part,
              first_short size part short,
            )
            refl
      | inr e ↦ rw (find_entry, at, key_size, value_size, has_key-append key part wanted, e) refl
    ]

find_entry-end :
    (fuel : ℕ) (content : Bytes) (offset : ℕ) (wanted : Bytes)
    → ltb offset (length content) ≡ false
    → find_entry (suc fuel) content offset wanted ≡ some none
unfolding find_entry
find_entry-end fuel content offset wanted e = rw (find_entry, e) refl

abbrev cut_entry : Bytes → ℕ → Bytes → Bytes
cut_entry key size part = put32 (length key) ++ (put32 size ++ (key ++ part))

length-cut :
    (key : Bytes) (size : ℕ) (part : Bytes)
    → length (cut_entry key size part) ≡ 8 + length key + length part
unfolding put32
length-cut key size part = omega (arith, length-append key part)

find_entry-cut :
    (fuel : ℕ) (p key part wanted : Bytes) (size : ℕ)
    → length part < size
    → length p + 8 + length key + size < 2 ^ 32
    → find_entry (suc (suc fuel)) (p ++ cut_entry key size part) (length p) wanted
      ≡ (if bytes_eq key wanted then none else some none)
find_entry-cut fuel p key part wanted size short small =
    let longer = length-append p (cut_entry key size part) in
    let cut = length-cut key size part in
    let end =
      find_entry-end fuel (p ++ cut_entry key size part)
        ((length p + 8 + length key + size) % 2 ^ 32) wanted (ground (arith, longer, cut)) in
    find_entry-last (suc fuel) (p ++ cut_entry key size part) (length p) key part
      (put32 size ++ (key ++ part)) wanted size short (ground (arith, longer, cut))
      (rw (behind-append p (cut_entry key size part))
        (get32-put32 (length key) _ (omega (arith, small))))
      (get32-put32 size _ (omega (arith, small)))
    ∙ ap (λ t. if bytes_eq key wanted then none else t) end

-- what a search reads of a file with an entry across the end of its buffer
at_most-cut :
    (es : Entries) (key value rest : Bytes) (n : ℕ)
    → length (encode es) + 8 + length key ≤ n
    → at_most n (encode es ++ (entry key value ++ rest))
      ≡ encode es
        ++ cut_entry key
            (length value)
            (at_most (n - (length (encode es) + 8 + length key)) (value ++ rest))
at_most-cut es key value rest n h =
    let bytes = length (encode es) in
    let key_bytes = put32 (length key) in
    let value_bytes = put32 (length value) in
    let four = length-put32 (length key) in
    let eight = length-put32 (length value) in
    at_most-append n (encode es) _ (omega (arith, h))
    ∙ ap (λ t. encode es ++ t)
        (ap (at_most (n - bytes)) (entry-parts key value rest)
          ∙ at_most-append (n - bytes) key_bytes _ (omega (arith, h, four))
          ∙ ap (λ t. key_bytes ++ t)
              (at_most-append (n - bytes - length key_bytes) value_bytes _
                  (omega (arith, h, four, eight))
                ∙ ap (λ t. value_bytes ++ t)
                    (at_most-append (n - bytes - length key_bytes - length value_bytes) key _
                        (omega (arith, h, four, eight))
                      ∙ ap (λ k. key ++ at_most k (value ++ rest))
                          (omega (arith, h, four, eight)))))

encode-before :
    (es : Entries) (key value : Bytes) (later : Entries)
    → encode (es ++ (key, value) ∷ later) ≡ encode es ++ (entry key value ++ encode later)
encode-before [] key value later = refl
encode-before (e ∷ es) key value later =
    ap (λ t. entry e.0 e.1 ++ t) (encode-before es key value later)
    ∙ sym (append_assoc (entry e.0 e.1) (encode es) (entry key value ++ encode later))

-- the walk over what is read of such a file
find_entry-long :
    (es : Entries) (key part wanted : Bytes) (size : ℕ)
    → first_value es wanted ≡ none
    → length part < size
    → length (encode es ++ cut_entry key size part) < 2 ^ 31
    → length (encode es) + 8 + length key + size < 2 ^ 32
    → find_entry
        (suc (length (encode es ++ cut_entry key size part)))
        (encode es ++ cut_entry key size part)
        0
        wanted
      ≡ (if bytes_eq key wanted then none else some none)
find_entry-long es key part wanted size n short small whole =
    let tail = cut_entry key size part in
    let all = encode es ++ tail in
    let fuel : ℕ = length all - length es - 1 in
    let enough : suc (length all) ≡ length es + suc (suc fuel) =
      omega (arith, length-encode es, length-append (encode es) tail, length-cut key size part) in
    ap (λ k. find_entry k all 0 wanted) enough
    ∙ find_entry-passes (suc (suc fuel)) [] es tail wanted n (omega (arith, small))
    ∙ find_entry-cut fuel (encode es) key part wanted size short whole

-- A search that can allocate, in a file whose first 2 ^ 20 bytes end within the value of an entry,
-- where the entries in front of that one do not have the key: for the key of that entry, it reads
-- bytes that were never written, and any other key is not found, though a later entry may have it.
pub long_file_loses :
    (files : Files) (name : Bytes) (count : ℕ) (es : Entries) (key value : Bytes) (later : Entries)
    (wanted : Bytes)
    → read_file files name ≡ some (put32 count ++ encode (es ++ (key, value) ∷ later))
    → length (encode es) + 8 + length key ≤ 1048576
    → 1048576 < length (encode es) + 8 + length key + length value
    → length value < 2 ^ 31
    → first_value es wanted ≡ none
    → sstable_get true true files name wanted ≡ (if bytes_eq key wanted then none else some none)
unfolding sstable_get
long_file_loses files name count es key value later wanted r low high small n =
    let part : Bytes =
      at_most (1048576 - (length (encode es) + 8 + length key)) (value ++ encode later) in
    let short =
      length-at_most (1048576 - (length (encode es) + 8 + length key)) (value ++ encode later) in
    let content : at_most 1048576 (encode (es ++ (key, value) ∷ later))
        ≡ encode es ++ cut_entry key (length value) part =
      ap (at_most 1048576) (encode-before es key value later)
      ∙ at_most-cut es key value (encode later) 1048576 low in
    let found =
      find_entry-long es key part wanted (length value) n (omega (arith, short, low, high))
        (omega (
          arith,
          short,
          low,
          length-append (encode es) (cut_entry key (length value) part),
          length-cut key (length value) part,
        ))
        (omega (arith, low, small)) in
    elim (Bool-cases (bytes_eq key wanted)) [
      | inl e ↦
          rw
            (
              sstable_get,
              r,
              behind-put32 count (encode (es ++ (key, value) ∷ later)),
              content,
              found,
              e,
            )
            refl
      | inr e ↦
          rw
            (
              sstable_get,
              r,
              behind-put32 count (encode (es ++ (key, value) ∷ later)),
              content,
              found,
              e,
            )
            refl
    ]
