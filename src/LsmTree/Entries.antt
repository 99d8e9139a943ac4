-- ===== src/LsmTree/Entries.antt =====
-- The bytes of the tables of src/index/lsm_tree.c as a list of entries.
use micro_meow_db.Prelude.{
  ℕ, zero, suc, ◌+◌, ◌*◌, ◌%◌, ◌^◌, ◌≤◌, ◌<◌, ◌≡◌, refl, sym, ap, ◌∙◌, true, false, Option, none,
  some, List, [], ◌∷◌, ◌++◌, Bytes, bytes_eq, length, length-append, ltb, ◌==◌, if◌then◌else◌,
  arith, Bool-cases, inl, inr,
}
use mathlib.Core.List.{append_assoc, append-nil}
use micro_meow_db.LsmTree.{put32, get32, first, behind, entry, has_key, find_entry, count_entries}

abbrev pub Entries : Type 0
Entries = List (Bytes × Bytes)

abbrev pub encode : Entries → Bytes
encode [] = []
encode (e ∷ es) = entry e.0 e.1 ++ encode es

-- the first of two values that there is
abbrev pub prefer : Option Bytes → Option Bytes → Option Bytes
prefer none b = b
prefer (some v) b = some v

-- the value of the first entry with a key
abbrev pub first_value : Entries → Bytes → Option Bytes
first_value [] key = none
first_value (e ∷ es) key = if bytes_eq e.0 key then some e.1 else first_value es key

pub behind-append : (a b : Bytes) → behind (length a) (a ++ b) ≡ b
unfolding behind
behind-append [] b = refl
behind-append (x ∷ a) b = behind-append a b

pub first-append : (a b : Bytes) → first (length a) (a ++ b) ≡ some a
unfolding first
first-append [] b = refl
first-append (x ∷ a) b = rw (first-append a b) refl

pub get32-put32 : (n : ℕ) (bs : Bytes) → n < 2 ^ 32 → get32 (put32 n ++ bs) ≡ some (n, bs)
unfolding get32 put32
get32-put32 n bs h = ap (λ t. some (t, bs)) (omega (arith, h))

pub length-put32 : (n : ℕ) → length (put32 n) ≡ 4
unfolding put32
length-put32 n = refl

pub length-entry : (key value : Bytes) → length (entry key value) ≡ 8 + length key + length value
unfolding entry put32
length-entry key value = omega (arith, length-append key value)

pub entry-parts :
    (key value rest : Bytes)
    → entry key value ++ rest
      ≡ put32 (length key) ++ (put32 (length value) ++ (key ++ (value ++ rest)))
unfolding entry
entry-parts key value rest =
    append_assoc (put32 (length key)) _ rest
    ∙ ap (λ t. put32 (length key) ++ t)
        (append_assoc (put32 (length value)) _ rest
          ∙ ap (λ t. put32 (length value) ++ t) (append_assoc key value rest))

-- what the walks read at an entry
record Reads (content : Bytes) (offset : ℕ) (key value rest : Bytes) : Type 0 where
  at : ltb offset (length content) ≡ true
  key_size :
      get32 (behind offset content)
      ≡ some (length key, put32 (length value) ++ (key ++ (value ++ rest)))
  value_size :
      get32 (put32 (length value) ++ (key ++ (value ++ rest)))
      ≡ some (length value, key ++ (value ++ rest))

entry-Reads :
    (p key value rest : Bytes)
    → length key < 2 ^ 32
    → length value < 2 ^ 32
    → Reads (p ++ (entry key value ++ rest)) (length p) key value rest
entry-Reads p key value rest h k =
    let longer = length-append p (entry key value ++ rest) in
    let some_bytes = length-append (entry key value) rest in
    let parts : entry key value ++ rest
        ≡ put32 (length key) ++ (put32 (length value) ++ (key ++ (value ++ rest))) =
      entry-parts key value rest in
    record {
      at = ground (arith, longer, some_bytes, length-entry key value);
      key_size =
          rw (behind-append p (entry key value ++ rest), parts) (get32-put32 (length key) _ h);
      value_size = get32-put32 (length value) _ k;
    }

bytes_eq-length : (a b : Bytes) → (length a == length b) ≡ false → bytes_eq a b ≡ false
unfolding bytes_eq
bytes_eq-length [] [] h = ground arith
bytes_eq-length [] (b ∷ bs) h = refl
bytes_eq-length (a ∷ as') [] h = refl
bytes_eq-length (a ∷ as') (b ∷ bs) h = ground (arith, bytes_eq-length as' bs)

pub has_key-append :
    (a rest key : Bytes) → has_key (length a) (a ++ rest) key ≡ some (bytes_eq a key)
unfolding has_key
has_key-append a rest key = elim (Bool-cases (length a == length key)) [
  | inl e ↦ rw (has_key, e, first-append a rest) refl
  | inr e ↦ rw (has_key, e, bytes_eq-length a key e) refl
]

-- The walk at an entry: its value if it has the key, else the walk from its end.
pub find_entry-entry :
    (fuel : ℕ) (p key value rest wanted : Bytes)
    → length p + length (entry key value ++ rest) < 2 ^ 32
    → find_entry (suc fuel) (p ++ (entry key value ++ rest)) (length p) wanted ≡ (
        if bytes_eq key wanted
        then some (some value)
        else find_entry fuel
            ((p ++ entry key value) ++ rest)
            (length (p ++ entry key value))
            wanted)
unfolding find_entry
find_entry-entry fuel p key value rest wanted h =
    let sizes = length-entry key value in
    let both = length-append (entry key value) rest in
    let r =
      entry-Reads p key value rest (ground (arith, sizes, both)) (ground (arith, sizes, both)) in
    let next : (length p + 8 + length key + length value) % 2 ^ 32 ≡ length (p ++ entry key value) =
      omega (arith, sizes, both, length-append p (entry key value)) in
    elim (Bool-cases (bytes_eq key wanted)) [
      | inl e ↦
          rw
            (
              find_entry,
              r.at,
              r.key_size,
              r.value_size,
              has_key-append key (value ++ rest) wanted,
              e,
              behind-append key (value ++ rest),
              first-append value rest,
            )
            refl
      | inr e ↦
          rw
            (
              find_entry,
              r.at,
              r.key_size,
              r.value_size,
              has_key-append key (value ++ rest) wanted,
              e,
              next,
              append_assoc p (entry key value) rest,
            )
            refl
    ]

-- The walk over encoded entries finds the first with the key, where the fuel is more than their number.
pub find_entry-encode :
    (fuel : ℕ) (p : Bytes) (es : Entries) (wanted : Bytes)
    → length p + length (encode es) < 2 ^ 32
    → length es < fuel
    → find_entry fuel (p ++ encode es) (length p) wanted ≡ some (first_value es wanted)
unfolding find_entry
find_entry-encode zero p es wanted h k = ground arith
find_entry-encode (suc fuel) p [] wanted h k =
    let end : ltb (length p) (length (p ++ [])) ≡ false = ground (arith, length-append p []) in
    rw (find_entry, end) refl
find_entry-encode (suc fuel) p (e ∷ es) wanted h k =
    let rest =
      find_entry-encode fuel (p ++ entry e.0 e.1) es wanted
        (omega
          (arith, h, length-append p (entry e.0 e.1), length-append (entry e.0 e.1) (encode es)))
        (omega (arith, k)) in
    find_entry-entry fuel p e.0 e.1 (encode es) wanted h
    ∙ elim (Bool-cases (bytes_eq e.0 wanted)) [ inl s ↦ rw s refl | inr s ↦ rw s rest ]

-- An entry has eight bytes at least.
pub length-encode : (es : Entries) → 8 * length es ≤ length (encode es)
length-encode [] = ground arith
length-encode (e ∷ es) =
    omega (arith, length-encode es, length-entry e.0 e.1, length-append (entry e.0 e.1) (encode es))

pub find_entry_lem :
    (es : Entries) (wanted : Bytes)
    → length (encode es) < 2 ^ 32
    → find_entry (suc (length (encode es))) (encode es) 0 wanted ≡ some (first_value es wanted)
find_entry_lem es wanted h =
    find_entry-encode (suc (length (encode es))) [] es wanted (omega (arith, h))
      (omega (arith, length-encode es))

-- The count of encoded entries, where the fuel is more than their number.
count_entries-encode :
    (fuel : ℕ) (p : Bytes) (es : Entries) (count : ℕ)
    → length p + length (encode es) < 2 ^ 32
    → length es < fuel
    → count + length es < 2 ^ 32
    → count_entries fuel (p ++ encode es) (length p) count ≡ some (count + length es)
unfolding count_entries
count_entries-encode zero p es count h k c = ground arith
count_entries-encode (suc fuel) p [] count h k c =
    let end : ltb (length p) (length (p ++ [])) ≡ false = ground (arith, length-append p []) in
    rw (count_entries, end) (ap some (omega arith))
count_entries-encode (suc fuel) p (e ∷ es) count h k c =
    let sizes = length-entry e.0 e.1 in
    let both = length-append (entry e.0 e.1) (encode es) in
    let longer = length-append p (entry e.0 e.1) in
    let r =
      entry-Reads p e.0 e.1 (encode es) (ground (arith, sizes, both))
        (ground (arith, sizes, both)) in
    let next : (length p + 8 + length e.0 + length e.1) % 2 ^ 32 ≡ length (p ++ entry e.0 e.1) =
      omega (arith, sizes, both, longer) in
    let one : (count + 1) % 2 ^ 32 ≡ count + 1 = omega (arith, c) in
    let rest =
      count_entries-encode fuel (p ++ entry e.0 e.1) es (count + 1) (omega (arith, h, longer, both))
        (omega (arith, k)) (omega (arith, c)) in
    rw
      (
        count_entries,
        r.at,
        r.key_size,
        r.value_size,
        next,
        one,
        ← append_assoc p (entry e.0 e.1) (encode es),
      )
      (rest ∙ ap some (omega arith))

pub count_entries_lem :
    (es : Entries)
    → length (encode es) < 2 ^ 32
    → count_entries (suc (length (encode es))) (encode es) 0 0 ≡ some (length es)
count_entries_lem es h =
    count_entries-encode (suc (length (encode es))) [] es 0 (omega (arith, h))
      (omega (arith, length-encode es)) (omega (arith, h, length-encode es))
    ∙ ap some (omega arith)

pub encode-append :
    (es : Entries) (key value : Bytes)
    → encode (es ++ (key, value) ∷ []) ≡ encode es ++ entry key value
encode-append [] key value = append-nil (entry key value)
encode-append (e ∷ es) key value =
    ap (λ t. entry e.0 e.1 ++ t) (encode-append es key value)
    ∙ sym (append_assoc (entry e.0 e.1) (encode es) (entry key value))

-- An entry at the end is found where no other has its key.
pub first_value-append :
    (es : Entries) (key value wanted : Bytes)
    → first_value (es ++ (key, value) ∷ []) wanted
      ≡ prefer (first_value es wanted) (if bytes_eq key wanted then some value else none)
first_value-append [] key value wanted = refl
first_value-append (e ∷ es) key value wanted = elim (Bool-cases (bytes_eq e.0 wanted)) [
  | inl s ↦ rw s refl
  | inr s ↦ rw s (first_value-append es key value wanted)
]
