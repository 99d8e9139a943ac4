-- ===== src/LsmTree/Insertion.antt =====
-- Insertions and deletions of src/index/lsm_tree.c that the active table has room for.
use micro_meow_db.Prelude.{
  ◌≡◌, refl, sym, ap, ◌∙◌, Bool, true, false, Option, none, some, [], ◌∷◌, ◌++◌, Bytes, bytes_eq,
  bytes_eq_refl, Option-cases, inl, inr,
}
use micro_meow_db.LsmTree.{
  LsmTree, LsmMemtable, Files, FlushAnswers, entry, memtable_put, put_active, lsm_tree_insert,
  lsm_tree_delete, lsm_tree_get,
}
use micro_meow_db.LsmTree.Entries.{Entries, first_value, first_value-append}
use micro_meow_db.LsmTree.Tables.{Fits, put_fitting, Tables, Stores, value_of, get-value_of}

pub put_active_lem :
    (tree : LsmTree) (t : LsmMemtable) (key value : Bytes) (r : LsmMemtable × Bool)
    → tree.active_memtable ≡ some t
    → memtable_put t key value ≡ some r
    → put_active tree key value ≡ some (record tree { active_memtable = some r.0 }, r.1)
unfolding put_active
put_active_lem tree t key value r a e = rw (put_active, a, e) refl

-- an entry in the active table, which has room
pub insert_fitting :
    (created : Bool) (a : FlushAnswers) (files : Files) (tree : LsmTree) (es ims : Entries)
    (ts : Tables) (key value : Bytes) (s : Stores files tree es ims ts)
    → Fits s.active key value
    → (tree' : LsmTree) × (lsm_tree_insert created a files tree key value
        ≡ some (files, tree', true))
      × Stores files tree' (es ++ (key, value) ∷ []) ims ts
unfolding lsm_tree_insert
insert_fitting created a files tree es ims ts key value s f =
    let (put, holds) = put_fitting s.active es key value s.holds s.mutable f in
    let next : LsmMemtable = record s.active { content = s.active.content ++ entry key value } in
    (
      record tree { active_memtable = some next },
      rw
          (
            lsm_tree_insert,
            put_active_lem tree s.active key value (next, true) s.is_active put,
            s.is_active,
          )
          refl,
      record {
        active = next;
        is_active = refl;
        holds = holds;
        mutable = s.mutable;
        frozen = s.frozen;
        tables = s.tables;
        kept = s.kept;
        count = s.count;
        few = s.few;
        none1 = s.none1;
        none2 = s.none2;
      },
    )

-- what an insertion leaves to the searches
pub record Adds (files : Files) (tree : LsmTree) (es ims : Entries) (ts : Tables)
    (key value : Bytes) (r : Option (Files × LsmTree × Bool)) : Type 0 where
  pub tree' : LsmTree
  pub done : r ≡ some (files, tree', true)
  pub stores : Stores files tree' (es ++ (key, value) ∷ []) ims ts
  pub own :
      lsm_tree_get true true files tree' key
      ≡ some (some (elim (first_value es key) [ some old ↦ old | none ↦ value ]))
  pub others :
      (wanted : Bytes)
      → bytes_eq key wanted ≡ false
      → lsm_tree_get true true files tree' wanted ≡ lsm_tree_get true true files tree wanted

own_value :
    (es ims : Entries) (ts : Tables) (key value : Bytes)
    → value_of (es ++ (key, value) ∷ []) ims ts key
      ≡ some (elim (first_value es key) [ some old ↦ old | none ↦ value ])
own_value es ims ts key value = elim (Option-cases (first_value es key)) [
  | inl e ↦ rw (first_value-append es key value key, e, bytes_eq_refl key) refl
  | inr (v, e) ↦ rw (first_value-append es key value key, e) refl
]

other_value :
    (es ims : Entries) (ts : Tables) (key value wanted : Bytes)
    → bytes_eq key wanted ≡ false
    → value_of (es ++ (key, value) ∷ []) ims ts wanted ≡ value_of es ims ts wanted
other_value es ims ts key value wanted n = elim (Option-cases (first_value es wanted)) [
  | inl e ↦ rw (first_value-append es key value wanted, e, n) refl
  | inr (v, e) ↦ rw (first_value-append es key value wanted, e) refl
]

-- In a tree with a writable active table of entries, an immutable table of entries or none, fewer
-- than 2 ^ 32 - 1 files on level 0, each with entries of at most 1048576 bytes, and nothing on
-- levels 1 and 2, an insertion that the active table has room for is defined and returns true, and
-- the tree is that with one more entry. A search for its key, whose allocations succeed, then
-- finds the value, except that a value under that key in the active table stays in front: the
-- insertion does not replace it. Such searches for other keys find what they found before.
pub insert-Adds :
    (created : Bool) (a : FlushAnswers) (files : Files) (tree : LsmTree) (es ims : Entries)
    (ts : Tables) (key value : Bytes) (s : Stores files tree es ims ts)
    → Fits s.active key value
    → Adds files tree es ims ts key value (lsm_tree_insert created a files tree key value)
insert-Adds created a files tree es ims ts key value s f =
    let (tree', done, s') = insert_fitting created a files tree es ims ts key value s f in
    let found = get-value_of files tree' (es ++ (key, value) ∷ []) ims ts in
    record {
      tree' = tree';
      done = done;
      stores = s';
      own = found key s' ∙ ap some (own_value es ims ts key value);
      others = λ wanted n.
          found wanted s'
          ∙ ap some (other_value es ims ts key value wanted n)
          ∙ sym (get-value_of files tree es ims ts wanted s);
    }

-- In a tree with a writable active table of entries, an immutable table of entries or none, fewer
-- than 2 ^ 32 - 1 files on level 0, each with entries of at most 1048576 bytes, and nothing on
-- levels 1 and 2, a deletion that the active table has room for returns true. A search whose
-- allocations succeed, one of no bytes included, then finds the key: with its value in the active
-- table, or else with the empty value.
pub deleted_found :
    (created : Bool) (a : FlushAnswers) (files : Files) (tree : LsmTree) (es ims : Entries)
    (ts : Tables) (key : Bytes) (s : Stores files tree es ims ts)
    → Fits s.active key []
    → (tree' : LsmTree) × (lsm_tree_delete created a files tree key ≡ some (files, tree', true))
      × (lsm_tree_get true true files tree' key
          ≡ some (some (elim (first_value es key) [ some old ↦ old | none ↦ [] ])))
unfolding lsm_tree_delete
deleted_found created a files tree es ims ts key s f =
    let r = insert-Adds created a files tree es ims ts key [] s f in (r.tree', r.done, r.own)
