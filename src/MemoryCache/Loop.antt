-- ===== src/MemoryCache/Loop.antt =====
-- The loop of evictions of src/memory/memory_cache.c ends, with room or without items.
use micro_meow_db.Prelude.{
  ℕ, zero, suc, ◌+◌, ◌%◌, ◌^◌, ◌≤◌, ◌<◌, ◌≡◌, refl, ap, ◌∙◌, ◌⊎◌, Bool, true, false, ◌||◌, some,
  List, [], ◌∷◌, length, ltb, leb, arith, Bool-cases, inl, inr,
}
use micro_meow_db.MemoryCache.{CacheItem, MemoryCache, memory_cache_evict, evict_until}
use micro_meow_db.MemoryCache.Eviction.{IsValid, length-remove, evict-Evicts, evict_empty}

-- what the loop of evictions leaves
pub record Rests (cache : MemoryCache) (item_size : ℕ) (r : MemoryCache × Bool) : Type 0 where
  pub valid : IsValid r.0
  pub pool : r.0.memory_pool ≡ cache.memory_pool
  pub home : r.0.home ≡ cache.home
  pub room :
      r.1 ≡ true → (r.0.used + item_size ≤ r.0.capacity) × (r.0.item_count < r.0.max_item_count)

pub evict_until-Rests :
    (fuel : ℕ) (cache : MemoryCache) (item_size : ℕ)
    → IsValid cache
    → item_size < 2 ^ 63
    → length cache.items < fuel
    → (r : MemoryCache × Bool) × (evict_until fuel cache item_size ≡ some r)
      × Rests cache item_size r
unfolding evict_until
evict_until-Rests zero cache item_size v h f = absurd (omega arith)
evict_until-Rests (suc fuel) cache item_size v h f =
    let full =
      ltb cache.capacity ((cache.used + item_size) % 2 ^ 64)
      || leb cache.max_item_count cache.item_count in
    elim (Bool-cases full) [
      | inr e ↦ (
        (cache, true),
        rw (evict_until, e) refl,
        record {
          valid = v;
          pool = refl;
          home = refl;
          room = λ _. ground (arith, v.within, v.small);
        },
      )
      | inl e ↦ elim (empty_or cache.items) [
        | inl none_left ↦
            let stop : memory_cache_evict cache ≡ (cache, false) = evict_empty cache v none_left in
            (
              (cache, false),
              rw (evict_until, e, stop) refl,
              record { valid = v; pool = refl; home = refl; room = λ f. ground arith },
            )
        | inr (x, xs, items) ↦
            let ev = evict-Evicts cache x xs v items in
            let (i, y, l, next) = ev.chosen in
            let fewer : length (memory_cache_evict cache).0.items < fuel = omega (
              arith,
              ap (λ (c : MemoryCache). length c.items) next,
              length-remove cache.items i y l.at,
            ) in
            let (r, run, rests) =
              evict_until-Rests fuel (memory_cache_evict cache).0 item_size ev.valid h fewer in
            (
              r,
              rw (evict_until, e, ev.done) run,
              record {
                valid = rests.valid;
                pool = rests.pool ∙ ap (λ (c : MemoryCache). c.memory_pool) next;
                home = rests.home ∙ ap (λ (c : MemoryCache). c.home) next;
                room = rests.room;
              },
            )
      ]
    ]
  where
    empty_or :
        (items : List CacheItem)
        → (items ≡ []) ⊎ ((x : CacheItem) × (xs : List CacheItem) × (items ≡ x ∷ xs))
    empty_or [] = inl refl
    empty_or (x ∷ xs) = inr (x, xs, refl)
