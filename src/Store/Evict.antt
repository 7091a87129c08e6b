-- ===== src/Store/Evict.antt =====
-- Eviction in pkg/store/store.go. A loop that ranges over the map visits the keys in an order that
-- the run time picks; the order is the argument `order`, and a key that is no longer in the map when
-- its turn comes is not visited.
pub mod Keeps
use fast_and_accurate_store.Base.{
  ℕ, zero, suc, ◌+◌, Bool, true, false, ◌&&◌, ◌||◌, not, none, some, List, [], ◌∷◌, Bytes, le64,
  is_pos64, str_eq, ◌==◌, if◌then◌else◌, length,
}
use fast_and_accurate_store.Base.Table.{lookup}
use fast_and_accurate_store.Store.Types.{
  no_eviction, all_keys_random, volatile_random, all_keys_lru, all_keys_lfu,
}
use fast_and_accurate_store.Store.Fifo
use fast_and_accurate_store.Store.State.{Store, delete_key, pop_lru, pop_lfu}

-- `s.usedMemory <= s.maxMemory`
abbrev pub fits : Store → Bool
fits s = le64 s.used_memory s.max_memory

-- `evictRandom`
unfoldable pub evict_random : Bool → List Bytes → Store → Store
evict_random volatile_only [] s = s
evict_random volatile_only (key ∷ order) s = elim (lookup key s.items) [
  | none ↦ evict_random volatile_only order s
  | some item ↦
      let rest =
        evict_random volatile_only order
          (if volatile_only && item.expires_at == 0 then s else delete_key s key) in
      if fits s then s else rest
]

-- The loop of `evictLRU` and `evictLFU`, which differ in the pop that they call.
unfoldable pub evict_by : (Store → Bytes × Store) → ℕ → Store → Store
evict_by pop zero s = s
evict_by pop (suc rounds) s =
    let (key, s') = pop s in
    let rest = evict_by pop rounds (delete_key s' key) in
    if fits s then s else if str_eq key [] then s' else rest

-- `evictLRU`. Every round pops an entry or is the last.
unfoldable pub evict_lru : Store → Store
unfolding evict_by pop_lru
evict_lru s = evict_by pop_lru (length s.lru_heap + 1) s

-- `evictLFU`
unfoldable pub evict_lfu : Store → Store
unfolding evict_by pop_lfu
evict_lfu s = evict_by pop_lfu (length s.lfu_heap + 1) s

-- The body of the FIFO loop of `evictIfNeeded`.
unfoldable pub evict_oldest : Store → Store
evict_oldest s =
    let (key, fifo) = Fifo.pop s.fifo in
    let s' = record s { fifo = fifo } in if str_eq key [] then s' else delete_key s' key

-- The FIFO loop. Every round shortens the ring.
unfoldable pub evict_fifo : ℕ → Store → Store
unfolding evict_oldest
evict_fifo zero s = s
evict_fifo (suc rounds) s =
    let rest = evict_fifo rounds (evict_oldest s) in if fits s || s.fifo.size == 0 then s else rest

-- The loop over the keys with a TTL.
unfoldable pub evict_ttl : List Bytes → Store → Store
evict_ttl [] s = s
evict_ttl (key ∷ order) s = elim (lookup key s.items) [
  | none ↦ evict_ttl order s
  | some item ↦
      let rest = evict_ttl order (if is_pos64 item.expires_at then delete_key s key else s) in
      if fits s then s else rest
]

-- The `default` branch of `evictIfNeeded`.
unfoldable pub evict_default : List Bytes → Store → Store
unfolding evict_fifo evict_ttl
evict_default order s =
    let s' = evict_fifo s.fifo.size s in
    if s'.evict_ttl_when_full && not (fits s') then evict_ttl order s' else s'

-- `evictIfNeeded`
unfoldable pub evict_if_needed : List Bytes → Store → Store
unfolding evict_random evict_lru evict_lfu evict_default
evict_if_needed order s =
    if not (is_pos64 s.max_memory) || fits s then s else elim s.eviction_policy [
      | no_eviction ↦ evict_default order s
      | all_keys_random ↦ evict_random false order s
      | volatile_random ↦ evict_random true order s
      | all_keys_lru ↦ evict_lru s
      | all_keys_lfu ↦ evict_lfu s
    ]
