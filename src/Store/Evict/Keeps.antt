-- ===== src/Store/Evict/Keeps.antt =====
-- An induction rule for the eviction of pkg/store/store.go: what deletions and changes of the heaps
-- and of the FIFO keep, eviction keeps.
use fast_and_accurate_store.Base.{
  ℕ, ◌+◌, zero, suc, Bool, true, false, List, [], ◌∷◌, Bytes, arith, length,
}
use fast_and_accurate_store.Store.Types.{LruEntry, LfuEntry}
use fast_and_accurate_store.Store.Fifo
use fast_and_accurate_store.Store.Fifo.{Fifo}
use fast_and_accurate_store.Store.State.{Store, delete_key, pop_lru, pop_lfu}
use fast_and_accurate_store.Store.Evict.{
  evict_random, evict_by, evict_lru, evict_lfu, evict_oldest, evict_fifo, evict_ttl, evict_default,
  evict_if_needed,
}

module _ {ℓ} (P : Store → Type ℓ)
    (keep_delete : (s : Store) (key : Bytes) → P s → P (delete_key s key)) where
  pub evict_random-keeps :
      (volatile_only : Bool) (order : List Bytes) (s : Store)
      → P s
      → P (evict_random volatile_only order s)
  unfolding evict_random
  evict_random-keeps volatile_only [] s p = p
  evict_random-keeps volatile_only (key ∷ order) s p = ground (
    arith,
    evict_random-keeps volatile_only order s p,
    evict_random-keeps volatile_only order (delete_key s key) (keep_delete s key p),
  )

  evict_ttl-keeps : (order : List Bytes) (s : Store) → P s → P (evict_ttl order s)
  unfolding evict_ttl
  evict_ttl-keeps [] s p = p
  evict_ttl-keeps (key ∷ order) s p = ground (
    arith,
    evict_ttl-keeps order s p,
    evict_ttl-keeps order (delete_key s key) (keep_delete s key p),
  )

  evict_by-keeps :
      (pop : Store → Bytes × Store) (keep_pop : (s : Store) → P s → P (pop s).1)
      → (rounds : ℕ) (s : Store) → P s
      → P (evict_by pop rounds s)
  unfolding evict_by
  evict_by-keeps pop keep_pop zero s p = p
  evict_by-keeps pop keep_pop (suc rounds) s p = ground (
    arith,
    keep_pop s p,
    evict_by-keeps pop keep_pop rounds (delete_key (pop s).1 (pop s).0)
        (keep_delete (pop s).1 (pop s).0 (keep_pop s p)),
  )

  module _ (keep_fifo : (s : Store) (fifo : Fifo) → P s → P (record s { fifo = fifo }))
      (keep_lru : (s : Store) (h : List LruEntry) → P s → P (record s { lru_heap = h }))
      (keep_lfu : (s : Store) (h : List LfuEntry) → P s → P (record s { lfu_heap = h })) where
    pub pop_lru-keeps : (s : Store) → P s → P (pop_lru s).1
    unfolding pop_lru
    pop_lru-keeps s p = keep_lru s _ p

    pub pop_lfu-keeps : (s : Store) → P s → P (pop_lfu s).1
    unfolding pop_lfu
    pop_lfu-keeps s p = keep_lfu s _ p

    evict_oldest-keeps : (s : Store) → P s → P (evict_oldest s)
    unfolding evict_oldest
    evict_oldest-keeps s p = ground (
      arith,
      keep_fifo s (Fifo.pop s.fifo).1 p,
      keep_delete (record s { fifo = (Fifo.pop s.fifo).1 }) (Fifo.pop s.fifo).0
          (keep_fifo s (Fifo.pop s.fifo).1 p),
    )

    evict_fifo-keeps : (rounds : ℕ) (s : Store) → P s → P (evict_fifo rounds s)
    unfolding evict_fifo
    evict_fifo-keeps zero s p = p
    evict_fifo-keeps (suc rounds) s p =
        ground (arith, evict_fifo-keeps rounds (evict_oldest s) (evict_oldest-keeps s p))

    evict_default-keeps : (order : List Bytes) (s : Store) → P s → P (evict_default order s)
    unfolding evict_default
    evict_default-keeps order s p =
        let q = evict_fifo-keeps s.fifo.size s p in
        ground (arith, evict_ttl-keeps order (evict_fifo s.fifo.size s) q)

    evict_lru-keeps : (s : Store) → P s → P (evict_lru s)
    unfolding evict_lru
    evict_lru-keeps s p = evict_by-keeps pop_lru pop_lru-keeps (length s.lru_heap + 1) s p

    evict_lfu-keeps : (s : Store) → P s → P (evict_lfu s)
    unfolding evict_lfu
    evict_lfu-keeps s p = evict_by-keeps pop_lfu pop_lfu-keeps (length s.lfu_heap + 1) s p

    -- `evictIfNeeded` keeps what deletions and changes of the FIFO and the heaps keep.
    pub evict_if_needed-keeps : (order : List Bytes) (s : Store) → P s → P (evict_if_needed order s)
    unfolding evict_if_needed
    evict_if_needed-keeps order s p = ground (
      arith,
      evict_default-keeps order s p,
      evict_random-keeps false order s p,
      evict_random-keeps true order s p,
      evict_lru-keeps s p,
      evict_lfu-keeps s p,
    )
