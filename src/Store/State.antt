-- ===== src/Store/State.antt =====
-- The `Store` of pkg/store/store.go and the functions on which its operations stand. Every operation
-- runs under the store's lock, so each is one step from a state to the next.
pub mod Items
use fast_and_accurate_store.Base.{
  ℕ, zero, suc, Bool, true, false, ◌&&◌, none, some, List, [], Bytes, lt64, add64, sub64, is_pos64,
  ◌==◌, if◌then◌else◌, length,
}
use fast_and_accurate_store.Base.Table.{Table, lookup, remove}
use fast_and_accurate_store.Heap
use fast_and_accurate_store.Store.Types.{type_string, EvictionPolicy, Item, LruEntry, LfuEntry}
use fast_and_accurate_store.Store.Fifo
use fast_and_accurate_store.Store.Fifo.{Fifo}

pub record Store : Type 0 where
  pub items : Table Item
  pub max_memory : ℕ
  pub used_memory : ℕ
  pub eviction_policy : EvictionPolicy
  pub fifo : Fifo
  pub evict_ttl_when_full : Bool
  pub expired_count : ℕ
  pub access_counter : ℕ
  pub lru_heap : List LruEntry
  pub lfu_heap : List LfuEntry

-- `New`
unfoldable pub init : ℕ → EvictionPolicy → Store
unfolding Fifo.init
init max_memory policy = record {
  items = [];
  max_memory = max_memory;
  used_memory = 0;
  eviction_policy = policy;
  fifo = Fifo.init;
  evict_ttl_when_full = true;
  expired_count = 0;
  access_counter = 0;
  lru_heap = [];
  lfu_heap = [];
}

-- `estimateItemSize`
unfoldable pub estimate_item_size : Bytes → Bytes → ℕ
unfolding add64
estimate_item_size key value = add64 (add64 (length key) (length value)) 100

-- `estimateSize`
unfoldable pub estimate_size : Bytes → Item → ℕ
unfolding add64
estimate_size key item =
    let size = add64 (length key) 100 in
    elim item.type [ type_string ↦ add64 size (length item.value) | _ ↦ size ]

-- `item.ExpiresAt > 0 && now > item.ExpiresAt`
unfoldable pub is_expired : ℕ → Item → Bool
is_expired now item = is_pos64 item.expires_at && lt64 item.expires_at now

-- `deleteKeyUnlocked`, and so `deleteKeyLocked`
unfoldable pub delete_key : Store → Bytes → Store
delete_key s key = elim (lookup key s.items) [
  | none ↦ s
  | some item ↦ record s {
    used_memory = sub64 s.used_memory item.size;
    fifo = if item.expires_at == 0 then Fifo.remove s.fifo key else s.fifo;
    items = remove key s.items;
  }
]

-- `Less` of `lruMinHeap`
unfoldable pub lru_less : LruEntry → LruEntry → Bool
lru_less a b = lt64 a.ts b.ts

-- `Less` of `lfuMinHeap`
unfoldable pub lfu_less : LfuEntry → LfuEntry → Bool
lfu_less a b = if a.freq == b.freq then lt64 a.ts b.ts else lt64 a.freq b.freq

-- The entries that `pushHeaps` pushes for an item.
abbrev pub lru_entry : Bytes → Item → LruEntry
lru_entry key item = record { key = key; ts = item.last_access; version = item.access_id }

abbrev pub lfu_entry : Bytes → Item → LfuEntry
lfu_entry key item = record {
  key = key;
  freq = item.freq;
  ts = item.last_access;
  version = item.access_id;
}

-- `pushHeaps`
unfoldable pub push_heaps : Store → Bytes → Item → Store
push_heaps s key item = record s {
  lru_heap = Heap.push lru_less (lru_entry key item) s.lru_heap;
  lfu_heap = Heap.push lfu_less (lfu_entry key item) s.lfu_heap;
}

-- `item, ok := s.data[entry.key]; ok && item.AccessID == entry.version`
unfoldable pub is_current : Table Item → Bytes → ℕ → Bool
is_current items key version = elim (lookup key items) [
  | none ↦ false
  | some item ↦ item.access_id == version
]

-- The loop that `popLRU` and `popLFU` share: entries are popped until one is current. Every round
-- takes one entry off, so as many rounds as there are entries are enough.
module _ {E : Type 0} (less : E → E → Bool) (key_of : E → Bytes) (version_of : E → ℕ) where
  unfoldable pub pop_current : Table Item → ℕ → List E → Bytes × List E
  pop_current items zero h = ([], h)
  pop_current items (suc rounds) h = elim (Heap.pop less h) [
    | none ↦ ([], h)
    | some (e, h') ↦
        let rest = pop_current items rounds h' in
        if is_current items (key_of e) (version_of e) then (key_of e, h') else rest
  ]

-- `popLRU`
unfoldable pub pop_lru : Store → Bytes × Store
pop_lru s =
    let (key, h) =
      pop_current lru_less (λ e. e.key) (λ e. e.version) s.items (length s.lru_heap) s.lru_heap in
    (key, record s { lru_heap = h })

-- `popLFU`
unfoldable pub pop_lfu : Store → Bytes × Store
pop_lfu s =
    let (key, h) =
      pop_current lfu_less (λ e. e.key) (λ e. e.version) s.items (length s.lfu_heap) s.lfu_heap in
    (key, record s { lfu_heap = h })
