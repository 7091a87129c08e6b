-- ===== src/Store/Ops.antt =====
-- The operations of `Store` in pkg/store/store.go. What the code reads from the clock, and the order
-- in which a loop ranges over the map, are arguments.
pub mod Fields
pub mod Keeps
pub mod Accounting
use fast_and_accurate_store.Base.{
  ℕ, ◌+◌, ◌-◌, ◌/◌, Bool, ◌&&◌, none, some, List, [], ◌∷◌, Bytes, lt64, is_pos64, add64, sub64, ltb,
  ◌==◌, if◌then◌else◌, length,
}
use fast_and_accurate_store.Base.Table.{Table, lookup, insert}
use fast_and_accurate_store.Store.Types.{
  type_string, Item, Stats, SnapshotEntry, GetResult, found, err_not_found, err_wrong_type,
}
use fast_and_accurate_store.Store.Fifo
use fast_and_accurate_store.Store.State.{
  Store, estimate_item_size, is_expired, delete_key, push_heaps,
}
use fast_and_accurate_store.Store.Evict.{evict_if_needed}

-- `nextAccessID`: the counter after it, which is also what it returns.
unfoldable pub next_access_id : Store → ℕ
unfolding add64
next_access_id s = add64 s.access_counter 1

-- What follows the checks of a read of `key` that holds `item`.
unfoldable pub touch : Store → Bytes → Item → ℕ → Store
unfolding next_access_id push_heaps add64
touch s key item now =
    let item' = record item {
      last_access = now;
      access_id = next_access_id s;
      freq = add64 item.freq 1;
    } in
    push_heaps (record s { access_counter = next_access_id s; items = insert key item' s.items })
      key item'

-- `getUnlockedWithNow`
unfoldable pub get_unlocked : Store → Bytes → ℕ → GetResult × Store
unfolding touch is_expired add64
get_unlocked s key now = elim (lookup key s.items) [
  | none ↦ (err_not_found, s)
  | some item ↦
      if is_expired now item
      then (err_not_found, record (delete_key s key) { expired_count = add64 s.expired_count 1 })
      else elim item.type [
        | type_string ↦ (found item.value, touch s key item now)
        | _ ↦ (err_wrong_type, s)
      ]
]

-- `getWithNow`: a look under the read lock, and the rest under the write lock. Between the two the
-- store may have changed, by `others`.
unfoldable pub get_with_now : (Store → Store) → Store → Bytes → ℕ → GetResult × Store
unfolding get_unlocked
get_with_now others s key now = elim (lookup key s.items) [
  | none ↦ (err_not_found, s)
  | some _ ↦ get_unlocked (others s) key now
]

-- The item that `setUnlocked` builds. `now` and `later` are its two readings of the clock.
unfoldable pub new_item : Store → Bytes → Bytes → ℕ → ℕ → ℕ → Item
unfolding next_access_id estimate_item_size add64
new_item s key value ttl now later = record {
  value = value;
  type = type_string;
  expires_at = if is_pos64 ttl then add64 later ttl else 0;
  size = estimate_item_size key value;
  freq = 1;
  last_access = now;
  access_id = next_access_id s;
}

-- `Remove existing entry accounting`
unfoldable pub forget_old : Store → Bytes → Store
forget_old s key = elim (lookup key s.items) [
  | none ↦ s
  | some old ↦ record s {
    used_memory = sub64 s.used_memory old.size;
    fifo = if old.expires_at == 0 then Fifo.remove s.fifo key else s.fifo;
  }
]

-- The part of `setUnlocked` from the insertion to the heaps.
unfoldable pub store_item : Store → Bytes → Item → ℕ → Store
unfolding add64 push_heaps
store_item s key item ttl =
    push_heaps
      (record s {
        items = insert key item s.items;
        used_memory = add64 s.used_memory item.size;
        fifo = if ttl == 0 then Fifo.add s.fifo key else Fifo.remove s.fifo key;
      })
      key item

-- `setUnlocked` before `evictIfNeeded`
unfoldable pub set_entry : Store → Bytes → Bytes → ℕ → ℕ → ℕ → Store
unfolding new_item store_item forget_old next_access_id
set_entry s key value ttl now later =
    store_item (forget_old (record s { access_counter = next_access_id s }) key) key
      (new_item s key value ttl now later) ttl

-- `setUnlocked`, and so `Set` and `UnsafeSet`
unfoldable pub set : List Bytes → Store → Bytes → Bytes → ℕ → ℕ → ℕ → Store
unfolding set_entry evict_if_needed
set order s key value ttl now later = evict_if_needed order (set_entry s key value ttl now later)

-- `Delete`
unfoldable pub delete : Store → Bytes → Store
unfolding delete_key
delete s key = delete_key s key

-- `Stats`
unfoldable pub count_ttl : Table Item → ℕ
count_ttl [] = 0
count_ttl ((key, item) ∷ items) = (if is_pos64 item.expires_at then 1 else 0) + count_ttl items

unfoldable pub stats : Store → Stats
unfolding count_ttl
stats s = record {
  keys = length s.items;
  ttl_keys = count_ttl s.items;
  memory_used = s.used_memory;
  max_memory = s.max_memory;
  eviction_policy = s.eviction_policy;
  expired = s.expired_count;
}

-- The snapshot entry of a live item.
abbrev pub entry_of : Bytes → Item → SnapshotEntry
entry_of key item = record {
  key = key;
  value = item.value;
  type = item.type;
  expires_at = item.expires_at;
}

-- `SnapshotEntries`
unfoldable pub snapshot_entries : List Bytes → Store → ℕ → List SnapshotEntry
unfolding is_expired
snapshot_entries [] s now = []
snapshot_entries (key ∷ order) s now =
    let rest = snapshot_entries order s now in
    elim (lookup key s.items) [
      | none ↦ rest
      | some item ↦ if is_expired now item then rest else entry_of key item ∷ rest
    ]

-- `e.ExpiresAt > 0 && now > e.ExpiresAt`
unfoldable pub is_stale : ℕ → SnapshotEntry → Bool
is_stale now e = is_pos64 e.expires_at && lt64 e.expires_at now

-- One round of the loop of `RestoreSnapshot`.
unfoldable pub restore_entry : Store → SnapshotEntry → ℕ → Store
unfolding next_access_id estimate_item_size push_heaps add64
restore_entry s e now =
    let item : Item = record {
      value = e.value;
      type = e.type;
      expires_at = e.expires_at;
      size = estimate_item_size e.key e.value;
      freq = 1;
      last_access = now;
      access_id = next_access_id s;
    } in
    push_heaps
      (record s {
        access_counter = next_access_id s;
        items = insert e.key item s.items;
        used_memory = add64 s.used_memory item.size;
        fifo = if e.expires_at == 0 then Fifo.add s.fifo e.key else s.fifo;
      })
      e.key item

unfoldable pub restore_entries : List SnapshotEntry → Store → ℕ → Store
unfolding restore_entry is_stale
restore_entries [] s now = s
restore_entries (e ∷ es) s now =
    restore_entries es (if is_stale now e then s else restore_entry s e now) now

-- `RestoreSnapshot`. The heaps and the FIFO's slice are not cleared.
unfoldable pub restore_snapshot : List SnapshotEntry → Store → ℕ → Store
unfolding restore_entries
restore_snapshot entries s now =
    restore_entries entries
      (record s {
        items = [];
        used_memory = 0;
        fifo = record (s.fifo) { head = 0; tail = 0; size = 0; tombs = 0 };
      })
      now

-- The sampling loop of `activeExpire`, with the rounds left and the number of keys expired so far.
unfoldable pub expire_sample : ℕ → List Bytes → Store → ℕ → ℕ → Store × ℕ
unfolding is_expired add64
expire_sample left [] s now expired = (s, expired)
expire_sample left (key ∷ order) s now expired = elim (lookup key s.items) [
  | none ↦ expire_sample left order s now expired
  | some item ↦
      let gone = is_expired now item in
      let rest =
        expire_sample (left - 1) order
          (if gone
            then record (delete_key s key) { expired_count = add64 s.expired_count 1 }
            else s)
          now (if gone then expired + 1 else expired) in
      if left == 0 then (s, expired) else rest
]

-- The extra pass of `activeExpire`.
unfoldable pub expire_all : List Bytes → Store → ℕ → Store
unfolding is_expired
expire_all [] s now = s
expire_all (key ∷ order) s now = elim (lookup key s.items) [
  | none ↦ expire_all order s now
  | some item ↦ expire_all order (if is_expired now item then delete_key s key else s) now
]

abbrev pub sample_size : ℕ
sample_size = 20

-- `activeExpire`, with the order of each of its two loops. On an empty map both do nothing.
unfoldable pub active_expire : List Bytes → List Bytes → Store → ℕ → Store
unfolding expire_sample expire_all
active_expire order again s now =
    let (s', expired) = expire_sample sample_size order s now 0 in
    if length s.items == 0
    then s
    else if ltb (sample_size / 2) expired
    then expire_all again s' now
    else s'
