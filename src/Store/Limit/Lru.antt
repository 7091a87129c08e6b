-- ===== src/Store/Limit/Lru.antt =====
-- `allkeys-lru` of pkg/store/store.go: after any operations every Set ends within the limit.
use fast_and_accurate_store.Base.{
  ℕ, ◌+◌, ◌≡◌, ◌≢◌, refl, ap, ◌∙◌, Bool, true, false, none, some, List, [], ◌∷◌, Bytes, arith,
  is_pos64, str_eq, str_eq_iff, Bool-cases, inl, inr, if◌then◌else◌, length,
}
use fast_and_accurate_store.Base.Table.{Table, lookup, insert, lookup-insert}
use fast_and_accurate_store.Heap
use fast_and_accurate_store.Heap.Members.{push-Has}
use fast_and_accurate_store.Store.Types.{Item, LruEntry, all_keys_lru}
use fast_and_accurate_store.Store.State.{
  Store, init, delete_key, pop_lru, lru_less, push_heaps, lru_entry,
}
use fast_and_accurate_store.Store.State.Items.{
  lookup-delete_key, max_memory-delete_key, lru_heap-delete_key, policy-delete_key,
}
use fast_and_accurate_store.Store.Evict.{fits, evict_lru, evict_if_needed}
use fast_and_accurate_store.Store.Evict.Keeps.{evict_if_needed-keeps}
use fast_and_accurate_store.Store.Ops.{
  touch, set, set_entry, store_item, forget_old, new_item, delete,
}
use fast_and_accurate_store.Store.Ops.Fields.{
  items-set_entry, max_memory-set_entry, policy-set_entry,
}
use fast_and_accurate_store.Store.Ops.Keeps.{
  Op, set_op, get_op, delete_op, expire_op, apply, run, get_unlocked-keeps, active_expire-keeps,
}
use fast_and_accurate_store.Store.Ops.Accounting.{
  init-IsAccounted, delete_key-IsAccounted, IsAccounted-like, set_entry-IsAccounted,
  touch-IsAccounted,
}
use fast_and_accurate_store.Store.Limit.Entries.{HasEntries, IsReady}
use fast_and_accurate_store.Store.Limit.Recency.{
  Outcome, pop_current-Outcome, evict_by-fits, evict_by-IsReady,
}

abbrev key_of : LruEntry → Bytes
key_of e = e.key

abbrev version_of : LruEntry → ℕ
version_of e = e.version

abbrev access : Item → ℕ
access item = item.access_id

abbrev heap_of : Store → List LruEntry
heap_of s = s.lru_heap

abbrev pub IsLruReady : Store → Type 0
IsLruReady s = IsReady key_of version_of heap_of s

pop_lru-Outcome :
    (s : Store)
    → Outcome lru_less key_of version_of s.items s.lru_heap ((pop_lru s).0, (pop_lru s).1.lru_heap)
unfolding pop_lru
pop_lru-Outcome s =
    pop_current-Outcome lru_less key_of version_of s.items (length s.lru_heap) s.lru_heap
      (omega arith)

module _ (s : Store) where
  items-pop_lru : (pop_lru s).1.items ≡ s.items
  unfolding pop_lru
  items-pop_lru = refl

  used-pop_lru : (pop_lru s).1.used_memory ≡ s.used_memory
  unfolding pop_lru
  used-pop_lru = refl

  max_memory-pop_lru : (pop_lru s).1.max_memory ≡ s.max_memory
  unfolding pop_lru
  max_memory-pop_lru = refl

module _ (s : Store) where
  evict_lru-fits : IsLruReady s → fits (evict_lru s) ≡ true
  unfolding evict_lru
  evict_lru-fits r =
      evict_by-fits lru_less key_of version_of heap_of pop_lru pop_lru-Outcome items-pop_lru
        used-pop_lru max_memory-pop_lru lru_heap-delete_key (length s.lru_heap + 1) s (omega arith)
        r

  evict_lru-IsLruReady : IsLruReady s → IsLruReady (evict_lru s)
  unfolding evict_lru
  evict_lru-IsLruReady r =
      evict_by-IsReady lru_less key_of version_of heap_of pop_lru pop_lru-Outcome items-pop_lru
        used-pop_lru max_memory-pop_lru lru_heap-delete_key (length s.lru_heap + 1) s r

-- The item at which a new entry points is the item of its key.
entries-insert :
    (items : Table Item) (h : List LruEntry) (key : Bytes) (item : Item)
    → HasEntries key_of version_of items h
    → HasEntries key_of version_of
        (insert key item items)
        (Heap.push lru_less (lru_entry key item) h)
entries-insert items h key item all k item' at_k = elim (Bool-cases (str_eq key k)) [
  | inl same ↦ (
    lru_entry key item,
    (push-Has lru_less (lru_entry key item) h).0,
    (str_eq_iff key k).0 same,
    (let eq : item ≡ item' = ground (arith, lookup-insert key k item items) in ap access eq),
  )
  | inr other ↦
      let (e, m, p, q) = all k item' (ground (arith, lookup-insert key k item items)) in
      (e, (push-Has lru_less (lru_entry key item) h).1 e m, p, q)
]

lru_heap-set_entry :
    (s : Store) (key value : Bytes) (ttl now later : ℕ)
    → (set_entry s key value ttl now later).lru_heap
      ≡ Heap.push lru_less (lru_entry key (new_item s key value ttl now later)) s.lru_heap
unfolding set_entry store_item push_heaps forget_old
lru_heap-set_entry s key value ttl now later = ground arith

no_empty-insert :
    (items : Table Item) (key : Bytes) (item : Item)
    → key ≢ []
    → lookup [] items ≡ none
    → lookup [] (insert key item items) ≡ none
no_empty-insert items key item ne h =
    ground (arith, lookup-insert key [] item items, str_eq_iff key [])

set_entry-IsLruReady :
    (s : Store) (key value : Bytes) (ttl now later : ℕ)
    → key ≢ []
    → IsLruReady s
    → IsLruReady (set_entry s key value ttl now later)
set_entry-IsLruReady s key value ttl now later ne r =
    let item = new_item s key value ttl now later in
    record {
      accounted = set_entry-IsAccounted s key value ttl now later r.accounted;
      limited = rw max_memory-set_entry r.limited;
      no_empty_key = rw items-set_entry (no_empty-insert s.items key item ne r.no_empty_key);
      entries =
          rw (items-set_entry, lru_heap-set_entry)
            (entries-insert s.items s.lru_heap key item r.entries);
    }

touch-IsLruReady :
    (s : Store) (key : Bytes) (item : Item) (now : ℕ)
    → lookup key s.items ≡ some item
    → IsLruReady s
    → IsLruReady (touch s key item now)
touch-IsLruReady s key item now e r =
    let ne : key ≢ [] = λ z. cc (ap (λ k. lookup k s.items) z, r.no_empty_key) in
    record {
      accounted = touch-IsAccounted s key item now e r.accounted;
      limited = unfold touch push_heaps in r.limited;
      no_empty_key = unfold touch push_heaps in no_empty-insert s.items key _ ne r.no_empty_key;
      entries = unfold touch push_heaps in entries-insert s.items s.lru_heap key _ r.entries;
    }

delete_key-IsLruReady : (s : Store) (key : Bytes) → IsLruReady s → IsLruReady (delete_key s key)
delete_key-IsLruReady s key r = record {
  accounted = delete_key-IsAccounted s key r.accounted;
  limited = rw max_memory-delete_key r.limited;
  no_empty_key = ground (arith, lookup-delete_key s key [], r.no_empty_key);
  entries = λ k item at_k.
      rw lru_heap-delete_key (r.entries k item (ground (arith, lookup-delete_key s key k)));
}

if-keeps {ℓ} : (P : Store → Type ℓ) (b : Bool) (x y : Store) → P x → P y → P (if b then x else y)
if-keeps P true x y p q = p
if-keeps P false x y p q = q

-- A store under `allkeys-lru` that is ready.
pub record IsLru (s : Store) : Type 0 where
  pub ready : IsLruReady s
  pub policy : s.eviction_policy ≡ all_keys_lru

evict-policy :
    (order : List Bytes) (s : Store)
    → s.eviction_policy ≡ all_keys_lru
    → (evict_if_needed order s).eviction_policy ≡ all_keys_lru
evict-policy =
    evict_if_needed-keeps (λ s. s.eviction_policy ≡ all_keys_lru)
      (λ s key p. policy-delete_key s key ∙ p) (λ s f p. p) (λ s h p. p) (λ s h p. p)

evict-lru :
    (order : List Bytes) (s : Store)
    → is_pos64 s.max_memory ≡ true
    → s.eviction_policy ≡ all_keys_lru
    → evict_if_needed order s ≡ (if fits s then s else evict_lru s)
unfolding evict_if_needed
evict-lru order s pos p = ground arith

evict-IsLru : (order : List Bytes) (s : Store) → IsLru s → IsLru (evict_if_needed order s)
evict-IsLru order s l = record {
  ready =
      rw (evict-lru order s l.ready.limited l.policy)
        (if-keeps IsLruReady (fits s) s (evict_lru s) l.ready (evict_lru-IsLruReady s l.ready));
  policy = evict-policy order s l.policy;
}

evict-fits_lru : (order : List Bytes) (s : Store) → IsLru s → fits (evict_if_needed order s) ≡ true
evict-fits_lru order s l = elim (Bool-cases (fits s)) [
  | inl e ↦ rw (evict-lru order s l.ready.limited l.policy, e) e
  | inr e ↦ rw (evict-lru order s l.ready.limited l.policy, e) (evict_lru-fits s l.ready)
]

set_entry-IsLru :
    (s : Store) (key value : Bytes) (ttl now later : ℕ)
    → key ≢ []
    → IsLru s
    → IsLru (set_entry s key value ttl now later)
set_entry-IsLru s key value ttl now later ne l = record {
  ready = set_entry-IsLruReady s key value ttl now later ne l.ready;
  policy = policy-set_entry s key value ttl now later ∙ l.policy;
}

delete_key-IsLru : (s : Store) (key : Bytes) → IsLru s → IsLru (delete_key s key)
delete_key-IsLru s key l = record {
  ready = delete_key-IsLruReady s key l.ready;
  policy = policy-delete_key s key ∙ l.policy;
}

count-IsLru : (s : Store) (n : ℕ) → IsLru s → IsLru (record s { expired_count = n })
count-IsLru s n l = record {
  ready = record {
    accounted = IsAccounted-like refl refl l.ready.accounted;
    limited = l.ready.limited;
    no_empty_key = l.ready.no_empty_key;
    entries = l.ready.entries;
  };
  policy = l.policy;
}

touch-IsLru :
    (s : Store) (key : Bytes) (item : Item) (now : ℕ)
    → lookup key s.items ≡ some item
    → IsLru s
    → IsLru (touch s key item now)
touch-IsLru s key item now e l = record {
  ready = touch-IsLruReady s key item now e l.ready;
  policy = unfold touch push_heaps in l.policy;
}

-- No Set of the sequence is of the empty key.
abbrev pub KeysNonempty : List Op → Type 0
KeysNonempty [] = Unit
KeysNonempty (set_op order key value ttl now later ∷ ops) = (key ≢ []) × KeysNonempty ops
KeysNonempty (get_op key now ∷ ops) = KeysNonempty ops
KeysNonempty (delete_op key ∷ ops) = KeysNonempty ops
KeysNonempty (expire_op order again now ∷ ops) = KeysNonempty ops

run-IsLru : (ops : List Op) (s : Store) → KeysNonempty ops → IsLru s → IsLru (run ops s)
unfolding run apply set delete
run-IsLru [] s ne l = l
run-IsLru (set_op order key value ttl now later ∷ ops) s ne l =
    run-IsLru ops (evict_if_needed order (set_entry s key value ttl now later)) ne.1 (
      evict-IsLru order (set_entry s key value ttl now later)
        (set_entry-IsLru s key value ttl now later ne.0 l))
run-IsLru (get_op key now ∷ ops) s ne l =
    run-IsLru ops _ ne
      (get_unlocked-keeps IsLru delete_key-IsLru count-IsLru touch-IsLru s key now l)
run-IsLru (delete_op key ∷ ops) s ne l =
    run-IsLru ops (delete_key s key) ne (delete_key-IsLru s key l)
run-IsLru (expire_op order again now ∷ ops) s ne l =
    run-IsLru ops _ ne
      (active_expire-keeps IsLru delete_key-IsLru count-IsLru touch-IsLru order again s now l)

init-IsLru : (max_memory : ℕ) → is_pos64 max_memory ≡ true → IsLru (init max_memory all_keys_lru)
init-IsLru max_memory pos = record {
  ready = record {
    accounted = init-IsAccounted max_memory all_keys_lru;
    limited = unfold init in pos;
    no_empty_key = unfold init lookup in refl;
    entries = λ k item e. unfold init lookup in absurd (cc e);
  };
  policy = unfold init in refl;
}

-- On a new store under `allkeys-lru` with a positive limit, after any sequence of Set, Get, Delete
-- and expiry rounds in which no Set is of the empty key, a Set of a non-empty key leaves the used
-- memory within the limit.
pub lru-run-fits :
    (ops : List Op) (order : List Bytes) (max_memory : ℕ) (key value : Bytes) (ttl now later : ℕ)
    → is_pos64 max_memory ≡ true
    → KeysNonempty ops
    → key ≢ []
    → fits (set order (run ops (init max_memory all_keys_lru)) key value ttl now later) ≡ true
lru-run-fits ops order max_memory key value ttl now later pos ne k =
    unfold set in
    evict-fits_lru order _ (
      set_entry-IsLru _ key value ttl now later k
        (run-IsLru ops (init max_memory all_keys_lru) ne (init-IsLru max_memory pos)))
