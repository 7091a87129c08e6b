-- ===== src/Store/Ops/Accounting.antt =====
-- The memory accounting of pkg/store/store.go: `usedMemory` is the sum of the sizes of the items.
use fast_and_accurate_store.Base.{
  ℕ, ◌%◌, ◌^◌, ◌≡◌, refl, sym, ap, ◌∙◌, some, List, Bytes, arith, add64, sub64, inl, inr,
  Option-cases,
}
use fast_and_accurate_store.Base.Table.{
  Table, lookup, insert, remove, Distinct, Distinct-remove, Distinct-insert, All, All-remove,
  All-insert, All-lookup, sum, sum-remove, remove_absent,
}
use fast_and_accurate_store.Store.Types.{Item, EvictionPolicy}
use fast_and_accurate_store.Store.State.{Store, init, estimate_item_size, delete_key, push_heaps}
use fast_and_accurate_store.Store.State.Items.{items-delete_key}
use fast_and_accurate_store.Store.Evict.{evict_if_needed}
use fast_and_accurate_store.Store.Evict.Keeps.{evict_if_needed-keeps}
use fast_and_accurate_store.Store.Ops.Fields.{used_without, items-set_entry, used-set_entry}
use fast_and_accurate_store.Store.Ops.Keeps.{Op, run, run-keeps}
use fast_and_accurate_store.Store.Ops.{touch, new_item, set_entry, set}

-- The sum of the sizes of the items.
abbrev pub total : Table Item → ℕ
total items = sum (λ item. item.size) items

-- An item's size is what `estimateItemSize` says of its key and value.
abbrev pub IsSized : Bytes → Item → Type 0
IsSized key item = item.size ≡ estimate_item_size key item.value

pub record IsAccounted (s : Store) : Type 0 where
  pub distinct : Distinct s.items
  pub sized : All IsSized s.items
  pub used : s.used_memory ≡ total s.items % 2 ^ 64

pub init-IsAccounted :
    (max_memory : ℕ) (policy : EvictionPolicy) → IsAccounted (init max_memory policy)
unfolding init sum
init-IsAccounted max_memory policy = record { distinct = tt; sized = tt; used = refl }

-- Taking a key's size off the total of a table.
used_without-total :
    (key : Bytes) (items : Table Item)
    → Distinct items
    → used_without (total items % 2 ^ 64) (lookup key items) ≡ total (remove key items) % 2 ^ 64
unfolding used_without
used_without-total key items d = elim (Option-cases (lookup key items)) [
  | inl e ↦ rw (e, remove_absent key items e)
  | inr (item, e) ↦
      rw e (unfold sub64 in omega (arith, sum-remove (λ (i : Item). i.size) key item items d e))
]

used-delete_key :
    (s : Store) (key : Bytes)
    → (delete_key s key).used_memory ≡ used_without s.used_memory (lookup key s.items)
unfolding delete_key used_without
used-delete_key s key = ground arith

pub delete_key-IsAccounted :
    (s : Store) (key : Bytes) → IsAccounted s → IsAccounted (delete_key s key)
delete_key-IsAccounted s key a = record {
  distinct = rw items-delete_key (Distinct-remove key s.items a.distinct);
  sized = rw items-delete_key (All-remove IsSized key s.items a.sized);
  used = rw (items-delete_key, used-delete_key, a.used) (used_without-total key s.items a.distinct);
}

-- The accounting does not depend on the other fields.
pub IsAccounted-like :
    {s t : Store}
    → t.items ≡ s.items
    → t.used_memory ≡ s.used_memory
    → IsAccounted s
    → IsAccounted t
IsAccounted-like {s} {t} p q a = record {
  distinct = rw p a.distinct;
  sized = rw p a.sized;
  used = q ∙ a.used ∙ ap (λ items. total items % 2 ^ 64) (sym p);
}

evict-IsAccounted :
    (order : List Bytes) (s : Store) → IsAccounted s → IsAccounted (evict_if_needed order s)
evict-IsAccounted =
    evict_if_needed-keeps IsAccounted delete_key-IsAccounted (λ s f a. IsAccounted-like refl refl a)
      (λ s h a. IsAccounted-like refl refl a) (λ s h a. IsAccounted-like refl refl a)

total-insert :
    (key : Bytes) (item : Item) (items : Table Item)
    → add64 (total (remove key items) % 2 ^ 64) item.size ≡ total (insert key item items) % 2 ^ 64
unfolding add64 insert sum
total-insert key item items = omega arith

-- An item written over the old one of its key.
insert-IsAccounted :
    {s t : Store} (key : Bytes) (item : Item)
    → IsSized key item
    → t.items ≡ insert key item s.items
    → t.used_memory ≡ add64 (used_without s.used_memory (lookup key s.items)) item.size
    → IsAccounted s
    → IsAccounted t
insert-IsAccounted {s} {t} key item sz p q a = record {
  distinct = rw p (Distinct-insert key item s.items a.distinct);
  sized = rw p (All-insert IsSized key item s.items sz a.sized);
  used =
      q
      ∙ ap (λ u. add64 (used_without u (lookup key s.items)) item.size) a.used
      ∙ ap (λ u. add64 u item.size) (used_without-total key s.items a.distinct)
      ∙ total-insert key item s.items
      ∙ ap (λ items. total items % 2 ^ 64) (sym p);
}

pub set_entry-IsAccounted :
    (s : Store) (key value : Bytes) (ttl now later : ℕ)
    → IsAccounted s
    → IsAccounted (set_entry s key value ttl now later)
set_entry-IsAccounted s key value ttl now later a =
    insert-IsAccounted key (new_item s key value ttl now later) (unfold new_item in refl)
      (items-set_entry s key value ttl now later) (used-set_entry s key value ttl now later) a

-- `Set` keeps the accounting, whatever it evicts.
pub set-IsAccounted :
    (order : List Bytes) (s : Store) (key value : Bytes) (ttl now later : ℕ)
    → IsAccounted s
    → IsAccounted (set order s key value ttl now later)
unfolding set
set-IsAccounted order s key value ttl now later a =
    evict-IsAccounted order _ (set_entry-IsAccounted s key value ttl now later a)

-- A read replaces the item by one of the same size.
pub touch-IsAccounted :
    (s : Store) (key : Bytes) (item : Item) (now : ℕ)
    → lookup key s.items ≡ some item
    → IsAccounted s
    → IsAccounted (touch s key item now)
unfolding touch push_heaps
touch-IsAccounted s key item now e a = record {
  distinct = Distinct-insert key _ s.items a.distinct;
  sized = All-insert IsSized key _ s.items (All-lookup IsSized key item s.items a.sized e) a.sized;
  used =
      a.used
      ∙ ap (λ n. n % 2 ^ 64)
          (unfold insert sum in
            sym (sum-remove (λ (i : Item). i.size) key item s.items a.distinct e));
}

-- Any sequence of Set, Get, Delete and expiry rounds, on a new store of any limit and policy,
-- whatever it evicts or expires and in whatever order the map is visited, leaves `usedMemory` equal
-- to the sum of the sizes of the items (as an `int64`), each item's size equal to
-- `estimateItemSize` of its key and value, and one item for each key.
pub run-IsAccounted :
    (ops : List Op) (max_memory : ℕ) (policy : EvictionPolicy)
    → IsAccounted (run ops (init max_memory policy))
run-IsAccounted ops max_memory policy =
    run-keeps IsAccounted delete_key-IsAccounted (λ s n a. IsAccounted-like refl refl a)
      touch-IsAccounted set-IsAccounted ops (init max_memory policy)
      (init-IsAccounted max_memory policy)
