-- ===== src/Store/Limit/Entries.antt =====
-- What the eviction loops of pkg/store/store.go rely on: every item has an entry in the heap.
use fast_and_accurate_store.Base.{
  ℕ, ◌≡◌, ◌≢◌, ap, ◌∙◌, true, none, some, List, [], Bytes, arith, is_pos64,
}
use fast_and_accurate_store.Base.Table.{Table, lookup}
use fast_and_accurate_store.Heap.Members.{Has}
use fast_and_accurate_store.Store.Types.{Item}
use fast_and_accurate_store.Store.State.{Store, is_current}
use fast_and_accurate_store.Store.Ops.Accounting.{IsAccounted}

module _ {E : Type 0} (key_of : E → Bytes) (version_of : E → ℕ) where
  -- The entry is the one that was pushed for the item that its key holds now.
  abbrev pub IsCurrent : Table Item → E → Type 0
  IsCurrent items e = is_current items (key_of e) (version_of e) ≡ true

  -- Every item has the entry in the heap that was pushed when it was last used.
  abbrev pub HasEntries : Table Item → List E → Type 0
  HasEntries items h =
      (k : Bytes) (item : Item)
      → lookup k items ≡ some item
      → (e : E) × Has e h × (key_of e ≡ k) × (version_of e ≡ item.access_id)

  pub IsCurrent-entry :
      (items : Table Item) (k : Bytes) (item : Item) (e : E)
      → lookup k items ≡ some item
      → key_of e ≡ k
      → version_of e ≡ item.access_id
      → IsCurrent items e
  unfolding is_current
  IsCurrent-entry items k item e l p q =
      let here : lookup (key_of e) items ≡ some item = ap (λ x. lookup x items) p ∙ l in
      ground arith

  pub current-present :
      (items : Table Item) (e : E) → IsCurrent items e → lookup (key_of e) items ≢ none
  unfolding is_current
  current-present items e c z = ground arith

  module _ (heap_of : Store → List E) where
    -- What the loop relies on.
    pub record IsReady (s : Store) : Type 0 where
      pub accounted : IsAccounted s
      pub limited : is_pos64 s.max_memory ≡ true
      pub no_empty_key : lookup [] s.items ≡ none
      pub entries : HasEntries s.items (heap_of s)
