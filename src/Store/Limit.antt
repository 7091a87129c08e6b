-- ===== src/Store/Limit.antt =====
-- The memory limit of pkg/store/store.go: what the proofs about each eviction policy share.
pub mod Random
pub mod Entries
pub mod Recency
pub mod Lru
use fast_and_accurate_store.Base.{
  ℕ, ◌%◌, ◌^◌, ◌≡◌, ◌≢◌, refl, sym, ap, ◌∙◌, true, false, not, ◌||◌, none, some, List, [], ◌∷◌,
  Bytes, ◌⊎◌, arith, le64, is_pos64, str_eq, str_eq_refl, Bool-cases, Option-cases, inl, inr,
}
use fast_and_accurate_store.Base.Table.{Table, lookup, sum}
use fast_and_accurate_store.Store.Types.{Item}
use fast_and_accurate_store.Store.State.{Store, delete_key}
use fast_and_accurate_store.Store.Evict.{fits}
use fast_and_accurate_store.Store.Ops.Accounting.{IsAccounted, total}

-- A map with no key has no item.
pub no_items : (items : Table Item) → ((k : Bytes) → lookup k items ≡ none) → items ≡ []
unfolding lookup
no_items [] h = refl
no_items ((k, item) ∷ items) h = absurd (ground (arith, h k, str_eq_refl k))

-- An empty store is within any positive limit.
pub empty-fits :
    (s : Store)
    → IsAccounted s
    → is_pos64 s.max_memory ≡ true
    → ((k : Bytes) → lookup k s.items ≡ none)
    → fits s ≡ true
empty-fits s a pos h =
    let nothing : s.used_memory ≡ 0 =
      a.used ∙ ap (λ items. total items % 2 ^ 64) (no_items s.items h) ∙ (unfold sum in refl) in
    rw nothing (ground arith)
