-- ===== src/Store/Limit/Random.antt =====
-- `evictRandom` of pkg/store/store.go brings a store back within its limit.
use fast_and_accurate_store.Base.{
  ℕ, ◌≡◌, ◌≢◌, sym, ap, ◌∙◌, true, false, none, List, [], ◌∷◌, Bytes, ◌⊎◌, arith, is_pos64, subst,
  str_eq, str_eq_iff, Bool-cases, Option-cases, inl, inr,
}
use fast_and_accurate_store.Base.Table.{Table, lookup, lookup-insert}
use fast_and_accurate_store.Store.Types.{Item, all_keys_random}
use fast_and_accurate_store.Store.State.{Store, delete_key}
use fast_and_accurate_store.Store.State.Items.{lookup-delete_key, max_memory-delete_key}
use fast_and_accurate_store.Store.Evict.{fits, evict_random, evict_if_needed}
use fast_and_accurate_store.Store.Ops.{set_entry, set, new_item}
use fast_and_accurate_store.Store.Ops.Fields.{
  items-set_entry, max_memory-set_entry, policy-set_entry,
}
use fast_and_accurate_store.Store.Ops.Accounting.{
  IsAccounted, delete_key-IsAccounted, set_entry-IsAccounted,
}
use fast_and_accurate_store.Store.Limit.{empty-fits}

-- The key is one of the list.
abbrev pub In : Bytes → List Bytes → Type 0
In k [] = ⊥
In k (x ∷ xs) = (x ≡ k) ⊎ In k xs

-- A loop over the map in this order visits every key that the map holds.
abbrev pub Covers : List Bytes → Table Item → Type 0
Covers order items = (k : Bytes) → lookup k items ≢ none → In k order

Covers-delete_key :
    (key : Bytes) (order : List Bytes) (s : Store)
    → Covers (key ∷ order) s.items
    → Covers order (delete_key s key).items
Covers-delete_key key order s c k h = elim (Bool-cases (str_eq key k)) [
  | inl e ↦ absurd (h (ground (arith, lookup-delete_key s key k)))
  | inr e ↦ elim (c k (λ z. h (ground (arith, lookup-delete_key s key k)))) [
    | inl same ↦ absurd (ground (arith, str_eq_iff key k))
    | inr rest ↦ rest
  ]
]

Covers-absent :
    (key : Bytes) (order : List Bytes) (s : Store)
    → lookup key s.items ≡ none
    → Covers (key ∷ order) s.items
    → Covers order s.items
Covers-absent key order s e c k h = elim (c k h) [
  | inl same ↦ absurd (h (ap (λ x. lookup x s.items) (sym same) ∙ e))
  | inr rest ↦ rest
]

no_key : (s : Store) → Covers [] s.items → (k : Bytes) → lookup k s.items ≡ none
no_key s c k = elim (Option-cases (lookup k s.items)) [
  | inl e ↦ e
  | inr (item, e) ↦ absurd (c k (λ z. cc))
]

-- A loop over all keys stops within the limit.
evict_random-fits :
    (order : List Bytes) (s : Store)
    → IsAccounted s
    → is_pos64 s.max_memory ≡ true
    → Covers order s.items
    → fits (evict_random false order s) ≡ true
unfolding evict_random
evict_random-fits [] s a pos c = empty-fits s a pos (no_key s c)
evict_random-fits (key ∷ order) s a pos c = elim (Option-cases (lookup key s.items)) [
  | inl e ↦ ground (arith, evict_random-fits order s a pos (Covers-absent key order s e c))
  | inr (item, e) ↦
      let rest =
        evict_random-fits order (delete_key s key) (delete_key-IsAccounted s key a)
          (rw max_memory-delete_key pos) (Covers-delete_key key order s c) in
      ground (arith, rest)
]

evict-fits_random :
    (order : List Bytes) (s : Store)
    → IsAccounted s
    → s.eviction_policy ≡ all_keys_random
    → is_pos64 s.max_memory ≡ true
    → Covers order s.items
    → fits (evict_if_needed order s) ≡ true
unfolding evict_if_needed
evict-fits_random order s a policy pos c = ground (arith, evict_random-fits order s a pos c)

Covers-set_entry :
    (order : List Bytes) (s : Store) (key value : Bytes) (ttl now later : ℕ)
    → In key order
    → Covers order s.items
    → Covers order (set_entry s key value ttl now later).items
Covers-set_entry order s key value ttl now later i c k h = elim (Bool-cases (str_eq key k)) [
  | inl e ↦ subst (λ x. In x order) ((str_eq_iff key k).0 e) i
  | inr e ↦ c k (λ z. h (
      ground (
        arith,
        items-set_entry s key value ttl now later,
        lookup-insert key k (new_item s key value ttl now later) s.items,
      )))
]

-- After Set under `allkeys-random` with a positive limit, on a store whose accounting is in order,
-- the used memory is within the limit, whatever the order in which the loop visits the keys.
pub set-fits_random :
    (order : List Bytes) (s : Store) (key value : Bytes) (ttl now later : ℕ)
    → IsAccounted s
    → s.eviction_policy ≡ all_keys_random
    → is_pos64 s.max_memory ≡ true
    → In key order
    → Covers order s.items
    → fits (set order s key value ttl now later) ≡ true
set-fits_random order s key value ttl now later a policy pos i c =
    unfold set in
    evict-fits_random order (set_entry s key value ttl now later)
      (set_entry-IsAccounted s key value ttl now later a)
      (policy-set_entry s key value ttl now later ∙ policy) (rw max_memory-set_entry pos)
      (Covers-set_entry order s key value ttl now later i c)
