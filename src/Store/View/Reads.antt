-- ===== src/Store/View/Reads.antt =====
-- Reads of pkg/store/store.go: what Set and Delete do to the next reply.
use fast_and_accurate_store.Base.{
  ℕ, ◌+◌, ◌<◌, ◌^◌, ◌≡◌, refl, sym, ap, ◌∙◌, true, not, ◌&&◌, ◌||◌, ◌⊎◌, inl, inr, none, some, List,
  Bytes, arith, add64, ltb, is_pos64, str_eq, str_eq_refl, if◌then◌else◌, Bool-cases,
}
use fast_and_accurate_store.Base.Table.{lookup}
use fast_and_accurate_store.Store.Types.{found, err_not_found}
use fast_and_accurate_store.Store.State.{Store, is_expired, delete_key}
use fast_and_accurate_store.Store.State.Items.{lookup-delete_key}
use fast_and_accurate_store.Store.Evict.{fits, evict_if_needed}
use fast_and_accurate_store.Store.Evict.Keeps.{evict_if_needed-keeps}
use fast_and_accurate_store.Store.Ops.{set, set_entry, new_item, delete}
use fast_and_accurate_store.Store.Ops.Fields.{max_memory-set_entry, lookup-set_entry}
use fast_and_accurate_store.Store.View.{reply, reply_of, reply-lookup}

-- A time or duration that is not negative.
abbrev pub IsTime : ℕ → Type 0
IsTime t = t < 2 ^ 63

-- The reply for a key that was just written.
reply-new_item :
    (s : Store) (key value : Bytes) (ttl now later t : ℕ)
    → IsTime t
    → IsTime ttl
    → IsTime (later + ttl)
    → reply_of t (some (new_item s key value ttl now later))
      ≡ (if ltb 0 ttl && ltb (later + ttl) t then err_not_found else found value)
unfolding new_item is_expired add64
reply-new_item s key value ttl now later t ht hd hl = ground arith

evict_nothing :
    (order : List Bytes) (s : Store) (m : ℕ)
    → s.max_memory ≡ m
    → not (is_pos64 m) || fits s ≡ true
    → evict_if_needed order s ≡ s
unfolding evict_if_needed
evict_nothing order s m e h = ground arith

-- Where nothing has to be evicted, what Set wrote is read back until its TTL is over, and not after:
-- a Get at time `t` finds the value unless the TTL is positive and `t` is past its end.
pub get-set_self :
    (order : List Bytes) (s : Store) (key value : Bytes) (ttl now later t : ℕ)
    → IsTime t
    → IsTime ttl
    → IsTime (later + ttl)
    → not (is_pos64 s.max_memory) || fits (set_entry s key value ttl now later) ≡ true
    → reply (set order s key value ttl now later) key t
      ≡ (if ltb 0 ttl && ltb (later + ttl) t then err_not_found else found value)
get-set_self order s key value ttl now later t ht hd hl room =
    let t' = set_entry s key value ttl now later in
    let kept : set order s key value ttl now later ≡ t' =
      unfold set in
      evict_nothing order t' s.max_memory (max_memory-set_entry s key value ttl now later) room in
    rw (kept, reply-lookup, lookup-set_entry, str_eq_refl)
      (reply-new_item s key value ttl now later t ht hd hl)

-- Eviction only takes keys away.
evict_only_removes :
    (order : List Bytes) (s : Store) (k : Bytes)
    → (lookup k (evict_if_needed order s).items ≡ none)
      ⊎ (lookup k (evict_if_needed order s).items ≡ lookup k s.items)
evict_only_removes order s k =
    evict_if_needed-keeps (λ t. (lookup k t.items ≡ none) ⊎ (lookup k t.items ≡ lookup k s.items))
      (λ t key h. ground (arith, lookup-delete_key t key k, h)) (λ t f h. h) (λ t h' h. h)
      (λ t h' h. h) order s (inr refl)

set_only_removes :
    (order : List Bytes) (s : Store) (key value : Bytes) (ttl now later : ℕ) (j : Bytes)
    → (lookup j (set order s key value ttl now later).items ≡ none)
      ⊎ (lookup j (set order s key value ttl now later).items
          ≡ lookup j (set_entry s key value ttl now later).items)
unfolding set
set_only_removes order s key value ttl now later j =
    evict_only_removes order (set_entry s key value ttl now later) j

reply_of-if :
    (s : Store) (key value : Bytes) (ttl now later t : ℕ) (j : Bytes)
    → reply_of t
        (if str_eq key j then some (new_item s key value ttl now later) else lookup j s.items)
      ≡ (if str_eq key j
          then reply_of t (some (new_item s key value ttl now later))
          else reply s j t)
reply_of-if s key value ttl now later t j = elim (Bool-cases (str_eq key j)) [
  | inl e ↦ rw e
  | inr e ↦ rw e (sym (reply-lookup s j t))
]

-- Under every policy, a Get after a Set finds nothing, or it finds what the store held or what was
-- just set: for the key of the Set the new value, for another key what it held before.
pub get-set_any :
    (order : List Bytes) (s : Store) (key value : Bytes) (ttl now later t : ℕ) (j : Bytes)
    → (reply (set order s key value ttl now later) j t ≡ err_not_found)
      ⊎ (reply (set order s key value ttl now later) j t ≡ (
          if str_eq key j
          then reply_of t (some (new_item s key value ttl now later))
          else reply s j t))
get-set_any order s key value ttl now later t j =
    elim (set_only_removes order s key value ttl now later j) [
      | inl gone ↦
          inl (reply-lookup (set order s key value ttl now later) j t ∙ ap (reply_of t) gone)
      | inr kept ↦ inr (
          reply-lookup (set order s key value ttl now later) j t
          ∙ ap (reply_of t) (kept ∙ lookup-set_entry s key value ttl now later j)
          ∙ reply_of-if s key value ttl now later t j)
    ]

-- A deleted key is not found, and every other key is as before.
pub get-delete :
    (s : Store) (key j : Bytes) (t : ℕ)
    → reply (delete s key) j t ≡ (if str_eq key j then err_not_found else reply s j t)
get-delete s key j t =
    unfold delete in
    ground
      (arith, reply-lookup (delete_key s key) j t, reply-lookup s j t, lookup-delete_key s key j)
