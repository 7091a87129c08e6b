-- ===== src/Store/Limit/Recency.antt =====
-- `evictLRU` and `evictLFU` of pkg/store/store.go bring a store back within its limit. Each of the
-- two loops pops keys of a heap; what they share is proved once, over the pop.
use fast_and_accurate_store.Base.{
  ℕ, zero, suc, ◌<◌, ◌≤◌, ◌≡◌, ◌≢◌, refl, sym, ap, ◌∙◌, Bool, true, false, none, some, List, [],
  ◌∷◌, Bytes, ◌⊎◌, arith, str_eq, str_eq_iff, Bool-cases, Option-cases, inl, inr, length,
}
use fast_and_accurate_store.Base.Table.{Table, lookup}
use fast_and_accurate_store.Heap
use fast_and_accurate_store.Heap.Members.{Has, PopOf, pop-PopOf, pop-nil}
use fast_and_accurate_store.Store.Types.{Item}
use fast_and_accurate_store.Store.State.{Store, delete_key, is_current, pop_current}
use fast_and_accurate_store.Store.State.Items.{lookup-delete_key, max_memory-delete_key}
use fast_and_accurate_store.Store.Evict.{fits, evict_by}
use fast_and_accurate_store.Store.Ops.Accounting.{delete_key-IsAccounted, IsAccounted-like}
use fast_and_accurate_store.Store.Limit.{empty-fits}
use fast_and_accurate_store.Store.Limit.Entries.{
  IsCurrent, HasEntries, IsReady, IsCurrent-entry, current-present,
}

module _ {E : Type 0} (less : E → E → Bool) (key_of : E → Bytes) (version_of : E → ℕ) where
  -- What `popLRU` and `popLFU` make of a heap.
  pub data Outcome (items : Table Item) (h : List E) : Bytes × List E → Type 0 where
    popped :
        (e : E) (h' : List E)
        → Has e h
        → IsCurrent key_of version_of items e
        → length h' < length h
        → ((y : E) → Has y h → IsCurrent key_of version_of items y → (y ≡ e) ⊎ Has y h')
        → Outcome items h (key_of e, h')
    exhausted :
        (h' : List E)
        → ((y : E) → Has y h → ¬ IsCurrent key_of version_of items y)
        → Outcome items h ([], h')

  -- One round of the loop, on a heap that hands an entry back.
  round_hit :
      (items : Table Item) (rounds : ℕ) (h : List E) (e : E) (h' : List E)
      → Heap.pop less h ≡ some (e, h')
      → IsCurrent key_of version_of items e
      → pop_current less key_of version_of items (suc rounds) h ≡ (key_of e, h')
  unfolding pop_current
  round_hit items rounds h e h' p c = ground arith

  round_miss :
      (items : Table Item) (rounds : ℕ) (h : List E) (e : E) (h' : List E)
      → Heap.pop less h ≡ some (e, h')
      → is_current items (key_of e) (version_of e) ≡ false
      → pop_current less key_of version_of items (suc rounds) h
        ≡ pop_current less key_of version_of items rounds h'
  unfolding pop_current
  round_miss items rounds h e h' p c = ground arith

  round_nil :
      (items : Table Item) (rounds : ℕ)
      → pop_current less key_of version_of items (suc rounds) [] ≡ ([], [])
  unfolding pop_current
  round_nil items rounds = ground (arith, pop-nil less)

  -- A stale entry in front of a heap does not change the outcome.
  Outcome-stale :
      (items : Table Item) (h : List E) (e : E) (h' : List E) {out : Bytes × List E}
      → PopOf less h e h'
      → is_current items (key_of e) (version_of e) ≡ false
      → Outcome items h' out
      → Outcome items h out
  Outcome-stale items h e h' p stale (popped f h'' m c l left) =
      popped f h'' (p.was f m) c (omega (arith, p.one_less)) (λ y my cy. elim (p.or_left y my) [
        | inl same ↦
            absurd (ground (arith, ap (λ z. is_current items (key_of z) (version_of z)) same))
        | inr my' ↦ left y my' cy
      ])
  Outcome-stale items h e h' p stale (exhausted h'' none_left) = exhausted h'' (λ y my cy.
      elim (p.or_left y my) [
        | inl same ↦
            absurd (ground (arith, ap (λ z. is_current items (key_of z) (version_of z)) same))
        | inr my' ↦ none_left y my' cy
      ])

  pub pop_current-Outcome :
      (items : Table Item) (rounds : ℕ) (h : List E)
      → length h ≤ rounds
      → Outcome items h (pop_current less key_of version_of items rounds h)
  pop_current-Outcome items zero [] l =
      unfold pop_current in exhausted [] (λ y m c. absurd (cc (m.1)))
  pop_current-Outcome items (suc rounds) [] l =
      rw round_nil (exhausted [] (λ y m c. absurd (cc (m.1))))
  pop_current-Outcome items zero (x ∷ h) l = absurd (omega arith)
  pop_current-Outcome items (suc rounds) (x ∷ t) l =
      let (e, h', eq, p) = pop-PopOf less (x ∷ t) (omega arith) in
      elim (Bool-cases (is_current items (key_of e) (version_of e))) [
        | inl c ↦
            rw (round_hit items rounds (x ∷ t) e h' eq c)
              (popped e h' p.was_in c (omega (arith, p.one_less)) (λ y m _. p.or_left y m))
        | inr c ↦ rw (round_miss items rounds (x ∷ t) e h' eq c) (
            Outcome-stale items (x ∷ t) e h' p c
              (pop_current-Outcome items rounds h' (omega (arith, p.one_less))))
      ]

  -- A pop that finds no key finds a store without items, if the empty string is no key of it.
  Outcome-none :
      (items : Table Item) (h : List E) {out : Bytes × List E}
      → Outcome items h out
      → out.0 ≡ []
      → lookup [] items ≡ none
      → HasEntries key_of version_of items h
      → (k : Bytes) → lookup k items ≡ none
  Outcome-none items h (popped e h' m c l left) z none_at all k =
      absurd (current-present key_of version_of items e c (ap (λ x. lookup x items) z ∙ none_at))
  Outcome-none items h (exhausted h' nothing) z none_at all k =
      elim (Option-cases (lookup k items)) [
        | inl e ↦ e
        | inr (item, e) ↦
            let (y, m, p, q) = all k item e in
            absurd (nothing y m (IsCurrent-entry key_of version_of items k item y e p q))
      ]

  -- A pop that finds a key takes an entry off, and leaves the entries of the other keys.
  Outcome-left :
      (items : Table Item) (h : List E) {out : Bytes × List E}
      → Outcome items h out
      → out.0 ≢ []
      → HasEntries key_of version_of items h
      → (length out.1 < length h)
        × ((k : Bytes) (item : Item)
            → lookup k items ≡ some item
            → out.0 ≢ k
            → (e : E) × Has e out.1 × (key_of e ≡ k) × (version_of e ≡ item.access_id))
  Outcome-left items h (popped e h' m c l left) ne all = (
    l,
    λ k item at_k other.
        let (y, my, p, q) = all k item at_k in
        elim (left y my (IsCurrent-entry key_of version_of items k item y at_k p q)) [
          | inl same ↦ absurd (other (sym (ap key_of same) ∙ p))
          | inr my' ↦ (y, my', p, q)
        ],
  )
  Outcome-left items h (exhausted h' nothing) ne all = absurd (ne refl)

  module _ (heap_of : Store → List E) (pop : Store → Bytes × Store)
      (pop_outcome : (s : Store) → Outcome s.items (heap_of s) ((pop s).0, heap_of (pop s).1))
      (pop_items : (s : Store) → (pop s).1.items ≡ s.items)
      (pop_used : (s : Store) → (pop s).1.used_memory ≡ s.used_memory)
      (pop_max : (s : Store) → (pop s).1.max_memory ≡ s.max_memory)
      (delete_heap : (s : Store) (k : Bytes) → heap_of (delete_key s k) ≡ heap_of s) where
    none_left :
        (s : Store)
        → IsReady key_of version_of heap_of s
        → (pop s).0 ≡ []
        → (k : Bytes) → lookup k s.items ≡ none
    none_left s r z k =
        Outcome-none s.items (heap_of s) (pop_outcome s) z r.no_empty_key r.entries k

    was_there :
        (s : Store) (key k : Bytes) (item : Item)
        → lookup k (delete_key (pop s).1 key).items ≡ some item
        → (lookup k s.items ≡ some item) × (key ≢ k)
    was_there s key k item e = (
      ground (arith, lookup-delete_key (pop s).1 key k, pop_items s),
      λ same. ground (arith, lookup-delete_key (pop s).1 key k, str_eq_iff key k),
    )

    deleted-IsReady :
        (s : Store)
        → IsReady key_of version_of heap_of s
        → (pop s).0 ≢ []
        → IsReady key_of version_of heap_of (delete_key (pop s).1 (pop s).0)
          × (length (heap_of (delete_key (pop s).1 (pop s).0)) < length (heap_of s))
    deleted-IsReady s r ne =
        let (shorter, kept) = Outcome-left s.items (heap_of s) (pop_outcome s) ne r.entries in
        let s' = (pop s).1 in
        let key = (pop s).0 in
        (
          record {
            accounted =
                delete_key-IsAccounted s' key
                  (IsAccounted-like (pop_items s) (pop_used s) r.accounted);
            limited = rw (max_memory-delete_key, pop_max) r.limited;
            no_empty_key = ground (arith, lookup-delete_key s' key [], pop_items s, r.no_empty_key);
            entries = λ k item at_k.
                let (e, m, p, q) =
                  kept k item (was_there s key k item at_k).0 (was_there s key k item at_k).1 in
                (e, rw delete_heap m, p, q);
          },
          rw delete_heap shorter,
        )

    -- A store without items is ready, whatever its heap holds.
    emptied-IsReady :
        (s : Store)
        → IsReady key_of version_of heap_of s
        → (pop s).0 ≡ []
        → IsReady key_of version_of heap_of (pop s).1
    emptied-IsReady s r z = record {
      accounted = IsAccounted-like (pop_items s) (pop_used s) r.accounted;
      limited = rw pop_max r.limited;
      no_empty_key = rw pop_items r.no_empty_key;
      entries = λ k item at_k. absurd (cc (none_left s r z k, pop_items s, at_k));
    }

    pub evict_by-fits :
        (rounds : ℕ) (s : Store)
        → length (heap_of s) < rounds
        → IsReady key_of version_of heap_of s
        → fits (evict_by pop rounds s) ≡ true
    unfolding evict_by
    evict_by-fits zero s l r = absurd (omega arith)
    evict_by-fits (suc rounds) s l r = elim (Bool-cases (str_eq (pop s).0 [])) [
      | inl z ↦
          let all_gone =
            empty-fits s r.accounted r.limited (none_left s r ((str_eq_iff (pop s).0 []).0 z)) in
          ground arith
      | inr ne ↦
          let (r', less_left) =
            deleted-IsReady s r (λ z. ground (arith, str_eq_iff (pop s).0 [])) in
          ground (arith, evict_by-fits rounds (delete_key (pop s).1 (pop s).0) (omega arith) r')
    ]

    -- The loop keeps what it relies on.
    pub evict_by-IsReady :
        (rounds : ℕ) (s : Store)
        → IsReady key_of version_of heap_of s
        → IsReady key_of version_of heap_of (evict_by pop rounds s)
    unfolding evict_by
    evict_by-IsReady zero s r = r
    evict_by-IsReady (suc rounds) s r = elim (Bool-cases (fits s)) [
      | inl enough ↦ rw enough r
      | inr over ↦ elim (Bool-cases (str_eq (pop s).0 [])) [
        | inl z ↦ rw (over, z) (emptied-IsReady s r ((str_eq_iff (pop s).0 []).0 z))
        | inr ne ↦
            let r' = (deleted-IsReady s r (λ z. ground (arith, str_eq_iff (pop s).0 []))).0 in
            rw (over, ne) (evict_by-IsReady rounds (delete_key (pop s).1 (pop s).0) r')
      ]
    ]
