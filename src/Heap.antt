-- ===== src/Heap.antt =====
-- The standard library's container/heap as pkg/store/store.go uses it: a binary heap in a slice,
-- ordered by `Less`. `lruMinHeap` and `lfuMinHeap` are its two uses.
pub mod Members
use fast_and_accurate_store.Base.{
  ℕ, zero, suc, ◌+◌, ◌-◌, ◌*◌, ◌/◌, Bool, true, false, not, ◌&&◌, ◌||◌, Option, none, some, List,
  [], ◌∷◌, ◌++◌, ltb, leb, ◌==◌, if◌then◌else◌, get_elem?, set, length, take,
}

module _ {ℓ} {A : Type ℓ} where
  -- h[i], h[j] = h[j], h[i]; the loops keep both indices in range.
  unfoldable pub swap : List A → ℕ → ℕ → List A
  swap h i j = elim (get_elem? h i) [
    | none ↦ h
    | some a ↦ elim (get_elem? h j) [ none ↦ h | some b ↦ set (set h i b) j a ]
  ]

  module _ (less : A → A → Bool) where
    -- h.Less(i, j)
    unfoldable pub less_at : List A → ℕ → ℕ → Bool
    less_at h i j = elim (get_elem? h i) [
      | none ↦ false
      | some a ↦ elim (get_elem? h j) [ none ↦ false | some b ↦ less a b ]
    ]

    -- `up`. The index falls in every round, so `j` rounds are enough.
    unfoldable pub up : ℕ → List A → ℕ → List A
    unfolding swap less_at
    up zero h j = h
    up (suc rounds) h j =
        let i = (j - 1) / 2 in
        let rest = up rounds (swap h i j) i in if i == j || not (less_at h j i) then h else rest

    unfoldable pub push : A → List A → List A
    unfolding up
    push x h = up (length h) (h ++ x ∷ []) (length h)

    -- The child of `i` that `down` compares with it.
    unfoldable pub child : List A → ℕ → ℕ → ℕ
    unfolding less_at
    child h i n =
        if ltb (2 * i + 2) n && less_at h (2 * i + 2) (2 * i + 1) then 2 * i + 2 else 2 * i + 1

    -- `down`. The index grows in every round and stays below `n`, so `n` rounds are enough.
    unfoldable pub down : ℕ → List A → ℕ → ℕ → List A
    unfolding child swap less_at
    down zero h i n = h
    down (suc rounds) h i n =
        let j = child h i n in
        let rest = down rounds (swap h i j) j n in
        if leb n (2 * i + 1) then h else if not (less_at h j i) then h else rest

    -- The slice before `heap.Pop` takes its last element off.
    unfoldable pub settled : List A → ℕ → List A
    unfolding down swap
    settled h n = down n (swap h 0 n) 0 n

    -- `heap.Pop` of a heap that is not empty; the program checks `Len() > 0` first.
    unfoldable pub pop : List A → Option (A × List A)
    unfolding settled
    pop h =
        let n = length h - 1 in
        elim (get_elem? (settled h n) n) [ none ↦ none | some x ↦ some (x, take n (settled h n)) ]
