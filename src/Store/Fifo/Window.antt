-- ===== src/Store/Fifo/Window.antt =====
-- What the FIFO ring of pkg/store/store.go holds, as a list: the entries from the head on, going
-- round at the capacity.
use fast_and_accurate_store.Base.{
  ℕ, zero, suc, ◌+◌, ◌-◌, ◌%◌, ◌≤◌, ◌<◌, ◌≡◌, ◌≢◌, refl, sym, ap, ap₂, ◌∙◌, true, false, none, some,
  List, [], ◌∷◌, ◌++◌, arith, Bytes, str_eq, ltb, if◌then◌else◌, length, get_or, set, subst,
  length-set, get_or-set_self, get_or-set_ne, inl, inr, Bool-cases,
}
use fast_and_accurate_store.Store.Fifo.{next, empty_key, copy_all, find_slot, copy_live}

-- The index `k` steps behind `h`.
abbrev pub slot : ℕ → ℕ → ℕ → ℕ
slot cap h k = if ltb (h + k) cap then h + k else h + k - cap

pub slot-next : (cap h k : ℕ) → h < cap → k < cap → slot cap (next cap h) k ≡ slot cap h (suc k)
unfolding next
slot-next cap h k p q = ground arith

pub next-lt : (cap h : ℕ) → h < cap → next cap h < cap
unfolding next
next-lt cap h p = ground arith

slot-ne : (cap h k : ℕ) → h < cap → suc k < cap → slot cap h (suc k) ≢ h
slot-ne cap h k p q = ground arith

-- A full round less one step comes back to where it started.
pub slot_back : (cap h : ℕ) → h < cap → h ≡ slot cap (next cap h) (cap - 1)
unfolding next
slot_back cap h p = ground arith

pub next_inside : (cap h : ℕ) → h + 1 < cap → next cap h ≡ h + 1
unfolding next
next_inside cap h p = ground arith

pub next-mod : (cap h : ℕ) → h < cap → (h + 1) % cap ≡ next cap h
unfolding next
next-mod cap h p = grind arith

abbrev pub window : List Bytes → ℕ → ℕ → ℕ → List Bytes
window keys cap h zero = []
window keys cap h (suc n) = get_or keys h empty_key ∷ window keys cap (next cap h) n

-- A write `k` steps ahead is not seen within `k` steps.
pub window-set_ahead :
    (keys : List Bytes) (cap h i n k : ℕ) (v : Bytes)
    → h < cap
    → k < cap
    → n ≤ k
    → i ≡ slot cap h k
    → window (set keys i v) cap h n ≡ window keys cap h n
window-set_ahead keys cap h i zero k v p q r e = refl
window-set_ahead keys cap h i (suc n) zero v p q r e = absurd (omega arith)
window-set_ahead keys cap h i (suc n) (suc k) v p q r e =
    ap₂ ◌∷◌ (get_or-set_ne keys v empty_key (λ s. slot-ne cap h k p q (sym e ∙ s))) (
      window-set_ahead keys cap (next cap h) i n k v (next-lt cap h p) (omega arith) (omega arith)
        (e ∙ sym (slot-next cap h k p (omega arith))))

-- A write just behind a window makes it longer by one entry.
pub window-set_end :
    (keys : List Bytes) (cap h i n : ℕ) (v : Bytes)
    → cap ≤ length keys
    → h < cap
    → n < cap
    → i ≡ slot cap h n
    → window (set keys i v) cap h (suc n) ≡ window keys cap h n ++ (v ∷ [])
window-set_end keys cap h i zero v l p q e =
    let here : i ≡ h = ground arith in rw (here, get_or-set_self keys h v empty_key (omega arith))
window-set_end keys cap h i (suc n) v l p q e =
    ap₂ ◌∷◌ (get_or-set_ne keys v empty_key (λ s. slot-ne cap h n p q (sym e ∙ s))) (
      window-set_end keys cap (next cap h) i n v l (next-lt cap h p) (omega arith)
        (e ∙ sym (slot-next cap h n p (omega arith))))

-- The first entry that is `key` becomes a tombstone.
abbrev pub bury_first : Bytes → List Bytes → List Bytes
bury_first key [] = []
bury_first key (x ∷ xs) = if str_eq x key then empty_key ∷ xs else x ∷ bury_first key xs

find_slot_hit :
    (keys : List Bytes) (cap : ℕ) (key : Bytes) (n h : ℕ)
    → str_eq (get_or keys h empty_key) key ≡ true
    → find_slot keys cap key (suc n) h ≡ some h
unfolding find_slot
find_slot_hit keys cap key n h t = rw t

find_slot_miss :
    (keys : List Bytes) (cap : ℕ) (key : Bytes) (n h : ℕ)
    → str_eq (get_or keys h empty_key) key ≡ false
    → find_slot keys cap key (suc n) h ≡ find_slot keys cap key n (next cap h)
unfolding find_slot
find_slot_miss keys cap key n h t = rw t

-- What `find_slot` finds lies in the window.
pub find_slot_in :
    (keys : List Bytes) (cap : ℕ) (key : Bytes) (n h : ℕ) {i : ℕ}
    → h < cap
    → n ≤ cap
    → find_slot keys cap key n h ≡ some i
    → (k : ℕ) × (k < n) × (i ≡ slot cap h k)
find_slot_in keys cap key zero h p q e = unfold find_slot in absurd (cc)
find_slot_in keys cap key (suc n) h {i} p q e =
    elim (Bool-cases (str_eq (get_or keys h empty_key) key)) [
      | inl t ↦
          let here : h ≡ i = cc (find_slot_hit keys cap key n h t) in (0, omega arith, ground arith)
      | inr t ↦
          let there : find_slot keys cap key n (next cap h) ≡ some i =
            cc (find_slot_miss keys cap key n h t) in
          let (k, r, f) =
            find_slot_in keys cap key n (next cap h) (next-lt cap h p) (omega arith) there in
          (suc k, omega arith, f ∙ slot-next cap h k p (omega arith))
    ]

-- Burying what `find_slot` finds buries the first such entry of the window.
pub window-bury :
    (keys : List Bytes) (cap : ℕ) (key : Bytes) (n h i : ℕ)
    → cap ≤ length keys
    → h < cap
    → n ≤ cap
    → find_slot keys cap key n h ≡ some i
    → window (set keys i empty_key) cap h n ≡ bury_first key (window keys cap h n)
window-bury keys cap key zero h i l p q e = refl
window-bury keys cap key (suc n) h i l p q e =
    elim (Bool-cases (str_eq (get_or keys h empty_key) key)) [
      | inl t ↦
          let here : i ≡ h = cc (find_slot_hit keys cap key n h t) in
          rw t (
            subst
              (λ y.
                window (set keys y empty_key) cap h (suc n)
                ≡ empty_key ∷ window keys cap (next cap h) n)
              (sym here)
              (ap₂ ◌∷◌ (get_or-set_self keys h empty_key empty_key (omega arith)) (
                window-set_ahead keys cap (next cap h) h n (cap - 1) empty_key (next-lt cap h p)
                  (omega arith) (omega arith) (slot_back cap h p))))
      | inr t ↦
          let there : find_slot keys cap key n (next cap h) ≡ some i =
            cc (find_slot_miss keys cap key n h t) in
          let (k, r, f) =
            find_slot_in keys cap key n (next cap h) (next-lt cap h p) (omega arith) there in
          rw t (
            ap₂ ◌∷◌
              (get_or-set_ne keys empty_key empty_key (λ s.
                slot-ne cap h k p (omega arith) (sym (f ∙ slot-next cap h k p (omega arith)) ∙ s)))
              (window-bury keys cap key n (next cap h) i l (next-lt cap h p) (omega arith) there))
    ]

pub find_slot-none :
    (keys : List Bytes) (cap : ℕ) (key : Bytes) (n h : ℕ)
    → find_slot keys cap key n h ≡ none
    → bury_first key (window keys cap h n) ≡ window keys cap h n
unfolding find_slot
find_slot-none keys cap key zero h e = refl
find_slot-none keys cap key (suc n) h e = ground (arith, find_slot-none keys cap key n (next cap h))

-- Writing `xs` one behind another, from `idx` on.
abbrev pub overwrite : List Bytes → ℕ → List Bytes → List Bytes
overwrite new idx [] = new
overwrite new idx (x ∷ xs) = overwrite (set new idx x) (idx + 1) xs

pub copy_all-window :
    (keys : List Bytes) (cap n i idx : ℕ) (new : List Bytes)
    → copy_all keys cap n i idx new ≡ overwrite new idx (window keys cap i n)
unfolding copy_all
copy_all-window keys cap zero i idx new = refl
copy_all-window keys cap (suc n) i idx new =
    copy_all-window keys cap n (next cap i) (idx + 1) (set new idx (get_or keys i empty_key))

-- The entries that are not tombstones.
abbrev pub live_keys : List Bytes → List Bytes
live_keys [] = []
live_keys (x ∷ xs) = if str_eq x empty_key then live_keys xs else x ∷ live_keys xs

pub copy_live-window :
    (keys : List Bytes) (cap n i idx : ℕ) (new : List Bytes)
    → copy_live keys cap n i idx new ≡ (
      overwrite new idx (live_keys (window keys cap i n)),
      idx + length (live_keys (window keys cap i n)),
    )
unfolding copy_live
copy_live-window keys cap zero i idx new = ground arith
copy_live-window keys cap (suc n) i idx new =
    elim (Bool-cases (str_eq (get_or keys i empty_key) empty_key)) [
      | inl t ↦ rw t (copy_live-window keys cap n (next cap i) idx new)
      | inr t ↦ rw t (
          copy_live-window keys cap n (next cap i) (idx + 1) (set new idx (get_or keys i empty_key))
          ∙ ap₂ (λ a b. (a, b)) refl (omega arith))
    ]

pub length-overwrite : (new xs : List Bytes) (idx : ℕ) → length (overwrite new idx xs) ≡ length new
length-overwrite new [] idx = refl
length-overwrite new (x ∷ xs) idx =
    length-overwrite (set new idx x) xs (idx + 1) ∙ length-set new idx x

get_or-overwrite :
    (new xs : List Bytes) (idx i : ℕ)
    → i < idx
    → get_or (overwrite new idx xs) i empty_key ≡ get_or new i empty_key
get_or-overwrite new [] idx i p = refl
get_or-overwrite new (x ∷ xs) idx i p =
    get_or-overwrite (set new idx x) xs (idx + 1) i (omega arith)
    ∙ get_or-set_ne new x empty_key (λ e. omega arith)

-- What was written is what the window from `idx` on shows.
pub window-overwrite :
    (new xs : List Bytes) (cap idx : ℕ)
    → cap ≤ length new
    → idx + length xs ≤ cap
    → window (overwrite new idx xs) cap idx (length xs) ≡ xs
window-overwrite new [] cap idx l p = refl
window-overwrite new (x ∷ []) cap idx l p =
    ap (λ y. y ∷ []) (get_or-set_self new idx x empty_key (omega arith))
window-overwrite new (x ∷ y ∷ xs) cap idx l p =
    ap₂ ◌∷◌
      (get_or-overwrite (set new idx x) (y ∷ xs) (idx + 1) idx (omega arith)
        ∙ get_or-set_self new idx x empty_key (omega arith))
      (rw (next_inside cap idx (omega arith)) (
        window-overwrite (set new idx x) (y ∷ xs) cap (idx + 1)
          (omega (arith, length-set new idx x)) (omega arith)))
