-- ===== src/Heap/Members.antt =====
-- container/heap loses no element and makes none up.
use fast_and_accurate_store.Base.{
  ℕ, zero, suc, ◌+◌, ◌-◌, ◌*◌, ◌/◌, ◌<◌, ◌≤◌, ◌≡◌, refl, sym, ap, ◌∙◌, Bool, not, ◌||◌, none, some,
  List, [], ◌∷◌, ◌++◌, leb, ◌==◌, if◌then◌else◌, get_elem?, set, length, take, length-set, arith,
  Bool-cases, Option-cases, inl, inr, ◌⊎◌,
}
use fast_and_accurate_store.Heap.{swap, less_at, up, push, child, down, settled, pop}

module _ {ℓ} {A : Type ℓ} where
  -- An index at which the element stands.
  abbrev pub Has : A → List A → Type ℓ
  Has x h = (i : ℕ) × (get_elem? h i ≡ some x)

  pub get_elem?-set :
      (h : List A) (i k : ℕ) (v : A) {a : A}
      → get_elem? h i ≡ some a
      → get_elem? (set h i v) k ≡ (if k == i then some v else get_elem? h k)
  get_elem?-set [] i k v e = absurd (cc)
  get_elem?-set (x ∷ h) zero zero v e = refl
  get_elem?-set (x ∷ h) zero (suc k) v e = ground arith
  get_elem?-set (x ∷ h) (suc i) zero v e = ground arith
  get_elem?-set (x ∷ h) (suc i) (suc k) v e = get_elem?-set h i k v e ∙ ground arith

  swap_in :
      (h : List A) (i j : ℕ) (a b : A)
      → get_elem? h i ≡ some a
      → get_elem? h j ≡ some b
      → swap h i j ≡ set (set h i b) j a
  unfolding swap
  swap_in h i j a b p q = ground arith

  swap_out :
      (h : List A) (i j : ℕ) → (get_elem? h i ≡ none) ⊎ (get_elem? h j ≡ none) → swap h i j ≡ h
  unfolding swap
  swap_out h i j o = ground arith

  -- What stands at an index after a swap of two indices in range.
  pub get_elem?-swap :
      (h : List A) (i j k : ℕ) (a b : A)
      → get_elem? h i ≡ some a
      → get_elem? h j ≡ some b
      → get_elem? (swap h i j) k
        ≡ (if k == j then some a else if k == i then some b else get_elem? h k)
  get_elem?-swap h i j k a b p q =
      let there : get_elem? (set h i b) j ≡ some b = get_elem?-set h i j b p ∙ ground arith in
      rw (swap_in h i j a b p q, get_elem?-set (set h i b) j k a there, get_elem?-set h i k b p)

  pub length-swap : (h : List A) (i j : ℕ) → length (swap h i j) ≡ length h
  length-swap h i j = elim (Option-cases (get_elem? h i)) [
    | inl e ↦ ap length (swap_out h i j (inl e))
    | inr (a, e) ↦ elim (Option-cases (get_elem? h j)) [
      | inl f ↦ ap length (swap_out h i j (inr f))
      | inr (b, f) ↦ rw (swap_in h i j a b e f) (length-set (set h i b) j a ∙ length-set h i b)
    ]
  ]

  -- Two lists hold the same elements.
  pub record Same (g h : List A) : Type ℓ where
    pub kept : (x : A) → Has x g → Has x h
    pub found : (x : A) → Has x h → Has x g
    pub same_length : length h ≡ length g

  pub Same-refl : (h : List A) → Same h h
  Same-refl h = record { kept = λ x m. m; found = λ x m. m; same_length = refl }

  pub Same-trans : {f g h : List A} → Same f g → Same g h → Same f h
  Same-trans p q = record {
    kept = λ x m. q.kept x (p.kept x m);
    found = λ x m. p.found x (q.found x m);
    same_length = q.same_length ∙ p.same_length;
  }

  Has-swap :
      (h : List A) (i j : ℕ) (a b : A)
      → get_elem? h i ≡ some a
      → get_elem? h j ≡ some b
      → (x : A) → Has x h
      → Has x (swap h i j)
  Has-swap h i j a b p q x (k, m) = elim (Bool-cases (k == i)) [
    | inl e ↦ (j, get_elem?-swap h i j j a b p q ∙ ground arith)
    | inr e ↦ elim (Bool-cases (k == j)) [
      | inl f ↦ (i, get_elem?-swap h i j i a b p q ∙ ground arith)
      | inr f ↦ (k, get_elem?-swap h i j k a b p q ∙ ground arith)
    ]
  ]

  Has-from-swap :
      (h : List A) (i j : ℕ) (a b : A)
      → get_elem? h i ≡ some a
      → get_elem? h j ≡ some b
      → (x : A) → Has x (swap h i j)
      → Has x h
  Has-from-swap h i j a b p q x (k, m) = elim (Bool-cases (k == j)) [
    | inl e ↦ (i, p ∙ sym (get_elem?-swap h i j k a b p q ∙ ground arith) ∙ m)
    | inr e ↦ elim (Bool-cases (k == i)) [
      | inl f ↦ (j, q ∙ sym (get_elem?-swap h i j k a b p q ∙ ground arith) ∙ m)
      | inr f ↦ (k, sym (get_elem?-swap h i j k a b p q ∙ ground arith) ∙ m)
    ]
  ]

  pub Same-swap : (h : List A) (i j : ℕ) → Same h (swap h i j)
  Same-swap h i j = elim (Option-cases (get_elem? h i)) [
    | inl e ↦ rw (swap_out h i j (inl e)) (Same-refl h)
    | inr (a, e) ↦ elim (Option-cases (get_elem? h j)) [
      | inl f ↦ rw (swap_out h i j (inr f)) (Same-refl h)
      | inr (b, f) ↦ record {
        kept = Has-swap h i j a b e f;
        found = Has-from-swap h i j a b e f;
        same_length = length-swap h i j;
      }
    ]
  ]

  module _ (less : A → A → Bool) where
    -- Either `up` stops at once, or it swaps and goes on.
    pub up_step :
        (rounds : ℕ) (h : List A) (j : ℕ)
        → (up less (suc rounds) h j ≡ h)
          ⊎ (up less (suc rounds) h j ≡ up less rounds (swap h ((j - 1) / 2) j) ((j - 1) / 2))
    unfolding up
    up_step rounds h j =
        elim (Bool-cases ((j - 1) / 2 == j || not (less_at less h j ((j - 1) / 2)))) [
          | inl e ↦ inl (ground arith)
          | inr e ↦ inr (ground arith)
        ]

    Same-up : (rounds : ℕ) (h : List A) (j : ℕ) → Same h (up less rounds h j)
    Same-up zero h j = unfold up in Same-refl h
    Same-up (suc rounds) h j = elim (up_step rounds h j) [
      | inl e ↦ rw e (Same-refl h)
      | inr e ↦ rw e (
          Same-trans (Same-swap h ((j - 1) / 2) j)
            (Same-up rounds (swap h ((j - 1) / 2) j) ((j - 1) / 2)))
    ]

    down_step :
        (rounds : ℕ) (h : List A) (i n : ℕ)
        → (down less (suc rounds) h i n ≡ h)
          ⊎ (down less (suc rounds) h i n
              ≡ down less rounds (swap h i (child less h i n)) (child less h i n) n)
    unfolding down
    down_step rounds h i n =
        elim (Bool-cases (leb n (2 * i + 1) || not (less_at less h (child less h i n) i))) [
          | inl e ↦ inl (ground arith)
          | inr e ↦ inr (ground arith)
        ]

    Same-down : (rounds : ℕ) (h : List A) (i n : ℕ) → Same h (down less rounds h i n)
    Same-down zero h i n = unfold down in Same-refl h
    Same-down (suc rounds) h i n = elim (down_step rounds h i n) [
      | inl e ↦ rw e (Same-refl h)
      | inr e ↦ rw e (
          Same-trans (Same-swap h i (child less h i n))
            (Same-down rounds (swap h i (child less h i n)) (child less h i n) n))
    ]

    Same-settled : (h : List A) (n : ℕ) → Same h (settled less h n)
    unfolding settled
    Same-settled h n = Same-trans (Same-swap h 0 n) (Same-down n (swap h 0 n) 0 n)

    Same-push : (x : A) (h : List A) → Same (h ++ x ∷ []) (push less x h)
    unfolding push
    Same-push x h = Same-up (length h) (h ++ x ∷ []) (length h)

  Has-append : (h : List A) (x y : A) → Has y h → Has y (h ++ x ∷ [])
  Has-append [] x y (i, m) = absurd (cc)
  Has-append (z ∷ h) x y (zero, m) = (zero, m)
  Has-append (z ∷ h) x y (suc i, m) = let (k, e) = Has-append h x y (i, m) in (suc k, e)

  Has-append_new : (h : List A) (x : A) → Has x (h ++ x ∷ [])
  Has-append_new [] x = (0, refl)
  Has-append_new (z ∷ h) x = let (k, e) = Has-append_new h x in (suc k, e)

  get_elem?_range : (h : List A) (i : ℕ) {x : A} → get_elem? h i ≡ some x → i < length h
  get_elem?_range [] i e = absurd (cc)
  get_elem?_range (y ∷ h) zero e = omega arith
  get_elem?_range (y ∷ h) (suc i) e = omega (arith, get_elem?_range h i e)

  get_elem?_total : (h : List A) (i : ℕ) → i < length h → (x : A) × (get_elem? h i ≡ some x)
  get_elem?_total [] i p = absurd (omega arith)
  get_elem?_total (y ∷ h) zero p = (y, refl)
  get_elem?_total (y ∷ h) (suc i) p = get_elem?_total h i (omega arith)

  Has-take : (h : List A) (n : ℕ) (x : A) → Has x (take n h) → Has x h
  Has-take h zero x (i, e) = absurd (cc)
  Has-take [] (suc n) x m = m
  Has-take (y ∷ h) (suc n) x (zero, e) = (zero, e)
  Has-take (y ∷ h) (suc n) x (suc i, e) = let (k, f) = Has-take h n x (i, e) in (suc k, f)

  get_elem?-take : (h : List A) (n i : ℕ) → i < n → get_elem? (take n h) i ≡ get_elem? h i
  get_elem?-take h zero i p = absurd (omega arith)
  get_elem?-take [] (suc n) i p = refl
  get_elem?-take (x ∷ h) (suc n) zero p = refl
  get_elem?-take (x ∷ h) (suc n) (suc i) p = get_elem?-take h n i (omega arith)

  length-take : (h : List A) (n : ℕ) → n ≤ length h → length (take n h) ≡ n
  length-take h zero p = refl
  length-take [] (suc n) p = absurd (omega arith)
  length-take (x ∷ h) (suc n) p = ap suc (length-take h n (omega arith))

  -- A list without its last element has every element that is not there alone.
  split_last :
      (h : List A) (n : ℕ) (x : A)
      → get_elem? h n ≡ some x
      → length h ≡ suc n
      → (y : A) → Has y h
      → (y ≡ x) ⊎ Has y (take n h)
  split_last h n x e l y (i, m) = elim (Bool-cases (i == n)) [
    | inl s ↦ inl (ground arith)
    | inr s ↦ inr (i, get_elem?-take h n i (ground (arith, get_elem?_range h i m)) ∙ m)
  ]

  module _ (less : A → A → Bool) where
    -- `heap.Push` keeps what the heap held and adds the new element.
    pub push-Has :
        (x : A) (h : List A) → Has x (push less x h) × ((y : A) → Has y h → Has y (push less x h))
    push-Has x h = (
      (Same-push less x h).kept x (Has-append_new h x),
      λ y m. (Same-push less x h).kept y (Has-append h x y m),
    )

    -- What `heap.Pop` hands back and leaves of a heap.
    pub record PopOf (h : List A) (x : A) (h' : List A) : Type ℓ where
      pub was_in : Has x h
      pub or_left : (y : A) → Has y h → (y ≡ x) ⊎ Has y h'
      pub was : (y : A) → Has y h' → Has y h
      pub one_less : length h ≡ suc (length h')

    pop_eq :
        (h : List A) (x : A)
        → get_elem? (settled less h (length h - 1)) (length h - 1) ≡ some x
        → pop less h ≡ some (x, take (length h - 1) (settled less h (length h - 1)))
    unfolding pop
    pop_eq h x e = ground arith

    -- `heap.Pop` of a heap with an element hands one of its elements back and leaves the others.
    pub pop-PopOf :
        (h : List A)
        → 0 < length h
        → (x : A) × (h' : List A) × (pop less h ≡ some (x, h')) × PopOf h x h'
    pop-PopOf h p =
        let n = length h - 1 in
        let same = Same-settled less h n in
        let size : length (settled less h n) ≡ suc n = same.same_length ∙ omega arith in
        let (x, e) = get_elem?_total (settled less h n) n (omega arith) in
        (
          x,
          take n (settled less h n),
          pop_eq h x e,
          record {
            was_in = same.found x (n, e);
            or_left = λ y m. split_last (settled less h n) n x e size y (same.kept y m);
            was = λ y m. same.found y (Has-take (settled less h n) n y m);
            one_less = omega (arith, length-take (settled less h n) n (omega arith));
          },
        )

    pub pop-nil : pop less [] ≡ none
    unfolding pop
    pop-nil = refl
