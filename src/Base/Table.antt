-- ===== src/Base/Table.antt =====
-- Go's `map[string]V` as a list of pairs with one pair for each key. The program sees the order of
-- a map only where it ranges over it, and there the order is an argument of the model.
use fast_and_accurate_store.Base.Tests.{if◌then◌else◌, Bool-cases}
use fast_and_accurate_store.Base.Text.{Bytes, str_eq, str_eq_iff}
use Prim.Native.Nat.{ℕ, ◌+◌}
use mathlib.Core.Path.{◌≡◌, refl, subst₂}
use mathlib.Core.Bool.{true, false}
use mathlib.Core.Logic.{inl, inr}
use mathlib.Core.Option.{Option, none, some}
use mathlib.Core.List.{List, [], ◌∷◌}
use native.Mathlib.Omega.{arith}

abbrev pub Table {ℓ} : Type ℓ → Type ℓ
Table V = List (Bytes × V)

module _ {ℓ} {V : Type ℓ} where
  -- v, ok := m[k]
  unfoldable pub lookup : Bytes → Table V → Option V
  lookup k [] = none
  lookup k ((j, v) ∷ m) = if str_eq j k then some v else lookup k m

  -- delete(m, k)
  unfoldable pub remove : Bytes → Table V → Table V
  remove k [] = []
  remove k ((j, v) ∷ m) = let rest = remove k m in if str_eq j k then rest else (j, v) ∷ rest

  -- m[k] = v
  unfoldable pub insert : Bytes → V → Table V → Table V
  insert k v m = (k, v) ∷ remove k m

  -- No key stands in two pairs.
  abbrev pub Distinct : Table V → Type ℓ
  Distinct [] = Unit
  Distinct ((j, v) ∷ m) = (lookup j m ≡ none) × Distinct m

  pub lookup-remove :
      (k j : Bytes) (m : Table V)
      → lookup j (remove k m) ≡ (if str_eq k j then none else lookup j m)
  unfolding lookup remove
  lookup-remove k j [] = ground arith
  lookup-remove k j ((i, v) ∷ m) =
      ground (arith, lookup-remove k j m, str_eq_iff i k, str_eq_iff i j, str_eq_iff k j)

  pub lookup-insert :
      (k j : Bytes) (v : V) (m : Table V)
      → lookup j (insert k v m) ≡ (if str_eq k j then some v else lookup j m)
  unfolding lookup insert
  lookup-insert k j v m = ground (arith, lookup-remove k j m)

  remove_eq :
      (k j : Bytes) (v : V) (m : Table V) → str_eq j k ≡ true → remove k ((j, v) ∷ m) ≡ remove k m
  unfolding remove
  remove_eq k j v m h = rw h

  remove_ne :
      (k j : Bytes) (v : V) (m : Table V)
      → str_eq j k ≡ false
      → remove k ((j, v) ∷ m) ≡ (j, v) ∷ remove k m
  unfolding remove
  remove_ne k j v m h = rw h

  pub Distinct-remove : (k : Bytes) (m : Table V) → Distinct m → Distinct (remove k m)
  Distinct-remove k [] d = unfold remove in d
  Distinct-remove k ((j, v) ∷ m) d = elim (Bool-cases (str_eq j k)) [
    | inl e ↦ rw (remove_eq k j v m e) (Distinct-remove k m d.1)
    | inr e ↦
        rw (remove_ne k j v m e) (ground (arith, lookup-remove k j m, d.0), Distinct-remove k m d.1)
  ]

  pub Distinct-insert : (k : Bytes) (v : V) (m : Table V) → Distinct m → Distinct (insert k v m)
  unfolding insert
  Distinct-insert k v m d =
      (ground (arith, lookup-remove k k m, str_eq_iff k k), Distinct-remove k m d)

  pub remove_absent : (k : Bytes) (m : Table V) → lookup k m ≡ none → remove k m ≡ m
  unfolding lookup remove
  remove_absent k [] h = refl
  remove_absent k ((j, v) ∷ m) h = ground (arith, remove_absent k m)

  -- The sum of a measure of the values.
  unfoldable pub sum : (V → ℕ) → Table V → ℕ
  sum f [] = 0
  sum f ((j, v) ∷ m) = f v + sum f m

  pub sum-remove :
      (f : V → ℕ) (k : Bytes) (v : V) (m : Table V)
      → Distinct m
      → lookup k m ≡ some v
      → f v + sum f (remove k m) ≡ sum f m
  unfolding sum lookup remove
  sum-remove f k v [] d h = cc
  sum-remove f k v ((j, w) ∷ m) d h =
      ground (arith, sum-remove f k v m d.1, remove_absent k m, d.0, str_eq_iff j k)

module _ {ℓ} {V : Type ℓ} where
  -- Every pair of the table satisfies the predicate.
  abbrev pub All {κ} : (Bytes → V → Type κ) → Table V → Type κ
  All P [] = Unit
  All P ((k, v) ∷ m) = P k v × All P m

  pub All-remove {κ} :
      (P : Bytes → V → Type κ) (k : Bytes) (m : Table V) → All P m → All P (remove k m)
  All-remove P k [] h = unfold remove in h
  All-remove P k ((j, v) ∷ m) h = elim (Bool-cases (str_eq j k)) [
    | inl e ↦ rw (remove_eq k j v m e) (All-remove P k m h.1)
    | inr e ↦ rw (remove_ne k j v m e) (h.0, All-remove P k m h.1)
  ]

  pub All-insert {κ} :
      (P : Bytes → V → Type κ) (k : Bytes) (v : V) (m : Table V)
      → P k v
      → All P m
      → All P (insert k v m)
  unfolding insert
  All-insert P k v m p h = (p, All-remove P k m h)

  pub All-lookup {κ} :
      (P : Bytes → V → Type κ) (k : Bytes) (v : V) (m : Table V)
      → All P m
      → lookup k m ≡ some v
      → P k v
  unfolding lookup
  All-lookup P k v [] h e = absurd (cc)
  All-lookup P k v ((j, w) ∷ m) h e = elim (Bool-cases (str_eq j k)) [
    | inl t ↦
        let key : j ≡ k = (str_eq_iff j k).0 t in
        let val : w ≡ v = ground arith in subst₂ P key val h.0
    | inr t ↦ All-lookup P k v m h.1 (rw t at e)
  ]
