-- ===== src/Server/Cluster/Ranges.antt =====
-- `ParseSlotRanges` of pkg/server/cluster.go. Whether net.ResolveTCPAddr takes an address is an
-- argument.
use fast_and_accurate_store.Base.{
  ◌≡◌, subst, Bool, true, false, none, some, List, [], ◌∷◌, ◌++◌, Bytes, leb, if◌then◌else◌,
  Bool-cases, Option-cases, inl, inr,
}
use fast_and_accurate_store.Base.Int.{ℤ, pos, negsuc}
use fast_and_accurate_store.Protocol.Text.{trim, scan_int}
use fast_and_accurate_store.Server.Text.{split_once, split}
use fast_and_accurate_store.Server.Cluster.{SlotRange}

pub data RangeError : Type 0 where
  invalid_range start_above_end invalid_addr : RangeError

pub data Ranges : Type 0 where
  ranges : List SlotRange → Ranges
  refused : RangeError → Ranges

-- `fmt.Sscanf(s, "%d", &n)` whose error is not looked at
unfoldable pub scan_or_zero : Bytes → ℤ
unfolding scan_int
scan_or_zero s = elim (scan_int s) [ none ↦ pos 0 | some n ↦ n ]

-- a <= b
abbrev pub at_most : ℤ → ℤ → Bool
at_most (pos m) (pos n) = leb m n
at_most (pos m) (negsuc n) = false
at_most (negsuc m) (pos n) = true
at_most (negsuc m) (negsuc n) = leb n m

pub data Part : Type 0 where
  range : SlotRange → Part
  bad : RangeError → Part

module _ (resolves : Bytes → Bool) where
  -- The checks of a part, from the numbers on
  unfoldable pub checked : ℤ → ℤ → Bytes → Part
  checked start end addr =
      if at_most start end
      then if resolves addr
        then range (record { start = start; end = end; addr = addr })
        else bad invalid_addr
      else bad start_above_end

  -- A part that is not empty
  unfoldable pub parse_part : Bytes → Part
  unfolding split_once scan_or_zero checked
  parse_part p = elim (split_once b':' p) [
    | none ↦ bad invalid_range
    | some (numbers, addr) ↦ elim (split_once b'-' numbers) [
      | none ↦ bad invalid_range
      | some (from, to) ↦ checked (scan_or_zero from) (scan_or_zero to) addr
    ]
  ]

  abbrev pub is_blank : Bytes → Bool
  is_blank [] = true
  is_blank (c ∷ s) = false

  -- The loop over the parts, with the ranges so far
  unfoldable pub parse_parts : List Bytes → List SlotRange → Ranges
  unfolding trim parse_part
  parse_parts [] out = ranges out
  parse_parts (p ∷ parts) out = elim (is_blank (trim p)) [
    | true ↦ parse_parts parts out
    | false ↦ elim (parse_part (trim p)) [
      | bad error ↦ refused error
      | range r ↦ parse_parts parts (out ++ r ∷ [])
    ]
  ]

  -- `ParseSlotRanges`
  unfoldable pub parse_slot_ranges : Bytes → Ranges
  unfolding split parse_parts
  parse_slot_ranges val = parse_parts (split b',' val) []

  -- Every range starts at or below its end, and its address is one that resolves.
  abbrev pub AllOrdered : List SlotRange → Type 0
  AllOrdered [] = Unit
  AllOrdered (r ∷ rs) = ((at_most r.start r.end ≡ true) × (resolves r.addr ≡ true)) × AllOrdered rs

  AllOrdered-concat :
      (rs : List SlotRange) (r : SlotRange)
      → AllOrdered rs
      → (at_most r.start r.end ≡ true) × (resolves r.addr ≡ true)
      → AllOrdered (rs ++ r ∷ [])
  AllOrdered-concat [] r h k = (k, tt)
  AllOrdered-concat (s ∷ rs) r h k = (h.0, AllOrdered-concat rs r h.1 k)

  abbrev PartOrdered : Part → Type 0
  PartOrdered (range r) = (at_most r.start r.end ≡ true) × (resolves r.addr ≡ true)
  PartOrdered (bad error) = Unit

  abbrev RangesOrdered : Ranges → Type 0
  RangesOrdered (ranges rs) = AllOrdered rs
  RangesOrdered (refused error) = Unit

  checked-PartOrdered : (start end : ℤ) (addr : Bytes) → PartOrdered (checked start end addr)
  unfolding checked
  checked-PartOrdered start end addr = elim (Bool-cases (at_most start end)) [
    | inl e₁ ↦ elim (Bool-cases (resolves addr)) [
      | inl e₂ ↦ rw (e₁, e₂) (e₁, e₂)
      | inr e₂ ↦ rw (e₁, e₂) tt
    ]
    | inr e₁ ↦ rw e₁ tt
  ]

  parse_part-PartOrdered : (p : Bytes) → PartOrdered (parse_part p)
  unfolding parse_part
  parse_part-PartOrdered p = elim (Option-cases (split_once b':' p)) [
    | inl e₁ ↦ rw (parse_part, e₁) tt
    | inr ((numbers, addr), e₁) ↦ elim (Option-cases (split_once b'-' numbers)) [
      | inl e₂ ↦ rw (parse_part, e₁, e₂) tt
      | inr ((from, to), e₂) ↦
          rw (parse_part, e₁, e₂) (checked-PartOrdered (scan_or_zero from) (scan_or_zero to) addr)
    ]
  ]

  add_part :
      (part : Part) (out : List SlotRange) (rest : List SlotRange → Ranges)
      → PartOrdered part
      → AllOrdered out
      → ((out' : List SlotRange) → AllOrdered out' → RangesOrdered (rest out'))
      → RangesOrdered (elim part [ bad error ↦ refused error | range r ↦ rest (out ++ r ∷ []) ])
  add_part (range r) out rest p h ih = ih (out ++ r ∷ []) (AllOrdered-concat out r h p)
  add_part (bad error) out rest p h ih = tt

  parse_parts-RangesOrdered :
      (parts : List Bytes) (out : List SlotRange)
      → AllOrdered out
      → RangesOrdered (parse_parts parts out)
  unfolding parse_parts
  parse_parts-RangesOrdered [] out h = h
  parse_parts-RangesOrdered (p ∷ parts) out h = elim (Bool-cases (is_blank (trim p))) [
    | inl e ↦ rw (parse_parts, e) (parse_parts-RangesOrdered parts out h)
    | inr e ↦
        rw (parse_parts, e)
          (add_part (parse_part (trim p)) out (parse_parts parts) (parse_part-PartOrdered (trim p))
            h (parse_parts-RangesOrdered parts))
  ]

  -- Every range that `ParseSlotRanges` returns starts at or below its end and has an address that
  -- resolves.
  pub parse_slot_ranges-AllOrdered :
      (val : Bytes) (rs : List SlotRange) → parse_slot_ranges val ≡ ranges rs → AllOrdered rs
  unfolding parse_slot_ranges
  parse_slot_ranges-AllOrdered val rs e =
      subst RangesOrdered e (parse_parts-RangesOrdered (split b',' val) [] tt)
