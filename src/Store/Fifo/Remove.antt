-- ===== src/Store/Fifo/Remove.antt =====
-- `removeFIFOUnlocked` and `compactIfNeeded` of pkg/store/store.go.
use fast_and_accurate_store.Base.{
  ◌+◌, ◌/◌, ◌≤◌, ◌<◌, ◌≡◌, ◌≢◌, refl, sym, ap, ◌∙◌, List, [], ◌∷◌, arith, Bytes, str_eq, str_eq_iff,
  str_eq_refl, ltb, ◌==◌, if◌then◌else◌, length, length-set, inl, inr, Bool-cases, Option-cases,
}
use fast_and_accurate_store.Store.Fifo.{
  Fifo, empty_key, find_slot, bury, compacted, compact_if_needed, remove,
}
use fast_and_accurate_store.Store.Fifo.Window.{
  window, window-bury, find_slot-none, bury_first, overwrite, live_keys, copy_live-window,
}
use fast_and_accurate_store.Store.Fifo.Valid.{
  IsValid, contents, live, length-window, fresh, laid_out,
}

-- The first occurrence of a key is taken out.
abbrev pub erase_first : Bytes → List Bytes → List Bytes
erase_first key [] = []
erase_first key (x ∷ xs) = if str_eq x key then xs else x ∷ erase_first key xs

live_keys-bury_first :
    (key : Bytes) (xs : List Bytes)
    → key ≢ empty_key
    → live_keys (bury_first key xs) ≡ erase_first key (live_keys xs)
live_keys-bury_first key [] h = refl
live_keys-bury_first key (x ∷ xs) h = ground (
  arith,
  live_keys-bury_first key xs h,
  str_eq_iff x key,
  str_eq_iff x empty_key,
  str_eq_refl empty_key,
)

bury-IsValid :
    {f : Fifo} (key : Bytes)
    → IsValid f
    → IsValid (bury f (find_slot f.keys f.cap key f.size f.head))
      × (contents (bury f (find_slot f.keys f.cap key f.size f.head)) ≡ bury_first key (contents f))
      × ((bury f (find_slot f.keys f.cap key f.size f.head)).size ≡ f.size)
bury-IsValid {f} key v = elim (Option-cases (find_slot f.keys f.cap key f.size f.head)) [
  | inl e ↦ rw e (unfold bury in (v, sym (find_slot-none f.keys f.cap key f.size f.head e), refl))
  | inr (i, e) ↦ rw e (
      unfold bury in
      (
        record {
          storage = length-set f.keys i empty_key ∙ v.storage;
          head_in = v.head_in;
          size_in = v.size_in;
          cap_min = v.cap_min;
          tail_at = v.tail_at;
        },
        window-bury f.keys f.cap key f.size f.head i (omega arith) v.head_in (omega arith) e,
        refl,
      ))
]

copy_live-IsValid :
    {f : Fifo}
    → IsValid f
    → (xs : List Bytes) → length xs < f.cap
    → IsValid (compacted f (overwrite (fresh f.cap) 0 xs, 0 + length xs))
      × (contents (compacted f (overwrite (fresh f.cap) 0 xs, 0 + length xs)) ≡ xs)
unfolding compacted
copy_live-IsValid {f} v xs h =
    let (storage, shown) = laid_out xs f.cap (omega arith) in
    (
      record {
        storage = storage;
        head_in = omega arith;
        size_in = omega arith;
        cap_min = v.cap_min;
        tail_at = ground arith;
      },
      ap (λ n. window (overwrite (fresh f.cap) 0 xs) f.cap 0 n) {y = length xs} (omega arith)
          ∙ shown,
    )

length-live_keys : (xs : List Bytes) → length (live_keys xs) ≤ length xs
length-live_keys [] = omega arith
length-live_keys (x ∷ xs) = ground (arith, length-live_keys xs)

live_keys-live_keys : (xs : List Bytes) → live_keys (live_keys xs) ≡ live_keys xs
live_keys-live_keys [] = refl
live_keys-live_keys (x ∷ xs) = ground (arith, live_keys-live_keys xs)

-- `compactIfNeeded` keeps the ring valid and keeps every key that it holds.
pub compact-live :
    {f : Fifo} → IsValid f → IsValid (compact_if_needed f) × (live (compact_if_needed f) ≡ live f)
unfolding compact_if_needed
compact-live {f} v = elim (Bool-cases (f.size == 0)) [
  | inl none_left ↦ rw none_left (
    ground arith,
    let z : f.size ≡ 0 = ground arith in
        ap (λ n. live_keys (window f.keys f.cap 0 n)) z
        ∙ sym (ap (λ n. live_keys (window f.keys f.cap f.head n)) z),
  )
  | inr some_left ↦ elim (Bool-cases (ltb f.tombs (f.size / 2))) [
    | inl few ↦ rw (some_left, few) (v, refl)
    | inr many ↦
        let (w, shown) = copy_live-IsValid v (live f) (
          omega (arith, length-live_keys (contents f), length-window f.keys f.cap f.head f.size)) in
        rw (some_left, many, copy_live-window f.keys f.cap f.size f.head 0 (fresh f.cap))
          (w, ap live_keys shown ∙ live_keys-live_keys (contents f))
  ]
]

-- `removeFIFOUnlocked` takes the first occurrence of the key out.
pub remove-live :
    {f : Fifo} (key : Bytes)
    → IsValid f
    → key ≢ empty_key
    → IsValid (remove f key) × (live (remove f key) ≡ erase_first key (live f))
unfolding remove
remove-live {f} key v h =
    let (w, same, _) = bury-IsValid key v in
    let (u, kept) = compact-live w in
    (u, kept ∙ ap live_keys same ∙ live_keys-bury_first key (contents f) h)
