-- ===== src/Store/Fifo/Valid.antt =====
-- The FIFO ring of pkg/store/store.go: when it is in order, and what it holds.
use fast_and_accurate_store.Base.{
  ℕ, zero, suc, ◌≤◌, ◌<◌, ◌≡◌, ◌≢◌, refl, ap, ◌∙◌, false, List, arith, Bytes, str_eq, str_eq_iff,
  length, length-replicate, replicate,
}
use fast_and_accurate_store.Store.Fifo.{Fifo, next, empty_key}
use fast_and_accurate_store.Store.Fifo.Window.{
  slot, window, overwrite, live_keys, length-overwrite, window-overwrite,
}

-- The ring is in order, and a slot is free.
pub record IsValid (f : Fifo) : Type 0 where
  pub storage : length f.keys ≡ f.cap
  pub head_in : f.head < f.cap
  pub size_in : f.size < f.cap
  pub cap_min : 2 ≤ f.cap
  pub tail_at : f.tail ≡ slot f.cap f.head f.size

-- The entries of the ring, tombstones included, oldest first.
abbrev pub contents : Fifo → List Bytes
contents f = window f.keys f.cap f.head f.size

-- The keys that the ring holds, oldest first.
abbrev pub live : Fifo → List Bytes
live f = live_keys (contents f)

pub length-window : (keys : List Bytes) (cap h n : ℕ) → length (window keys cap h n) ≡ n
length-window keys cap h zero = refl
length-window keys cap h (suc n) = ap suc (length-window keys cap (next cap h) n)

abbrev pub fresh : ℕ → List Bytes
fresh n = replicate n empty_key

-- A fresh slice written from its start holds what was written.
pub laid_out :
    (xs : List Bytes) (n : ℕ)
    → length xs ≤ n
    → (length (overwrite (fresh n) 0 xs) ≡ n)
      × (window (overwrite (fresh n) 0 xs) n 0 (length xs) ≡ xs)
laid_out xs n h = (
  length-overwrite (fresh n) xs 0 ∙ length-replicate n empty_key,
  window-overwrite (fresh n) xs n 0 (omega (arith, length-replicate n empty_key)) (omega arith),
)

pub str_eq-ne : {s t : Bytes} → s ≢ t → str_eq s t ≡ false
str_eq-ne {s} {t} h = ground (arith, str_eq_iff s t)
