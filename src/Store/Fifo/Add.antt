-- ===== src/Store/Fifo/Add.antt =====
-- `addFIFOUnlocked` of pkg/store/store.go adds behind what the ring holds.
use fast_and_accurate_store.Base.{
  suc, ◌+◌, ◌-◌, ◌*◌, ◌%◌, ◌<◌, ◌≡◌, ◌≢◌, refl, sym, ap, ◌∙◌, List, [], ◌∷◌, ◌++◌, arith, Bytes,
  ltb, set, length-set, length-replicate, replicate, inl, inr, Bool-cases,
}
use fast_and_accurate_store.Store.Fifo.{
  Fifo, init, next, empty_key, copy_all, ensure_cap, place, add,
}
use fast_and_accurate_store.Store.Fifo.Window.{
  slot, window, next-mod, window-set_end, overwrite, copy_all-window, live_keys, length-overwrite,
}
use fast_and_accurate_store.Store.Fifo.Valid.{
  IsValid, contents, live, length-window, fresh, laid_out, str_eq-ne,
}

pub init-IsValid : IsValid init
unfolding init
init-IsValid = omega (arith, length-replicate 1024 empty_key)

pub init-live : live init ≡ []
unfolding init
init-live = refl

abbrev roomy : Fifo → Fifo
roomy f = record f {
  keys = copy_all f.keys f.cap f.size f.head 0 (replicate (f.cap * 2) empty_key);
  head = 0;
  tail = f.size;
  cap = f.cap * 2;
  tombs = 0;
}

roomy-keys : (f : Fifo) → (roomy f).keys ≡ overwrite (fresh (f.cap * 2)) 0 (contents f)
roomy-keys f = copy_all-window f.keys f.cap f.size f.head 0 (fresh (f.cap * 2))

roomy-IsValid : {f : Fifo} → IsValid f → IsValid (roomy f)
roomy-IsValid {f} v = record {
  storage = rw (copy_all-window f.keys f.cap f.size f.head 0 (fresh (f.cap * 2))) (
      length-overwrite (fresh (f.cap * 2)) (contents f) 0 ∙ length-replicate (f.cap * 2) empty_key);
  head_in = omega arith;
  size_in = omega arith;
  cap_min = omega arith;
  tail_at = ground arith;
}

roomy-contents : {f : Fifo} → IsValid f → contents (roomy f) ≡ contents f
roomy-contents {f} v =
    ap (λ keys. window keys (f.cap * 2) 0 f.size) (roomy-keys f)
    ∙ ap (λ n. window (overwrite (fresh (f.cap * 2)) 0 (contents f)) (f.cap * 2) 0 n)
        (sym (length-window f.keys f.cap f.head f.size))
    ∙ (laid_out (contents f) (f.cap * 2)
        (omega (arith, length-window f.keys f.cap f.head f.size))).1

pub ensure_cap-IsValid :
    {f : Fifo}
    → IsValid f
    → IsValid (ensure_cap f)
      × (suc (ensure_cap f).size < (ensure_cap f).cap)
      × (contents (ensure_cap f) ≡ contents f)
unfolding ensure_cap
ensure_cap-IsValid {f} v = elim (Bool-cases (ltb f.size (f.cap - 1))) [
  | inl t ↦ rw t (v, ground arith, refl)
  | inr t ↦ rw t (roomy-IsValid v, ground (arith, v), roomy-contents v)
]

abbrev placed : Fifo → Bytes → Fifo
placed f key = record f {
  keys = set f.keys f.tail key;
  tail = (f.tail + 1) % f.cap;
  size = f.size + 1;
}

-- Where a slot is free, the branch that overwrites the oldest key is not taken.
place_in_room : (f : Fifo) (key : Bytes) → f.size < f.cap → place f key ≡ placed f key
unfolding place
place_in_room f key h = ground arith

tail_step : {f : Fifo} → IsValid f → (f.tail + 1) % f.cap ≡ slot f.cap f.head (f.size + 1)
tail_step {f} v = next-mod f.cap f.tail (ground arith) ∙ (unfold next in ground arith)

placed-IsValid :
    (f : Fifo) (key : Bytes)
    → IsValid f
    → suc f.size < f.cap
    → IsValid (placed f key) × (contents (placed f key) ≡ contents f ++ (key ∷ []))
placed-IsValid f key v r = (
  record {
    storage = length-set f.keys f.tail key ∙ v.storage;
    head_in = v.head_in;
    size_in = omega arith;
    cap_min = v.cap_min;
    tail_at = tail_step v;
  },
  ap (λ n. window (set f.keys f.tail key) f.cap f.head n) {y = suc f.size} (omega arith)
      ∙ window-set_end f.keys f.cap f.head f.tail f.size key (omega arith) v.head_in v.size_in
          v.tail_at,
)

-- `addFIFOUnlocked` keeps the ring valid and adds the key behind all that it holds.
pub add-contents :
    (f : Fifo) (key : Bytes)
    → IsValid f
    → IsValid (add f key) × (contents (add f key) ≡ contents f ++ (key ∷ []))
unfolding add
add-contents f key v =
    let (w, r, same) = ensure_cap-IsValid v in
    let (u, more) = placed-IsValid (ensure_cap f) key w r in
    rw (place_in_room (ensure_cap f) key (omega arith)) (u, more ∙ ap (λ c. c ++ (key ∷ [])) same)

live_keys-append : (xs ys : List Bytes) → live_keys (xs ++ ys) ≡ live_keys xs ++ live_keys ys
live_keys-append [] ys = refl
live_keys-append (x ∷ xs) ys = ground (arith, live_keys-append xs ys)

-- A key that is added stands behind the keys that the ring held.
pub add-live :
    (f : Fifo) (key : Bytes) → IsValid f → key ≢ empty_key → live (add f key) ≡ live f ++ (key ∷ [])
add-live f key v h =
    rw ((add-contents f key v).1, live_keys-append (contents f) (key ∷ []), str_eq-ne h)
