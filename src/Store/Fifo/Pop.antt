-- ===== src/Store/Fifo/Pop.antt =====
-- `popFIFO` of pkg/store/store.go takes the oldest key.
use fast_and_accurate_store.Base.{
  ℕ, zero, suc, ◌+◌, ◌-◌, ◌%◌, ◌≤◌, ◌<◌, ◌≡◌, ◌≢◌, refl, sym, ap, ◌∙◌, List, [], ◌∷◌, arith, Bytes,
  str_eq, ◌==◌, get_or, set, length-set, inl, inr, Bool-cases,
}
use fast_and_accurate_store.Store.Fifo.{Fifo, next, empty_key, pop_slot, pop_loop, pop}
use fast_and_accurate_store.Store.Fifo.Window.{
  window, next-mod, next-lt, slot_back, window-set_ahead, live_keys,
}
use fast_and_accurate_store.Store.Fifo.Valid.{IsValid, contents, live}

pop_slot-IsValid :
    {f : Fifo}
    → IsValid f
    → f.size ≢ 0
    → IsValid (pop_slot f) × (contents f ≡ get_or f.keys f.head empty_key ∷ contents (pop_slot f))
unfolding pop_slot
pop_slot-IsValid {f} v h =
    let step : (f.head + 1) % f.cap ≡ next f.cap f.head = next-mod f.cap f.head v.head_in in
    let one_less : f.size ≡ suc (f.size - 1) = omega arith in
    (
      record {
        storage = length-set f.keys f.head empty_key ∙ v.storage;
        head_in = rw step (next-lt f.cap f.head v.head_in);
        size_in = omega arith;
        cap_min = v.cap_min;
        tail_at = v.tail_at ∙ (rw step (unfold next in ground arith));
      },
      ap (λ n. window f.keys f.cap f.head n) one_less
          ∙ ap (λ c. get_or f.keys f.head empty_key ∷ c)
              (sym (
                ap (λ h'. window (set f.keys f.head empty_key) f.cap h' (f.size - 1)) step
                ∙ window-set_ahead f.keys f.cap (next f.cap f.head) f.head (f.size - 1) (f.cap - 1)
                    empty_key (next-lt f.cap f.head v.head_in) (omega arith) (omega arith)
                    (slot_back f.cap f.head v.head_in))),
    )

-- What `popFIFO` returns: the oldest key, or the empty string if the ring holds none.
abbrev pub first_or : List Bytes → Bytes
first_or [] = empty_key
first_or (x ∷ xs) = x

abbrev pub rest : List Bytes → List Bytes
rest [] = []
rest (x ∷ xs) = xs

-- What a pop hands back and leaves behind.
pub record Popped (f : Fifo) (out : Bytes × Fifo) : Type 0 where
  pub valid : IsValid out.1
  pub oldest : out.0 ≡ first_or (live f)
  pub left : live out.1 ≡ rest (live f)
  pub no_longer : out.1.size ≤ f.size
  pub shorter : f.size ≢ 0 → out.1.size < f.size

Popped-none : {f : Fifo} → IsValid f → f.size ≡ 0 → Popped f (empty_key, f)
Popped-none {f} v z =
    let nothing : live f ≡ [] = ap (λ n. live_keys (window f.keys f.cap f.head n)) z in
    record {
      valid = v;
      oldest = rw nothing;
      left = rw nothing;
      no_longer = omega arith;
      shorter = λ h. absurd (h z);
    }

size-pop_slot : (f : Fifo) → (pop_slot f).size ≡ f.size - 1
unfolding pop_slot
size-pop_slot f = refl

Popped-dead :
    {f : Fifo} {out : Bytes × Fifo}
    → f.size ≢ 0
    → live f ≡ live (pop_slot f)
    → Popped (pop_slot f) out
    → Popped f out
Popped-dead {f} {out} h same p = record {
  valid = p.valid;
  oldest = rw same p.oldest;
  left = rw same p.left;
  no_longer = omega (arith, size-pop_slot f);
  shorter = λ _. omega (arith, size-pop_slot f);
}

pop_loop-live : (rounds : ℕ) {f : Fifo} → IsValid f → f.size ≤ rounds → Popped f (pop_loop rounds f)
unfolding pop_loop
pop_loop-live zero v h = Popped-none v (omega arith)
pop_loop-live (suc rounds) {f} v h = elim (Bool-cases (f.size == 0)) [
  | inl none_left ↦ rw none_left (Popped-none v (ground arith))
  | inr some_left ↦
      let (w, shown) = pop_slot-IsValid v (ground arith) in
      elim (Bool-cases (str_eq (get_or f.keys f.head empty_key) empty_key)) [
        | inl dead ↦
            rw (some_left, dead)
              (Popped-dead (ground arith) (ap live_keys shown ∙ rw dead)
                (pop_loop-live rounds w (omega (arith, size-pop_slot f))))
        | inr alive ↦
            rw (some_left, alive)
              (let held : live f ≡ get_or f.keys f.head empty_key ∷ live (pop_slot f) =
                  ap live_keys shown ∙ rw alive in
                record {
                  valid = w;
                  oldest = rw held;
                  left = rw held;
                  no_longer = ground (arith, size-pop_slot f);
                  shorter = λ _. ground (arith, size-pop_slot f);
                })
      ]
]

-- `popFIFO` returns the oldest key that the ring holds and takes it out; where the ring holds none
-- it returns the empty string. A ring with entries gets shorter.
pub pop-live : {f : Fifo} → IsValid f → Popped f (pop f)
unfolding pop
pop-live {f} v = pop_loop-live f.size v (omega arith)
