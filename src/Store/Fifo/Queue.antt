-- ===== src/Store/Fifo/Queue.antt =====
-- The FIFO ring of pkg/store/store.go refines a queue of keys.
use fast_and_accurate_store.Base.{◌≡◌, ◌≢◌, refl, ap, ap₂, ◌∙◌, List, [], ◌∷◌, ◌++◌, Bytes}
use fast_and_accurate_store.Store.Fifo.{Fifo, init, add, remove, pop}
use fast_and_accurate_store.Store.Fifo.Valid.{IsValid, live}
use fast_and_accurate_store.Store.Fifo.Add.{add-contents, add-live, init-IsValid, init-live}
use fast_and_accurate_store.Store.Fifo.Remove.{erase_first, remove-live}
use fast_and_accurate_store.Store.Fifo.Pop.{first_or, rest, pop-live}

-- The calls that the store makes of the ring.
pub data Call : Type 0 where
  add_key remove_key : Bytes → Call
  pop_key : Call

-- What the pops of a sequence of calls return.
unfoldable pub run : List Call → Fifo → List Bytes
run [] f = []
run (add_key key ∷ calls) f = run calls (add f key)
run (remove_key key ∷ calls) f = run calls (remove f key)
run (pop_key ∷ calls) f = let (key, f') = pop f in key ∷ run calls f'

-- The same for a queue of keys, oldest first.
unfoldable pub run_queue : List Call → List Bytes → List Bytes
run_queue [] q = []
run_queue (add_key key ∷ calls) q = run_queue calls (q ++ (key ∷ []))
run_queue (remove_key key ∷ calls) q = run_queue calls (erase_first key q)
run_queue (pop_key ∷ calls) q = first_or q ∷ run_queue calls (rest q)

-- No call is about the empty string, which marks a tombstone.
abbrev pub NoEmptyKey : List Call → Type 0
NoEmptyKey [] = Unit
NoEmptyKey (add_key key ∷ calls) = (key ≢ []) × NoEmptyKey calls
NoEmptyKey (remove_key key ∷ calls) = (key ≢ []) × NoEmptyKey calls
NoEmptyKey (pop_key ∷ calls) = NoEmptyKey calls

run_from :
    (calls : List Call) (f : Fifo)
    → NoEmptyKey calls
    → IsValid f
    → run calls f ≡ run_queue calls (live f)
unfolding run run_queue
run_from [] f ne v = refl
run_from (add_key key ∷ calls) f ne v =
    run_from calls (add f key) ne.1 (add-contents f key v).0
    ∙ ap (run_queue calls) (add-live f key v ne.0)
run_from (remove_key key ∷ calls) f ne v =
    let (w, gone) = remove-live key v ne.0 in
    run_from calls (remove f key) ne.1 w ∙ ap (run_queue calls) gone
run_from (pop_key ∷ calls) f ne v =
    let p = pop-live v in
    ap₂ ◌∷◌ p.oldest (run_from calls (pop f).1 ne p.valid ∙ ap (run_queue calls) p.left)

-- For any sequence of adds, removals and pops in which no key is the empty string, the new ring,
-- with its growing, its tombstones and its compaction, pops the same keys as a queue in which a
-- removal takes the first occurrence of the key out.
pub run-refines : (calls : List Call) → NoEmptyKey calls → run calls init ≡ run_queue calls []
run-refines calls ne = run_from calls init ne init-IsValid ∙ ap (run_queue calls) init-live
