-- ===== src/Store/Tests.antt =====
-- Runs of the definitions that model pkg/store/store.go, and the theorems about it at concrete inputs.
use fast_and_accurate_store.Base.{
  ◌≡◌, refl, true, some, List, [], ◌∷◌, ◌++◌, Bytes, codes, ◌⊎◌, inl, arith, str_eq, add64, sub64,
  if◌then◌else◌,
}
use fast_and_accurate_store.Base.Table.{lookup, insert, remove}
use fast_and_accurate_store.Heap
use fast_and_accurate_store.Store.Types.{
  EvictionPolicy, all_keys_random, volatile_random, all_keys_lru, err_not_found, LruEntry,
}
use fast_and_accurate_store.Store.Fifo
use fast_and_accurate_store.Store.Fifo.{Fifo}
use fast_and_accurate_store.Store.Fifo.Valid.{IsValid, contents}
use fast_and_accurate_store.Store.Fifo.Add.{add-contents, init-IsValid}
use fast_and_accurate_store.Store.Fifo.Queue.{Call, add_key, remove_key, pop_key, run-refines}
use fast_and_accurate_store.Store.State.{Store, init, lru_less, pop_current, is_current}
use fast_and_accurate_store.Store.Evict.{fits, evict_if_needed}
use fast_and_accurate_store.Store.Ops.{set, set_entry, new_item, get_unlocked, delete}
use fast_and_accurate_store.Store.Ops.Keeps.{Op, set_op, get_op, delete_op, expire_op, run}
use fast_and_accurate_store.Store.Ops.Accounting.{IsAccounted, run-IsAccounted, init-IsAccounted}
use fast_and_accurate_store.Store.Limit.Random.{set-fits_random}
use fast_and_accurate_store.Store.Limit.Lru.{lru-run-fits}
use fast_and_accurate_store.Store.View.{reply, reply_of}
use fast_and_accurate_store.Store.View.Reads.{get-set_self, get-set_any, get-delete}

abbrev a : Bytes
a = codes "a"

abbrev b : Bytes
b = codes "b"

abbrev c : Bytes
c = codes "c"

abbrev calls : List Call
calls = add_key a ∷ add_key b ∷ remove_key a ∷ add_key c ∷ pop_key ∷ pop_key ∷ pop_key ∷ []

calls-NoEmptyKey : Fifo.Queue.NoEmptyKey calls
calls-NoEmptyKey = (cc, (cc, (cc, (cc, tt))))

calls_pop : Fifo.Queue.run calls Fifo.init ≡ b ∷ c ∷ [] ∷ []
unfolding Fifo.Queue.run Fifo.init Fifo.add Fifo.ensure_cap Fifo.place Fifo.remove Fifo.find_slot
    Fifo.compact_if_needed Fifo.pop Fifo.copy_live Fifo.copy_all str_eq
calls_pop = refl

run-refines_example : Fifo.Queue.run calls Fifo.init ≡ Fifo.Queue.run_queue calls []
run-refines_example = run-refines calls calls-NoEmptyKey

add-contents_example :
    IsValid (Fifo.add Fifo.init a)
    × (contents (Fifo.add Fifo.init a) ≡ contents Fifo.init ++ (a ∷ []))
add-contents_example = add-contents Fifo.init a init-IsValid

abbrev lru_heap : List LruEntry
lru_heap =
    record { key = a; ts = 1; version = 1 }
    ∷ record { key = b; ts = 5; version = 2 }
    ∷ record { key = c; ts = 3; version = 3 }
    ∷ []

abbrev ops : List Op
ops =
    set_op (a ∷ []) a (codes "one") 0 10 11
    ∷ get_op a 12
    ∷ set_op (b ∷ a ∷ []) b (codes "two") 50 20 21
    ∷ expire_op (a ∷ b ∷ []) [] 30
    ∷ delete_op c
    ∷ []

abbrev served : EvictionPolicy → Store
served policy = run ops (init 150 policy)

-- The second Set does not fit beside the first.
ops_evict : reply (served all_keys_lru) a 40 ≡ err_not_found
unfolding run init set set_entry get_unlocked evict_if_needed Heap.push Heap.pop lookup insert
    remove str_eq Fifo.init Fifo.add Fifo.ensure_cap Fifo.place Fifo.remove Fifo.find_slot
    Fifo.compact_if_needed add64 sub64 lru_less pop_current is_current
ops_evict = refl

run-IsAccounted_example : IsAccounted (served volatile_random)
run-IsAccounted_example = run-IsAccounted ops 150 volatile_random

set-fits_random_example : fits (set (a ∷ []) (init 50 all_keys_random) a b 0 1 2) ≡ true
set-fits_random_example =
    set-fits_random (a ∷ []) (init 50 all_keys_random) a b 0 1 2
      (init-IsAccounted 50 all_keys_random) (unfold init in refl) (unfold init in refl) (inl refl)
      (λ k h. absurd (h (unfold init lookup in refl)))

lru-run-fits_example : fits (set [] (served all_keys_lru) c a 0 60 61) ≡ true
lru-run-fits_example = lru-run-fits ops [] 150 c a 0 60 61 refl (cc, (cc, tt)) cc

abbrev roomy : Store
roomy = init 1000 all_keys_random

get-set_self_example : reply (set [] roomy a b 5 10 11) a 17 ≡ err_not_found
get-set_self_example =
    get-set_self [] roomy a b 5 10 11 17 (omega arith) (omega arith) (omega arith)
      (unfold set_entry init lookup add64 in refl)

get-set_any_example :
    (reply (set [] roomy a b 5 10 11) c 17 ≡ err_not_found)
    ⊎ (reply (set [] roomy a b 5 10 11) c 17 ≡ (
        if str_eq a c then reply_of 17 (some (new_item roomy a b 5 10 11)) else reply roomy c 17))
get-set_any_example = get-set_any [] roomy a b 5 10 11 17 c

get-delete_example :
    reply (delete roomy a) b 3 ≡ (if str_eq a b then err_not_found else reply roomy b 3)
get-delete_example = get-delete roomy a b 3
