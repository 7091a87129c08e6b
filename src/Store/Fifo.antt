-- ===== src/Store/Fifo.antt =====
-- The FIFO ring of pkg/store/store.go: the fields fifoKeys, fifoHead, fifoTail, fifoSize, fifoCap
-- and tombs of `Store`, and the functions that work on them alone. The fields are Go's `int`s; they
-- index a slice, so they stay far below 2 ^ 63 and their sums do not wrap.
pub mod Window
pub mod Valid
pub mod Add
pub mod Remove
pub mod Pop
pub mod Queue
use fast_and_accurate_store.Base.{
  ℕ, zero, suc, ◌+◌, ◌-◌, ◌*◌, ◌/◌, ◌%◌, Bool, true, false, Option, none, some, List, [], ◌∷◌,
  Bytes, str_eq, ltb, leb, ◌==◌, if◌then◌else◌, get_or, set, replicate,
}

pub record Fifo : Type 0 where
  pub keys : List Bytes
  pub head : ℕ
  pub tail : ℕ
  pub size : ℕ
  pub cap : ℕ
  pub tombs : ℕ

abbrev pub init_cap : ℕ
init_cap = 1024

abbrev pub empty_key : Bytes
empty_key = []

-- The ring of `New`.
unfoldable pub init : Fifo
init = record {
  keys = replicate init_cap empty_key;
  head = 0;
  tail = 0;
  size = 0;
  cap = init_cap;
  tombs = 0;
}

-- `i++; if i == cap { i = 0 }`
unfoldable pub next : ℕ → ℕ → ℕ
next cap i = if i + 1 == cap then 0 else i + 1

-- The loop of `ensureFIFOCap`, with `rounds` rounds left: every entry from index `i` on is copied
-- to `new` from `idx` on.
unfoldable pub copy_all : List Bytes → ℕ → ℕ → ℕ → ℕ → List Bytes → List Bytes
unfolding next
copy_all keys cap zero i idx new = new
copy_all keys cap (suc rounds) i idx new =
    copy_all keys cap rounds (next cap i) (idx + 1) (set new idx (get_or keys i empty_key))

unfoldable pub ensure_cap : Fifo → Fifo
ensure_cap f = if ltb f.size (f.cap - 1) then f else record f {
  keys = copy_all f.keys f.cap f.size f.head 0 (replicate (f.cap * 2) empty_key);
  head = 0;
  tail = f.size;
  cap = f.cap * 2;
  tombs = 0;
}

-- The body of `addFIFOUnlocked` behind the call of `ensureFIFOCap`.
unfoldable pub place : Fifo → Bytes → Fifo
place f key =
    if ltb f.size f.cap
    then record f { keys = set f.keys f.tail key; tail = (f.tail + 1) % f.cap; size = f.size + 1 }
    else record f {
      keys = set f.keys f.tail key;
      tail = (f.tail + 1) % f.cap;
      head = (f.head + 1) % f.cap;
    }

unfoldable pub add : Fifo → Bytes → Fifo
add f key = place (ensure_cap f) key

-- The loop of `removeFIFOUnlocked`: the index of the first entry that is `key`.
unfoldable pub find_slot : List Bytes → ℕ → Bytes → ℕ → ℕ → Option ℕ
unfolding next
find_slot keys cap key zero i = none
find_slot keys cap key (suc rounds) i =
    if str_eq (get_or keys i empty_key) key
    then some i
    else find_slot keys cap key rounds (next cap i)

unfoldable pub bury : Fifo → Option ℕ → Fifo
bury f none = f
bury f (some i) = record f { keys = set f.keys i empty_key; tombs = f.tombs + 1 }

-- The loop of `compactIfNeeded`: the entries that are not tombstones, and their number.
unfoldable pub copy_live : List Bytes → ℕ → ℕ → ℕ → ℕ → List Bytes → List Bytes × ℕ
unfolding next
copy_live keys cap zero i idx new = (new, idx)
copy_live keys cap (suc rounds) i idx new =
    let dead = str_eq (get_or keys i empty_key) empty_key in
    copy_live keys cap rounds (next cap i) (if dead then idx else idx + 1)
      (if dead then new else set new idx (get_or keys i empty_key))

unfoldable pub compacted : Fifo → List Bytes × ℕ → Fifo
compacted f (new, idx) = record f { keys = new; head = 0; tail = idx; size = idx; tombs = 0 }

unfoldable pub compact_if_needed : Fifo → Fifo
unfolding compacted
compact_if_needed f =
    if f.size == 0
    then record f { head = 0; tail = 0; tombs = 0 }
    else if ltb f.tombs (f.size / 2)
    then f
    else compacted f (copy_live f.keys f.cap f.size f.head 0 (replicate f.cap empty_key))

unfoldable pub remove : Fifo → Bytes → Fifo
unfolding bury
remove f key = compact_if_needed (bury f (find_slot f.keys f.cap key f.size f.head))

-- One round of the loop of `popFIFO`.
unfoldable pub pop_slot : Fifo → Fifo
pop_slot f = record f {
  keys = set f.keys f.head empty_key;
  head = (f.head + 1) % f.cap;
  size = f.size - 1;
}

-- The loop of `popFIFO` runs while entries are left, so its rounds are at most `size`.
unfoldable pub pop_loop : ℕ → Fifo → Bytes × Fifo
unfolding pop_slot
pop_loop zero f = (empty_key, f)
pop_loop (suc rounds) f =
    let key = get_or f.keys f.head empty_key in
    let rest = pop_loop rounds (pop_slot f) in
    if f.size == 0 then (empty_key, f) else if str_eq key empty_key then rest else (key, pop_slot f)

unfoldable pub pop : Fifo → Bytes × Fifo
unfolding pop_loop
pop f = pop_loop f.size f
