-- ===== src/PubSub/Valid.antt =====
-- The state of pkg/pubsub/pubsub.go between two steps, and what of it a subscriber's coming and
-- going keeps.
use fast_and_accurate_store.Base.{
  ℕ, ◌+◌, ◌<◌, ◌≤◌, ◌≡◌, refl, ap, ◌∙◌, inl, inr, true, false, none, some, List, [], ◌∷◌, ◌++◌,
  Bytes, arith, ◌==◌, if◌then◌else◌, length, Bool-cases, Option-cases,
}
use fast_and_accurate_store.Base.Table.{
  Table, lookup, insert, remove, Distinct, Distinct-insert, Distinct-remove, sum, sum-remove,
  remove_absent,
}
use fast_and_accurate_store.PubSub.{
  capacity, GoChan, PubSub, put, subscribers, subscribe, has, remove_first, unlink, is_empty,
  clean_up, unsubscribe,
}

-- How often a Go channel stands in a list, and in all lists and among those to be closed.
unfoldable pub count : ℕ → List ℕ → ℕ
count i [] = 0
count i (j ∷ ids) = (if j == i then 1 else 0) + count i ids

unfoldable pub total : ℕ → PubSub → ℕ
total i ps = sum (count i) ps.channels + count i ps.closing

pub record Valid (ps : PubSub) : Type 0 where
  pub distinct : Distinct ps.channels
  pub once : (i : ℕ) → total i ps ≤ 1
  pub open_chans : (i : ℕ) → 0 < total i ps → (ps.chans i).closed ≡ false
  pub fresh : (i : ℕ) → ps.made ≤ i → total i ps ≡ 0
  pub bounded : (i : ℕ) → length (ps.chans i).buffer ≤ capacity

count-append : (i : ℕ) (xs ys : List ℕ) → count i (xs ++ ys) ≡ count i xs + count i ys
unfolding count
count-append i [] ys = omega arith
count-append i (x ∷ xs) ys = omega (arith, count-append i xs ys)

pub count-remove_first :
    (i k : ℕ) (ids : List ℕ)
    → has k ids ≡ true
    → count i (remove_first k ids) + (if k == i then 1 else 0) ≡ count i ids
unfolding count has remove_first
count-remove_first i k [] h = cc
count-remove_first i k (j ∷ ids) h = ground (arith, count-remove_first i k ids)

subscribers-none : (c : Bytes) (m : Table (List ℕ)) → lookup c m ≡ none → subscribers c m ≡ []
unfolding subscribers
subscribers-none c m e = rw (subscribers, e) refl

pub subscribers-some :
    (c : Bytes) (m : Table (List ℕ)) (ids : List ℕ) → lookup c m ≡ some ids → subscribers c m ≡ ids
unfolding subscribers
subscribers-some c m ids e = rw (subscribers, e) refl

count-nil : (i : ℕ) → count i [] ≡ 0
unfolding count
count-nil i = refl

pub sum-subscribers :
    (i : ℕ) (c : Bytes) (m : Table (List ℕ))
    → Distinct m
    → count i (subscribers c m) + sum (count i) (remove c m) ≡ sum (count i) m
sum-subscribers i c m d = elim (Option-cases (lookup c m)) [
  | inl e ↦ rw (subscribers-none c m e, count-nil i, remove_absent c m e) (omega arith)
  | inr (ids, e) ↦ rw (subscribers-some c m ids e) (sum-remove (count i) c ids m d e)
]

sum-cons :
    (i : ℕ) (c : Bytes) (ids : List ℕ) (m : Table (List ℕ))
    → sum (count i) (insert c ids m) ≡ count i ids + sum (count i) (remove c m)
unfolding sum insert
sum-cons i c ids m = refl

sum-insert :
    (i : ℕ) (c : Bytes) (ids : List ℕ) (m : Table (List ℕ))
    → Distinct m
    → sum (count i) (insert c ids m) + count i (subscribers c m) ≡ sum (count i) m + count i ids
sum-insert i c ids m d = omega (arith, sum-cons i c ids m, sum-subscribers i c m d)

count-is_empty : (i : ℕ) (ids : List ℕ) → is_empty ids ≡ true → count i ids ≡ 0
unfolding count
count-is_empty i [] h = refl
count-is_empty i (j ∷ ids) h = cc

sum-clean_up :
    (i : ℕ) (c : Bytes) (m : Table (List ℕ))
    → Distinct m
    → sum (count i) (clean_up c m) ≡ sum (count i) m
unfolding clean_up
sum-clean_up i c m d = elim (Bool-cases (is_empty (subscribers c m))) [
  | inl e ↦ rw e (omega (arith, sum-subscribers i c m d, count-is_empty i (subscribers c m) e))
  | inr e ↦ rw e refl
]

clean_up-Distinct : (c : Bytes) (m : Table (List ℕ)) → Distinct m → Distinct (clean_up c m)
unfolding clean_up
clean_up-Distinct c m d = elim (Bool-cases (is_empty (subscribers c m))) [
  | inl e ↦ rw e (Distinct-remove c m d)
  | inr e ↦ rw e d
]

count-new : (i k : ℕ) → count i (k ∷ []) ≡ (if k == i then 1 else 0)
unfolding count
count-new i k = omega arith

-- A subscriber more, with the next number.
total-subscribe :
    (c : Bytes) (ps : PubSub) (i : ℕ)
    → Distinct ps.channels
    → total i (subscribe c ps) ≡ total i ps + (if ps.made == i then 1 else 0)
unfolding total subscribe
total-subscribe c ps i d = omega (
  arith,
  sum-insert i c (subscribers c ps.channels ++ ps.made ∷ []) ps.channels d,
  count-append i (subscribers c ps.channels) (ps.made ∷ []),
  count-new i ps.made,
)

pub subscribe-Valid : (c : Bytes) (ps : PubSub) → Valid ps → Valid (subscribe c ps)
unfolding subscribe put
subscribe-Valid c ps v = record {
  distinct = Distinct-insert c (subscribers c ps.channels ++ ps.made ∷ []) ps.channels v.distinct;
  once = λ i. ground (arith, total-subscribe c ps i v.distinct, v.once i, v.fresh i);
  open_chans = λ i h. ground (arith, total-subscribe c ps i v.distinct, v.open_chans i);
  fresh = λ i h. ground (arith, total-subscribe c ps i v.distinct, v.fresh i);
  bounded = λ i. ground (arith, v.bounded i);
}

-- A step that only moves channels between lists.
Valid-moved :
    (ps : PubSub) (m : Table (List ℕ)) (closing : List ℕ)
    → Valid ps
    → Distinct m
    → ((i : ℕ) → total i (record ps { channels = m; closing = closing }) ≡ total i ps)
    → Valid (record ps { channels = m; closing = closing })
Valid-moved ps m closing v d t = record {
  distinct = d;
  once = λ i. rw (t i) (v.once i);
  open_chans = λ i h. v.open_chans i (omega (arith, t i));
  fresh = λ i h. t i ∙ v.fresh i h;
  bounded = v.bounded;
}

clean_up-Valid :
    (c : Bytes) (ps : PubSub) → Valid ps → Valid (record ps { channels = clean_up c ps.channels })
unfolding total
clean_up-Valid c ps v =
    Valid-moved ps (clean_up c ps.channels) ps.closing v
      (clean_up-Distinct c ps.channels v.distinct)
      (λ i. omega (arith, sum-clean_up i c ps.channels v.distinct))

pub count-cons :
    (i k : ℕ) (ids : List ℕ) → count i (k ∷ ids) ≡ (if k == i then 1 else 0) + count i ids
unfolding count
count-cons i k ids = refl

total-unlinked :
    (c : Bytes) (k i : ℕ) (ids : List ℕ) (ps : PubSub)
    → Distinct ps.channels
    → lookup c ps.channels ≡ some ids
    → has k ids ≡ true
    → total i (record ps {
      channels = insert c (remove_first k ids) ps.channels;
      closing = k ∷ ps.closing;
    })
      ≡ total i ps
unfolding total
total-unlinked c k i ids ps d e h = omega (
  arith,
  sum-insert i c (remove_first k ids) ps.channels d,
  ap (count i) (subscribers-some c ps.channels ids e),
  count-remove_first i k ids h,
  count-cons i k ps.closing,
)

unlink-Valid :
    (c : Bytes) (k : ℕ) (ids : List ℕ) (ps : PubSub)
    → Valid ps
    → lookup c ps.channels ≡ some ids
    → Valid (unlink c k ids ps)
unfolding unlink
unlink-Valid c k ids ps v e = elim (Bool-cases (has k ids)) [
  | inl h ↦ rw h (
      Valid-moved ps (insert c (remove_first k ids) ps.channels) (k ∷ ps.closing) v
        (Distinct-insert c (remove_first k ids) ps.channels v.distinct)
        (λ i. total-unlinked c k i ids ps v.distinct e h))
  | inr h ↦ rw h v
]

pub unsubscribe-Valid : (c : Bytes) (k : ℕ) (ps : PubSub) → Valid ps → Valid (unsubscribe c k ps)
unfolding unsubscribe
unsubscribe-Valid c k ps v = elim (Option-cases (lookup c ps.channels)) [
  | inl e ↦ rw (unsubscribe, e) v
  | inr (ids, e) ↦
      rw (unsubscribe, e) (clean_up-Valid c (unlink c k ids ps) (unlink-Valid c k ids ps v e))
]

-- A change of the Go channels that closes none and keeps their buffers bounded.
pub Valid-chans :
    (ps : PubSub) (chans : ℕ → GoChan)
    → Valid ps
    → ((i : ℕ) → (chans i).closed ≡ (ps.chans i).closed)
    → ((i : ℕ) → length (chans i).buffer ≤ capacity)
    → Valid (record ps { chans = chans })
unfolding total
Valid-chans ps chans v c b = record {
  distinct = v.distinct;
  once = v.once;
  open_chans = λ i h. c i ∙ v.open_chans i h;
  fresh = v.fresh;
  bounded = b;
}
