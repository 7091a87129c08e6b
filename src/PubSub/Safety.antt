-- ===== src/PubSub/Safety.antt =====
-- What holds of pkg/pubsub/pubsub.go between any two steps: no channel is closed that a list holds.
use fast_and_accurate_store.Base.{
  ℕ, ◌+◌, ◌<◌, ◌≤◌, ◌≡◌, refl, ap, ◌∙◌, inl, inr, true, false, Option, none, some, List, [], ◌∷◌,
  ◌++◌, Bytes, arith, ltb, ◌==◌, if◌then◌else◌, length, length-append, Bool-cases, Option-cases,
}
use fast_and_accurate_store.Base.Table.{lookup, sum}
use fast_and_accurate_store.PubSub.{
  capacity, GoChan, PubSub, init, put, has, remove_first, close_chan, send, send_all, publish, tail,
  receive, Event, subscribed, unsubscribed, closing_ended, published, received, step, run_events,
}
use fast_and_accurate_store.PubSub.Valid.{
  count, total, Valid, count-remove_first, subscribers-some, sum-subscribers, subscribe-Valid,
  count-cons, unsubscribe-Valid, Valid-chans,
}

length-tail : (s : List Bytes) → length (tail s) ≤ length s
length-tail [] = omega arith
length-tail (c ∷ s) = omega arith

receive-Valid : (i : ℕ) (ps : PubSub) → Valid ps → Valid (receive i ps)
unfolding receive put
receive-Valid i ps v =
    Valid-chans ps _ v (λ j. ground arith)
      (λ j. ground (arith, v.bounded j, v.bounded i, length-tail (ps.chans i).buffer))

count-has : (i : ℕ) (ids : List ℕ) → has i ids ≡ true → 0 < count i ids
unfolding count has
count-has i [] h = cc
count-has i (j ∷ ids) h = ground (arith, count-has i ids)

-- No panic, and a state that is valid again.
abbrev pub Runs : Option PubSub → Type 0
Runs none = ⊥
Runs (some ps) = Valid ps

total-closed :
    (k i : ℕ) (chans : ℕ → GoChan) (ps : PubSub)
    → has k ps.closing ≡ true
    → total i (record ps { chans = chans; closing = remove_first k ps.closing })
        + (if k == i then 1 else 0)
      ≡ total i ps
unfolding total
total-closed k i chans ps h = omega (arith, count-remove_first i k ps.closing h)

total-closing : (k : ℕ) (ps : PubSub) → has k ps.closing ≡ true → 0 < total k ps
unfolding total
total-closing k ps h = omega (arith, count-has k ps.closing h)

abbrev closed_chans : ℕ → PubSub → ℕ → GoChan
unfolding put
closed_chans k ps = put k (record (ps.chans k) { closed = true }) ps.chans

closed-Valid :
    (k : ℕ) (ps : PubSub)
    → Valid ps
    → has k ps.closing ≡ true
    → Valid (record ps { chans = closed_chans k ps; closing = remove_first k ps.closing })
unfolding put
closed-Valid k ps v h = record {
  distinct = v.distinct;
  once = λ i. ground (arith, total-closed k i (closed_chans k ps) ps h, v.once i);
  open_chans =
      λ i l. ground (arith, total-closed k i (closed_chans k ps) ps h, v.once i, v.open_chans i);
  fresh = λ i l. ground (arith, total-closed k i (closed_chans k ps) ps h, v.fresh i);
  bounded = λ i. ground (arith, v.bounded i, v.bounded k);
}

close_chan-Runs : (k : ℕ) (ps : PubSub) → Valid ps → Runs (close_chan k ps)
unfolding close_chan
close_chan-Runs k ps v = elim (Bool-cases (has k ps.closing)) [
  | inl h ↦ rw (h, v.open_chans k (total-closing k ps h)) (closed-Valid k ps v h)
  | inr h ↦ rw h v
]

-- Sends close no channel and keep the buffers bounded.
abbrev Sent : (ℕ → GoChan) → Option ((ℕ → GoChan) × ℕ) → Type 0
Sent chans none = ⊥
Sent chans (some (chans', n)) =
    ((i : ℕ) → (chans' i).closed ≡ (chans i).closed)
    × ((i : ℕ) → length (chans' i).buffer ≤ capacity)

send-some :
    (message : Bytes) (ch : GoChan)
    → ch.closed ≡ false
    → length ch.buffer ≤ capacity
    → (ch' : GoChan) × ((n : ℕ) × ((send message ch ≡ some (ch', n))
          × ((ch'.closed ≡ ch.closed) × (length ch'.buffer ≤ capacity))))
unfolding send
send-some message ch e l = elim (Bool-cases (ltb (length ch.buffer) capacity)) [
  | inl h ↦ (
    record ch { buffer = ch.buffer ++ message ∷ [] },
    (1, (rw (e, h) refl, (refl, ground (arith, length-append ch.buffer (message ∷ []))))),
  )
  | inr h ↦ (ch, (0, (rw (e, h) refl, (refl, l))))
]

Sent-from :
    (chans chans' : ℕ → GoChan) (sent : ℕ) (o : Option ((ℕ → GoChan) × ℕ))
    → ((i : ℕ) → (chans' i).closed ≡ (chans i).closed)
    → Sent chans' o
    → Sent chans (elim o [ none ↦ none | some (chans'', n) ↦ some (chans'', sent + n) ])
Sent-from chans chans' sent none c s = s
Sent-from chans chans' sent (some (chans'', n)) c s = (λ i. s.0 i ∙ c i, s.1)

pub send_all-cons :
    (k : ℕ) (ids : List ℕ) (message : Bytes) (chans : ℕ → GoChan) (ch : GoChan) (n : ℕ)
    → send message (chans k) ≡ some (ch, n)
    → send_all (k ∷ ids) message chans ≡ elim (send_all ids message (put k ch chans)) [
      | none ↦ none
      | some (chans', count') ↦ some (chans', n + count')
    ]
unfolding send_all
send_all-cons k ids message chans ch n e = rw (send_all, e) refl

send_all-Sent :
    (ids : List ℕ) (message : Bytes) (chans : ℕ → GoChan)
    → ((i : ℕ) → 0 < count i ids → (chans i).closed ≡ false)
    → ((i : ℕ) → length (chans i).buffer ≤ capacity)
    → Sent chans (send_all ids message chans)
unfolding put
send_all-Sent [] message chans c b = unfold send_all in (λ i. refl, b)
send_all-Sent (k ∷ ids) message chans c b =
    let head_open : (chans k).closed ≡ false = c k (ground (arith, count-cons k k ids)) in
    let (ch, (n, (e, (same, l)))) = send-some message (chans k) head_open (b k) in
    rw (send_all-cons k ids message chans ch n e) (
      Sent-from chans (put k ch chans) n (send_all ids message (put k ch chans))
        (λ i. ground (arith, same))
        (send_all-Sent ids message (put k ch chans)
          (λ i h. ground (arith, same, head_open, c i, count-cons i k ids))
          (λ i. ground (arith, l, b i))))

count-subscriber :
    (c : Bytes) (ps : PubSub) (ids : List ℕ) (i : ℕ)
    → Valid ps
    → lookup c ps.channels ≡ some ids
    → count i ids ≤ total i ps
unfolding total
count-subscriber c ps ids i v e = omega (
  arith,
  sum-subscribers i c ps.channels v.distinct,
  ap (count i) (subscribers-some c ps.channels ids e),
)

-- What a publisher leaves behind, when it does not panic.
abbrev pub Published : Option (PubSub × ℕ) → Type 0
Published none = ⊥
Published (some (ps, n)) = Valid ps

Published-from :
    (ps : PubSub) (o : Option ((ℕ → GoChan) × ℕ))
    → Valid ps
    → Sent ps.chans o
    → Published (elim o [ none ↦ none | some (chans, n) ↦ some (record ps { chans = chans }, n) ])
Published-from ps none v s = s
Published-from ps (some (chans, n)) v s = Valid-chans ps chans v s.0 s.1

pub publish-Published :
    (c message : Bytes) (ps : PubSub) → Valid ps → Published (publish c message ps)
unfolding publish
publish-Published c message ps v = elim (Option-cases (lookup c ps.channels)) [
  | inl e ↦ rw (publish, e) v
  | inr (ids, e) ↦
      rw (publish, e)
        (Published-from ps (send_all ids message ps.chans) v (
          send_all-Sent ids message ps.chans
            (λ i h. v.open_chans i (omega (arith, count-subscriber c ps ids i v e))) v.bounded))
]

Published-Runs :
    (o : Option (PubSub × ℕ)) → Published o → Runs (elim o [ none ↦ none | some (ps, n) ↦ some ps ])
Published-Runs none p = p
Published-Runs (some (ps, n)) p = p

step-Runs : (e : Event) (ps : PubSub) → Valid ps → Runs (step e ps)
unfolding step
step-Runs (subscribed c) ps v = subscribe-Valid c ps v
step-Runs (unsubscribed c i) ps v = unsubscribe-Valid c i ps v
step-Runs (closing_ended i) ps v = close_chan-Runs i ps v
step-Runs (published c message) ps v =
    Published-Runs (publish c message ps) (publish-Published c message ps v)
step-Runs (received i) ps v = receive-Valid i ps v

run_events-step :
    (e : Event) (events : List Event) (o : Option PubSub)
    → Runs o
    → ((ps : PubSub) → Valid ps → Runs (run_events events ps))
    → Runs (elim o [ none ↦ none | some ps' ↦ run_events events ps' ])
run_events-step e events none r h = r
run_events-step e events (some ps) r h = h ps r

run_events-Valid : (events : List Event) (ps : PubSub) → Valid ps → Runs (run_events events ps)
unfolding run_events
run_events-Valid [] ps v = v
run_events-Valid (e ∷ events) ps v =
    run_events-step e events (step e ps) (step-Runs e ps v) (run_events-Valid events)

pub init-Valid : Valid init
unfolding init total sum count
init-Valid = record {
  distinct = tt;
  once = λ i. omega arith;
  open_chans = λ i h. refl;
  fresh = λ i h. refl;
  bounded = λ i. omega arith;
}

-- In every interleaving of subscribers, publishers, receivers, and of the two parts of
-- `Unsubscribe`, nothing panics (no send on a closed channel and no second close), and what is
-- reached is valid: a Go channel stands in one list at most, is open while it does, and holds no
-- more than 100 messages.
pub run_events-Runs : (events : List Event) → Runs (run_events events init)
run_events-Runs events = run_events-Valid events init init-Valid
