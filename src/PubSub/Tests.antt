-- ===== src/PubSub/Tests.antt =====
-- The theorems on pkg/pubsub at concrete steps.
use fast_and_accurate_store.Base.{
  ℕ, zero, suc, true, false, arith, replicate, ◌==◌, if◌then◌else◌, ◌≡◌, refl, Option, none, some,
  List, [], ◌∷◌, Bytes, codes, str_eq,
}
use fast_and_accurate_store.PubSub.{
  PubSub, GoChan, empty_chan, has, send_all, init, Event, subscribed, unsubscribed, closing_ended,
  published, received, run_events, send,
}
use fast_and_accurate_store.PubSub.Deliver.{Took, send_all-Took}
use fast_and_accurate_store.PubSub.Safety.{Runs, run_events-Runs}

abbrev news : Bytes
news = codes "news"

-- The first of two subscribers leaves while messages are sent, and its channel is closed late.
abbrev events : List Event
events =
    subscribed news
    ∷ subscribed news
    ∷ published news (codes "a")
    ∷ unsubscribed news 0
    ∷ published news (codes "b")
    ∷ closing_ended 0
    ∷ received 1
    ∷ []

abbrev view : Option PubSub → Option (List (List Bytes))
view none = none
view (some ps) = some ((ps.chans 0).buffer ∷ (ps.chans 1).buffer ∷ [])

delivered : view (run_events events init) ≡ some ((codes "a" ∷ []) ∷ (codes "b" ∷ []) ∷ [])
unfolding run_events init send str_eq
delivered = refl

run_events-Runs_example : Runs (run_events events init)
run_events-Runs_example = run_events-Runs events

abbrev full_chan : GoChan
full_chan = record { buffer = replicate 100 (codes "a"); closed = false }

-- Of two subscribers the first has no room.
abbrev two_chans : ℕ → GoChan
two_chans i = if i == 0 then full_chan else empty_chan

two_chans_open : (i : ℕ) → has i (0 ∷ 1 ∷ []) ≡ true → (two_chans i).closed ≡ false
two_chans_open zero h = refl
two_chans_open (suc i) h = ground arith

send_all-Took_example :
    Took (0 ∷ 1 ∷ []) (codes "b") two_chans (send_all (0 ∷ 1 ∷ []) (codes "b") two_chans)
unfolding has
send_all-Took_example =
    send_all-Took (0 ∷ 1 ∷ []) (codes "b") two_chans (refl, (refl, tt)) two_chans_open
