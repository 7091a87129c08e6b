-- ===== src/PubSub.antt =====
-- pkg/pubsub/pubsub.go. What runs under the lock is one step; `close`, behind the lock, is a step of
-- its own, and so is a receive. Go channels are numbered as they are made.
mod Tests
pub mod Valid
pub mod Safety
pub mod Deliver
use fast_and_accurate_store.Base.{
  ℕ, ◌+◌, Bool, true, false, Option, none, some, List, [], ◌∷◌, ◌++◌, Bytes, ltb, ◌==◌,
  if◌then◌else◌, length,
}
use fast_and_accurate_store.Base.Table.{Table, lookup, insert, remove}

-- `make(chan string, 100)`
abbrev pub capacity : ℕ
capacity = 100

pub record GoChan : Type 0 where
  pub buffer : List Bytes
  pub closed : Bool

-- The map, the Go channels, how many were made, and those that an `Unsubscribe` has taken off its
-- list and not closed yet.
pub record PubSub : Type 0 where
  pub channels : Table (List ℕ)
  pub chans : ℕ → GoChan
  pub made : ℕ
  pub closing : List ℕ

abbrev pub empty_chan : GoChan
empty_chan = record { buffer = []; closed = false }

-- `New`
unfoldable pub init : PubSub
init = record { channels = []; chans = λ i. empty_chan; made = 0; closing = [] }

-- The write of one Go channel.
unfoldable pub put : ℕ → GoChan → (ℕ → GoChan) → ℕ → GoChan
put i ch chans j = if i == j then ch else chans j

unfoldable pub subscribers : Bytes → Table (List ℕ) → List ℕ
unfolding lookup
subscribers channel m = elim (lookup channel m) [ none ↦ [] | some ids ↦ ids ]

-- `Subscribe`; the channel that it returns is number `made`.
unfoldable pub subscribe : Bytes → PubSub → PubSub
unfolding subscribers put insert
subscribe channel ps = record ps {
  channels = insert channel (subscribers channel ps.channels ++ ps.made ∷ []) ps.channels;
  chans = put ps.made empty_chan ps.chans;
  made = ps.made + 1;
}

unfoldable pub has : ℕ → List ℕ → Bool
has i [] = false
has i (j ∷ ids) = let rest = has i ids in if j == i then true else rest

unfoldable pub remove_first : ℕ → List ℕ → List ℕ
remove_first i [] = []
remove_first i (j ∷ ids) = let rest = remove_first i ids in if j == i then ids else j ∷ rest

-- The loop of `Unsubscribe`.
unfoldable pub unlink : Bytes → ℕ → List ℕ → PubSub → PubSub
unfolding has remove_first insert
unlink channel i ids ps =
    if has i ids
    then record ps {
      channels = insert channel (remove_first i ids) ps.channels;
      closing = i ∷ ps.closing;
    }
    else ps

abbrev pub is_empty : List ℕ → Bool
is_empty [] = true
is_empty (i ∷ ids) = false

-- Clean up of an empty list
unfoldable pub clean_up : Bytes → Table (List ℕ) → Table (List ℕ)
unfolding subscribers remove
clean_up channel m = if is_empty (subscribers channel m) then remove channel m else m

-- `Unsubscribe` up to the release of its lock
unfoldable pub unsubscribe : Bytes → ℕ → PubSub → PubSub
unfolding unlink clean_up lookup
unsubscribe channel i ps = elim (lookup channel ps.channels) [
  | none ↦ ps
  | some ids ↦
      let ps' = unlink channel i ids ps in record ps' { channels = clean_up channel ps'.channels }
]

-- The `close` that ends an `Unsubscribe`; it panics on a closed channel.
unfoldable pub close_chan : ℕ → PubSub → Option PubSub
unfolding has remove_first put
close_chan i ps =
    if has i ps.closing
    then if (ps.chans i).closed
      then none
      else some (record ps {
        chans = put i (record (ps.chans i) { closed = true }) ps.chans;
        closing = remove_first i ps.closing;
      })
    else some ps

-- The `select` of `Publish`; a send on a closed channel panics.
unfoldable pub send : Bytes → GoChan → Option (GoChan × ℕ)
send message ch =
    if ch.closed
    then none
    else if ltb (length ch.buffer) capacity
    then some (record ch { buffer = ch.buffer ++ message ∷ [] }, 1)
    else some (ch, 0)

unfoldable pub send_all : List ℕ → Bytes → (ℕ → GoChan) → Option ((ℕ → GoChan) × ℕ)
unfolding put
send_all [] message chans = some (chans, 0)
send_all (i ∷ ids) message chans = elim (send message (chans i)) [
  | none ↦ none
  | some (ch, sent) ↦ elim (send_all ids message (put i ch chans)) [
    | none ↦ none
    | some (chans', count) ↦ some (chans', sent + count)
  ]
]

-- `Publish`
unfoldable pub publish : Bytes → Bytes → PubSub → Option (PubSub × ℕ)
unfolding send_all lookup
publish channel message ps = elim (lookup channel ps.channels) [
  | none ↦ some (ps, 0)
  | some ids ↦ elim (send_all ids message ps.chans) [
    | none ↦ none
    | some (chans, count) ↦ some (record ps { chans = chans }, count)
  ]
]

abbrev pub tail : List Bytes → List Bytes
tail [] = []
tail (message ∷ rest) = rest

-- A receive by the subscriber
unfoldable pub receive : ℕ → PubSub → PubSub
unfolding put
receive i ps = record ps {
  chans = put i (record (ps.chans i) { buffer = tail (ps.chans i).buffer }) ps.chans;
}

pub data Event : Type 0 where
  subscribed : Bytes → Event
  unsubscribed : Bytes → ℕ → Event
  closing_ended : ℕ → Event
  published : Bytes → Bytes → Event
  received : ℕ → Event

unfoldable pub step : Event → PubSub → Option PubSub
unfolding subscribe unsubscribe close_chan publish receive
step (subscribed channel) ps = some (subscribe channel ps)
step (unsubscribed channel i) ps = some (unsubscribe channel i ps)
step (closing_ended i) ps = close_chan i ps
step (published channel message) ps = elim (publish channel message ps) [
  | none ↦ none
  | some (ps', count) ↦ some ps'
]
step (received i) ps = some (receive i ps)

-- Any interleaving of the steps; none where one panics.
unfoldable pub run_events : List Event → PubSub → Option PubSub
unfolding step
run_events [] ps = some ps
run_events (e ∷ events) ps = elim (step e ps) [ none ↦ none | some ps' ↦ run_events events ps' ]
