-- ===== src/EventLoop/Schedule.antt =====
-- The loop of `StartEventLoop` in pkg/server/eventloop_linux.go over the events of one connection,
-- with its `read`. What the system calls answer comes with the events.
pub mod Ahead
pub mod Output
pub mod Armed
use fast_and_accurate_store.Base.{ℕ, Bool, Option, none, some, List, [], ◌∷◌, ◌++◌, Bytes}
use fast_and_accurate_store.Protocol.Command.{Command}
use fast_and_accurate_store.EventLoop.Client.{ClientState, WriteAnswer, Flushed, write}
use fast_and_accurate_store.EventLoop.Loop.{After, kept, closed, crashed, unfinished, feed}

-- What the reads of `read` give: bytes up to EAGAIN, or an error or the end of the input, before which
-- bytes may have come.
pub data ReadAnswer : Type 0 where
  drained : Bytes → ReadAnswer
  ended : Bytes → ReadAnswer

-- What epoll tells of the connection: an error or a hang-up, or that it can be read, written or both.
pub data LoopEvent : Type 0 where
  hung_up : LoopEvent
  ready : Option ReadAnswer → Option (Bytes → WriteAnswer) → LoopEvent

module _ {S : Type 0} (exec : S → Command → Option (S × Bytes)) (ctl : Bytes → Bool)
    (required : Bool) (password : Bytes) where
  -- `read`: at the end of the input nothing is done with what came before it.
  unfoldable pub read : ReadAnswer → S → ClientState → After S
  read (drained input) s c = feed exec ctl required password s c input
  read (ended input) s c = closed s c.authed

  abbrev pub after_read : Option ReadAnswer → S → ClientState → After S
  after_read none s c = kept s c
  after_read (some answer) s c = read answer s c

  abbrev pub after_flush : S → Bool → Option ClientState → After S
  after_flush s authed none = closed s authed
  after_flush s authed (some c) = kept s c

  -- `write`, of a connection that is still in the map.
  unfoldable pub after_write : Option (Bytes → WriteAnswer) → After S → After S × Bytes
  after_write none a = (a, [])
  after_write (some kernel) (kept s c) =
      let flushed = write kernel ctl c in (after_flush s c.authed flushed.client, flushed.wire)
  after_write (some kernel) (closed s authed) = (closed s authed, [])
  after_write (some kernel) crashed = (crashed, [])
  after_write (some kernel) unfinished = (unfinished, [])

  -- One event, and the bytes that it puts on the wire.
  unfoldable pub dispatch : LoopEvent → S → ClientState → After S × Bytes
  dispatch hung_up s c = (closed s c.authed, [])
  dispatch (ready r w) s c = after_write w (after_read r s c)

  -- What comes after an event that has put `wire` on the wire.
  abbrev pub and_later : Bytes → After S → (S → ClientState → After S × Bytes) → After S × Bytes
  and_later wire (kept s c) later = ((later s c).0, wire ++ (later s c).1)
  and_later wire (closed s authed) later = (closed s authed, wire)
  and_later wire crashed later = (crashed, wire)
  and_later wire unfinished later = (unfinished, wire)

  -- The events of a connection, up to its end.
  unfoldable pub run_schedule : List LoopEvent → S → ClientState → After S × Bytes
  run_schedule [] s c = (kept s c, [])
  run_schedule (e ∷ events) s c =
      and_later (dispatch e s c).1 (dispatch e s c).0 λ s' c'. run_schedule events s' c'

-- The bytes that an event brings, and those of all events.
abbrev pub input_of : LoopEvent → Bytes
input_of hung_up = []
input_of (ready none w) = []
input_of (ready (some (drained input)) w) = input
input_of (ready (some (ended input)) w) = input

abbrev pub inputs_of : List LoopEvent → Bytes
inputs_of [] = []
inputs_of (e ∷ events) = input_of e ++ inputs_of events
