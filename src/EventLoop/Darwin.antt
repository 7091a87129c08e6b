-- ===== src/EventLoop/Darwin.antt =====
-- pkg/server/eventloop_darwin.go, where it differs from the Linux loop: a read event reads once, the
-- gate goes by the password, and an event is for reading or for writing.
use fast_and_accurate_store.Base.{
  ℕ, ◌≡◌, refl, sym, ap, ◌∙◌, Bool, true, false, Option, none, some, List, [], ◌∷◌, ◌++◌,
  append-nil, Bytes,
}
use fast_and_accurate_store.Protocol.Command.{Command}
use fast_and_accurate_store.EventLoop.Client.{ClientState, WriteAnswer, write_darwin, accepted}
use fast_and_accurate_store.EventLoop.Loop.{After, kept, closed, crashed, unfinished, feed}
use fast_and_accurate_store.EventLoop.Loop.Fragments.{and_then, feed-append}

-- `el.server.config.Password != ""`
abbrev pub has_password : Bytes → Bool
has_password [] = false
has_password (c ∷ password) = true

-- The `ClientState` that `accept` makes
unfoldable pub accepted_darwin : Bytes → ClientState
unfolding accepted
accepted_darwin password = accepted (has_password password)

-- What the one call of syscall.Read in `read` returns: bytes, none of them at the end of the input;
-- EAGAIN; or another error.
pub data ReadOnce : Type 0 where
  got : Bytes → ReadOnce
  would_block : ReadOnce
  broken : ReadOnce

-- What kqueue tells of the connection.
pub data KqueueEvent : Type 0 where
  end_of_file : KqueueEvent
  readable : ReadOnce → KqueueEvent
  writable : (Bytes → WriteAnswer) → KqueueEvent

-- Pieces with a byte at least, each as its first byte and those behind it.
abbrev pub Piece : Type 0
Piece = ℕ × Bytes

-- The pieces together
abbrev pub concat : List Piece → Bytes
concat [] = []
concat ((b, piece) ∷ pieces) = b ∷ (piece ++ concat pieces)

module _ {S : Type 0} (exec : S → Command → Option (S × Bytes)) (ctl : Bytes → Bool)
    (password : Bytes) where
  -- `read`
  unfoldable pub read_darwin : ReadOnce → S → ClientState → After S
  read_darwin (got []) s c = closed s c.authed
  read_darwin (got (b ∷ input)) s c = feed exec ctl (has_password password) password s c (b ∷ input)
  read_darwin would_block s c = kept s c
  read_darwin broken s c = closed s c.authed

  abbrev pub after_flush_darwin : S → Bool → Option ClientState → After S
  after_flush_darwin s authed none = closed s authed
  after_flush_darwin s authed (some c) = kept s c

  -- What the loop of `StartEventLoop` does with an event, and the bytes that it puts on the wire.
  unfoldable pub dispatch_darwin : KqueueEvent → S → ClientState → After S × Bytes
  unfolding read_darwin write_darwin
  dispatch_darwin end_of_file s c = (closed s c.authed, [])
  dispatch_darwin (readable answer) s c = (read_darwin answer s c, [])
  dispatch_darwin (writable kernel) s c =
      let flushed = write_darwin kernel c in
      (after_flush_darwin s c.authed flushed.client, flushed.wire)

  -- Reads of some pieces of the input, one after the other.
  abbrev pub read_pieces : List Piece → S → ClientState → After S
  read_pieces [] s c = kept s c
  read_pieces ((b, piece) ∷ pieces) s c =
      and_then exec ctl (has_password password) password (read_darwin (got (b ∷ piece)) s c)
        λ s' c'. read_pieces pieces s' c'

  and_then-kept :
      (a : After S) → and_then exec ctl (has_password password) password a (λ s c. kept s c) ≡ a
  and_then-kept (kept s c) = refl
  and_then-kept (closed s authed) = refl
  and_then-kept crashed = refl
  and_then-kept unfinished = refl

  and_then-ext :
      (a : After S) (f g : S → ClientState → After S)
      → ((s : S) (c : ClientState) → f s c ≡ g s c)
      → and_then exec ctl (has_password password) password a f
        ≡ and_then exec ctl (has_password password) password a g
  and_then-ext (kept s c) f g h = h s c
  and_then-ext (closed s authed) f g h = refl
  and_then-ext crashed f g h = refl
  and_then-ext unfinished f g h = refl

  pieces-eq-feed :
      (b : ℕ) (piece : Bytes) (pieces : List Piece) (s : S) (c : ClientState)
      → read_pieces ((b, piece) ∷ pieces) s c
        ≡ feed exec ctl (has_password password) password s c (concat ((b, piece) ∷ pieces))
  unfolding read_darwin
  pieces-eq-feed b piece [] s c =
      and_then-kept (feed exec ctl (has_password password) password s c (b ∷ piece))
      ∙ ap (λ l. feed exec ctl (has_password password) password s c (b ∷ l))
          (sym (append-nil piece))
  pieces-eq-feed b piece ((b', next) ∷ pieces) s c =
      and_then-ext (feed exec ctl (has_password password) password s c (b ∷ piece))
        (read_pieces ((b', next) ∷ pieces)) _ (λ s' c'. pieces-eq-feed b' next pieces s' c')
      ∙ sym (
          feed-append exec ctl (has_password password) password s c (b ∷ piece)
            (concat ((b', next) ∷ pieces)))

  -- The Darwin loop, which reads the input in pieces of its buffer's size, comes to the same as the
  -- Linux loop, which reads all of it first, where both have the gate up or both down: the same server
  -- and connection, with the same replies waiting, or the same end.
  pub read_pieces-eq-feed :
      (required : Bool) (piece : Piece) (pieces : List Piece) (s : S) (c : ClientState)
      → required ≡ has_password password
      → read_pieces (piece ∷ pieces) s c
        ≡ feed exec ctl required password s c (concat (piece ∷ pieces))
  read_pieces-eq-feed required (b, piece) pieces s c h =
      pieces-eq-feed b piece pieces s c
      ∙ ap (λ r. feed exec ctl r password s c (concat ((b, piece) ∷ pieces))) (sym h)
