-- ===== src/Server/Subscribe.antt =====
-- handleSubscribe of pkg/server/server.go, for its first channel; PubSub models the Go channel.
use fast_and_accurate_store.Base.{ℕ, Option, none, some, [], ◌∷◌, Bytes, codes}
use fast_and_accurate_store.Protocol.Writer.{write_command}
use fast_and_accurate_store.PubSub
use fast_and_accurate_store.Server.State.{Server}

-- The start: the server, the number of the subscriber's Go channel, and the confirmation.
unfoldable pub start_subscribe : Bytes → Server → Server × (ℕ × Bytes)
unfolding PubSub.subscribe write_command
start_subscribe channel s = (
  record s { pubsub = PubSub.subscribe channel s.pubsub },
  (s.pubsub.made, write_command (codes "subscribe" ∷ channel ∷ codes "1" ∷ [])),
)

-- A message that is forwarded; none where the Go channel has none.
unfoldable pub forward : Bytes → ℕ → Server → Option (Server × Bytes)
unfolding PubSub.receive write_command
forward channel i s = elim (s.pubsub.chans i).buffer [
  | [] ↦ none
  | message ∷ messages ↦ some (
    record s { pubsub = PubSub.receive i s.pubsub },
    write_command (codes "message" ∷ channel ∷ message ∷ []),
  )
]

-- The deferred Unsubscribe, when nothing runs between its two parts; none where its `close` panics.
unfoldable pub end_subscribe : Bytes → ℕ → Server → Option Server
unfolding PubSub.unsubscribe PubSub.close_chan
end_subscribe channel i s = elim (PubSub.close_chan i (PubSub.unsubscribe channel i s.pubsub)) [
  | none ↦ none
  | some pubsub ↦ some (record s { pubsub = pubsub })
]
