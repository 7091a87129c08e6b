-- ===== src/Server/HandOver.antt =====
-- What handleReplicaConnection and handleSubscribe of pkg/server/server.go do before they wait, for
-- handleConnection, which calls them.
use fast_and_accurate_store.Base.{List, [], ◌∷◌, Bytes}
use fast_and_accurate_store.Server.State.{Server}
use fast_and_accurate_store.Server.Handler.{World}
use fast_and_accurate_store.Server.Connection.{
  Leaving, hung_up, dropped, replicating, subscribing, crashed, unfinished,
}
use fast_and_accurate_store.Server.Replication.{snapshot_text, register}
use fast_and_accurate_store.Server.Subscribe.{start_subscribe}

-- The subscription to the first channel; the others are not looked at.
abbrev begin_subscribe : List Bytes → Server → Server × Bytes
unfolding start_subscribe
begin_subscribe [] s = (s, [])
begin_subscribe (channel ∷ channels) s =
    ((start_subscribe channel s).0, (start_subscribe channel s).1.1)

-- The server, and the bytes that are written; only the two hand-overs change it.
unfoldable pub hand_over : World → Leaving → Server → Server × Bytes
unfolding snapshot_text register start_subscribe
hand_over w replicating s = ((register s).0, snapshot_text w s)
hand_over w (subscribing channels) s = begin_subscribe channels s
hand_over w hung_up s = (s, [])
hand_over w dropped s = (s, [])
hand_over w crashed s = (s, [])
hand_over w unfinished s = (s, [])
