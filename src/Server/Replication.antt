-- ===== src/Server/Replication.antt =====
-- Replication in pkg/server/server.go: handleReplicaConnection, startReplicaClient and the beat of
-- startLeaderHeartbeat. What the network, the clock and the orders of the maps contribute is an
-- argument.
pub mod Stream
pub mod Ends
use fast_and_accurate_store.Base.{
  ℕ, zero, suc, ◌+◌, ◌==◌, Bool, true, false, not, ◌&&◌, Option, none, some, List, [], ◌∷◌, ◌++◌,
  Bytes, codes, length, if◌then◌else◌,
}
use fast_and_accurate_store.Protocol.Command.{Command}
use fast_and_accurate_store.Protocol.Writer.{write_command}
use fast_and_accurate_store.Protocol.Stream.{
  Reading, command, nothing, eof, unexpected_eof, failed, panicked, parse_command,
}
use fast_and_accurate_store.Store.Types.{SnapshotEntry}
use fast_and_accurate_store.Store.Ops
use fast_and_accurate_store.Server.Config.{Config, is_blank}
use fast_and_accurate_store.Server.State.{Server, addr_of}
use fast_and_accurate_store.Server.Handler.{World}
use fast_and_accurate_store.Server.Execute.{execute}

-- The snapshot as SET commands
unfoldable pub entries_text : List SnapshotEntry → Bytes
unfolding write_command
entries_text [] = []
entries_text (e ∷ entries) =
    write_command (codes "SET" ∷ e.key ∷ e.value ∷ []) ++ entries_text entries

-- What handleReplicaConnection writes before it registers the replica.
unfoldable pub snapshot_text : World → Server → Bytes
unfolding entries_text Ops.snapshot_entries
snapshot_text w s = entries_text (Ops.snapshot_entries w.snapshot_order s.store w.now)

-- The registration: the server, and the replica's number.
unfoldable pub register : Server → Server × ℕ
register s =
    let id = s.replica_seq + 1 in
    (record s { replica_seq = id; replicas = s.replicas ++ (id, []) ∷ [] }, id)

-- The goroutine's next command for a replica: the bytes that it writes, and the channels.
unfoldable pub stream_next : ℕ → List (ℕ × List Command) → Option (Bytes × List (ℕ × List Command))
unfolding write_command
stream_next id [] = none
stream_next id ((id', []) ∷ replicas) = elim (stream_next id replicas) [
  | none ↦ none
  | some (output, rest) ↦ some (output, (id', []) ∷ rest)
]
stream_next id ((id', cmd ∷ waiting) ∷ replicas) =
    let later = stream_next id replicas in
    if id' == id
    then some (write_command (cmd.name ∷ cmd.args), (id', waiting) ∷ replicas)
    else elim later [
      | none ↦ none
      | some (output, rest) ↦ some (output, (id', cmd ∷ waiting) ∷ rest)
    ]

-- `delete(s.replicas, id)`
unfoldable pub drop_replica : ℕ → List (ℕ × List Command) → List (ℕ × List Command)
drop_replica id [] = []
drop_replica id ((id', waiting) ∷ replicas) =
    let rest = drop_replica id replicas in if id' == id then rest else (id', waiting) ∷ rest

-- The end of handleReplicaConnection
unfoldable pub unregister : ℕ → Server → Server
unfolding drop_replica
unregister id s = record s { replicas = drop_replica id s.replicas }

-- What startReplicaClient writes to its master.
unfoldable pub handshake : Config → Bytes
unfolding write_command
handshake c =
    (if is_blank c.replica_pass then [] else write_command (codes "AUTH" ∷ c.replica_pass ∷ []))
    ++ write_command (codes "REPL" ∷ [])

-- The update of the leader
unfoldable pub follow_leader : Server → Server
follow_leader s = record s { leader_addr = s.master_addr }

-- How the inner loop of startReplicaClient ends: with the connection, in a panic, or the bound on the
-- rounds was too low.
pub data Followed : Type 0 where
  followed : Server → Followed
  follow_panicked follow_unfinished : Followed

-- One round, on what ParseCommand gives. The reply is not looked at.
unfoldable pub follow_reading : World → Reading → Server → (Bytes → Server → Followed) → Followed
unfolding execute
follow_reading w (command cmd left) s rest = elim (execute w true s cmd) [
  | none ↦ follow_panicked
  | some (s', reply) ↦ rest left s'
]
follow_reading w (nothing left) s rest = rest left s
follow_reading w eof s rest = followed s
follow_reading w unexpected_eof s rest = followed s
follow_reading w (failed e) s rest = followed s
follow_reading w panicked s rest = follow_panicked

-- The inner loop, with a bound on its rounds
unfoldable pub follow_rounds : ℕ → (ℕ → World) → Bytes → Server → Followed
unfolding follow_reading parse_command
follow_rounds zero worlds input s = follow_unfinished
follow_rounds (suc rounds) worlds input s =
    follow_reading (worlds zero) (parse_command input) s
      λ left s'. follow_rounds rounds (λ n. worlds (suc n)) left s'

-- Each round but the last takes a byte at least.
unfoldable pub follow : (ℕ → World) → Bytes → Server → Followed
unfolding follow_rounds follow_leader
follow worlds input s = follow_rounds (suc (length input)) worlds input (follow_leader s)

-- One beat, with whether the master was reached
unfoldable pub heartbeat : Bool → Server → Server
unfolding addr_of
heartbeat reached s =
    if s.replica_mode && not reached
    then record s { leader_addr = addr_of s.config; replica_mode = false }
    else s
