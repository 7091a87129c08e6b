-- ===== src/Lib.antt =====
-- Verification of fast-and-accurate-store, an in-memory key-value server in Go.
--
-- The program: pkg/store keeps the keys with their expiry, memory accounting and eviction;
-- pkg/server executes commands against it for each connection; pkg/protocol reads and writes RESP;
-- pkg/pubsub hands messages to subscribers; pkg/persistence logs commands and saves snapshots.
--
-- What models what:
--   Base          the helpers: bytes, tables, `int64` as a 64-bit pattern with wrapping sums
--   Heap          container/heap, as pkg/store/store.go calls it (heap.Push, heap.Pop)
--   Store.Fifo    the FIFO ring of pkg/store/store.go (fifoKeys and the functions on it)
--   Store.State   the record `Store`, deleteKeyUnlocked, pushHeaps, popLRU, popLFU
--   Store.Evict   evictIfNeeded and the loops that it calls
--   Store.Ops     setUnlocked, getUnlockedWithNow, getWithNow, Delete, Stats, SnapshotEntries,
--                 RestoreSnapshot, activeExpire
--   Store.Limit   what eviction guarantees of the memory limit
--   Store.View    what a client sees of the store
--   Protocol      pkg/protocol: Text (what it uses of strings and fmt), Writer (writer.go), Command,
--                 Buffer (ParseCommandFromBytes, parseInline, parseRESPArray, indexCRLF) and
--                 Stream (ParseCommand) of parser.go
--   Protocol.RoundTrip, Decimal, Consumed, Extends, Shortens, Panics   the parsers' properties
--   Persistence   pkg/persistence/aof.go: Log (NewAOF and Write, with what the disk answers) and Aof
--                 (ReadCommands, and what Write leaves in the file); Torn, Ends: its properties
--   PubSub        pkg/pubsub/pubsub.go: Subscribe, Unsubscribe, Publish, and the Go channels
--   Server.Slot, Server.Cluster   pkg/server/slot.go, pkg/server/cluster.go (ParseSlotRanges in
--                 Cluster.Ranges), and the redirection at the head of executeCommand in
--                 pkg/server/server.go
--   Server.Eviction   ParseEvictionPolicy of pkg/server/eviction.go
--   Server.Config   Config and ValidateAndFill of pkg/server/server.go; Config.Loader:
--                 pkg/server/config_loader.go; Server.Text: what these use of strings and strconv
--   Server.Main   main of cmd/fas/main.go, from the flags to the configuration
--   Server.State  the record `Server`, NewServer, and the channels of the replicas
--   Server.Execute   executeCommand; its commands in Server.Keys (SET, GET, PUBLISH), Server.Info
--                 (INFO, CLUSTER), Server.Saving (SAVE, BGSAVE) and Server.Migrate
--                 (pkg/server/migrate.go), over Server.Handler
--   Server.Session   runs of commands, the log and the replicas behind them; Server.Restore:
--                 restoreData and initAOF
--   Server.Replication   handleReplicaConnection, startReplicaClient and startLeaderHeartbeat;
--                 Server.Clients: the count of clients in Start and handleConnection;
--                 Server.Subscribe: handleSubscribe; Server.HandOver: what handleConnection calls
--                 of these
--   Server.Connection   handleConnection and isAllowed; Server.Reply: what a response becomes on the
--                 wire there and in the event loops; Server.Pipeline: several commands at once
--   EventLoop     pkg/server/eventloop_linux.go and pkg/server/eventloop_darwin.go: Client (the
--                 buffers, queueWrite, write, enableWrite, disableWrite), Gate (AUTH), Loop (the loop
--                 of `read` over the buffer), Schedule (the events of a connection), Darwin (where
--                 that loop differs), Alike (the loops and handleConnection compared)
--
-- Choices: a Go string is the list of its bytes; a map is a list of pairs with one pair for a key,
-- and a loop that ranges over a map takes the order in which it visits the keys as an argument;
-- what the code reads from the clock is an argument; an `int64` is its 64-bit pattern. Each
-- operation of the store holds its lock, so it is one step; getWithNow, which takes two locks, has
-- an argument for what happens between them. The loops of container/heap take as many rounds as the
-- heap has elements, popLRU and popLFU one for each entry, evictLRU and evictLFU one more, the FIFO
-- loop one for each entry of the ring; each round takes an element off, so the rounds are enough. A
-- run-time panic of a parser, a send on a closed Go channel and a second close are results of their
-- own. What pkg/pubsub does under its lock is one step; the close behind it is another. A number is
-- printed with one more round than its value, and each round divides by ten; the loop of
-- ReadCommands gets one round more than the file has bytes, and each takes one at least.
--
-- The event loops and handleConnection call executeCommand as an argument, so what is shown of them
-- holds of any server. The loop of `read` over the buffer gets one round more than the buffer has
-- bytes, and each round but the last takes a byte off at least; the same holds of the loop of `write`
-- and of the loops over their input of handleConnection, startReplicaClient and ReadCommands. What a
-- system call answers comes with the event; the files are their contents; what the clock, the disk,
-- another node and the orders of the maps contribute to a command is an argument of executeCommand. A
-- write to the log can be cut short by the disk; the bufio.Writer keeps the error and takes nothing
-- more.
--
-- Not modelled: Unicode spaces and letters in strings.TrimSpace, Fields, ToUpper and ToLower; the
-- listener, the dialling and the pauses of pkg/server and its metrics; the set-up of the event loops
-- and their descriptors, which are system calls; the format of the snapshot's file, and Close
-- and backgroundSync of pkg/persistence; package flag; the client cmd/fs, which is a terminal's input
-- and output.
pub mod Base
pub mod Heap
pub mod Store
pub mod Protocol
pub mod Persistence
pub mod PubSub
pub mod Server
pub mod EventLoop
