-- ===== src/Server/State.antt =====
-- The `Server` of pkg/server/server.go. The snapshot's file is the entries in
-- it. A replica's channel is the commands that wait in it.
use fast_and_accurate_store.Base.{
  ℕ, Bool, false, not, Option, none, List, [], ◌∷◌, ◌++◌, Bytes, ltb, str_eq, if◌then◌else◌, length,
}
use fast_and_accurate_store.Base.Int.{ℤ}
use fast_and_accurate_store.Protocol.Command.{Command}
use fast_and_accurate_store.Persistence.Log.{Aof}
use fast_and_accurate_store.Store.Types.{SnapshotEntry}
use fast_and_accurate_store.Store.State.{Store}
use fast_and_accurate_store.Store.State
use fast_and_accurate_store.PubSub.{PubSub}
use fast_and_accurate_store.PubSub
use fast_and_accurate_store.Server.Cluster.{SlotRange, new_ranges, int_text, Node}
use fast_and_accurate_store.Server.Config.{Config, is_blank, validate_and_fill}

pub record Server : Type 0 where
  pub config : Config
  pub store : Store
  pub pubsub : PubSub
  pub aof : Option Aof
  pub snapshot : Option (List SnapshotEntry)
  pub bg_saving : Bool
  pub clients : ℕ
  pub replicas : List (ℕ × List Command)
  pub replica_seq : ℕ
  pub replica_mode : Bool
  pub master_addr : Bytes
  pub leader_addr : Bytes
  pub self_addr : Bytes
  pub slot_count : ℤ
  pub ranges : List SlotRange

-- `fmt.Sprintf("%s:%d", config.Host, config.Port)`
unfoldable pub addr_of : Config → Bytes
unfolding int_text
addr_of c = c.host ++ (b':' ∷ int_text c.port)

-- `NewServer`, whose check of the config has no consequence
unfoldable pub new_server : Config → Server
unfolding validate_and_fill addr_of new_ranges State.init PubSub.init
new_server config =
    let c = (validate_and_fill config).0 in
    record {
      config = c;
      store = State.init c.max_memory c.eviction;
      pubsub = PubSub.init;
      aof = none;
      snapshot = none;
      bg_saving = false;
      clients = 0;
      replicas = [];
      replica_seq = 0;
      replica_mode = not (is_blank c.replica_of);
      master_addr = c.replica_of;
      leader_addr = addr_of c;
      self_addr = addr_of c;
      slot_count = c.slots;
      ranges = new_ranges c.slots (addr_of c);
    }

-- `isLeader`
unfoldable pub is_leader : Server → Bool
unfolding str_eq
is_leader s = str_eq s.leader_addr s.self_addr

unfoldable pub node_of : Server → Node
unfolding is_leader
node_of s = record {
  slots = s.slot_count;
  ranges = s.ranges;
  self_addr = s.self_addr;
  leader = is_leader s;
}

-- The size of a replica's channel
abbrev pub replica_capacity : ℕ
replica_capacity = 1024

-- The `select` of broadcastToReplicas
unfoldable pub offer : Command → List Command → List Command
offer cmd waiting = if ltb (length waiting) replica_capacity then waiting ++ cmd ∷ [] else waiting

unfoldable pub offer_all : Command → List (ℕ × List Command) → List (ℕ × List Command)
unfolding offer
offer_all cmd [] = []
offer_all cmd ((id, waiting) ∷ replicas) = (id, offer cmd waiting) ∷ offer_all cmd replicas
