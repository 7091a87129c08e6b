-- ===== src/Server/Session/Tests.antt =====
-- The theorems on runs of commands at concrete input.
use fast_and_accurate_store.Base.{
  true, ◌≡◌, refl, false, none, some, List, [], ◌∷◌, ◌++◌, Bytes, codes, arith, str_eq,
}
use fast_and_accurate_store.Base.Int.{pos}
use fast_and_accurate_store.Protocol.Text.{
  to_upper, decimal, trim, trim_right, trim_left, scan_int, read_digits,
}
use fast_and_accurate_store.Protocol.Command.{Command}
use fast_and_accurate_store.Protocol.Writer.{write_command}
use fast_and_accurate_store.Protocol.Stream.{parse_command}
use fast_and_accurate_store.Persistence.Aof.{AllLoggable, text}
use fast_and_accurate_store.Store.Types.{all_keys_lru}
use fast_and_accurate_store.Store.State.{Store}
use fast_and_accurate_store.Store.Ops
use fast_and_accurate_store.Store.State
use fast_and_accurate_store.PubSub
use fast_and_accurate_store.Server.Slot.{crc16, key_slot}
use fast_and_accurate_store.Server.Cluster.{redirect, redirect_at, moved, covers}
use fast_and_accurate_store.Server.Config.{Config}
use fast_and_accurate_store.Persistence.Log.{
  fsync_always, taken, cut_short, Aof, new_aof, write, write_through, whole, lost, torn, refuses,
}
use fast_and_accurate_store.Server.State.{Server, is_leader, offer_all, offer}
use fast_and_accurate_store.Server.Handler.{World, net_error}
use fast_and_accurate_store.Server.Keys.{accept_set, run_set}
use fast_and_accurate_store.Server.Execute.{verb_of, run_verb, broadcast, execute}
use fast_and_accurate_store.Server.Execute.Effect.{accepted, written}
use fast_and_accurate_store.Server.Session.{Call, run_calls, told_by}
use fast_and_accurate_store.Server.Session.Record.{writes_of, run_calls-log}
use fast_and_accurate_store.Persistence.Aof
use fast_and_accurate_store.PubSub.Safety.{init-Valid}
use fast_and_accurate_store.Server.Execute.Total.{IsReady}
use fast_and_accurate_store.Server.Restore.{replay_all, restored, broken_log, restore_data}
use fast_and_accurate_store.Server.Restore.Logged.{restore_data-run_calls}
use fast_and_accurate_store.Server.Replication.{follow, follow_leader}
use fast_and_accurate_store.Server.Replication.Stream.{as_followed, follow-text}
use fast_and_accurate_store.Server.Clients.{
  comes, goes, client_events, IsCounted, client_events-start,
}
use fast_and_accurate_store.Server.Session.Replicas.{
  filled_up, no_replicas, within, run_calls-replicas,
}

abbrev config : Config
config = record {
  host = codes "h";
  port = pos 1;
  aof_path = codes "log";
  fsync_policy = fsync_always;
  max_memory = 1000;
  eviction = all_keys_lru;
  auth_enabled = false;
  password = [];
  tls_cert_path = [];
  tls_key_path = [];
  allowed_cidr = [];
  rdb_path = [];
  max_clients = pos 0;
  metrics_port = pos 0;
  replica_of = [];
  replica_use_tls = false;
  replica_pass = [];
  slots = pos 16384;
  static_slots = [];
}

abbrev empty_log : Aof
empty_log = new_aof fsync_always []

-- A leader with an empty log and a replica
abbrev server : Server
server = record {
  config = config;
  store = State.init 1000 all_keys_lru;
  pubsub = PubSub.init;
  aof = some empty_log;
  snapshot = none;
  bg_saving = false;
  clients = 0;
  replicas = (1, []) ∷ [];
  replica_seq = 1;
  replica_mode = false;
  master_addr = [];
  leader_addr = codes "h:1";
  self_addr = codes "h:1";
  slot_count = pos 16384;
  ranges = [];
}

abbrev world : World
world = record {
  now = 5;
  later = 6;
  order = [];
  snapshot_order = [];
  others = λ s. s;
  disk_error = none;
  log_disk = taken;
  dial = λ target request. net_error (codes "refused");
}

abbrev set_command : Command
set_command = record { name = codes "SET"; args = codes "k" ∷ codes "v" ∷ [] }

-- A SET that is accepted, one without a value, and a PING.
abbrev calls : List Call
calls =
    (world, set_command)
    ∷ (world, record { name = codes "SET"; args = codes "k" ∷ [] })
    ∷ (world, record { name = codes "PING"; args = [] })
    ∷ []

abbrev set_server : Server
set_server = record server {
  store = Ops.set [] server.store (codes "k") (codes "v") 0 5 6;
  aof = some (write taken set_command empty_log).0;
  replicas = (1, set_command ∷ []) ∷ [];
}

abbrev replies : List Bytes
replies = codes "OK" ∷ codes "ERR wrong number of arguments for 'set' command" ∷ codes "PONG" ∷ []

ran : run_calls calls server ≡ some (set_server, replies)
unfolding run_calls execute run_verb verb_of broadcast run_set accept_set redirect redirect_at moved
    is_leader offer_all offer str_eq key_slot crc16 covers
ran = refl

told_accepted : told_by accepted calls replies ≡ set_command ∷ []
unfolding verb_of str_eq
told_accepted = refl

run_calls-log_example :
    set_server.aof
    ≡ some (record empty_log {
      file = [] ++ (text (whole (writes_of calls replies)) ++ torn (writes_of calls replies));
      failed = refuses (writes_of calls replies);
    })
run_calls-log_example = run_calls-log calls server set_server empty_log replies refl refl ran

set_command-AllLoggable : AllLoggable (told_by accepted calls replies)
unfolding to_upper verb_of str_eq
set_command-AllLoggable =
    ((refl, (omega arith, (omega arith, (omega arith, (omega arith, tt))))), tt)

nothing_torn : torn (writes_of calls replies) ≡ []
unfolding verb_of str_eq
nothing_torn = refl

whole-AllLoggable : AllLoggable (whole (writes_of calls replies))
unfolding to_upper verb_of str_eq
whole-AllLoggable = ((refl, (omega arith, (omega arith, (omega arith, (omega arith, tt))))), tt)

run_calls-replicas_example :
    set_server.replicas ≡ filled_up (told_by written calls replies) server.replicas
run_calls-replicas_example =
    run_calls-replicas calls server set_server replies (within (omega arith) no_replicas) ran

-- The server that is started over the log
abbrev fresh : Server
fresh = record server { aof = none; replicas = [] }

fresh-IsReady : IsReady 16384 fresh
fresh-IsReady = record { slots = refl; valid = init-Valid }

restore_data-run_calls_example :
    (whole (writes_of calls replies) ++ lost (writes_of calls replies)
      ≡ told_by accepted calls replies)
    × ((left : Aof) × ((set_server.aof ≡ some left)
          × ((recovered : Server) × ((replay_all
                    (λ n. world)
                    (whole (writes_of calls replies))
                    fresh
                  ≡ some recovered)
                × (restore_data (λ n. world) true 9 (some left.file) fresh
                    ≡ restored (record recovered {
                      aof = some (new_aof recovered.config.fsync_policy left.file);
                    }))))))
restore_data-run_calls_example =
    restore_data-run_calls 16384 calls server set_server fresh empty_log replies (λ n. world) true 9
      refl refl refl ran nothing_torn whole-AllLoggable (omega arith) (omega arith) fresh-IsReady
      refl refl

-- A disk that takes ten bytes of the SET and fails
abbrev full : World
full = record world { log_disk = cut_short 10 }

abbrev cut_server : Server
cut_server = record set_server { aof = some (write (cut_short 10) set_command empty_log).0 }

-- The SET is answered with OK, and the server does not start again over the log that it has left.
still_accepted : run_calls ((full, set_command) ∷ []) server ≡ some (cut_server, codes "OK" ∷ [])
unfolding run_calls execute run_verb verb_of broadcast run_set accept_set redirect redirect_at moved
    is_leader offer_all offer str_eq key_slot crc16 covers
still_accepted = refl

abbrev ten_bytes : Bytes
ten_bytes = codes "*3" ++ (13 ∷ 10 ∷ codes "$3" ++ (13 ∷ 10 ∷ codes "SE"))

cut_log : cut_server.aof ≡ some (record empty_log { file = ten_bytes; failed = true })
unfolding write write_through write_command decimal
cut_log = refl

not_restored : restore_data (λ n. world) true 9 (some ten_bytes) fresh ≡ broken_log
unfolding restore_data parse_command trim trim_right trim_left scan_int read_digits
not_restored = refl

follow-text_example :
    follow (λ n. world) (Aof.text (told_by accepted calls replies)) server
    ≡ as_followed (replay_all (λ n. world) (told_by accepted calls replies) (follow_leader server))
follow-text_example =
    follow-text (told_by accepted calls replies) (λ n. world) server set_command-AllLoggable

-- Room for one client
abbrev small_server : Server
small_server = record server { config = record config { max_clients = pos 1 } }

client_events-start_example :
    IsCounted 1 (client_events (comes ∷ comes ∷ goes ∷ comes ∷ []) (0, small_server))
client_events-start_example =
    client_events-start 1 (comes ∷ comes ∷ goes ∷ comes ∷ []) small_server (omega arith) refl refl
