-- ===== src/Server/Keys.antt =====
-- SET, GET and PUBLISH of executeCommand in pkg/server/server.go.
use fast_and_accurate_store.Base.{
  Bool, true, not, ◌&&◌, Option, none, some, ◌++◌, Bytes, codes, if◌then◌else◌,
}
use fast_and_accurate_store.Protocol.Text.{decimal}
use fast_and_accurate_store.Protocol.Command.{Command}
use fast_and_accurate_store.Persistence.Log.{DiskAnswer, Aof, write}
use fast_and_accurate_store.Store.Types.{GetResult, found, err_not_found, err_wrong_type}
use fast_and_accurate_store.Store.Ops
use fast_and_accurate_store.PubSub
use fast_and_accurate_store.Server.State.{Server}
use fast_and_accurate_store.Server.Handler.{
  World, wrong_type_text, one_arg, two_args, Done, replied, wrong_args, readonly_text,
}

-- `s.aof.Write(cmd)`, where there is a log; nothing looks at its error.
abbrev pub log_command : DiskAnswer → Command → Option Aof → Option Aof
unfolding write
log_command disk cmd none = none
log_command disk cmd (some aof) = some (write disk cmd aof).0

-- SET behind its checks
unfoldable pub accept_set : World → Command → Bool → Bytes → Bytes → Server → Server
unfolding Ops.set write
accept_set w cmd replay key value s = record s {
  store = Ops.set w.order s.store key value 0 w.now w.later;
  aof = if replay then s.aof else log_command w.log_disk cmd s.aof;
}

unfoldable pub run_set : World → Command → Bool → Server → Option Done
unfolding accept_set
run_set w cmd replay s = elim (two_args cmd.args) [
  | none ↦ replied s (wrong_args (codes "set"))
  | some (key, value) ↦
      if s.replica_mode && not replay
      then replied s readonly_text
      else some (record {
        server = accept_set w cmd replay key value s;
        reply = codes "OK";
        wrote = true;
      })
]

-- The reply to a GET
unfoldable pub get_reply : GetResult → Bytes
get_reply (found value) = value
get_reply err_not_found = codes "(nil)"
get_reply err_wrong_type = codes "ERR " ++ wrong_type_text

unfoldable pub run_get : World → Command → Server → Option Done
unfolding Ops.get_with_now get_reply
run_get w cmd s = elim (one_arg cmd.args) [
  | none ↦ replied s (wrong_args (codes "get"))
  | some key ↦
      let (result, store) = Ops.get_with_now w.others s.store key w.now in
      replied (record s { store = store }) (get_reply result)
]

unfoldable pub run_publish : Command → Bool → Server → Option Done
unfolding PubSub.publish decimal
run_publish cmd replay s = elim (two_args cmd.args) [
  | none ↦ replied s (wrong_args (codes "publish"))
  | some (channel, message) ↦
      if s.replica_mode && not replay
      then replied s readonly_text
      else elim (PubSub.publish channel message s.pubsub) [
        | none ↦ none
        | some (pubsub, count) ↦ some (record {
          server = record s { pubsub = pubsub };
          reply = codes "(integer) " ++ decimal count;
          wrote = true;
        })
      ]
]
