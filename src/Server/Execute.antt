-- ===== src/Server/Execute.antt =====
-- executeCommand of pkg/server/server.go.
pub mod Quiet
pub mod Effect
pub mod Outcome
pub mod Total
use fast_and_accurate_store.Base.{
  ℕ, Bool, not, ◌&&◌, ◌||◌, Option, none, some, ◌∷◌, ◌++◌, Bytes, codes, str_eq, if◌then◌else◌,
}
use fast_and_accurate_store.Protocol.Text.{decimal}
use fast_and_accurate_store.Protocol.Command.{Command}
use fast_and_accurate_store.Server.Cluster.{redirect}
use fast_and_accurate_store.Server.State.{Server, node_of, offer_all}
use fast_and_accurate_store.Server.Handler.{World, Done, replied}
use fast_and_accurate_store.Server.Keys.{run_set, run_get, run_publish}
use fast_and_accurate_store.Server.Info.{info_text, run_cluster}
use fast_and_accurate_store.Server.Saving.{run_save, run_bgsave}
use fast_and_accurate_store.Server.Migrate.{run_migrate}

-- The commands of the `switch`
pub data Verb : Type 0 where
  set get publish ping info cluster save bgsave migrate unknown : Verb

unfoldable pub verb_of : Bytes → Verb
verb_of name =
    if str_eq name (codes "SET")
    then set
    else if str_eq name (codes "GET")
    then get
    else if str_eq name (codes "PUBLISH")
    then publish
    else if str_eq name (codes "PING")
    then ping
    else if str_eq name (codes "INFO")
    then info
    else if str_eq name (codes "CLUSTER")
    then cluster
    else if str_eq name (codes "SAVE")
    then save
    else if str_eq name (codes "BGSAVE")
    then bgsave
    else if str_eq name (codes "MIGRATE")
    then migrate
    else unknown

-- The `switch` of executeCommand
unfoldable pub run_verb : World → Verb → Command → Bool → Server → Option Done
unfolding run_set run_get run_publish info_text run_cluster run_save run_bgsave run_migrate
run_verb w set cmd replay s = run_set w cmd replay s
run_verb w get cmd replay s = run_get w cmd s
run_verb w publish cmd replay s = run_publish cmd replay s
run_verb w ping cmd replay s = replied s (codes "PONG")
run_verb w info cmd replay s = replied s (info_text s)
run_verb w cluster cmd replay s = run_cluster cmd s
run_verb w save cmd replay s = run_save w s
run_verb w bgsave cmd replay s = run_bgsave s
run_verb w migrate cmd replay s = run_migrate w cmd s
run_verb w unknown cmd replay s =
    replied s (codes "ERR unknown command '" ++ (cmd.name ++ codes "'"))

-- broadcastToReplicas
unfoldable pub broadcast : Command → Server → Server
unfolding offer_all
broadcast cmd s =
    if str_eq cmd.name (codes "SET") || str_eq cmd.name (codes "PUBLISH")
    then record s { replicas = offer_all cmd s.replicas }
    else s

-- What the deferred function does at the end of a command.
abbrev pub finish : Command → Bool → Done → Server × Bytes
finish cmd replay d = (if d.wrote && not replay then broadcast cmd d.server else d.server, d.reply)

-- The reply MOVED
unfoldable pub moved_text : ℕ → Bytes → Bytes
moved_text slot target = codes "MOVED " ++ (decimal slot ++ (b' ' ∷ target))

-- executeCommand: none where it panics.
unfoldable pub execute : World → Bool → Server → Command → Option (Server × Bytes)
unfolding run_verb verb_of broadcast moved_text node_of
execute w replay s cmd = elim (redirect (node_of s) replay cmd.args) [
  | none ↦ none
  | some (some (slot, target)) ↦ some (s, moved_text slot target)
  | some none ↦ elim (run_verb w (verb_of cmd.name) cmd replay s) [
    | none ↦ none
    | some d ↦ some (finish cmd replay d)
  ]
]
