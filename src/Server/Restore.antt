-- ===== src/Server/Restore.antt =====
-- restoreData and initAOF of pkg/server/server.go. The log is the bytes of its file, or none where it
-- cannot be opened; `readable` tells whether LoadSnapshot takes the snapshot's file.
pub mod Logged
use fast_and_accurate_store.Base.{
  ℕ, zero, suc, ◌≡◌, refl, sym, ap, ◌∙◌, subst, Bool, true, false, Option, none, some, List, [],
  ◌∷◌, Bytes, Bool-cases, inl, inr, if◌then◌else◌,
}
use fast_and_accurate_store.Protocol.Command.{Command}
use fast_and_accurate_store.Persistence.Log.{new_aof}
use fast_and_accurate_store.Persistence.Aof.{Ending, ended, broken, crashed, read_commands}
use fast_and_accurate_store.Store.Ops
use fast_and_accurate_store.Server.Config.{is_blank}
use fast_and_accurate_store.Server.State.{Server}
use fast_and_accurate_store.Server.Handler.{World}
use fast_and_accurate_store.Server.Execute.{execute}
use fast_and_accurate_store.Server.Execute.Effect.{accepted}
use fast_and_accurate_store.Server.Execute.Outcome.{Outcome, execute-Outcome}
use fast_and_accurate_store.Server.Session.{Call, run_calls, told_by}
use fast_and_accurate_store.Server.Session.Record.{read_commands-run_calls}

-- The callback of initAOF over the commands of the log, each with what the outside contributes to it;
-- none where one panics. The reply is not looked at.
unfoldable pub replay_all : (ℕ → World) → List Command → Server → Option Server
replay_all worlds [] s = some s
replay_all worlds (cmd ∷ cmds) s = elim (execute (worlds zero) true s cmd) [
  | none ↦ none
  | some (s', reply) ↦ replay_all (λ n. worlds (suc n)) cmds s'
]

-- What a restore comes to: a server that is started, an error that Start returns, a panic, or the
-- bound on the rounds of ReadCommands was too low.
pub data Restored : Type 0 where
  restored : Server → Restored
  no_log no_snapshot broken_log : Restored
  panicked unread : Restored

-- How ReadCommands ended, behind the callback for its commands
unfoldable pub open_log : Bytes → Ending → Server → Restored
open_log file ended s = restored (record s { aof = some (new_aof s.config.fsync_policy file) })
open_log file broken s = broken_log
open_log file crashed s = panicked

abbrev pub after_replay : Bytes → Ending → Option Server → Restored
after_replay file e none = panicked
after_replay file e (some s) = open_log file e s

abbrev pub replay_log : (ℕ → World) → Bytes → Option (List Command × Ending) → Server → Restored
replay_log worlds file none s = unread
replay_log worlds file (some (cmds, e)) s = after_replay file e (replay_all worlds cmds s)

-- `initAOF`
unfoldable pub init_aof : (ℕ → World) → Option Bytes → Server → Restored
unfolding read_commands open_log replay_all
init_aof worlds none s = no_log
init_aof worlds (some file) s = replay_log worlds file (read_commands file) s

-- The snapshot's part of restoreData; none for an error
unfoldable pub load_snapshot : Bool → ℕ → Server → Option Server
unfolding Ops.restore_snapshot
load_snapshot readable now s = if is_blank s.config.rdb_path then some s else elim s.snapshot [
  | none ↦ some s
  | some entries ↦
      if readable
      then some (record s { store = Ops.restore_snapshot entries s.store now })
      else none
]

-- `restoreData`
unfoldable pub restore_data : (ℕ → World) → Bool → ℕ → Option Bytes → Server → Restored
unfolding load_snapshot init_aof
restore_data worlds readable now log s = elim (load_snapshot readable now s) [
  | none ↦ no_snapshot
  | some s' ↦ if is_blank s'.config.aof_path then restored s' else init_aof worlds log s'
]
