-- ===== src/Server/Restore/Logged.antt =====
-- What a restore gives back of a log in pkg/server/server.go.
use fast_and_accurate_store.Server.Execute.Total.{IsReady, execute-returns}
use fast_and_accurate_store.Protocol.Command.{Command}
use fast_and_accurate_store.Base.{
  true, zero, suc, ◌<◌, ◌^◌, Bytes, ◌∷◌, ◌++◌, ℕ, ◌≡◌, refl, ◌∙◌, Bool, false, Option, none, some,
  List, [], Bytes, Bool-cases, inl, inr,
}
use fast_and_accurate_store.Protocol.Command.{Command}
use fast_and_accurate_store.Persistence.Log.{Aof, new_aof, whole, lost, torn}
use fast_and_accurate_store.Persistence.Aof.{ended, read_commands, AllLoggable}
use fast_and_accurate_store.Server.Config.{is_blank}
use fast_and_accurate_store.Server.State.{Server}
use fast_and_accurate_store.Server.Handler.{World}
use fast_and_accurate_store.Server.Execute.Effect.{accepted}
use fast_and_accurate_store.Server.Session.{Call, run_calls, told_by}
use fast_and_accurate_store.Server.Session.Record.{
  writes_of, whole-writes_of, read_commands-run_calls,
}
use fast_and_accurate_store.Server.Restore.{
  replay_all, restored, open_log, load_snapshot, init_aof, restore_data,
}

load_snapshot-none :
    (readable : Bool) (now : ℕ) (s : Server)
    → s.snapshot ≡ none
    → load_snapshot readable now s ≡ some s
load_snapshot-none readable now s n = elim (Bool-cases (is_blank s.config.rdb_path)) [
  | inl h ↦ unfold load_snapshot in rw h refl
  | inr h ↦ unfold load_snapshot in simp (h, n)
]

restore_data-log :
    (worlds : ℕ → World) (readable : Bool) (now : ℕ) (log : Option Bytes) (s : Server)
    → s.snapshot ≡ none
    → is_blank s.config.aof_path ≡ false
    → restore_data worlds readable now log s ≡ init_aof worlds log s
unfolding restore_data
restore_data-log worlds readable now log s n p =
    rw (restore_data, load_snapshot-none readable now s n, p) refl

init_aof-ended :
    (worlds : ℕ → World) (log : Option Bytes) (file : Bytes) (cmds : List Command) (s s' : Server)
    → log ≡ some file
    → read_commands file ≡ some (cmds, ended)
    → replay_all worlds cmds s ≡ some s'
    → init_aof worlds log s
      ≡ restored (record s' { aof = some (new_aof s'.config.fsync_policy file) })
unfolding init_aof open_log
init_aof-ended worlds log file cmds s s' e r h = rw (e, r, h) refl

-- A replay returns.
replay_all-returns :
    (n : ℕ) (worlds : ℕ → World) (cmds : List Command) (s : Server)
    → 0 < n
    → n < 2 ^ 16
    → IsReady n s
    → (s' : Server) × ((replay_all worlds cmds s ≡ some s') × IsReady n s')
unfolding replay_all
replay_all-returns n worlds [] s h l r = (s, (refl, r))
replay_all-returns n worlds (cmd ∷ cmds) s h l r =
    let (s', (reply, (e, r'))) = execute-returns n (worlds zero) true s cmd h l r in
    let (s'', (e', r'')) = replay_all-returns n (λ k. worlds (suc k)) cmds s' h l r' in
    (s'', (rw (replay_all, e) e', r''))

-- A server that is started with an empty log serves any commands, and if the disk cuts a write to the
-- log short, it takes nothing of it; then a server of 1 to 65535 slots is started over the log that
-- the first has left, with no snapshot. The start succeeds and comes to the replay, in their order, of
-- the SETs that were answered with OK before that write, of all of them if there is none, where each is
-- one that the parser takes. That SET and those behind it, which were answered with OK too, are lost.
pub restore_data-run_calls :
    (n : ℕ) (calls : List Call) (s s' fresh : Server) (aof : Aof) (replies : List Bytes)
    (worlds : ℕ → World) (readable : Bool) (now : ℕ)
    → s.aof ≡ some aof
    → aof.file ≡ []
    → aof.failed ≡ false
    → run_calls calls s ≡ some (s', replies)
    → torn (writes_of calls replies) ≡ []
    → AllLoggable (whole (writes_of calls replies))
    → 0 < n
    → n < 2 ^ 16
    → IsReady n fresh
    → fresh.snapshot ≡ none
    → is_blank fresh.config.aof_path ≡ false
    → (whole (writes_of calls replies) ++ lost (writes_of calls replies)
        ≡ told_by accepted calls replies)
      × ((left : Aof) × ((s'.aof ≡ some left)
            × ((recovered : Server) × ((replay_all worlds (whole (writes_of calls replies)) fresh
                    ≡ some recovered)
                  × (restore_data worlds readable now (some left.file) fresh
                      ≡ restored (record recovered {
                        aof = some (new_aof recovered.config.fsync_policy left.file);
                      }))))))
restore_data-run_calls n calls s s' fresh aof replies worlds readable now h blank f e t l pos_n
      below r unsaved p =
    let cmds = whole (writes_of calls replies) in
    let (left, (log, read)) = read_commands-run_calls calls s s' aof replies h blank f e t l in
    let (recovered, (replayed, r')) = replay_all-returns n worlds cmds fresh pos_n below r in
    (
      whole-writes_of calls replies,
      (
        left,
        (
          log,
          (
            recovered,
            (
              replayed,
              restore_data-log worlds readable now (some left.file) fresh unsaved p
                  ∙ init_aof-ended worlds (some left.file) left.file cmds fresh recovered refl read
                      replayed,
            ),
          ),
        ),
      ),
    )
