-- ===== src/Server/Replication/Stream.antt =====
-- What a replica makes of its master's commands in pkg/server/server.go.
use fast_and_accurate_store.Base.{
  ℕ, zero, suc, ◌<◌, ◌≡◌, refl, true, Option-cases, inl, inr, Option, none, some, List, [], ◌∷◌,
  arith, length,
}
use fast_and_accurate_store.Protocol.Command.{Command}
use fast_and_accurate_store.Protocol.Stream.{parse_command}
use fast_and_accurate_store.Persistence.Aof.{Loggable, AllLoggable, length-text, parse_command-text}
use fast_and_accurate_store.Persistence.Aof
use fast_and_accurate_store.Server.State.{Server}
use fast_and_accurate_store.Server.Handler.{World}
use fast_and_accurate_store.Server.Execute.{execute}
use fast_and_accurate_store.Server.Restore.{replay_all}
use fast_and_accurate_store.Server.Replication.{
  Followed, followed, follow_panicked, follow_leader, follow_reading, follow_rounds, follow,
}

-- What becomes of a replay
abbrev pub as_followed : Option Server → Followed
as_followed none = follow_panicked
as_followed (some s) = followed s

follow_rounds-nothing :
    (rounds : ℕ) (worlds : ℕ → World) (s : Server)
    → follow_rounds (suc rounds) worlds (Aof.text []) s ≡ followed s
unfolding follow_rounds follow_reading parse_command Aof.text
follow_rounds-nothing rounds worlds s = refl

follow_rounds-text :
    (cmds : List Command) (rounds : ℕ) (worlds : ℕ → World) (s : Server)
    → AllLoggable cmds
    → length cmds < rounds
    → follow_rounds rounds worlds (Aof.text cmds) s ≡ as_followed (replay_all worlds cmds s)
unfolding follow_rounds replay_all
follow_rounds-text cmds zero worlds s h l = absurd (omega arith)
follow_rounds-text [] (suc rounds) worlds s h l = follow_rounds-nothing rounds worlds s
follow_rounds-text (cmd ∷ cmds) (suc rounds) worlds s h l =
    elim (Option-cases (execute (worlds zero) true s cmd)) [
      | inl e ↦
          rw (follow_rounds, parse_command-text cmd cmds h.0, follow_reading, replay_all, e) refl
      | inr ((s', reply), e) ↦
          rw (follow_rounds, parse_command-text cmd cmds h.0, follow_reading, replay_all, e)
            (follow_rounds-text cmds rounds (λ n. worlds (suc n)) s' h.1 (omega arith))
    ]

-- A replica that is sent commands, each of which is one that the parser takes, and then loses its
-- master has taken the master for its leader and replayed the commands in their order; it panics if
-- the replay does.
pub follow-text :
    (cmds : List Command) (worlds : ℕ → World) (s : Server)
    → AllLoggable cmds
    → follow worlds (Aof.text cmds) s ≡ as_followed (replay_all worlds cmds (follow_leader s))
unfolding follow
follow-text cmds worlds s h =
    follow_rounds-text cmds (suc (length (Aof.text cmds))) worlds (follow_leader s) h
      (omega (arith, length-text cmds))
