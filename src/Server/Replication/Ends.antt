-- ===== src/Server/Replication/Ends.antt =====
-- The inner loop of startReplicaClient in pkg/server/server.go ends.
use fast_and_accurate_store.Base.{
  ℕ, zero, suc, ◌<◌, ◌≢◌, true, Option-cases, inl, inr, Bytes, arith, length,
}
use fast_and_accurate_store.Protocol.Stream.{Reading, parse_command}
use fast_and_accurate_store.Protocol.Shortens.{
  Shortens, shorter_command, shorter_nothing, at_eof, at_unexpected, at_error, at_panic,
  parse_command-Shortens,
}
use fast_and_accurate_store.Server.State.{Server}
use fast_and_accurate_store.Server.Handler.{World}
use fast_and_accurate_store.Server.Execute.{execute}
use fast_and_accurate_store.Server.Replication.{
  Followed, follow_unfinished, follow_leader, follow_reading, follow_rounds, follow,
}

follow_reading-ends :
    (w : World) (r : Reading) (n : ℕ) (s : Server) (rest : Bytes → Server → Followed)
    → Shortens n r
    → ((left : Bytes) (s' : Server) → length left < n → rest left s' ≢ follow_unfinished)
    → follow_reading w r s rest ≢ follow_unfinished
unfolding follow_reading
follow_reading-ends w r n s rest (shorter_command {cmd} {left} h) k =
    elim (Option-cases (execute w true s cmd)) [
      | inl e ↦ rw (follow_reading, e) (λ p. cc p)
      | inr ((s', reply), e) ↦ rw (follow_reading, e) (k left s' h)
    ]
follow_reading-ends w r n s rest (shorter_nothing {left} h) k = k left s h
follow_reading-ends w r n s rest at_eof k = λ p. cc p
follow_reading-ends w r n s rest at_unexpected k = λ p. cc p
follow_reading-ends w r n s rest at_error k = λ p. cc p
follow_reading-ends w r n s rest at_panic k = λ p. cc p

follow_rounds-ends :
    (rounds : ℕ) (worlds : ℕ → World) (input : Bytes) (s : Server)
    → length input < rounds
    → follow_rounds rounds worlds input s ≢ follow_unfinished
unfolding follow_rounds
follow_rounds-ends zero worlds input s l = absurd (omega arith)
follow_rounds-ends (suc rounds) worlds input s l =
    follow_reading-ends (worlds zero) (parse_command input) (length input) s _
      (parse_command-Shortens input)
      (λ left s' h. follow_rounds-ends rounds (λ n. worlds (suc n)) left s' (omega arith))

-- The loop ends on every input: a round more than it has bytes is enough.
pub follow-ends :
    (worlds : ℕ → World) (input : Bytes) (s : Server) → follow worlds input s ≢ follow_unfinished
unfolding follow
follow-ends worlds input s =
    follow_rounds-ends (suc (length input)) worlds input (follow_leader s) (omega arith)
