-- ===== src/Server/Connection/Gated.antt =====
-- What the checks of handleConnection in pkg/server/server.go guard.
use fast_and_accurate_store.Base.{
  ℕ, zero, suc, ◌≡◌, refl, ap, ◌∙◌, Bool, true, false, inl, inr, Bool-cases, Option, none, some,
  Bytes, codes, length, str_eq, if◌then◌else◌,
}
use fast_and_accurate_store.Protocol.Text.{to_upper}
use fast_and_accurate_store.Protocol.Writer.{write_error}
use fast_and_accurate_store.Protocol.Command.{Command, ParseError}
use fast_and_accurate_store.Protocol.Stream.{
  Reading, command, nothing, eof, unexpected_eof, failed, panicked, parse_command,
}
use fast_and_accurate_store.Server.Handler.{one_arg}
use fast_and_accurate_store.Server.Connection.{
  after_output, not_allowed, leave_with, Served, Handled, Leaving, hands_over, dropped, goes_on,
  ends, authenticate_with, handle_command, check_command, serve_reading, serve_rounds, serve,
  then_rounds,
}
use fast_and_accurate_store.Server.Connection.Guard.{serve_rounds-ServedGuard}

module _ {S : Type 0} (exec exec' : S → Command → Option (S × Bytes))
    (hand_over : Leaving → S → S × Bytes) (errorf : Bytes → Bytes) (error_text : ParseError → Bytes)
    (admitted : Bool) (password : Bytes) where
  authenticate_with-locked :
      (arg : Option Bytes) (s : S)
      → authenticate_with exec' hand_over errorf error_text admitted password arg s false
        ≡ authenticate_with exec hand_over errorf error_text admitted password arg s false
  unfolding authenticate_with
  authenticate_with-locked none s = refl
  authenticate_with-locked (some arg) s = refl

  handle_command-locked :
      (cmd : Command) (s : S)
      → handle_command exec' hand_over errorf error_text admitted password s false cmd
        ≡ handle_command exec hand_over errorf error_text admitted password s false cmd
  unfolding handle_command
  handle_command-locked cmd s = elim (Bool-cases (str_eq (to_upper cmd.name) (codes "AUTH"))) [
    | inl e ↦ rw (handle_command, e) (authenticate_with-locked (one_arg cmd.args) s)
    | inr e ↦ rw (handle_command, e) refl
  ]

  -- A command of a client that is not authenticated does not look at executeCommand.
  check_command-locked :
      (cmd : Command) (s : S)
      → check_command exec' hand_over errorf error_text admitted password s false cmd
        ≡ check_command exec hand_over errorf error_text admitted password s false cmd
  unfolding check_command
  check_command-locked cmd s =
      ap
        (λ h.
          if admitted
          then h
          else ends (
              leave_with exec hand_over errorf error_text admitted password s false
                (write_error not_allowed) dropped))
        (handle_command-locked cmd s)

  then_rounds-locked :
      (h : Handled S) (rest rest' : S → Bool → Served S)
      → (then_rounds exec hand_over errorf error_text admitted password h rest).authed ≡ false
      → ((s : S) (authed : Bool) → (rest s authed).authed ≡ false → rest' s authed ≡ rest s authed)
      → then_rounds exec' hand_over errorf error_text admitted password h rest'
        ≡ then_rounds exec hand_over errorf error_text admitted password h rest
  then_rounds-locked (goes_on s authed output) rest rest' h same =
      ap (after_output output) (same s authed h)
  then_rounds-locked (ends r) rest rest' h same = refl

  serve_reading-locked :
      (r : Reading) (s : S) (rest rest' : Bytes → S → Bool → Served S)
      → (serve_reading exec hand_over errorf error_text admitted password r s false rest).authed
        ≡ false
      → ((left : Bytes) (s' : S) (authed : Bool)
          → (rest left s' authed).authed ≡ false
          → rest' left s' authed ≡ rest left s' authed)
      → serve_reading exec' hand_over errorf error_text admitted password r s false rest'
        ≡ serve_reading exec hand_over errorf error_text admitted password r s false rest
  unfolding serve_reading
  serve_reading-locked (command cmd left) s rest rest' h same =
      ap (λ x. then_rounds exec' hand_over errorf error_text admitted password x (rest' left))
        (check_command-locked cmd s)
      ∙ then_rounds-locked
          (check_command exec hand_over errorf error_text admitted password s false cmd) (rest left)
          (rest' left) h (same left)
  serve_reading-locked (nothing left) s rest rest' h same = same left s false h
  serve_reading-locked eof s rest rest' h same = refl
  serve_reading-locked unexpected_eof s rest rest' h same = refl
  serve_reading-locked (failed e) s rest rest' h same = refl
  serve_reading-locked panicked s rest rest' h same = refl

  serve_rounds-locked :
      (rounds : ℕ) (input : Bytes) (s : S) (authed : Bool)
      → (serve_rounds exec hand_over errorf error_text admitted password rounds input s
          authed).authed
        ≡ false
      → serve_rounds exec' hand_over errorf error_text admitted password rounds input s authed
        ≡ serve_rounds exec hand_over errorf error_text admitted password rounds input s authed
  unfolding serve_rounds
  serve_rounds-locked rounds input s true h = absurd (
      cc (
        (serve_rounds-ServedGuard exec hand_over errorf error_text admitted password rounds input s
              true).lasts
            refl,
        h,
      ))
  serve_rounds-locked zero input s false h = refl
  serve_rounds-locked (suc rounds) input s false h =
      serve_reading-locked (parse_command input) s _ _ h (serve_rounds-locked rounds)

  -- A connection that is not authenticated at its end, whatever was sent and however it ended, has
  -- left the server as it was, was handed over neither to handleReplicaConnection nor to
  -- handleSubscribe, whatever these would do, and has executed nothing: it comes to the same with any
  -- other executeCommand, also one that panics.
  pub serve-unauthenticated :
      (input : Bytes) (s : S) (authed : Bool)
      → (serve exec hand_over errorf error_text admitted password input s authed).authed ≡ false
      → ((serve exec hand_over errorf error_text admitted password input s authed).server ≡ s)
        × ((hands_over
                (serve exec hand_over errorf error_text admitted password input s authed).leaving
              ≡ false)
            × (serve exec' hand_over errorf error_text admitted password input s authed
                ≡ serve exec hand_over errorf error_text admitted password input s authed))
  unfolding serve
  serve-unauthenticated input s authed h =
      let rounds = suc (length input) in
      let g =
        serve_rounds-ServedGuard exec hand_over errorf error_text admitted password rounds input s
          authed in
      (g.guards h, (g.stays h, serve_rounds-locked rounds input s authed h))
