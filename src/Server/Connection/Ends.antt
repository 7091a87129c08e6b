-- ===== src/Server/Connection/Ends.antt =====
-- The loop of handleConnection in pkg/server/server.go ends.
use fast_and_accurate_store.Base.{
  ℕ, zero, suc, ◌<◌, ◌≢◌, Bool, true, false, not, ◌&&◌, Option-cases, inl, inr, Option, none, some,
  List, [], ◌∷◌, Bytes, codes, arith, length, str_eq, if◌then◌else◌,
}
use fast_and_accurate_store.Protocol.Text.{to_upper}
use fast_and_accurate_store.Protocol.Command.{Command, ParseError}
use fast_and_accurate_store.Protocol.Stream.{Reading, parse_command}
use fast_and_accurate_store.Protocol.Shortens.{
  Shortens, shorter_command, shorter_nothing, at_eof, at_unexpected, at_error, at_panic,
  parse_command-Shortens,
}
use fast_and_accurate_store.Server.Handler.{one_arg}
use fast_and_accurate_store.Server.Connection.{
  Leaving, Served, unfinished, Handled, goes_on, ends, authenticate_with, subscribe_to, respond,
  handle_command, check_command, serve_reading, serve_rounds, serve, then_rounds,
}

data Finishes {S : Type 0} : Handled S → Type 0 where
  another : {s : S} {authed : Bool} {output : Bytes} → Finishes (goes_on s authed output)
  finished : {r : Served S} → r.leaving ≢ unfinished → Finishes (ends r)

if_Finishes :
    {S : Type 0} (b : Bool) (x y : Handled S)
    → Finishes x
    → Finishes y
    → Finishes (if b then x else y)
if_Finishes true x y h h' = h
if_Finishes false x y h h' = h'

module _ {S : Type 0} (exec : S → Command → Option (S × Bytes))
    (hand_over : Leaving → S → S × Bytes) (errorf : Bytes → Bytes) (error_text : ParseError → Bytes)
    (admitted : Bool) (password : Bytes) where
  authenticate_with-Finishes :
      (arg : Option Bytes) (s : S) (authed : Bool)
      → Finishes (authenticate_with exec hand_over errorf error_text admitted password arg s authed)
  unfolding authenticate_with
  authenticate_with-Finishes none s authed = another
  authenticate_with-Finishes (some arg) s authed =
      if_Finishes (str_eq arg password) _ _ another another

  subscribe_to-Finishes :
      (channels : List Bytes) (s : S) (authed : Bool)
      → Finishes (subscribe_to exec hand_over errorf error_text admitted password channels s authed)
  unfolding subscribe_to
  subscribe_to-Finishes [] s authed = another
  subscribe_to-Finishes (channel ∷ channels) s authed = finished (λ h. cc h)

  respond-Finishes :
      (cmd : Command) (s : S) (authed : Bool)
      → Finishes (respond exec hand_over errorf error_text admitted password s authed cmd)
  unfolding respond
  respond-Finishes cmd s authed = elim (Option-cases (exec s cmd)) [
    | inl e ↦ rw (respond, e) (finished (λ h. cc h))
    | inr ((s', response), e) ↦ rw (respond, e) another
  ]

  check_command-Finishes :
      (cmd : Command) (s : S) (authed : Bool)
      → Finishes (check_command exec hand_over errorf error_text admitted password s authed cmd)
  unfolding check_command handle_command
  check_command-Finishes cmd s authed =
      if_Finishes admitted _ _
        (if_Finishes (not authed && not (str_eq (to_upper cmd.name) (codes "AUTH"))) _ _ another (
          if_Finishes (str_eq (to_upper cmd.name) (codes "AUTH")) _ _
            (authenticate_with-Finishes (one_arg cmd.args) s authed)
            (if_Finishes (str_eq (to_upper cmd.name) (codes "REPL")) _ _ (finished (λ h. cc h)) (
              if_Finishes (str_eq (to_upper cmd.name) (codes "SUBSCRIBE")) _ _
                (subscribe_to-Finishes cmd.args s authed) (respond-Finishes cmd s authed)))))
        (finished (λ h. cc h))

  then_rounds-leaves :
      (x : Handled S) (rest : S → Bool → Served S)
      → Finishes x
      → ((s : S) (authed : Bool) → (rest s authed).leaving ≢ unfinished)
      → (then_rounds exec hand_over errorf error_text admitted password x rest).leaving ≢ unfinished
  then_rounds-leaves x rest (another {s} {authed}) k = k s authed
  then_rounds-leaves x rest (finished h) k = h

  serve_reading-leaves :
      (r : Reading) (n : ℕ) (s : S) (authed : Bool) (rest : Bytes → S → Bool → Served S)
      → Shortens n r
      → ((left : Bytes) (s' : S) (authed' : Bool)
          → length left < n
          → (rest left s' authed').leaving ≢ unfinished)
      → (serve_reading exec hand_over errorf error_text admitted password r s authed rest).leaving
        ≢ unfinished
  unfolding serve_reading
  serve_reading-leaves r n s authed rest (shorter_command {cmd} {left} h) k =
      then_rounds-leaves _ (rest left) (check_command-Finishes cmd s authed)
        (λ s' authed'. k left s' authed' h)
  serve_reading-leaves r n s authed rest (shorter_nothing {left} h) k = k left s authed h
  serve_reading-leaves r n s authed rest at_eof k = λ h. cc h
  serve_reading-leaves r n s authed rest at_unexpected k = λ h. cc h
  serve_reading-leaves r n s authed rest at_error k = λ h. cc h
  serve_reading-leaves r n s authed rest at_panic k = λ h. cc h

  serve_rounds-leaves :
      (rounds : ℕ) (input : Bytes) (s : S) (authed : Bool)
      → length input < rounds
      → (serve_rounds exec hand_over errorf error_text admitted password rounds input s
          authed).leaving
        ≢ unfinished
  unfolding serve_rounds
  serve_rounds-leaves zero input s authed l = absurd (omega arith)
  serve_rounds-leaves (suc rounds) input s authed l =
      serve_reading-leaves (parse_command input) (length input) s authed _
        (parse_command-Shortens input)
        (λ left s' authed' h. serve_rounds-leaves rounds left s' authed' (omega arith))

  -- The loop of handleConnection ends on every input: a round more than it has bytes is enough.
  pub serve-leaves :
      (input : Bytes) (s : S) (authed : Bool)
      → (serve exec hand_over errorf error_text admitted password input s authed).leaving
        ≢ unfinished
  unfolding serve
  serve-leaves input s authed =
      serve_rounds-leaves (suc (length input)) input s authed (omega arith)
