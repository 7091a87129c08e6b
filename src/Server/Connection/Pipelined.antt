-- ===== src/Server/Connection/Pipelined.antt =====
-- Several commands at once in handleConnection of pkg/server/server.go, and the same in the event
-- loops.
use fast_and_accurate_store.Base.{
  ℕ, zero, suc, ◌<◌, ◌≡◌, refl, ap, ◌∙◌, true, false, Option, some, List, [], ◌∷◌, Bytes, codes,
  arith, length, str_eq,
}
use fast_and_accurate_store.Protocol.Command.{Command, ParseError}
use fast_and_accurate_store.Protocol.Stream.{parse_command}
use fast_and_accurate_store.Persistence.Aof.{Loggable, AllLoggable, length-text, parse_command-text}
use fast_and_accurate_store.Persistence.Aof
use fast_and_accurate_store.Server.Pipeline.{Runs, done, step, replies_text}
use fast_and_accurate_store.Server.Reply.{write_reply}
use fast_and_accurate_store.Server.Connection.{
  Leaving, goes_on, hung_up, handle_command, check_command, respond, serve_reading, serve_rounds,
  serve, leave_with, after_output,
}

-- A command that goes to executeCommand, by its name
pub record IsOrdinary (cmd : Command) : Type 0 where
  pub no_auth_name : str_eq cmd.name (codes "AUTH") ≡ false
  pub no_repl_name : str_eq cmd.name (codes "REPL") ≡ false
  pub no_subscribe_name : str_eq cmd.name (codes "SUBSCRIBE") ≡ false

abbrev pub AllOrdinary : List Command → Type 0
AllOrdinary [] = Unit
AllOrdinary (cmd ∷ cmds) = IsOrdinary cmd × AllOrdinary cmds

module _ {S : Type 0} (exec : S → Command → Option (S × Bytes))
    (hand_over : Leaving → S → S × Bytes) (errorf : Bytes → Bytes) (error_text : ParseError → Bytes)
    (password : Bytes) where
  respond-reply :
      (cmd : Command) (s s' : S) (response : Bytes)
      → exec s cmd ≡ some (s', response)
      → respond exec hand_over errorf error_text true password s true cmd
        ≡ goes_on s' true (write_reply errorf response)
  unfolding respond
  respond-reply cmd s s' response e = rw (respond, e) refl

  check_command-ordinary :
      (cmd : Command) (s s' : S) (response : Bytes)
      → Loggable cmd
      → IsOrdinary cmd
      → exec s cmd ≡ some (s', response)
      → check_command exec hand_over errorf error_text true password s true cmd
        ≡ goes_on s' true (write_reply errorf response)
  unfolding check_command handle_command
  check_command-ordinary cmd s s' response l o e =
      rw (l.0, o.no_auth_name, o.no_repl_name, o.no_subscribe_name)
        (respond-reply cmd s s' response e)

  serve_rounds-command :
      (cmd : Command) (cmds : List Command) (s s' : S) (response : Bytes) (rounds : ℕ)
      → Loggable cmd
      → IsOrdinary cmd
      → exec s cmd ≡ some (s', response)
      → serve_rounds exec hand_over errorf error_text true password
          (suc rounds)
          (Aof.text (cmd ∷ cmds))
          s
          true
        ≡ after_output (write_reply errorf response) (
            serve_rounds exec hand_over errorf error_text true password rounds
              (Aof.text cmds)
              s'
              true)
  unfolding serve_rounds serve_reading
  serve_rounds-command cmd cmds s s' response rounds l o e =
      rw
        (
          serve_rounds,
          parse_command-text cmd cmds l,
          check_command-ordinary cmd s s' response l o e,
        )
        refl

  serve_rounds-nothing :
      (rounds : ℕ) (s : S)
      → serve_rounds exec hand_over errorf error_text true password
          (suc rounds)
          (Aof.text [])
          s
          true
        ≡ leave_with exec hand_over errorf error_text true password s true [] hung_up
  unfolding serve_rounds serve_reading parse_command Aof.text
  serve_rounds-nothing rounds s = refl

  serve_rounds-text :
      (cmds : List Command) (responses : List Bytes) (s s' : S) (rounds : ℕ)
      → AllLoggable cmds
      → AllOrdinary cmds
      → Runs exec cmds s s' responses
      → length cmds < rounds
      → serve_rounds exec hand_over errorf error_text true password rounds (Aof.text cmds) s true
        ≡ record {
          server = s';
          authed = true;
          output = replies_text (write_reply errorf) responses;
          leaving = hung_up;
        }
  serve_rounds-text cmds responses s s' zero h o r l = absurd (omega arith)
  serve_rounds-text cmds responses s s' (suc rounds) h o done l = serve_rounds-nothing rounds s
  serve_rounds-text cmds responses s s'' (suc rounds) h o
        (step {cmd} {cmds = cs} {s' = s'} {response} {responses = rs} e r) l =
      serve_rounds-command cmd cs s s' response rounds h.0 o.0 e
      ∙ ap (after_output (write_reply errorf response))
          (serve_rounds-text cs rs s' s'' rounds h.1 o.1 r (omega arith))

  -- An authenticated and admitted client sends the words of some commands and hangs up. Where none of
  -- them is AUTH, REPL or SUBSCRIBE and none panics, the server is the one behind them, in their order,
  -- and their replies are what was written, in the same order.
  pub serve-text :
      (cmds : List Command) (responses : List Bytes) (s s' : S)
      → AllLoggable cmds
      → AllOrdinary cmds
      → Runs exec cmds s s' responses
      → serve exec hand_over errorf error_text true password (Aof.text cmds) s true ≡ record {
        server = s';
        authed = true;
        output = replies_text (write_reply errorf) responses;
        leaving = hung_up;
      }
  unfolding serve
  serve-text cmds responses s s' h o r =
      serve_rounds-text cmds responses s s' (suc (length (Aof.text cmds))) h o r
        (omega (arith, length-text cmds))
