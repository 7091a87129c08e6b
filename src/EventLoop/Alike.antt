-- ===== src/EventLoop/Alike.antt =====
-- The event loops and handleConnection of pkg/server/server.go, compared.
use fast_and_accurate_store.Base.{
  ◌≡◌, ◌≢◌, refl, sym, ap, ◌∙◌, Bool, true, false, Option, List, [], ◌∷◌, ◌++◌, Bytes,
}
use fast_and_accurate_store.Protocol.Command.{Command, ParseError}
use fast_and_accurate_store.Persistence.Aof.{AllLoggable}
use fast_and_accurate_store.Persistence.Aof
use fast_and_accurate_store.Server.Pipeline.{Runs, replies_text}
use fast_and_accurate_store.Server.Reply.{error_reply, kind_of, format_reply, write_reply}
use fast_and_accurate_store.Server.Reply.Alike.{write_reply-eq-format_reply}
use fast_and_accurate_store.Server.Connection.{Leaving, serve}
use fast_and_accurate_store.Server.Connection.Pipelined.{AllOrdinary, serve-text}
use fast_and_accurate_store.EventLoop.Client.{ClientState}
use fast_and_accurate_store.EventLoop.Gate.{held_back}
use fast_and_accurate_store.EventLoop.Loop.{kept, feed}
use fast_and_accurate_store.EventLoop.Loop.Pipelined.{feed-text}

-- No response is an error.
abbrev pub NoErrors : List Bytes → Type 0
NoErrors [] = Unit
NoErrors (response ∷ responses) = (kind_of response ≢ error_reply) × NoErrors responses

replies_text-alike :
    (errorf : Bytes → Bytes) (responses : List Bytes)
    → NoErrors responses
    → replies_text format_reply responses ≡ replies_text (write_reply errorf) responses
replies_text-alike errorf [] h = refl
replies_text-alike errorf (response ∷ responses) (h, hs) =
    ap (λ r. r ++ replies_text format_reply responses)
      (sym (write_reply-eq-format_reply errorf response h))
    ∙ ap (λ r. write_reply errorf response ++ r) (replies_text-alike errorf responses hs)

module _ {S : Type 0} (exec : S → Command → Option (S × Bytes)) (ctl : Bytes → Bool)
    (hand_over : Leaving → S → S × Bytes) (required : Bool) (password : Bytes)
    (errorf : Bytes → Bytes) (error_text : ParseError → Bytes) where
  -- The words of some commands, none of them AUTH, REPL or SUBSCRIBE, none answered with an error and
  -- none of which panics, come to the same in an event loop and in handleConnection, for a client that
  -- may execute commands: the same server, and the same bytes that wait or were written.
  pub feed-eq-serve :
      (cmds : List Command) (responses : List Bytes) (s s' : S) (c : ClientState)
      → AllLoggable cmds
      → AllOrdinary cmds
      → NoErrors responses
      → held_back required c ≡ false
      → c.buffer ≡ []
      → c.write_buffer ≡ []
      → Runs exec cmds s s' responses
      → (enabled : Bool) × (feed exec ctl required password s c (Aof.text cmds)
          ≡ kept
              (serve exec hand_over errorf error_text true password (Aof.text cmds) s true).server
              (record c {
                write_buffer =
                    (serve exec hand_over errorf error_text true password
                      (Aof.text cmds)
                      s
                      true).output;
                write_enabled = enabled;
              }))
  feed-eq-serve cmds responses s s' c l o n g b w r =
      let (enabled, e) = feed-text exec ctl required password cmds responses s s' c l g b r in
      (
        enabled,
        e
            ∙ ap
                (λ x. kept s' (record c {
                  write_buffer = x ++ replies_text format_reply responses;
                  write_enabled = enabled;
                }))
                w
            ∙ ap (λ x. kept s' (record c { write_buffer = x; write_enabled = enabled }))
                (replies_text-alike errorf responses n)
            ∙ ap
                (λ x. kept x.server (record c { write_buffer = x.output; write_enabled = enabled }))
                (sym
                  (serve-text exec hand_over errorf error_text password cmds responses s s' l o r)),
      )
