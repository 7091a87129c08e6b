-- ===== src/Server/Pipeline.antt =====
-- What a client asks of pkg/server with several commands at once: that they are executed in their
-- order, and each is answered. `exec` is executeCommand.
use fast_and_accurate_store.Base.{◌≡◌, Option, some, List, [], ◌∷◌, ◌++◌, Bytes}
use fast_and_accurate_store.Protocol.Command.{Command}

module _ {S : Type 0} (exec : S → Command → Option (S × Bytes)) where
  -- Commands that are executed one after the other, none of which panics: the server before and
  -- behind them, and their responses.
  pub data Runs : List Command → S → S → List Bytes → Type 0 where
    done : {s : S} → Runs [] s s []
    step :
        {cmd : Command} {cmds : List Command} {s s' s'' : S} {response : Bytes}
        {responses : List Bytes}
        → exec s cmd ≡ some (s', response)
        → Runs cmds s' s'' responses
        → Runs (cmd ∷ cmds) s s'' (response ∷ responses)

-- Replies on the wire
abbrev pub replies_text : (Bytes → Bytes) → List Bytes → Bytes
replies_text format [] = []
replies_text format (response ∷ responses) = format response ++ replies_text format responses
