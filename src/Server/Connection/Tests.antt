-- ===== src/Server/Connection/Tests.antt =====
-- The theorems on connections at concrete input.
use fast_and_accurate_store.Base.{
  ℕ, ◌+◌, ◌≡◌, ◌≢◌, refl, true, false, Option, none, some, [], ◌∷◌, ◌++◌, Bytes, codes, str_eq,
}
use fast_and_accurate_store.Protocol.Text.{to_upper, fields, trim, trim_left, trim_right}
use fast_and_accurate_store.Protocol.Command.{Command, ParseError, make_command}
use fast_and_accurate_store.Protocol.Stream.{parse_command, read_line, words_reading}
use fast_and_accurate_store.Server.Connection.{
  Leaving, hands_over, unfinished, handle_command, check_command, serve_reading, serve_rounds,
  serve,
}
use fast_and_accurate_store.Server.Connection.Ends.{serve-leaves}
use fast_and_accurate_store.Server.Connection.Gated.{serve-unauthenticated}

-- A server that counts its commands and answers each with its name
abbrev count : ℕ → Command → Option (ℕ × Bytes)
count n cmd = some (n + 1, cmd.name)

-- A hand-over that counts, too
abbrev counted : Leaving → ℕ → ℕ × Bytes
counted leaving n = (n + 100, [])

abbrev as_it_is : Bytes → Bytes
as_it_is format = format

abbrev no_text : ParseError → Bytes
no_text e = codes "error"

abbrev password : Bytes
password = codes "pw"

-- A command before the password
abbrev too_early : Bytes
too_early = codes "PING" ++ 10 ∷ []

stays_out : (serve count counted as_it_is no_text true password too_early 0 false).authed ≡ false
unfolding serve serve_rounds serve_reading parse_command read_line trim trim_left trim_right fields
    words_reading make_command check_command handle_command to_upper str_eq
stays_out = refl

-- A server that panics
abbrev panics : ℕ → Command → Option (ℕ × Bytes)
panics n cmd = none

serve-unauthenticated_example :
    ((serve count counted as_it_is no_text true password too_early 0 false).server ≡ 0)
    × ((hands_over (serve count counted as_it_is no_text true password too_early 0 false).leaving
          ≡ false)
        × (serve panics counted as_it_is no_text true password too_early 0 false
            ≡ serve count counted as_it_is no_text true password too_early 0 false))
serve-unauthenticated_example =
    serve-unauthenticated count panics counted as_it_is no_text true password too_early 0 false
      stays_out

serve-leaves_example :
    (serve count counted as_it_is no_text true password too_early 0 false).leaving ≢ unfinished
serve-leaves_example = serve-leaves count counted as_it_is no_text true password too_early 0 false
