-- ===== src/EventLoop/Tests.antt =====
-- The theorems on the event loops at concrete input.
use fast_and_accurate_store.Base.{
  ℕ, ◌+◌, arith, ◌≡◌, ◌≢◌, refl, ap, Bool, true, false, Option, none, some, List, [], ◌∷◌, ◌++◌,
  Bytes, codes, str_eq, has_prefix, if◌then◌else◌, inl,
}
use fast_and_accurate_store.Protocol.Text.{to_upper, fields, trim, trim_left, trim_right, decimal}
use fast_and_accurate_store.Protocol.Writer.{crlf, write_bulk_string}
use fast_and_accurate_store.Protocol.Command.{Command, ParseError, make_command}
use fast_and_accurate_store.Protocol.Buffer.{parse_command_from_bytes, parse_inline, index_crlf}
use fast_and_accurate_store.Persistence.Aof.{AllLoggable}
use fast_and_accurate_store.Persistence.Aof
use fast_and_accurate_store.Server.Pipeline.{done, step, replies_text}
use fast_and_accurate_store.Server.Connection.{Leaving, serve}
use fast_and_accurate_store.Server.Connection.Pipelined.{IsOrdinary}
use fast_and_accurate_store.EventLoop.Loop.Pipelined.{feed-text}
use fast_and_accurate_store.EventLoop.Alike.{feed-eq-serve}
use fast_and_accurate_store.Server.Reply.{error_reply, format_reply, kind_of, format_as}
use fast_and_accurate_store.EventLoop.Client.{
  ClientState, WriteAnswer, wrote, again, enable_write, disable_write, queue_write, write_rounds,
  write,
}
use fast_and_accurate_store.EventLoop.Gate.{verdict, authenticate, held_back}
use fast_and_accurate_store.EventLoop.Loop.{
  kept, unfinished, run_command, handle, next_round, process_rounds, process, feed,
}
use fast_and_accurate_store.EventLoop.Loop.Fragments.{and_then, feed-append, feed-ne-unfinished}
use fast_and_accurate_store.EventLoop.Loop.Auth.{end_of, feed-unauthenticated}
use fast_and_accurate_store.EventLoop.Schedule.{
  LoopEvent, ready, drained, read, after_write, dispatch, run_schedule, inputs_of,
}
use fast_and_accurate_store.EventLoop.Schedule.Ahead.{ahead}
use fast_and_accurate_store.EventLoop.Schedule.Output.{run_schedule-kept}
use fast_and_accurate_store.EventLoop.Schedule.Armed.{accepts, IsArmed, run_schedule-IsArmed}
use fast_and_accurate_store.EventLoop.Darwin.{Piece, read_pieces, read_pieces-eq-feed, concat}

-- A server that counts its commands and answers each with its name.
abbrev count : ℕ → Command → Option (ℕ × Bytes)
count n cmd = some (n + 1, cmd.name)

abbrev password : Bytes
password = codes "pw"

abbrev fresh : ClientState
fresh = record { buffer = []; write_buffer = []; write_enabled = false; authed = false }

-- The two halves of a command in inline form
abbrev ping_start : Bytes
ping_start = codes "PI"

abbrev ping_end : Bytes
ping_end = codes "NG" ++ crlf

feed-append_example :
    feed count accepts false password 0 fresh (ping_start ++ ping_end)
    ≡ and_then count accepts false password
        (feed count accepts false password 0 fresh ping_start)
        (λ s' c'. feed count accepts false password s' c' ping_end)
feed-append_example = feed-append count accepts false password 0 fresh ping_start ping_end

feed-ne-unfinished_example : feed count accepts false password 0 fresh ping_start ≢ unfinished
feed-ne-unfinished_example = feed-ne-unfinished count accepts false password 0 fresh ping_start

abbrev first_piece : Piece
first_piece = (b'P', codes "I")

abbrev second_piece : Piece
second_piece = (b'N', codes "G" ++ crlf)

read_pieces-eq-feed_example :
    read_pieces count accepts password (first_piece ∷ second_piece ∷ []) 0 fresh
    ≡ feed count accepts true password 0 fresh (concat (first_piece ∷ second_piece ∷ []))
read_pieces-eq-feed_example =
    read_pieces-eq-feed count accepts password true first_piece (second_piece ∷ []) 0 fresh refl

-- What a connection is left with that has not given the password: a refusal that waits.
abbrev refused_client : ClientState
refused_client = record fresh {
  write_buffer = codes "-NOAUTH Authentication required" ++ crlf;
  write_enabled = true;
}

held : feed count accepts true password 0 fresh (ping_start ++ ping_end) ≡ kept 0 refused_client
unfolding feed process process_rounds next_round handle run_command held_back authenticate verdict
    queue_write enable_write parse_command_from_bytes parse_inline index_crlf fields trim trim_left
    trim_right make_command to_upper str_eq
held = refl

abbrev none_executed : ℕ
none_executed = 0

-- A server that panics
abbrev panics : ℕ → Command → Option (ℕ × Bytes)
panics n cmd = none

held_end :
    end_of (feed count accepts true password 0 fresh (ping_start ++ ping_end)) ≡ some (0, false)
held_end = ap end_of held

feed-unauthenticated_example :
    (none_executed ≡ none_executed)
    × (feed panics accepts true password 0 fresh (ping_start ++ ping_end)
        ≡ feed count accepts true password 0 fresh (ping_start ++ ping_end))
feed-unauthenticated_example =
    feed-unauthenticated count panics accepts password none_executed none_executed fresh
      (ping_start ++ ping_end) held_end

-- Half a command; then the other half, and a kernel that takes three bytes of the reply, and no more.
abbrev three_bytes : Bytes → WriteAnswer
three_bytes output =
    if str_eq output (codes "$4" ++ (13 ∷ 10 ∷ codes "PING" ++ (13 ∷ 10 ∷ [])))
    then wrote 3
    else again

abbrev events : List LoopEvent
events =
    ready (some (drained ping_start)) none ∷ ready (some (drained ping_end)) (some three_bytes) ∷ []

abbrev answered : ClientState
answered = record fresh { write_buffer = 10 ∷ codes "PING" ++ (13 ∷ 10 ∷ []); write_enabled = true }

abbrev on_the_wire : Bytes
on_the_wire = codes "$4" ++ (13 ∷ [])

played : run_schedule count accepts false password events 0 fresh ≡ (kept 1 answered, on_the_wire)
unfolding run_schedule dispatch read after_write write write_rounds feed process process_rounds
    next_round handle run_command held_back format_reply kind_of format_as has_prefix
    write_bulk_string decimal queue_write enable_write disable_write parse_command_from_bytes
    parse_inline index_crlf fields trim trim_left trim_right make_command to_upper str_eq
played = refl

run_schedule-kept_example :
    (e : Bool) × (feed count accepts false password 0 fresh (inputs_of events)
      ≡ kept 1 (ahead on_the_wire e answered))
run_schedule-kept_example =
    run_schedule-kept count accepts false password events 0 1 fresh answered on_the_wire (inl refl)
      played

run_schedule-IsArmed_example : IsArmed answered
run_schedule-IsArmed_example =
    run_schedule-IsArmed count false password events 0 1 fresh answered on_the_wire refl played

abbrev ping : Command
ping = record { name = codes "PING"; args = [] }

abbrev pings : List Command
pings = ping ∷ ping ∷ []

abbrev answers : List Bytes
answers = codes "PING" ∷ codes "PING" ∷ []

pings-AllLoggable : AllLoggable pings
unfolding to_upper
pings-AllLoggable =
    ((refl, (omega arith, (omega arith, tt))), ((refl, (omega arith, (omega arith, tt))), tt))

free : held_back false fresh ≡ false
unfolding held_back
free = refl

feed-text_example :
    (enabled : Bool) × (feed count accepts false password 0 fresh (Aof.text pings)
      ≡ kept 2 (record fresh {
        write_buffer = fresh.write_buffer ++ replies_text format_reply answers;
        write_enabled = enabled;
      }))
feed-text_example =
    feed-text count accepts false password pings answers 0 2 fresh pings-AllLoggable free refl
      (step refl (step refl done))

ping-IsOrdinary : IsOrdinary ping
unfolding str_eq
ping-IsOrdinary = record { no_auth_name = refl; no_repl_name = refl; no_subscribe_name = refl }

no_error : kind_of (codes "PING") ≢ error_reply
unfolding kind_of has_prefix str_eq
no_error h = cc h

abbrev counted : Leaving → ℕ → ℕ × Bytes
counted leaving n = (n + 100, [])

abbrev as_it_is : Bytes → Bytes
as_it_is format = format

abbrev no_text : ParseError → Bytes
no_text e = codes "error"

feed-eq-serve_example :
    (enabled : Bool) × (feed count accepts false password 0 fresh (Aof.text pings)
      ≡ kept
          (serve count counted as_it_is no_text true password (Aof.text pings) 0 true).server
          (record fresh {
            write_buffer =
                (serve count counted as_it_is no_text true password (Aof.text pings) 0 true).output;
            write_enabled = enabled;
          }))
feed-eq-serve_example =
    feed-eq-serve count accepts counted false password as_it_is no_text pings answers 0 2 fresh
      pings-AllLoggable (ping-IsOrdinary, (ping-IsOrdinary, tt)) (no_error, (no_error, tt)) free
      refl refl (step refl (step refl done))
