-- ===== src/Server/Connection/Guard.antt =====
-- What a round of handleConnection in pkg/server/server.go may do to the server without an
-- authentication.
use fast_and_accurate_store.Base.{
  ℕ, zero, suc, ◌≡◌, refl, ◌∙◌, Bool, true, false, inl, inr, Bool-cases, Option-cases, Option, none,
  some, List, [], ◌∷◌, Bytes, codes, str_eq, if◌then◌else◌,
}
use fast_and_accurate_store.Protocol.Text.{to_upper}
use fast_and_accurate_store.Protocol.Command.{Command, ParseError}
use fast_and_accurate_store.Protocol.Stream.{
  Reading, command, nothing, eof, unexpected_eof, failed, panicked, parse_command,
}
use fast_and_accurate_store.Server.Handler.{one_arg}
use fast_and_accurate_store.Server.Connection.{
  Served, Handled, Leaving, hands_over, dropped, goes_on, ends, authenticate_with, subscribe_to,
  respond, handle_command, check_command, serve_reading, serve_rounds, then_rounds,
}

-- No end of an authentication, and no change of the server without one
pub record Guard {S : Type 0} (s : S) (authed : Bool) (s' : S) (authed' : Bool) : Type 0 where
  pub lasts : authed ≡ true → authed' ≡ true
  pub guards : authed' ≡ false → s' ≡ s

-- The same, and no hand-over
pub record EndGuard {S : Type 0} (s : S) (authed : Bool) (r : Served S) : Type 0 where
  pub lasts : authed ≡ true → r.authed ≡ true
  pub guards : r.authed ≡ false → r.server ≡ s
  pub stays : r.authed ≡ false → hands_over r.leaving ≡ false

data Guarded {S : Type 0} (s : S) (authed : Bool) : Handled S → Type 0 where
  guarded_on :
      {s' : S} {authed' : Bool} {output : Bytes}
      → Guard s authed s' authed'
      → Guarded s authed (goes_on s' authed' output)
  guarded_end : {r : Served S} → EndGuard s authed r → Guarded s authed (ends r)

same_server : {S : Type 0} (s : S) (authed : Bool) → Guard s authed s authed
same_server s authed = record { lasts = λ h. h; guards = λ h. refl }

-- An end without an authentication and without a hand-over
same_end :
    {S : Type 0} (s : S) (authed : Bool) (output : Bytes) (leaving : Leaving)
    → hands_over leaving ≡ false
    → EndGuard s authed (record { server = s; authed = authed; output = output; leaving = leaving })
same_end s authed output leaving h = record { lasts = λ e. e; guards = λ e. refl; stays = λ e. h }

-- An end of an authenticated connection
authed_end :
    {S : Type 0} (s : S) (authed : Bool) (r : Served S) → r.authed ≡ true → EndGuard s authed r
authed_end s authed r h = record { lasts = λ e. h; guards = λ e. cc (h, e); stays = λ e. cc (h, e) }

logged_in : {S : Type 0} (s s' : S) (authed : Bool) → Guard s authed s' true
logged_in s s' authed = record { lasts = λ h. refl; guards = λ h. cc h }

if_Guarded :
    {S : Type 0} (s : S) (authed b : Bool) (x y : Handled S)
    → Guarded s authed x
    → Guarded s authed y
    → Guarded s authed (if b then x else y)
if_Guarded s authed true x y h h' = h
if_Guarded s authed false x y h h' = h'

Guard-trans :
    {S : Type 0} (s s' s'' : S) (a a' a'' : Bool)
    → Guard s a s' a'
    → Guard s' a' s'' a''
    → Guard s a s'' a''
Guard-trans s s' s'' a true a'' g g' = record {
  lasts = λ h. g'.lasts refl;
  guards = λ h. cc (g'.lasts refl, h);
}
Guard-trans s s' s'' a false a'' g g' = record {
  lasts = λ h. g'.lasts (g.lasts h);
  guards = λ h. g'.guards h ∙ g.guards refl;
}

EndGuard-trans :
    {S : Type 0} (s s' : S) (a a' : Bool) (r : Served S) (output : Bytes)
    → Guard s a s' a'
    → EndGuard s' a' r
    → EndGuard s a (record r { output = output })
EndGuard-trans s s' a a' r output g g' =
    let both =
      Guard-trans s s' r.server a a' r.authed g (record { lasts = g'.lasts; guards = g'.guards }) in
    record { lasts = both.lasts; guards = both.guards; stays = g'.stays }

module _ {S : Type 0} (exec : S → Command → Option (S × Bytes))
    (hand_over : Leaving → S → S × Bytes) (errorf : Bytes → Bytes) (error_text : ParseError → Bytes)
    (admitted : Bool) (password : Bytes) where
  authenticate_with-Guarded :
      (arg : Option Bytes) (s : S) (authed : Bool)
      → Guarded s authed
          (authenticate_with exec hand_over errorf error_text admitted password arg s authed)
  unfolding authenticate_with
  authenticate_with-Guarded none s authed = guarded_on (same_server s authed)
  authenticate_with-Guarded (some arg) s authed =
      if_Guarded s authed (str_eq arg password) _ _ (guarded_on (logged_in s s authed))
        (guarded_on (same_server s authed))

  subscribe_to-Guarded :
      (channels : List Bytes) (s : S)
      → Guarded s true
          (subscribe_to exec hand_over errorf error_text admitted password channels s true)
  unfolding subscribe_to
  subscribe_to-Guarded [] s = guarded_on (same_server s true)
  subscribe_to-Guarded (channel ∷ channels) s = guarded_end (authed_end s true _ refl)

  respond-Guarded :
      (cmd : Command) (s : S)
      → Guarded s true (respond exec hand_over errorf error_text admitted password s true cmd)
  unfolding respond
  respond-Guarded cmd s = elim (Option-cases (exec s cmd)) [
    | inl e ↦ rw (respond, e) (guarded_end (authed_end s true _ refl))
    | inr ((s', response), e) ↦ rw (respond, e) (guarded_on (logged_in s s' true))
  ]

  handle_command-Guarded :
      (cmd : Command) (s : S) (authed : Bool)
      → Guarded s authed
          (handle_command exec hand_over errorf error_text admitted password s authed cmd)
  unfolding handle_command
  handle_command-Guarded cmd s true =
      if_Guarded s true (str_eq (to_upper cmd.name) (codes "AUTH")) _ _
        (authenticate_with-Guarded (one_arg cmd.args) s true)
        (if_Guarded s true (str_eq (to_upper cmd.name) (codes "REPL")) _ _
          (guarded_end (authed_end s true _ refl))
          (if_Guarded s true (str_eq (to_upper cmd.name) (codes "SUBSCRIBE")) _ _
            (subscribe_to-Guarded cmd.args s) (respond-Guarded cmd s)))
  handle_command-Guarded cmd s false =
      elim (Bool-cases (str_eq (to_upper cmd.name) (codes "AUTH"))) [
        | inl e ↦ rw (handle_command, e) (authenticate_with-Guarded (one_arg cmd.args) s false)
        | inr e ↦ rw (handle_command, e) (guarded_on (same_server s false))
      ]

  check_command-Guarded :
      (cmd : Command) (s : S) (authed : Bool)
      → Guarded s authed
          (check_command exec hand_over errorf error_text admitted password s authed cmd)
  unfolding check_command
  check_command-Guarded cmd s authed =
      if_Guarded s authed admitted _ _ (handle_command-Guarded cmd s authed)
        (guarded_end (same_end s authed _ dropped refl))

  abbrev pub ServedGuard : S → Bool → Served S → Type 0
  ServedGuard s authed r = EndGuard s authed r

  then_rounds-ServedGuard :
      (h : Handled S) (s : S) (authed : Bool) (rest : S → Bool → Served S)
      → Guarded s authed h
      → ((s' : S) (authed' : Bool) → ServedGuard s' authed' (rest s' authed'))
      → ServedGuard s authed (then_rounds exec hand_over errorf error_text admitted password h rest)
  then_rounds-ServedGuard h s authed rest (guarded_on {s'} {authed'} g) later =
      EndGuard-trans s s' authed authed' _ _ g (later s' authed')
  then_rounds-ServedGuard h s authed rest (guarded_end g) later = g

  serve_reading-ServedGuard :
      (r : Reading) (s : S) (authed : Bool) (rest : Bytes → S → Bool → Served S)
      → ((left : Bytes) (s' : S) (authed' : Bool) → ServedGuard s' authed' (rest left s' authed'))
      → ServedGuard s authed
          (serve_reading exec hand_over errorf error_text admitted password r s authed rest)
  unfolding serve_reading
  serve_reading-ServedGuard (command cmd left) s authed rest later =
      then_rounds-ServedGuard _ s authed (rest left) (check_command-Guarded cmd s authed)
        (later left)
  serve_reading-ServedGuard (nothing left) s authed rest later = later left s authed
  serve_reading-ServedGuard eof s authed rest later = same_end s authed _ _ refl
  serve_reading-ServedGuard unexpected_eof s authed rest later = same_end s authed _ _ refl
  serve_reading-ServedGuard (failed e) s authed rest later = same_end s authed _ _ refl
  serve_reading-ServedGuard panicked s authed rest later = same_end s authed _ _ refl

  pub serve_rounds-ServedGuard :
      (rounds : ℕ) (input : Bytes) (s : S) (authed : Bool)
      → ServedGuard s authed
          (serve_rounds exec hand_over errorf error_text admitted password rounds input s authed)
  unfolding serve_rounds
  serve_rounds-ServedGuard zero input s authed = same_end s authed _ _ refl
  serve_rounds-ServedGuard (suc rounds) input s authed =
      serve_reading-ServedGuard (parse_command input) s authed _ (serve_rounds-ServedGuard rounds)
