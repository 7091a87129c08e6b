-- ===== src/EventLoop/Loop/Fragments.antt =====
-- How the input of a connection is cut into reads does not matter to the loop of
-- pkg/server/eventloop_linux.go and pkg/server/eventloop_darwin.go.
use fast_and_accurate_store.Base.{
  ℕ, zero, suc, ◌<◌, ◌≡◌, ◌≢◌, refl, sym, ap, ap₂, ◌∙◌, Bool, Option, [], ◌++◌, append_assoc, Bytes,
  arith, length, length-append,
}
use fast_and_accurate_store.Protocol.Command.{Command}
use fast_and_accurate_store.EventLoop.Client.{ClientState}
use fast_and_accurate_store.EventLoop.Loop.{
  After, kept, closed, crashed, unfinished, Round, halt, go, next_round, process_rounds, process,
  feed,
}
use fast_and_accurate_store.EventLoop.Loop.Rounds.{
  with_input, Shrinks, Carries, next_round-Shrinks, next_round-Carries, process_rounds-step, enough,
}

module _ {S : Type 0} (exec : S → Command → Option (S × Bytes)) (ctl : Bytes → Bool)
    (required : Bool) (password : Bytes) where
  -- What follows goes on with the server and the connection, if both go on.
  abbrev pub and_then : After S → (S → ClientState → After S) → After S
  and_then (kept s c) rest = rest s c
  and_then (closed s authed) rest = closed s authed
  and_then crashed rest = crashed
  and_then unfinished rest = unfinished

  -- Input that comes behind what is buffered.
  abbrev then_input : Bytes → After S → After S
  then_input b a = and_then a (λ s c. process exec ctl required password s (with_input c b))

  split_step :
      (rounds : ℕ) (s : S) (c : ClientState) (b : Bytes) (r : Round S)
      → next_round exec ctl required password s c ≡ r
      → Shrinks exec ctl required password (length c.buffer) r
      → Carries exec ctl required password s c b r
          (next_round exec ctl required password s (with_input c b))
      → length c.buffer < suc rounds
      → ((s' : S) (c' : ClientState)
          → length c'.buffer < rounds
          → process exec ctl required password s' (with_input c' b)
            ≡ then_input b (process_rounds exec ctl required password rounds s' c'))
      → process exec ctl required password s (with_input c b)
        ≡ then_input b (process_rounds exec ctl required password (suc rounds) s c)
  unfolding process
  split_step rounds s c b (halt (kept s' c')) e h (es, ec) l ih =
      ap₂ (λ s₀ c₀. process exec ctl required password s₀ (with_input c₀ b)) (sym es) (sym ec)
      ∙ sym (
          ap (then_input b)
            (process_rounds-step exec ctl required password rounds s c (halt (kept s' c')) e))
  split_step rounds s c b (halt (closed s' authed)) e h k l ih =
      process_rounds-step exec ctl required password (length (c.buffer ++ b)) s (with_input c b)
        (halt (closed s' authed)) k
      ∙ sym (
          ap (then_input b)
            (process_rounds-step exec ctl required password rounds s c (halt (closed s' authed)) e))
  split_step rounds s c b (halt crashed) e h k l ih =
      process_rounds-step exec ctl required password (length (c.buffer ++ b)) s (with_input c b)
        (halt crashed) k
      ∙ sym (
          ap (then_input b)
            (process_rounds-step exec ctl required password rounds s c (halt crashed) e))
  split_step rounds s c b (halt unfinished) e h k l ih = absurd k
  split_step rounds s c b (go s' c') e h k l ih =
      process_rounds-step exec ctl required password (length (c.buffer ++ b)) s (with_input c b)
        (go s' (with_input c' b)) k
      ∙ enough exec ctl required password (length (c.buffer ++ b)) (suc (length (c'.buffer ++ b)))
          s' (with_input c' b) (omega (arith, length-append c.buffer b, length-append c'.buffer b))
          (omega arith)
      ∙ ih s' c' (omega arith)
      ∙ sym (
          ap (then_input b)
            (process_rounds-step exec ctl required password rounds s c (go s' c') e))

  split_rounds :
      (rounds : ℕ) (s : S) (c : ClientState) (b : Bytes)
      → length c.buffer < rounds
      → process exec ctl required password s (with_input c b)
        ≡ then_input b (process_rounds exec ctl required password rounds s c)
  split_rounds zero s c b l = absurd (omega arith)
  split_rounds (suc rounds) s c b l =
      split_step rounds s c b (next_round exec ctl required password s c) refl
        (next_round-Shrinks exec ctl required password s c)
        (next_round-Carries exec ctl required password s c b) l
        (λ s' c' l'. split_rounds rounds s' c' b l')

  -- Input that arrives in two reads comes to the same as in one: the same server and connection, with
  -- the same replies waiting, or the same end.
  pub feed-append :
      (s : S) (c : ClientState) (a b : Bytes)
      → feed exec ctl required password s c (a ++ b)
        ≡ and_then
            (feed exec ctl required password s c a)
            (λ s' c'. feed exec ctl required password s' c' b)
  unfolding feed process
  feed-append s c a b =
      ap (λ buffer. process exec ctl required password s (record c { buffer = buffer }))
        (sym (append_assoc c.buffer a b))
      ∙ split_rounds (suc (length (c.buffer ++ a))) s (with_input c a) b (omega arith)

  total_step :
      (rounds : ℕ) (s : S) (c : ClientState) (b : Bytes) (r : Round S)
      → next_round exec ctl required password s c ≡ r
      → Shrinks exec ctl required password (length c.buffer) r
      → Carries exec ctl required password s c b r
          (next_round exec ctl required password s (with_input c b))
      → length c.buffer < suc rounds
      → ((s' : S) (c' : ClientState)
          → length c'.buffer < rounds
          → process_rounds exec ctl required password rounds s' c' ≢ unfinished)
      → process_rounds exec ctl required password (suc rounds) s c ≢ unfinished
  total_step rounds s c b (halt (kept s' c')) e h k l ih =
      rw (process_rounds-step exec ctl required password rounds s c _ e) (λ z. cc)
  total_step rounds s c b (halt (closed s' authed)) e h k l ih =
      rw (process_rounds-step exec ctl required password rounds s c _ e) (λ z. cc)
  total_step rounds s c b (halt crashed) e h k l ih =
      rw (process_rounds-step exec ctl required password rounds s c _ e) (λ z. cc)
  total_step rounds s c b (halt unfinished) e h k l ih = absurd k
  total_step rounds s c b (go s' c') e h k l ih =
      rw (process_rounds-step exec ctl required password rounds s c _ e) (ih s' c' (omega arith))

  total_rounds :
      (rounds : ℕ) (s : S) (c : ClientState)
      → length c.buffer < rounds
      → process_rounds exec ctl required password rounds s c ≢ unfinished
  total_rounds zero s c l = absurd (omega arith)
  total_rounds (suc rounds) s c l =
      total_step rounds s c [] (next_round exec ctl required password s c) refl
        (next_round-Shrinks exec ctl required password s c)
        (next_round-Carries exec ctl required password s c []) l (total_rounds rounds)

  -- The loop ends on every input: a round more than the buffer has bytes is enough.
  pub feed-ne-unfinished :
      (s : S) (c : ClientState) (input : Bytes)
      → feed exec ctl required password s c input ≢ unfinished
  unfolding feed process
  feed-ne-unfinished s c input =
      total_rounds (suc (length (c.buffer ++ input))) s (with_input c input) (omega arith)
