-- ===== src/EventLoop/Schedule/Output.antt =====
-- What reaches the wire in pkg/server/eventloop_linux.go, in every order of reads and writes.
use fast_and_accurate_store.Base.{
  ℕ, zero, suc, refl, sym, ap, subst, ◌≡◌, ◌∙◌, Bool, true, false, Option, none, some, List, [],
  ◌∷◌, ◌++◌, append_assoc, Bytes, length, take, drop, inl, inr, Bool-cases,
}
use fast_and_accurate_store.Protocol.Command.{Command}
use fast_and_accurate_store.EventLoop.Client.{
  ClientState, is_empty, WriteAnswer, wrote, again, broken, Flushed, after_answer, write_rounds,
  write, enable_write, disable_write,
}
use fast_and_accurate_store.EventLoop.Loop.{After, kept, closed, crashed, unfinished, feed}
use fast_and_accurate_store.EventLoop.Loop.Fragments.{and_then, feed-append}
use fast_and_accurate_store.EventLoop.Loop.Idle.{Idle, feed-Idle, KeepsIdle, feed-KeepsIdle}
use fast_and_accurate_store.EventLoop.Schedule.{
  ReadAnswer, drained, ended, LoopEvent, hung_up, ready, read, after_read, after_flush, after_write,
  and_later, dispatch, run_schedule, input_of, inputs_of,
}
use fast_and_accurate_store.EventLoop.Schedule.Ahead.{ahead, AfterAhead, feed-ahead}

take-drop : (n : ℕ) (s : Bytes) → take n s ++ drop n s ≡ s
take-drop zero s = refl
take-drop (suc n) [] = refl
take-drop (suc n) (c ∷ s) = ap (λ r. c ∷ r) (take-drop n s)

-- A write takes bytes off the front of what waits, and changes nothing else but the flag.
abbrev FlushedFrom : ClientState → Option ClientState → Bytes → Type 0
FlushedFrom c none w = Unit
FlushedFrom c (some c') w = (e : Bool) × (ahead w e c' ≡ c)

ahead-ahead :
    (v w : Bytes) (e e' : Bool) (c : ClientState) → ahead v e (ahead w e' c) ≡ ahead (v ++ w) e c
ahead-ahead v w e e' c =
    ap (λ waiting. record c { write_buffer = waiting; write_enabled = e })
      (sym (append_assoc v w c.write_buffer))

FlushedFrom-prepend :
    (c : ClientState) (n : ℕ) (o : Option ClientState) (w : Bytes)
    → FlushedFrom (record c { write_buffer = drop n c.write_buffer }) o w
    → FlushedFrom c o (take n c.write_buffer ++ w)
FlushedFrom-prepend c n none w h = tt
FlushedFrom-prepend c n (some c') w (e, h) = (
  c.write_enabled,
  sym (ahead-ahead (take n c.write_buffer) w c.write_enabled e c')
      ∙ ap (ahead (take n c.write_buffer) c.write_enabled) h
      ∙ ap (λ waiting. record c { write_buffer = waiting }) (take-drop n c.write_buffer),
)

module _ (kernel : Bytes → WriteAnswer) (ctl : Bytes → Bool) where
  abbrev pub flush_rounds : ℕ → ClientState → Flushed
  flush_rounds = write_rounds kernel (enable_write ctl) (disable_write ctl)

  after_answer-FlushedFrom :
      (answer : WriteAnswer) (c : ClientState) (rest : ℕ → Flushed)
      → ((n : ℕ) → FlushedFrom c (rest n).client (rest n).wire)
      → FlushedFrom c
          (after_answer kernel (enable_write ctl) (disable_write ctl) answer c rest).client
          (after_answer kernel (enable_write ctl) (disable_write ctl) answer c rest).wire
  unfolding enable_write
  after_answer-FlushedFrom (wrote zero) c rest h = (c.write_enabled, refl)
  after_answer-FlushedFrom (wrote (suc n)) c rest h = h (suc n)
  after_answer-FlushedFrom again c rest h = (c.write_enabled, refl)
  after_answer-FlushedFrom broken c rest h = tt

  disable_write-FlushedFrom : (c : ClientState) → FlushedFrom c (some (disable_write ctl c)) []
  unfolding disable_write
  disable_write-FlushedFrom c = (c.write_enabled, refl)

  pub write_rounds-empty :
      (rounds : ℕ) (c : ClientState)
      → is_empty c.write_buffer ≡ true
      → flush_rounds (suc rounds) c ≡ record { client = some (disable_write ctl c); wire = [] }
  unfolding write_rounds
  write_rounds-empty rounds c h = rw (write_rounds, h) refl

  pub write_rounds-more :
      (rounds : ℕ) (c : ClientState)
      → is_empty c.write_buffer ≡ false
      → flush_rounds (suc rounds) c
        ≡ after_answer kernel (enable_write ctl) (disable_write ctl) (kernel c.write_buffer) c λ n.
          let rest = flush_rounds rounds (record c { write_buffer = drop n c.write_buffer }) in
          record rest { wire = take n c.write_buffer ++ rest.wire }
  unfolding write_rounds
  write_rounds-more rounds c h = rw (write_rounds, h) refl

  write_rounds-FlushedFrom :
      (rounds : ℕ) (c : ClientState)
      → FlushedFrom c (flush_rounds rounds c).client (flush_rounds rounds c).wire
  write_rounds-FlushedFrom zero c = unfold write_rounds in (c.write_enabled, refl)
  write_rounds-FlushedFrom (suc rounds) c = elim (Bool-cases (is_empty c.write_buffer)) [
    | inl h ↦ rw (write_rounds-empty rounds c h) (disable_write-FlushedFrom c)
    | inr h ↦ rw (write_rounds-more rounds c h) (
        after_answer-FlushedFrom (kernel c.write_buffer) c _ λ n.
          FlushedFrom-prepend c n _ _
            (write_rounds-FlushedFrom rounds (record c { write_buffer = drop n c.write_buffer })))
  ]

  write-FlushedFrom :
      (c : ClientState) → FlushedFrom c (write kernel ctl c).client (write kernel ctl c).wire
  unfolding write
  write-FlushedFrom c = write_rounds-FlushedFrom (suc (length c.write_buffer)) c

module _ {S : Type 0} (exec : S → Command → Option (S × Bytes)) (ctl : Bytes → Bool)
    (required : Bool) (password : Bytes) where
  -- A read of `input` ends as `a`, if `a` keeps the connection.
  abbrev ReadAs : S → ClientState → Bytes → After S → Type 0
  ReadAs s c input (kept s' c') = feed exec ctl required password s c input ≡ kept s' c'
  ReadAs s c input (closed s' authed) = Unit
  ReadAs s c input crashed = Unit
  ReadAs s c input unfinished = Unit

  -- One read of `input`, with no write, ends with the same server, and the connection differs in that
  -- what is on the wire still waits; if the connection is kept.
  abbrev pub Reaches : S → ClientState → Bytes → After S → Bytes → Type 0
  Reaches s c input (kept s' c') wire =
      (e : Bool) × (feed exec ctl required password s c input ≡ kept s' (ahead wire e c'))
  Reaches s c input (closed s' authed) wire = Unit
  Reaches s c input crashed wire = Unit
  Reaches s c input unfinished wire = Unit

  ReadAs-refl :
      (s : S) (c : ClientState) (input : Bytes)
      → ReadAs s c input (feed exec ctl required password s c input)
  ReadAs-refl s c input = go (feed exec ctl required password s c input) refl
    where
      go : (a : After S) → feed exec ctl required password s c input ≡ a → ReadAs s c input a
      go (kept s' c') h = h
      go (closed s' authed) h = tt
      go crashed h = tt
      go unfinished h = tt

  after_read-ReadAs :
      (r : Option ReadAnswer) (w : Option (Bytes → WriteAnswer)) (s : S) (c : ClientState)
      → Idle c.buffer
      → ReadAs s c (input_of (ready r w)) (after_read exec ctl required password r s c)
  unfolding read
  after_read-ReadAs none w s c h = feed-Idle exec ctl required password s c h
  after_read-ReadAs (some (drained input)) w s c h = ReadAs-refl s c input
  after_read-ReadAs (some (ended input)) w s c h = tt

  flush-Reaches :
      (s s' : S) (c c' : ClientState) (input wire : Bytes) (o : Option ClientState)
      → feed exec ctl required password s c input ≡ kept s' c'
      → FlushedFrom c' o wire
      → Reaches s c input (after_flush exec ctl required password s' c'.authed o) wire
  flush-Reaches s s' c c' input wire none h f = tt
  flush-Reaches s s' c c' input wire (some d) h (e, f) = (e, h ∙ ap (kept s') (sym f))

  after_write-Reaches :
      (w : Option (Bytes → WriteAnswer)) (a : After S) (s : S) (c : ClientState) (input : Bytes)
      → ReadAs s c input a
      → Reaches s c input
          (after_write exec ctl required password w a).0
          (after_write exec ctl required password w a).1
  unfolding after_write
  after_write-Reaches none (kept s' c') s c input h = (c'.write_enabled, h)
  after_write-Reaches none (closed s' authed) s c input h = tt
  after_write-Reaches none crashed s c input h = tt
  after_write-Reaches none unfinished s c input h = tt
  after_write-Reaches (some kernel) (kept s' c') s c input h =
      flush-Reaches s s' c c' input _ _ h (write-FlushedFrom kernel ctl c')
  after_write-Reaches (some kernel) (closed s' authed) s c input h = tt
  after_write-Reaches (some kernel) crashed s c input h = tt
  after_write-Reaches (some kernel) unfinished s c input h = tt

  dispatch-Reaches :
      (e : LoopEvent) (s : S) (c : ClientState)
      → Idle c.buffer
      → Reaches s c
          (input_of e)
          (dispatch exec ctl required password e s c).0
          (dispatch exec ctl required password e s c).1
  unfolding dispatch
  dispatch-Reaches hung_up s c h = tt
  dispatch-Reaches (ready r w) s c h =
      after_write-Reaches w (after_read exec ctl required password r s c) s c (input_of (ready r w))
        (after_read-ReadAs r w s c h)

  later-Reaches :
      (s s₁ : S) (c c₁ : ClientState) (i rest v w : Bytes) (e₁ : Bool) (a : After S)
      → feed exec ctl required password s c i ≡ kept s₁ (ahead v e₁ c₁)
      → Reaches s₁ c₁ rest a w
      → Reaches s c (i ++ rest) a (v ++ w)
  later-Reaches s s₁ c c₁ i rest v w e₁ (kept s₂ c₂) h (e₂, k) =
      let (e₃, x) =
        subst (λ a. AfterAhead v a (feed exec ctl required password s₁ (ahead v e₁ c₁) rest)) k
          (feed-ahead exec ctl required password v s₁ e₁ c₁ rest) in
      (
        e₃,
        feed-append exec ctl required password s c i rest
            ∙ ap
                (λ a.
                  and_then exec ctl required password a
                    (λ s' c'. feed exec ctl required password s' c' rest))
                h
            ∙ x
            ∙ ap (kept s₂) (ahead-ahead v w e₃ e₂ c₂),
      )
  later-Reaches s s₁ c c₁ i rest v w e₁ (closed s₂ authed) h k = tt
  later-Reaches s s₁ c c₁ i rest v w e₁ crashed h k = tt
  later-Reaches s s₁ c c₁ i rest v w e₁ unfinished h k = tt

  and_later-Reaches :
      (s : S) (c : ClientState) (i rest v : Bytes) (a : After S)
      (later : S → ClientState → After S × Bytes)
      → Reaches s c i a v
      → ((s' : S) (c' : ClientState)
          → Idle c'.buffer
          → Reaches s' c' rest (later s' c').0 (later s' c').1)
      → Reaches s c
          (i ++ rest)
          (and_later exec ctl required password v a later).0
          (and_later exec ctl required password v a later).1
  and_later-Reaches s c i rest v (kept s₁ c₁) later (e₁, h) ih =
      later-Reaches s s₁ c c₁ i rest v _ e₁ _ h (
        ih s₁ c₁ (
          subst (KeepsIdle exec ctl required password) h
            (feed-KeepsIdle exec ctl required password s c i)))
  and_later-Reaches s c i rest v (closed s₁ authed) later h ih = tt
  and_later-Reaches s c i rest v crashed later h ih = tt
  and_later-Reaches s c i rest v unfinished later h ih = tt

  run_schedule-Reaches :
      (events : List LoopEvent) (s : S) (c : ClientState)
      → Idle c.buffer
      → Reaches s c
          (inputs_of events)
          (run_schedule exec ctl required password events s c).0
          (run_schedule exec ctl required password events s c).1
  unfolding run_schedule
  run_schedule-Reaches [] s c h = (c.write_enabled, feed-Idle exec ctl required password s c h)
  run_schedule-Reaches (e ∷ events) s c h =
      and_later-Reaches s c (input_of e) (inputs_of events) _
        (dispatch exec ctl required password e s c).0
        (λ s' c'. run_schedule exec ctl required password events s' c') (dispatch-Reaches e s c h)
        (run_schedule-Reaches events)

  -- A connection with no command in its buffer goes through any events of its descriptor, in which
  -- its input comes in any pieces and the kernel takes what it likes, and is kept to the end. Then
  -- one read of the whole input, with no write, ends with the same server, and with the same
  -- connection but for its flag, when the bytes on the wire are put in front of those that wait to be
  -- written.
  pub run_schedule-kept :
      (events : List LoopEvent) (s s' : S) (c c' : ClientState) (wire : Bytes)
      → Idle c.buffer
      → run_schedule exec ctl required password events s c ≡ (kept s' c', wire)
      → (e : Bool) × (feed exec ctl required password s c (inputs_of events)
          ≡ kept s' (ahead wire e c'))
  run_schedule-kept events s s' c c' wire h e =
      subst (λ (r : After S × Bytes). Reaches s c (inputs_of events) r.0 r.1) e
        (run_schedule-Reaches events s c h)
