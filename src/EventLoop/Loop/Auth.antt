-- ===== src/EventLoop/Loop/Auth.antt =====
-- What the authentication gate of pkg/server/eventloop_linux.go and pkg/server/eventloop_darwin.go
-- keeps out.
use fast_and_accurate_store.Base.{
  ℕ, zero, suc, refl, sym, ap, if◌then◌else◌, ◌≡◌, ◌∙◌, Bool, true, false, Option, none, some, ◌++◌,
  Bytes, codes, arith, length, drop, str_eq, str_eq_iff, inl, inr, Bool-cases, Option-cases,
}
use fast_and_accurate_store.Protocol.Text.{to_upper}
use fast_and_accurate_store.Protocol.Command.{Command}
use fast_and_accurate_store.Protocol.Buffer.{
  Outcome, incomplete, skipped, parsed, failed, panicked, parse_command_from_bytes,
}
use fast_and_accurate_store.Server.Reply.{format_reply}
use fast_and_accurate_store.EventLoop.Client.{ClientState, is_empty, queue_write}
use fast_and_accurate_store.EventLoop.Gate.{
  only_arg, check_password, verdict, authenticate, held_back,
}
use fast_and_accurate_store.EventLoop.Loop.{
  After, kept, closed, crashed, unfinished, Round, halt, go, run_command, handle, next_round,
  process_rounds, process, feed,
}
use fast_and_accurate_store.EventLoop.Loop.Rounds.{process_rounds-step}

check_password-true :
    (password : Bytes) (arg : Option Bytes)
    → (check_password password false arg).0 ≡ true
    → arg ≡ some password
unfolding check_password
check_password-true password none h = cc
check_password-true password (some arg) h = ground (arith, str_eq_iff arg password)

-- The gate opens for one command only: AUTH, in whatever case, with the password for its argument.
pub verdict-true :
    (password : Bytes) (cmd : Command)
    → (verdict password false cmd).0 ≡ true
    → (to_upper cmd.name ≡ codes "AUTH") × (only_arg cmd.args ≡ some password)
unfolding verdict
verdict-true password cmd h = elim (Bool-cases (str_eq (to_upper cmd.name) (codes "AUTH"))) [
  | inl e ↦ (
    (str_eq_iff (to_upper cmd.name) (codes "AUTH")).0 e,
    check_password-true password (only_arg cmd.args) (rw e at h),
  )
  | inr e ↦ cc (rw e at h)
]

-- The server and whether the connection is authenticated, where a read ends without a panic
abbrev pub end_of : {S : Type 0} → After S → Option (S × Bool)
end_of (kept s c) = some (s, c.authed)
end_of (closed s authed) = some (s, authed)
end_of crashed = none
end_of unfinished = none

module _ {S : Type 0} (exec : S → Command → Option (S × Bytes)) (ctl : Bytes → Bool)
    (password : Bytes) where
  -- No end of an authentication, and no change of the server without one
  abbrev Lasts : S → ClientState → S → Bool → Type 0
  Lasts s c s' authed = (c.authed ≡ true → authed ≡ true) × (authed ≡ false → s' ≡ s)

  abbrev Guards : S → ClientState → After S → Type 0
  Guards s c a = (s' : S) (authed : Bool) → end_of a ≡ some (s', authed) → Lasts s c s' authed

  abbrev RoundGuards : S → ClientState → Round S → Type 0
  RoundGuards s c (halt a) = Guards s c a
  RoundGuards s c (go s' c') = Lasts s c s' c'.authed

  same_end :
      (s s' : S) (c : ClientState) (authed : Bool)
      → end_of (kept s c) ≡ some (s', authed)
      → Lasts s c s' authed
  same_end s s' c authed e = (λ h. cc (e, h), λ h. cc e)

  run_command-held :
      (s : S) (c : ClientState) (cmd : Command)
      → c.authed ≡ false
      → run_command exec ctl true password s c cmd ≡ go s (authenticate ctl password c cmd)
  unfolding run_command held_back
  run_command-held s c cmd a = ground (arith, a)

  run_command-free :
      (s : S) (c : ClientState) (cmd : Command)
      → c.authed ≡ true
      → run_command exec ctl true password s c cmd ≡ elim (exec s cmd) [
        | none ↦ halt crashed
        | some (s', response) ↦ go s' (queue_write ctl c (format_reply response))
      ]
  unfolding run_command held_back
  run_command-free s c cmd a = simp a

  run_command-RoundGuards :
      (s : S) (c₀ c : ClientState) (cmd : Command)
      → c.authed ≡ c₀.authed
      → RoundGuards s c₀ (run_command exec ctl true password s c cmd)
  unfolding queue_write
  run_command-RoundGuards s c₀ c cmd e₀ = elim (Bool-cases c.authed) [
    | inl a ↦ elim (Option-cases (exec s cmd)) [
      | inl e ↦ rw (run_command-free s c cmd a, e) (λ s' authed e. cc e)
      | inr ((s', response), e) ↦ rw (run_command-free s c cmd a, e) (λ h. a, λ h. cc (a, h))
    ]
    | inr a ↦ rw (run_command-held s c cmd a) (λ h. cc (a, e₀, h), λ h. refl)
  ]

  handle-RoundGuards :
      (o : Outcome) (s : S) (c : ClientState)
      → RoundGuards s c (handle exec ctl true password o s c)
  unfolding handle
  handle-RoundGuards incomplete s c = λ s' authed e. same_end s s' c authed e
  handle-RoundGuards (skipped n) s c = λ s' authed e. same_end s s' c authed e
  handle-RoundGuards (parsed cmd n) s c =
      run_command-RoundGuards s c (record c { buffer = drop n c.buffer }) cmd refl
  handle-RoundGuards (failed f) s c = λ s' authed e. same_end s s' c authed e
  handle-RoundGuards panicked s c = λ s' authed e. cc e

  next_round-RoundGuards :
      (s : S) (c : ClientState) → RoundGuards s c (next_round exec ctl true password s c)
  unfolding next_round
  next_round-RoundGuards s c = elim (Bool-cases (is_empty c.buffer)) [
    | inl h ↦ rw h (λ s' authed e. same_end s s' c authed e)
    | inr h ↦ rw h (handle-RoundGuards (parse_command_from_bytes c.buffer) s c)
  ]

  Lasts-trans :
      (s s' s'' : S) (c c' : ClientState) (authed : Bool)
      → Lasts s c s' c'.authed
      → Lasts s' c' s'' authed
      → Lasts s c s'' authed
  Lasts-trans s s' s'' c c' authed l l' = (
    λ h. l'.0 (l.0 h),
    λ h. elim (Bool-cases c'.authed) [ inl a ↦ absurd (cc (l'.0 a, h)) | inr a ↦ l'.1 h ∙ l.1 a ],
  )

  rounds_step :
      (rounds : ℕ) (s : S) (c : ClientState) (r : Round S)
      → next_round exec ctl true password s c ≡ r
      → RoundGuards s c r
      → ((s' : S) (c' : ClientState)
          → Guards s' c' (process_rounds exec ctl true password rounds s' c'))
      → Guards s c (process_rounds exec ctl true password (suc rounds) s c)
  rounds_step rounds s c (halt a) e g ih =
      rw (process_rounds-step exec ctl true password rounds s c _ e) g
  rounds_step rounds s c (go s' c') e l ih =
      rw (process_rounds-step exec ctl true password rounds s c _ e)
        (λ s'' authed h. Lasts-trans s s' s'' c c' authed l (ih s' c' s'' authed h))

  pub process_rounds-Guards :
      (rounds : ℕ) (s : S) (c : ClientState)
      → Guards s c (process_rounds exec ctl true password rounds s c)
  process_rounds-Guards zero s c = unfold process_rounds in λ s' authed e. cc e
  process_rounds-Guards (suc rounds) s c =
      rounds_step rounds s c (next_round exec ctl true password s c) refl
        (next_round-RoundGuards s c) (process_rounds-Guards rounds)

module _ {S : Type 0} (exec exec' : S → Command → Option (S × Bytes)) (ctl : Bytes → Bool)
    (password : Bytes) where
  handle-locked :
      (o : Outcome) (s : S) (c : ClientState)
      → c.authed ≡ false
      → handle exec' ctl true password o s c ≡ handle exec ctl true password o s c
  unfolding handle
  handle-locked incomplete s c a = refl
  handle-locked (skipped n) s c a = refl
  handle-locked (parsed cmd n) s c a =
      run_command-held exec' ctl password s (record c { buffer = drop n c.buffer }) cmd a
      ∙ sym (run_command-held exec ctl password s (record c { buffer = drop n c.buffer }) cmd a)
  handle-locked (failed f) s c a = refl
  handle-locked panicked s c a = refl

  -- A round of a connection that is not authenticated does not look at executeCommand.
  next_round-locked :
      (s : S) (c : ClientState)
      → c.authed ≡ false
      → next_round exec' ctl true password s c ≡ next_round exec ctl true password s c
  unfolding next_round
  next_round-locked s c a =
      ap (λ r. if is_empty c.buffer then halt (kept s c) else r)
        (handle-locked (parse_command_from_bytes c.buffer) s c a)

  locked_step :
      (rounds : ℕ) (s s' : S) (c : ClientState) (r : Round S)
      → next_round exec ctl true password s c ≡ r
      → next_round exec' ctl true password s c ≡ r
      → end_of (process_rounds exec ctl true password (suc rounds) s c) ≡ some (s', false)
      → ((s₁ : S) (c₁ : ClientState)
          → end_of (process_rounds exec ctl true password rounds s₁ c₁) ≡ some (s', false)
          → process_rounds exec' ctl true password rounds s₁ c₁
            ≡ process_rounds exec ctl true password rounds s₁ c₁)
      → process_rounds exec' ctl true password (suc rounds) s c
        ≡ process_rounds exec ctl true password (suc rounds) s c
  locked_step rounds s s' c (halt a) e e' h ih =
      process_rounds-step exec' ctl true password rounds s c _ e'
      ∙ sym (process_rounds-step exec ctl true password rounds s c _ e)
  locked_step rounds s s' c (go s₁ c₁) e e' h ih =
      process_rounds-step exec' ctl true password rounds s c _ e'
      ∙ ih s₁ c₁ (ap end_of (sym (process_rounds-step exec ctl true password rounds s c _ e)) ∙ h)
      ∙ sym (process_rounds-step exec ctl true password rounds s c _ e)

  process_rounds-locked :
      (rounds : ℕ) (s s' : S) (c : ClientState)
      → end_of (process_rounds exec ctl true password rounds s c) ≡ some (s', false)
      → process_rounds exec' ctl true password rounds s c
        ≡ process_rounds exec ctl true password rounds s c
  process_rounds-locked zero s s' c h = unfold process_rounds in refl
  process_rounds-locked (suc rounds) s s' c h = elim (Bool-cases c.authed) [
    | inl a ↦
        absurd (cc ((process_rounds-Guards exec ctl password (suc rounds) s c s' false h).0 a))
    | inr a ↦
        locked_step rounds s s' c _ refl (next_round-locked s c a) h
          (λ s₁ c₁. process_rounds-locked rounds s₁ s' c₁)
  ]

  -- Where authentication is required, a read that ends with a connection that is not authenticated,
  -- kept or closed, with anything in it, has executed nothing: the server is the one before it, and the
  -- read comes to the same, with the same replies waiting, with any other executeCommand, also one that
  -- panics.
  pub feed-unauthenticated :
      (s s' : S) (c : ClientState) (input : Bytes)
      → end_of (feed exec ctl true password s c input) ≡ some (s', false)
      → (s' ≡ s) × (feed exec' ctl true password s c input ≡ feed exec ctl true password s c input)
  unfolding feed process
  feed-unauthenticated s s' c input h =
      let rounds = suc (length (c.buffer ++ input)) in
      let c' = record c { buffer = c.buffer ++ input } in
      (
        (process_rounds-Guards exec ctl password rounds s c' s' false h).1 refl,
        process_rounds-locked rounds s s' c' h,
      )
