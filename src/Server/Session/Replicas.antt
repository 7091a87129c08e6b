-- ===== src/Server/Session/Replicas.antt =====
-- What a run of commands leaves in the replicas' channels of pkg/server/server.go.
use fast_and_accurate_store.Base.{
  ℕ, zero, suc, ◌≤◌, ◌≡◌, refl, sym, ap, ◌∙◌, subst, Bool, true, false, ◌&&◌, inl, inr, Bool-cases,
  Option-cases, Option, none, some, List, [], ◌∷◌, ◌++◌, append_assoc, append-nil, Bytes, arith,
  length, length-append, take, take_append, ltb, if◌then◌else◌,
}
use fast_and_accurate_store.Protocol.Command.{Command}
use fast_and_accurate_store.Server.State.{Server, offer_all, offer, replica_capacity}
use fast_and_accurate_store.Server.Handler.{World}
use fast_and_accurate_store.Server.Execute.{verb_of, execute}
use fast_and_accurate_store.Server.Execute.Effect.{written}
use fast_and_accurate_store.Server.Execute.Outcome.{execute-Outcome}
use fast_and_accurate_store.Server.Session.{Call, run_calls, told_by}
use fast_and_accurate_store.Server.Session.Step.{with_reply, run_calls-step}

-- Commands that are put behind each channel's, up to its capacity
abbrev pub filled_up : List Command → List (ℕ × List Command) → List (ℕ × List Command)
filled_up cmds [] = []
filled_up cmds ((id, waiting) ∷ replicas) =
    (id, take replica_capacity (waiting ++ cmds)) ∷ filled_up cmds replicas

-- No channel has more commands than its capacity.
pub data AllWithin : List (ℕ × List Command) → Type 0 where
  no_replicas : AllWithin []
  within :
      {id : ℕ} {waiting : List Command} {replicas : List (ℕ × List Command)}
      → length waiting ≤ replica_capacity
      → AllWithin replicas
      → AllWithin ((id, waiting) ∷ replicas)

take-all : (n : ℕ) (xs : List Command) → length xs ≤ n → take n xs ≡ xs
take-all zero [] h = refl
take-all zero (x ∷ xs) h = absurd (omega arith)
take-all (suc n) [] h = refl
take-all (suc n) (x ∷ xs) h = ap (λ r. x ∷ r) (take-all n xs (omega arith))

take-full : (n : ℕ) (xs ys : List Command) → length xs ≡ n → take n (xs ++ ys) ≡ xs
take-full n xs ys h = subst (λ k. take k (xs ++ ys) ≡ xs) h (take_append xs ys)

-- A channel of any capacity
offer_within :
    (n : ℕ) (cmd : Command) (cmds waiting : List Command)
    → length waiting ≤ n
    → take n ((if ltb (length waiting) n then waiting ++ cmd ∷ [] else waiting) ++ cmds)
      ≡ take n (waiting ++ cmd ∷ cmds)
offer_within n cmd cmds waiting h = elim (Bool-cases (ltb (length waiting) n)) [
  | inl e ↦ rw e (ap (take n) (append_assoc waiting (cmd ∷ []) cmds))
  | inr e ↦
      rw e (take-full n waiting cmds (full e) ∙ sym (take-full n waiting (cmd ∷ cmds) (full e)))
]
  where
    full : ltb (length waiting) n ≡ false → length waiting ≡ n
    full e = ground (arith, e, h)

offer_length :
    (n : ℕ) (cmd : Command) (waiting : List Command)
    → length waiting ≤ n
    → length (if ltb (length waiting) n then waiting ++ cmd ∷ [] else waiting) ≤ n
offer_length n cmd waiting h = elim (Bool-cases (ltb (length waiting) n)) [
  | inl e ↦ rw (e, length-append waiting (cmd ∷ [])) (ground (arith, e))
  | inr e ↦ rw e h
]

filled_up-offer_all :
    (cmd : Command) (cmds : List Command) (replicas : List (ℕ × List Command))
    → AllWithin replicas
    → filled_up cmds (offer_all cmd replicas) ≡ filled_up (cmd ∷ cmds) replicas
unfolding offer_all offer
filled_up-offer_all cmd cmds replicas no_replicas = refl
filled_up-offer_all cmd cmds replicas (within {id} {waiting} {replicas = rs} h hs) =
    ap (λ x. (id, x) ∷ filled_up cmds (offer_all cmd rs))
      (offer_within replica_capacity cmd cmds waiting h)
    ∙ ap (λ x. (id, take replica_capacity (waiting ++ cmd ∷ cmds)) ∷ x)
        (filled_up-offer_all cmd cmds rs hs)

offer_all-AllWithin :
    (cmd : Command) (replicas : List (ℕ × List Command))
    → AllWithin replicas
    → AllWithin (offer_all cmd replicas)
unfolding offer_all offer
offer_all-AllWithin cmd replicas no_replicas = no_replicas
offer_all-AllWithin cmd replicas (within {id} {waiting} h hs) =
    within (offer_length replica_capacity cmd waiting h) (offer_all-AllWithin cmd _ hs)

filled_up-nil :
    (replicas : List (ℕ × List Command)) → AllWithin replicas → filled_up [] replicas ≡ replicas
filled_up-nil replicas no_replicas = refl
filled_up-nil replicas (within {id} {waiting} {replicas = rs} h hs) =
    ap (λ x. (id, take replica_capacity x) ∷ filled_up [] rs) (append-nil waiting)
    ∙ ap (λ x. (id, x) ∷ filled_up [] rs) (take-all replica_capacity waiting h)
    ∙ ap (λ x. (id, waiting) ∷ x) (filled_up-nil rs hs)

filled_up-if :
    (b : Bool) (cmd : Command) (rest : List Command) (replicas : List (ℕ × List Command))
    → AllWithin replicas
    → filled_up rest (if b && true then offer_all cmd replicas else replicas)
      ≡ filled_up (if b then cmd ∷ rest else rest) replicas
filled_up-if true cmd rest replicas h = filled_up-offer_all cmd rest replicas h
filled_up-if false cmd rest replicas h = refl

AllWithin-if :
    (b : Bool) (cmd : Command) (replicas : List (ℕ × List Command))
    → AllWithin replicas
    → AllWithin (if b && true then offer_all cmd replicas else replicas)
AllWithin-if true cmd replicas h = offer_all-AllWithin cmd replicas h
AllWithin-if false cmd replicas h = h

-- The channels are those of `replicas`, filled up with the written commands.
abbrev FillsUp : List (ℕ × List Command) → List Call → Option (Server × List Bytes) → Type 0
FillsUp replicas calls none = Unit
FillsUp replicas calls (some (s', replies)) =
    s'.replicas ≡ filled_up (told_by written calls replies) replicas

with_reply-FillsUp :
    (w : World) (cmd : Command) (calls : List Call) (reply : Bytes)
    (replicas : List (ℕ × List Command)) (o : Option (Server × List Bytes))
    → AllWithin replicas
    → FillsUp
        (if written (verb_of cmd.name) reply && true then offer_all cmd replicas else replicas)
        calls
        o
    → FillsUp replicas ((w, cmd) ∷ calls) (with_reply reply o)
with_reply-FillsUp w cmd calls reply replicas none r h = tt
with_reply-FillsUp w cmd calls reply replicas (some (s', replies)) r h =
    h
    ∙ filled_up-if (written (verb_of cmd.name) reply) cmd (told_by written calls replies) replicas r

run_calls-FillsUp :
    (calls : List Call) (s : Server)
    → AllWithin s.replicas
    → FillsUp s.replicas calls (run_calls calls s)
unfolding run_calls
run_calls-FillsUp [] s r = sym (filled_up-nil s.replicas r)
run_calls-FillsUp ((w, cmd) ∷ calls) s r = elim (Option-cases (execute w false s cmd)) [
  | inl e ↦ rw (run_calls, e) tt
  | inr ((s', reply), e) ↦ rw (run_calls-step w cmd calls s s' reply e) (
      with_reply-FillsUp w cmd calls reply s.replicas (run_calls calls s') r (
        subst (λ replicas. FillsUp replicas calls (run_calls calls s'))
          (execute-Outcome w cmd false s s' reply e).replicas
          (run_calls-FillsUp calls s' (
            subst AllWithin (sym (execute-Outcome w cmd false s s' reply e).replicas)
              (AllWithin-if (written (verb_of cmd.name) reply) cmd s.replicas r)))))
]

-- While the replicas take nothing, any commands leave in each replica's channel what was in it, with
-- the SETs that were answered with OK and the PUBLISHs that were answered with a number behind it, in
-- their order and up to 1024 commands in all.
pub run_calls-replicas :
    (calls : List Call) (s s' : Server) (replies : List Bytes)
    → AllWithin s.replicas
    → run_calls calls s ≡ some (s', replies)
    → s'.replicas ≡ filled_up (told_by written calls replies) s.replicas
run_calls-replicas calls s s' replies r e =
    subst (FillsUp s.replicas calls) e (run_calls-FillsUp calls s r)
