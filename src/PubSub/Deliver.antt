-- ===== src/PubSub/Deliver.antt =====
-- What `Publish` of pkg/pubsub/pubsub.go hands over.
use fast_and_accurate_store.Base.{
  ==_iff, subst, ℕ, ◌+◌, ◌≡◌, refl, ap, ◌∙◌, inl, inr, true, false, Option, none, some, List, [],
  ◌∷◌, ◌++◌, Bytes, arith, ltb, ◌==◌, if◌then◌else◌, length, Bool-cases,
}
use fast_and_accurate_store.PubSub.Safety.{send_all-cons}
use fast_and_accurate_store.PubSub.{capacity, GoChan, put, has, send, send_all}

-- The reference: a buffer with room takes the message.
unfoldable pub take_in : Bytes → List Bytes → List Bytes
take_in message buffer = if ltb (length buffer) capacity then buffer ++ message ∷ [] else buffer

-- No Go channel stands in the list twice.
abbrev pub NoRepeat : List ℕ → Type 0
NoRepeat [] = Unit
NoRepeat (i ∷ ids) = (has i ids ≡ false) × NoRepeat ids

abbrev sent_count : GoChan → ℕ
sent_count ch = if ltb (length ch.buffer) capacity then 1 else 0

send_open :
    (message : Bytes) (ch : GoChan)
    → ch.closed ≡ false
    → send message ch ≡ some (record ch { buffer = take_in message ch.buffer }, sent_count ch)
unfolding send take_in
send_open message ch e = elim (Bool-cases (ltb (length ch.buffer) capacity)) [
  | inl h ↦ rw (e, h) refl
  | inr h ↦ rw (e, h) refl
]

-- Every channel of the list takes the message in, and no other.
abbrev pub AllTook : List ℕ → Bytes → (ℕ → GoChan) → (ℕ → GoChan) → Type 0
AllTook ids message chans chans' =
    (i : ℕ)
    → (chans' i).buffer ≡ (if has i ids then take_in message (chans i).buffer else (chans i).buffer)

put-AllTook :
    (k : ℕ) (ids : List ℕ) (message : Bytes) (chans chans' : ℕ → GoChan)
    → has k ids ≡ false
    → AllTook ids message
        (put k (record (chans k) { buffer = take_in message (chans k).buffer }) chans)
        chans'
    → AllTook (k ∷ ids) message chans chans'
unfolding put has
put-AllTook k ids message chans chans' h t i = elim (Bool-cases (k == i)) [
  | inl e ↦
      let same : k ≡ i = (==_iff k i).0 e in
      subst
        (λ j.
          (chans' j).buffer
          ≡ (if has j (k ∷ ids) then take_in message (chans j).buffer else (chans j).buffer))
        same (ground (arith, t k, h))
  | inr e ↦ ground (arith, t i, e)
]

-- No panic, and every channel of the list has taken the message in, and no other.
abbrev pub Took : List ℕ → Bytes → (ℕ → GoChan) → Option ((ℕ → GoChan) × ℕ) → Type 0
Took ids message chans none = ⊥
Took ids message chans (some (chans', n)) = AllTook ids message chans chans'

Took-from :
    (k : ℕ) (ids : List ℕ) (message : Bytes) (chans : ℕ → GoChan) (sent : ℕ)
    (o : Option ((ℕ → GoChan) × ℕ))
    → has k ids ≡ false
    → Took ids message
        (put k (record (chans k) { buffer = take_in message (chans k).buffer }) chans)
        o
    → Took
        (k ∷ ids)
        message
        chans
        (elim o [ none ↦ none | some (chans', n) ↦ some (chans', sent + n) ])
Took-from k ids message chans sent none h t = t
Took-from k ids message chans sent (some (chans', n)) h t =
    put-AllTook k ids message chans chans' h t

has_head : (k : ℕ) (ids : List ℕ) → has k (k ∷ ids) ≡ true
unfolding has
has_head k ids = ground arith

has_tail : (k i : ℕ) (ids : List ℕ) → has i ids ≡ true → has i (k ∷ ids) ≡ true
unfolding has
has_tail k i ids h = ground (arith, h)

closed_put :
    (k i : ℕ) (message : Bytes) (chans : ℕ → GoChan)
    → (chans i).closed ≡ false
    → (put k (record (chans k) { buffer = take_in message (chans k).buffer }) chans i).closed
      ≡ false
unfolding put
closed_put k i message chans h = elim (Bool-cases (k == i)) [
  | inl e ↦ rw e (ap (λ j. (chans j).closed) ((==_iff k i).0 e) ∙ h)
  | inr e ↦ rw e h
]

-- The loop of `Publish` over a list that holds no Go channel twice and no closed one does not panic;
-- every channel of the list with room for the message has it behind its buffer, and all other
-- buffers are what they were.
pub send_all-Took :
    (ids : List ℕ) (message : Bytes) (chans : ℕ → GoChan)
    → NoRepeat ids
    → ((i : ℕ) → has i ids ≡ true → (chans i).closed ≡ false)
    → Took ids message chans (send_all ids message chans)
send_all-Took [] message chans d o = unfold send_all in unfold has in (λ i. refl)
send_all-Took (k ∷ ids) message chans d o =
    rw (send_all-cons k ids message chans _ _ (send_open message (chans k) (o k (has_head k ids))))
      (Took-from k ids message chans (sent_count (chans k)) _ d.0 (
        send_all-Took ids message _ d.1
          (λ i h. closed_put k i message chans (o i (has_tail k i ids h)))))
