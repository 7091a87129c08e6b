-- ===== src/Server/Clients.antt =====
-- The count of the connections in Start and handleConnection of pkg/server/server.go.
use fast_and_accurate_store.Base.{
  ℕ, zero, suc, ◌+◌, ◌-◌, ◌≡◌, ◌≤◌, ◌<◌, refl, sym, ap, ◌∙◌, subst, Bool, true, false, Bool-cases,
  inl, inr, Option, none, some, List, [], ◌∷◌, arith, leb, if◌then◌else◌,
}
use fast_and_accurate_store.Base.Int.{ℤ, pos, negsuc}
use fast_and_accurate_store.Server.State.{Server}

-- `MaxClients > 0`
abbrev pub is_limited : ℤ → Bool
is_limited (pos zero) = false
is_limited (pos (suc n)) = true
is_limited (negsuc n) = false

-- `clients >= MaxClients`, where there is a limit
abbrev pub is_full : ℕ → ℤ → Bool
is_full clients (pos n) = leb n clients
is_full clients (negsuc n) = true

-- A connection that Start has accepted: none where it is closed at once.
unfoldable pub admit_within : ℤ → Server → Option Server
admit_within max_clients s =
    if is_limited max_clients
    then if is_full s.clients max_clients then none else some (record s { clients = s.clients + 1 })
    else some s

unfoldable pub admit : Server → Option Server
unfolding admit_within
admit s = admit_within s.config.max_clients s

-- The deferred function of handleConnection
unfoldable pub depart_within : ℤ → Server → Server
depart_within max_clients s =
    if is_limited max_clients then record s { clients = s.clients - 1 } else s

unfoldable pub depart : Server → Server
unfolding depart_within
depart s = depart_within s.config.max_clients s

-- A client comes, or one of those that are served goes.
pub data ClientEvent : Type 0 where
  comes goes : ClientEvent

-- The number of connections that are served, and the server
unfoldable pub client_event : ClientEvent → ℕ × Server → ℕ × Server
unfolding admit depart
client_event comes (served, s) = elim (admit s) [ none ↦ (served, s) | some s' ↦ (served + 1, s') ]
client_event goes (zero, s) = (zero, s)
client_event goes (suc served, s) = (served, depart s)

unfoldable pub client_events : List ClientEvent → ℕ × Server → ℕ × Server
unfolding client_event
client_events [] state = state
client_events (e ∷ events) state = client_events events (client_event e state)

-- The count is the number of connections that are served, which is within the limit.
pub record IsCounted (limit : ℕ) (state : ℕ × Server) : Type 0 where
  pub limited : state.1.config.max_clients ≡ pos limit
  pub counted : state.1.clients ≡ state.0
  pub bounded : state.0 ≤ limit

admit-full :
    (n : ℕ) (s : Server)
    → s.config.max_clients ≡ pos (suc n)
    → leb (suc n) s.clients ≡ true
    → admit s ≡ none
unfolding admit admit_within
admit-full n s l e = ap (λ m. admit_within m s) l ∙ rw (admit_within, e) refl

admit-room :
    (n : ℕ) (s : Server)
    → s.config.max_clients ≡ pos (suc n)
    → leb (suc n) s.clients ≡ false
    → admit s ≡ some (record s { clients = s.clients + 1 })
unfolding admit admit_within
admit-room n s l e = ap (λ m. admit_within m s) l ∙ rw (admit_within, e) refl

depart-limited :
    (n : ℕ) (s : Server)
    → s.config.max_clients ≡ pos (suc n)
    → depart s ≡ record s { clients = s.clients - 1 }
unfolding depart depart_within
depart-limited n s l = ap (λ m. depart_within m s) l

client_event-IsCounted :
    (n : ℕ) (e : ClientEvent) (served : ℕ) (s : Server)
    → IsCounted (suc n) (served, s)
    → IsCounted (suc n) (client_event e (served, s))
unfolding client_event
client_event-IsCounted n comes served s h = elim (Bool-cases (leb (suc n) s.clients)) [
  | inl e ↦ rw (client_event, admit-full n s h.limited e) h
  | inr e ↦
      rw (client_event, admit-room n s h.limited e)
        (record {
          limited = h.limited;
          counted = ap (λ k. k + 1) h.counted;
          bounded = ground (arith, e, h.counted, h.bounded);
        })
]
client_event-IsCounted n goes zero s h = h
client_event-IsCounted n goes (suc served) s h =
    subst (λ s'. IsCounted (suc n) (served, s')) (sym (depart-limited n s h.limited))
      (record {
        limited = h.limited;
        counted = omega (arith, h.counted);
        bounded = omega (arith, h.bounded);
      })

client_events-IsCounted :
    (n : ℕ) (events : List ClientEvent) (served : ℕ) (s : Server)
    → IsCounted (suc n) (served, s)
    → IsCounted (suc n) (client_events events (served, s))
unfolding client_events
client_events-IsCounted n [] served s h = h
client_events-IsCounted n (e ∷ events) served s h =
    client_events-IsCounted n events (client_event e (served, s)).0 (client_event e (served, s)).1
      (client_event-IsCounted n e served s h)

-- With a limit of at least one client, however clients come and go from a start with none, the count
-- of the server is the number of connections that are served, and never above the limit.
pub client_events-start :
    (limit : ℕ) (events : List ClientEvent) (s : Server)
    → 0 < limit
    → s.config.max_clients ≡ pos limit
    → s.clients ≡ 0
    → IsCounted limit (client_events events (0, s))
client_events-start zero events s l h c = absurd (omega arith)
client_events-start (suc n) events s l h c =
    client_events-IsCounted n events 0 s
      (record { limited = h; counted = c; bounded = omega arith })
