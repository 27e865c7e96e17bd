-- ===== src/Ping/Deadline.antt =====
-- crates/ping/src/lib.rs: `on_tick` against an account of its own of the deadline of a request.
use minip2p.Prelude.{
  ℕ, ◌+◌, ◌≤◌, ◌<◌, ◌≡◌, refl, arith, List, [], ◌∷◌, ◌++◌, none, some, All, Option-cases, inl, inr,
}
use minip2p.Prelude.Maps.{Order, nat_order, Map, remove}
use minip2p.Ping.Types.{
  StreamId, PingAction, reset_stream, PingEvent, timeout, outbound_stream_closed, PendingPing,
  PeerPingState, PingProtocol,
}
use minip2p.Ping.Protocol.{expired, tick_loop, on_tick}

-- The peer has no request past its deadline.
pub data InTime (limit now : ℕ) (p : PeerPingState) : Type 0 where
  no_stream : p.outbound_stream ≡ none → InTime limit now p
  no_request : p.pending_ping ≡ none → InTime limit now p
  waiting :
      (q : PendingPing) → p.pending_ping ≡ some q → now ≤ q.sent_at_ms + limit → InTime limit now p

-- The peer's request `q` on its stream `s` is past its deadline.
pub record IsLate (limit now : ℕ) (p : PeerPingState) (s : StreamId) (q : PendingPing)
    : Type 0 where
  pub stream : p.outbound_stream ≡ some s
  pub request : p.pending_ping ≡ some q
  pub past : q.sent_at_ms + limit < now

-- The peer whose outbound stream is reset.
abbrev pub reset : PeerPingState → StreamId → PeerPingState
reset p s = record {
  outbound_stream = none;
  inbound_streams = p.inbound_streams;
  pending_ping = none;
  recv_bufs = remove p.recv_bufs s;
}

expired-InTime :
    (limit now : ℕ) (p : PeerPingState) → expired limit now p ≡ none → InTime limit now p
unfolding expired
expired-InTime limit now p e = elim (Option-cases p.outbound_stream) [
  | inl n ↦ no_stream n
  | inr (s, out) ↦ elim (Option-cases p.pending_ping) [
    | inl n ↦ no_request n
    | inr (q, pending) ↦ waiting q pending (ground arith)
  ]
]

expired-IsLate :
    (limit now : ℕ) (p : PeerPingState) (s : StreamId)
    → expired limit now p ≡ some s
    → (q : PendingPing) × IsLate limit now p s q
unfolding expired
expired-IsLate limit now p s e = elim (Option-cases p.outbound_stream) [
  | inl n ↦ ground arith
  | inr (t, out) ↦ elim (Option-cases p.pending_ping) [
    | inl n ↦ ground arith
    | inr (q, pending) ↦
        (q, record { stream = ground arith; request = pending; past = ground arith })
  ]
]

module _ {P : Type 0} ⦃o : Order P⦄ where
  -- What time makes of the peers, with the events and the actions: a peer in time is kept, and a
  -- late one is reset, with a timeout and the end of its stream reported.
  pub data Ticked (limit now : ℕ)
      : Map P PeerPingState
        → Map P PeerPingState
        → List (PingEvent P)
        → List (PingAction P)
        → Type 0 where
    ended : Ticked limit now [] [] [] []
    kept :
        {rest after : Map P PeerPingState} {es : List (PingEvent P)} {acts : List (PingAction P)}
        (k : P) (p : PeerPingState)
        → InTime limit now p
        → Ticked limit now rest after es acts
        → Ticked limit now ((k, p) ∷ rest) ((k, p) ∷ after) es acts
    late :
        {rest after : Map P PeerPingState} {es : List (PingEvent P)} {acts : List (PingAction P)}
        (k : P) (p : PeerPingState) (s : StreamId) (q : PendingPing)
        → IsLate limit now p s q
        → Ticked limit now rest after es acts
        → Ticked limit now
            ((k, p) ∷ rest)
            ((k, reset p s) ∷ after)
            (timeout k s limit ∷ outbound_stream_closed k s ∷ es)
            (reset_stream k s ∷ acts)

  -- What a tick at `now` makes of `m`, with the actions it asks for.
  pub record KeepsDeadline (m : PingProtocol P) (now : ℕ) (r : PingProtocol P × List (PingAction P))
      : Type 0 where
    pub events : List (PingEvent P)
    pub state : r.0 ≡ record m { peers = r.0.peers; pending_events = m.pending_events ++ events }
    pub ticked : Ticked m.config.request_timeout_ms now m.peers r.0.peers events r.1
    pub in_time :
        All (λ (e : P × PeerPingState). InTime m.config.request_timeout_ms now e.1) r.0.peers

  tick_loop-Ticked :
      (limit now : ℕ) (peers : Map P PeerPingState)
      → let r = tick_loop limit now peers in Ticked limit now peers r.0 r.1.0 r.1.1
  unfolding tick_loop
  tick_loop-Ticked limit now [] = ended
  tick_loop-Ticked limit now ((k, p) ∷ rest) =
      let later = tick_loop-Ticked limit now rest in
      elim (Option-cases (expired limit now p)) [
        | inl n ↦ rw (n, tick_loop) (kept k p (expired-InTime limit now p n) later)
        | inr (s, e) ↦
            let (q, h) = expired-IsLate limit now p s e in rw (e, tick_loop) (late k p s q h later)
      ]

  Ticked-InTime :
      {limit now : ℕ} {before after : Map P PeerPingState} {es : List (PingEvent P)}
      {acts : List (PingAction P)}
      → Ticked limit now before after es acts
      → All (λ (e : P × PeerPingState). InTime limit now e.1) after
  Ticked-InTime ended = tt
  Ticked-InTime (kept k p h t) = (h, Ticked-InTime t)
  Ticked-InTime (late k p s q h t) = (no_stream refl, Ticked-InTime t)

  -- A tick keeps every peer whose request is not past its deadline, `sent_at_ms` and the timeout
  -- together, and resets the outbound stream of every other one: exactly for these, in the order of
  -- the peers, it queues a timeout and the end of the stream and asks for the reset. It changes
  -- nothing else, and leaves no request past its deadline.
  pub on_tick-KeepsDeadline : (m : PingProtocol P) (now : ℕ) → KeepsDeadline m now (on_tick m now)
  unfolding on_tick
  on_tick-KeepsDeadline m now =
      let t = tick_loop-Ticked m.config.request_timeout_ms now m.peers in
      record {
        events = (tick_loop m.config.request_timeout_ms now m.peers).1.0;
        state = refl;
        ticked = t;
        in_time = Ticked-InTime t;
      }
