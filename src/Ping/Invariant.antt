-- ===== src/Ping/Invariant.antt =====
-- What every reachable state of the ping protocol keeps.
use minip2p.Prelude.{
  ℕ, ◌≤◌, ◌<◌, ◌≡◌, refl, arith, Bool, true, false, [], ◌++◌, Option, none, some, length, ltb, leb,
  not, ltb→lt, ◌==◌, if◌then◌else◌, All, inl, inr, Option-cases,
}
use minip2p.Prelude.Maps.{
  Order, nat_order, get, insert, remove, All-insert, All-remove, All-get, length-insert,
  length-remove,
}
use minip2p.Varint.{Bytes}
use minip2p.Multistream.Utf8.{bytes_eq}
use minip2p.Ping.Types.{
  ping_payload_len, StreamId, PendingPing, PeerPingState, default, PingProtocol,
}
use minip2p.Ping.{
  is_some, is_stream, or_else, store, is_known, register_outbound_stream, register_inbound_stream,
  process_complete_payload, on_buffered, on_stream_data, register_on, on_response,
}
use minip2p.Ping.Protocol.{without_outbound, closed_peer}

-- The payload in flight has the length of a ping.
abbrev pub IsSized : Option PendingPing → Type 0
IsSized none = Unit {0}
IsSized (some p) = length p.payload ≡ ping_payload_len

abbrev pub IsShort : StreamId × Bytes → Type 0
IsShort e = length (e.1) < ping_payload_len

pub record PeerIsSound (p : PeerPingState) : Type 0 where
  pub has_stream : is_some p.pending_ping ≡ true → is_some p.outbound_stream ≡ true
  pub sized : IsSized p.pending_ping
  pub few_inbound : length p.inbound_streams ≤ 2
  pub short_bufs : All IsShort p.recv_bufs

-- A choice has what both of its branches have.
pub if_both {ℓ κ} :
    {A : Type ℓ} (Q : A → Type κ) (b : Bool) (x y : A)
    → (b ≡ true → Q x)
    → (b ≡ false → Q y)
    → Q (if b then x else y)
if_both Q true x y f g = f refl
if_both Q false x y f g = g refl

default-IsSound : PeerIsSound default
default-IsSound = record {
  has_stream = λ e. cc;
  sized = tt;
  few_inbound = omega arith;
  short_bufs = tt;
}

without_bufs-IsSound :
    (p : PeerPingState) (s : StreamId)
    → PeerIsSound p
    → PeerIsSound (record p { recv_bufs = remove p.recv_bufs s })
without_bufs-IsSound p s h = record {
  has_stream = h.has_stream;
  sized = h.sized;
  few_inbound = h.few_inbound;
  short_bufs = All-remove IsShort p.recv_bufs s h.short_bufs;
}

pub without_outbound-IsSound :
    (p : PeerPingState) (s : StreamId) → PeerIsSound p → PeerIsSound (without_outbound p s)
without_outbound-IsSound p s h = record {
  has_stream = λ e. cc;
  sized = tt;
  few_inbound = h.few_inbound;
  short_bufs = All-remove IsShort p.recv_bufs s h.short_bufs;
}

pub without_inbound-IsSound :
    (p : PeerPingState) (s : StreamId)
    → PeerIsSound p
    → PeerIsSound (record p {
      inbound_streams = remove p.inbound_streams s;
      recv_bufs = remove p.recv_bufs s;
    })
without_inbound-IsSound p s h = record {
  has_stream = h.has_stream;
  sized = h.sized;
  few_inbound = omega (arith, h.few_inbound, length-remove p.inbound_streams s);
  short_bufs = All-remove IsShort p.recv_bufs s h.short_bufs;
}

pub closed_peer-IsSound :
    (p : PeerPingState) (s : StreamId) → PeerIsSound p → PeerIsSound (closed_peer p s)
closed_peer-IsSound p s h =
    let i = without_inbound-IsSound p s h in
    if_both PeerIsSound (is_stream p.outbound_stream s) _ _
      (λ e. record {
        has_stream = λ x. cc;
        sized = tt;
        few_inbound = i.few_inbound;
        short_bufs = i.short_bufs;
      })
      (λ e. i)

one_more-IsSound :
    (p : PeerPingState) (s : StreamId)
    → PeerIsSound p
    → leb 2 (length p.inbound_streams) ≡ false
    → PeerIsSound (record p { inbound_streams = insert p.inbound_streams s tt })
one_more-IsSound p s u e = record {
  has_stream = u.has_stream;
  sized = u.sized;
  few_inbound =
      let few : length p.inbound_streams < 2 = ground arith in
      omega (arith, few, length-insert p.inbound_streams s tt);
  short_bufs = u.short_bufs;
}

module _ {P : Type 0} ⦃o : Order P⦄ where
  abbrev pub Entry : P × PeerPingState → Type 0
  Entry e = PeerIsSound (e.1)

  abbrev pub IsSound : PingProtocol P → Type 0
  IsSound m = All Entry m.peers

  pub peer_of :
      (m : PingProtocol P) (k : P) (p : PeerPingState)
      → IsSound m
      → get m.peers k ≡ some p
      → PeerIsSound p
  peer_of m k p h e = All-get PeerIsSound m.peers k p h e

  entry_of :
      (m : PingProtocol P) (k : P) → IsSound m → PeerIsSound (or_else (get m.peers k) default)
  entry_of m k h = elim (Option-cases (get m.peers k)) [
    | inl n ↦ rw n default-IsSound
    | inr (p, e) ↦ rw e (peer_of m k p h e)
  ]

  pub stored :
      (m : PingProtocol P) (k : P) (p : PeerPingState)
      → IsSound m
      → PeerIsSound p
      → IsSound (store m k p)
  stored m k p h u = All-insert Entry m.peers k p h u

  -- A handler's answer: its state is sound.
  abbrev pub Answers {ℓ} : {R : Type ℓ} → PingProtocol P × R → Type 0
  Answers r = IsSound (r.0)

  register_on-IsSound :
      (old : Option StreamId) (m : PingProtocol P) (k : P) (p : PeerPingState) (s : StreamId)
      → IsSound m
      → PeerIsSound p
      → Answers (register_on old m k p s)
  unfolding register_on
  register_on-IsSound (some e) m k p s h u = if_both Answers (not (e == s)) _ _ (λ _. h) (λ _. h)
  register_on-IsSound none m k p s h u =
      stored m k (record p { outbound_stream = some s }) h
        (record {
          has_stream = λ e. refl;
          sized = u.sized;
          few_inbound = u.few_inbound;
          short_bufs = u.short_bufs;
        })

  pub outbound-IsSound :
      (m : PingProtocol P) (k : P) (s : StreamId)
      → IsSound m
      → Answers (register_outbound_stream m k s)
  unfolding register_outbound_stream
  outbound-IsSound m k s h =
      let u = entry_of m k h in
      let peer = or_else (get m.peers k) default in
      register_on-IsSound (peer.outbound_stream) (store m k peer) k peer s (stored m k peer h u) u

  pub inbound-IsSound :
      (m : PingProtocol P) (k : P) (s : StreamId)
      → IsSound m
      → Answers (register_inbound_stream m k s)
  unfolding register_inbound_stream
  inbound-IsSound m k s h =
      let u = entry_of m k h in
      let peer = or_else (get m.peers k) default in
      let m' = store m k peer in
      let v = stored m k peer h u in
      if_both Answers (is_some (get peer.inbound_streams s)) _ _ (λ _. v)
        (λ _.
          if_both Answers (leb 2 (length peer.inbound_streams)) _ _ (λ _. v)
            (λ few. stored m' k _ v (one_more-IsSound peer s u few)))

  response-IsSound :
      (r : Option PendingPing) (m : PingProtocol P) (k : P) (s : StreamId) (b : Bytes) (now : ℕ)
      → IsSound m
      → Answers (on_response r m k s b now)
  unfolding on_response
  response-IsSound none m k s b now h = h
  response-IsSound (some q) m k s b now h =
      if_both Answers (not (bytes_eq q.payload b)) _ _ (λ _. h) (λ _. h)

  payload-IsSound :
      (m : PingProtocol P) (k : P) (p : PeerPingState) (s : StreamId) (b : Bytes) (now : ℕ)
      → IsSound m
      → PeerIsSound p
      → Answers (process_complete_payload m k p s b now)
  unfolding process_complete_payload
  payload-IsSound m k p s b now h u =
      if_both Answers (is_stream p.outbound_stream s) _ _
        (λ _. response-IsSound p.pending_ping _ k s b now (
          stored m k (record p { pending_ping = none }) h
            (record {
              has_stream = λ e. cc;
              sized = tt;
              few_inbound = u.few_inbound;
              short_bufs = u.short_bufs;
            })))
        (λ _. if_both Answers (is_some (get p.inbound_streams s)) _ _ (λ _. h) (λ _. h))

  buffered-IsSound :
      (m : PingProtocol P) (k : P) (p : PeerPingState) (s : StreamId) (b : Bytes) (now : ℕ)
      → IsSound m
      → PeerIsSound p
      → Answers (on_buffered m k p s b now)
  unfolding on_buffered
  buffered-IsSound m k p s b now h u =
      let w = without_bufs-IsSound p s u in
      let v = stored m k _ h w in
      if_both Answers (ltb ping_payload_len (length b)) _ _ (λ _. v)
        (λ _.
          if_both Answers (ltb (length b) ping_payload_len) _ _
            (λ short. stored m k _ h (record {
              has_stream = u.has_stream;
              sized = u.sized;
              few_inbound = u.few_inbound;
              short_bufs = All-insert IsShort p.recv_bufs s b u.short_bufs (ltb→lt _ _ short);
            }))
            (λ _. payload-IsSound _ k _ s b now v w))

  pub data-IsSound :
      (m : PingProtocol P) (k : P) (s : StreamId) (b : Bytes) (now : ℕ)
      → IsSound m
      → Answers (on_stream_data m k s b now)
  unfolding on_stream_data
  data-IsSound m k s b now h = elim (Option-cases (get m.peers k)) [
    | inl n ↦ rw (n, on_stream_data) h
    | inr (p, e) ↦
        rw (e, on_stream_data)
          (if_both Answers (is_known p s) _ _
            (λ _.
              buffered-IsSound m k p s (or_else (get p.recv_bufs s) [] ++ b) now h
                (peer_of m k p h e))
            (λ _. h))
  ]
