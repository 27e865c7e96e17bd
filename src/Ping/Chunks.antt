-- ===== src/Ping/Chunks.antt =====
-- A payload that arrives in pieces.
use mathlib.Core.List.{flatten}
use minip2p.Prelude.{
  ℕ, ◌<◌, ◌≡◌, refl, sym, ap, ◌∙◌, arith, true, false, List, [], ◌∷◌, ◌++◌, Option, some, length,
  length-append, append_assoc, append-nil, ltb, All,
}
use minip2p.Prelude.Maps.{
  Order, nat_order, get, insert, remove, get-insert, insert-insert, remove-insert,
}
use minip2p.Varint.{Bytes}
use minip2p.Ping.Types.{ping_payload_len, StreamId, PingAction, PeerPingState, PingProtocol}
use minip2p.Ping.{or_else, store, is_known, process_complete_payload, on_buffered, on_stream_data}

-- The peer with the buffer of a stream dropped.
abbrev pub unbuffered : PeerPingState → StreamId → PeerPingState
unbuffered p s = record p { recv_bufs = remove p.recv_bufs s }

module _ {P : Type 0} ⦃o : Order P⦄ (k : P) (s : StreamId) (now : ℕ) where
  unfoldable pub feed : PingProtocol P → List Bytes → PingProtocol P × List (PingAction P)
  feed m [] = (m, [])
  feed m (c ∷ cs) =
      let (m', actions) = on_stream_data m k s c now in
      let (m'', more) = feed m' cs in (m'', actions ++ more)

  -- What a peer's stream has received of a payload.
  pub record Waits (m : PingProtocol P) (p : PeerPingState) (b : Bytes) : Type 0 where
    pub there : get m.peers k ≡ some p
    pub known : is_known p s ≡ true
    pub buffered : or_else (get p.recv_bufs s) [] ≡ b

  on_data_buffered :
      (m : PingProtocol P) (p : PeerPingState) (b c : Bytes)
      → Waits m p b
      → on_stream_data m k s c now ≡ on_buffered m k p s (b ++ c) now
  unfolding on_stream_data
  on_data_buffered m p b c w = rw (w.there, w.known, w.buffered, on_stream_data) refl

  on_data_part :
      (m : PingProtocol P) (p : PeerPingState) (b c : Bytes)
      → Waits m p b
      → length (b ++ c) < ping_payload_len
      → on_stream_data m k s c now
        ≡ (store m k (record p { recv_bufs = insert p.recv_bufs s (b ++ c) }), [])
  unfolding on_buffered
  on_data_part m p b c w h =
      let not_long : ltb ping_payload_len (length (b ++ c)) ≡ false = ground arith in
      let short : ltb (length (b ++ c)) ping_payload_len ≡ true = ground arith in
      on_data_buffered m p b c w ∙ rw (not_long, short) refl

  on_data_last :
      (m : PingProtocol P) (p : PeerPingState) (b c : Bytes)
      → Waits m p b
      → length (b ++ c) ≡ ping_payload_len
      → on_stream_data m k s c now
        ≡ process_complete_payload (store m k (unbuffered p s)) k (unbuffered p s) s (b ++ c) now
  unfolding on_buffered
  on_data_last m p b c w h =
      let not_long : ltb ping_payload_len (length (b ++ c)) ≡ false = ground arith in
      let not_short : ltb (length (b ++ c)) ping_payload_len ≡ false = ground arith in
      on_data_buffered m p b c w ∙ rw (not_long, not_short) refl

  feed_last :
      (m : PingProtocol P) (p : PeerPingState) (b c : Bytes)
      → Waits m p b
      → length (b ++ c) ≡ ping_payload_len
      → feed m (c ∷ [])
        ≡ process_complete_payload (store m k (unbuffered p s)) k (unbuffered p s) s (b ++ c) now
  unfolding feed
  feed_last m p b c w h =
      let done =
        process_complete_payload (store m k (unbuffered p s)) k (unbuffered p s) s (b ++ c) now in
      ap (λ (r : PingProtocol P × List (PingAction P)). (r.0, r.1 ++ [])) (on_data_last m p b c w h)
      ∙ ap (λ (a : List (PingAction P)). (done.0, a)) (append-nil (done.1))

  feed_next :
      (m m' : PingProtocol P) (c : Bytes) (cs : List Bytes)
      → on_stream_data m k s c now ≡ (m', [])
      → feed m (c ∷ cs) ≡ feed m' cs
  unfolding feed
  feed_next m m' c cs e =
      ap
        (λ (r : PingProtocol P × List (PingAction P)).
          ((feed (r.0) cs).0, r.1 ++ (feed (r.0) cs).1))
        e

  -- Whatever the pieces, none of them empty, a payload that comes in on a known stream is processed
  -- once, when its last byte is in, and the stream's buffer is gone.
  pub feed-process :
      (cs : List Bytes) (m : PingProtocol P) (p : PeerPingState) (b : Bytes)
      → Waits m p b
      → All (λ (c : Bytes). 0 < length c) cs
      → length b < ping_payload_len
      → length (b ++ flatten cs) ≡ ping_payload_len
      → feed m cs
        ≡ process_complete_payload
            (store m k (unbuffered p s))
            k
            (unbuffered p s)
            s
            (b ++ flatten cs)
            now
  unfolding flatten
  feed-process [] m p b w h n e = absurd (omega (arith, ap length (append-nil b)))
  feed-process (c ∷ []) m p b w h n e =
      let all : b ++ (c ++ []) ≡ b ++ c = ap (λ (x : Bytes). b ++ x) (append-nil c) in
      rw all (feed_last m p b c w (sym (ap length all) ∙ e))
  feed-process (c ∷ d ∷ cs) m p b w h n e =
      let rest = flatten (d ∷ cs) in
      let sizes = length-append b (c ++ rest) in
      let short : length (b ++ c) < ping_payload_len = omega (
        arith,
        e,
        sizes,
        length-append c rest,
        length-append b c,
        length-append d (flatten cs),
        h.1.0,
      ) in
      let p' : PeerPingState = record p { recv_bufs = insert p.recv_bufs s (b ++ c) } in
      let w' : Waits (store m k p') p' (b ++ c) = record {
        there = get-insert m.peers k p';
        known = w.known;
        buffered = ap (λ (x : Option Bytes). or_else x []) (get-insert p.recv_bufs s (b ++ c));
      } in
      feed_next m (store m k p') c (d ∷ cs) (on_data_part m p b c w short)
      ∙ feed-process (d ∷ cs) (store m k p') p' (b ++ c) w' h.1 short
          (ap length (append_assoc b c rest) ∙ e)
      ∙ rw
          (
            insert-insert m.peers k p' (unbuffered p' s),
            remove-insert p.recv_bufs s (b ++ c),
            append_assoc b c rest,
          )
          refl
