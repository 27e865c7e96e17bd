-- ===== src/Dcutr/Initiator/Chunks.antt =====
-- `DcutrInitiator` on a reply in pieces.
use mathlib.Core.List.{flatten}
use minip2p.Prelude.{
  ℕ, ◌+◌, ◌≤◌, ◌<◌, ◌^◌, ◌≡◌, ap, ◌∙◌, sym, false, List, [], ◌∷◌, ◌++◌, none, some, drop, arith,
  length, length-append, append-nil, append_assoc, drop-length, All, append_split, inl, inr,
}
use minip2p.Prelude.Result.{ok, err}
use minip2p.Varint.{Bytes}
use minip2p.Frame.{complete, incomplete, decode_frame}
use minip2p.Frame.Laws.{decode_frame-encode_frame, length-encode_frame, encode_frame_pos}
use minip2p.Frame.Stream.{decode_frame_cut}
use minip2p.Identity.PeerId.{Multihash}
use minip2p.Dcutr.HolePunch
use minip2p.Dcutr.HolePunch.{HolePunch, punch_decode-encode}
use minip2p.Dcutr.Flow.{
  Handled, enforce_max_size, max_message_size, frame_of, connect_with, decode_remote_addrs,
}
use minip2p.Dcutr.Initiator.{
  DcutrInitiator, awaiting_connect_reply, ready_to_sync, dial_now, on_data,
}

module _ {H : Type 0} ⦃m : Multihash H⦄ (rtt_ms : ℕ) where
  -- Chunks of the stream one after the other, up to the first error.
  unfoldable pub feed : DcutrInitiator H → List Bytes → Handled (DcutrInitiator H)
  feed f [] = some (f, ok tt)
  feed f (c ∷ cs) = elim (on_data f c rtt_ms) [
    | none ↦ none
    | some (f', err e) ↦ some (f', err e)
    | some (f', ok _) ↦ feed f' cs
  ]

  feed_next :
      (f f' : DcutrInitiator H) (c : Bytes) (cs : List Bytes)
      → on_data f c rtt_ms ≡ some (f', ok tt)
      → feed f (c ∷ cs) ≡ feed f' cs
  unfolding feed
  feed_next f f' c cs e = rw (e, feed)

  -- The initiator that has the addresses of the peer, with `after` behind the reply.
  abbrev pub replied : DcutrInitiator H → List Bytes → Bytes → DcutrInitiator H
  replied f addrs after = record f {
    recv_buf = after;
    state = ready_to_sync;
    outcome = some (dial_now (decode_remote_addrs addrs) addrs rtt_ms);
    emitted_outcome = false;
  }

  feed-replied :
      (f : DcutrInitiator H) (addrs : List Bytes) (after : Bytes) (cs : List Bytes)
      → feed (replied f addrs after) cs ≡ some (replied f addrs (after ++ flatten cs), ok tt)
  unfolding feed on_data flatten
  feed-replied f addrs after [] = rw (append-nil after)
  feed-replied f addrs after (c ∷ cs) =
      feed-replied f addrs (after ++ c) cs
      ∙ ap (λ (b : Bytes). some (replied f addrs b, ok tt)) (append_assoc after c (flatten cs))

  on_data_wait :
      (f : DcutrInitiator H) (c : Bytes)
      → f.state ≡ awaiting_connect_reply
      → length (f.recv_buf ++ c) ≤ max_message_size
      → decode_frame (f.recv_buf ++ c) ≡ incomplete
      → on_data f c rtt_ms ≡ some (record f { recv_buf = f.recv_buf ++ c }, ok tt)
  unfolding on_data enforce_max_size
  on_data_wait f c s h e = ground arith

  on_data_whole :
      (f : DcutrInitiator H) (c payload : Bytes) (consumed : ℕ) (addrs : List Bytes)
      → f.state ≡ awaiting_connect_reply
      → length (f.recv_buf ++ c) ≤ max_message_size
      → decode_frame (f.recv_buf ++ c) ≡ complete payload consumed
      → HolePunch.decode payload ≡ ok (connect_with addrs)
      → on_data f c rtt_ms ≡ some (replied f addrs (drop consumed (f.recv_buf ++ c)), ok tt)
  unfolding on_data enforce_max_size
  on_data_whole f c payload consumed addrs s h e d = ground arith

  module _ (addrs : List Bytes)
      (fits : length (HolePunch.encode (connect_with addrs)) < 2 ^ 63) where
    on_data-reply :
        (f : DcutrInitiator H) (c over : Bytes)
        → f.state ≡ awaiting_connect_reply
        → length (f.recv_buf ++ c) ≤ max_message_size
        → f.recv_buf ++ c ≡ (frame_of (connect_with addrs)) ++ over
        → on_data f c rtt_ms ≡ some (replied f addrs over, ok tt)
    on_data-reply f c over s h e =
        let body = HolePunch.encode (connect_with addrs) in
        let frame = ap decode_frame e ∙ decode_frame-encode_frame body over fits in
        on_data_whole f c body (length (frame_of (connect_with addrs))) addrs s h frame
          (punch_decode-encode (connect_with addrs) (omega arith))
        ∙ ap (λ (b : Bytes). some (replied f addrs b, ok tt))
            (ap (drop (length (frame_of (connect_with addrs)))) e
              ∙ drop-length (frame_of (connect_with addrs)) over)

    feed-reply :
        (cs : List Bytes) (f : DcutrInitiator H) (after : Bytes)
        → f.state ≡ awaiting_connect_reply
        → length f.recv_buf < length (frame_of (connect_with addrs))
        → All
            (λ (c : Bytes). length c + length (frame_of (connect_with addrs)) ≤ max_message_size)
            cs
        → f.recv_buf ++ flatten cs ≡ (frame_of (connect_with addrs)) ++ after
        → feed f cs ≡ some (replied f addrs after, ok tt)
    unfolding flatten
    feed-reply [] f after s p h e = absurd (
        omega (
          arith,
          ap length e,
          length-append f.recv_buf [],
          length-append (frame_of (connect_with addrs)) after,
        ))
    feed-reply (c ∷ cs) f after s p h e =
        let size : length (f.recv_buf ++ c) ≤ max_message_size =
          omega (arith, length-append f.recv_buf c, h.0) in
        let whole : (f.recv_buf ++ c) ++ flatten cs ≡ (frame_of (connect_with addrs)) ++ after =
          append_assoc f.recv_buf c (flatten cs) ∙ e in
        elim (append_split (f.recv_buf ++ c) (flatten cs) (frame_of (connect_with addrs)) after
          whole) [
            | inl (x, back, cut) ↦
                let body = HolePunch.encode (connect_with addrs) in
                let short = decode_frame_cut body (f.recv_buf ++ c) x back fits cut in
                feed_next f _ c cs (on_data_wait f c s size short)
                ∙ feed-reply cs (record f { recv_buf = f.recv_buf ++ c }) after s
                    (omega (arith, ap length cut, length-append (f.recv_buf ++ c) (x ∷ back))) h.1
                    whole
            | inr (over, here, later) ↦
                feed_next f _ c cs (on_data-reply f c over s size here)
                ∙ feed-replied f addrs over cs
                ∙ ap (λ (b : Bytes). some (replied f addrs b, ok tt)) (sym later)
          ]

  -- However the CONNECT of the peer is cut into chunks, and whatever follows it, an initiator that
  -- waits for it with nothing buffered is ready to sync, and has the addresses of the peer, raw and
  -- decoded, and the round trip time as its outcome. Each chunk and the reply fit the size limit
  -- together.
  pub initiator_chunks :
      (addrs : List Bytes) (f : DcutrInitiator H) (c : Bytes) (cs : List Bytes) (after : Bytes)
      → f.state ≡ awaiting_connect_reply
      → f.recv_buf ≡ []
      → All
          (λ (b : Bytes). length b + length (frame_of (connect_with addrs)) ≤ max_message_size)
          (c ∷ cs)
      → flatten (c ∷ cs) ≡ frame_of (connect_with addrs) ++ after
      → feed f (c ∷ cs) ≡ some (replied f addrs after, ok tt)
  initiator_chunks addrs f c cs after s n h e =
      let body = HolePunch.encode (connect_with addrs) in
      feed-reply addrs (omega (arith, length-encode_frame body, h.0)) (c ∷ cs) f after s
        (omega (arith, ap length n, encode_frame_pos body)) h
        (ap (λ (b : Bytes). b ++ flatten (c ∷ cs)) n ∙ e)
