-- ===== src/Dcutr/Responder/Chunks.antt =====
-- `DcutrResponder` on its two messages in pieces.
pub mod Rounds
use mathlib.Core.List.{flatten}
use minip2p.Prelude.{
  ℕ, ◌+◌, ◌≤◌, ◌<◌, ◌^◌, ◌≡◌, ◌≢◌, ap, ◌∙◌, sym, refl, false, true, List, [], ◌∷◌, ◌++◌, none, some,
  drop, arith, length, length-append, append-nil, append_assoc, drop-length, All, append_split, inl,
  inr,
}
use minip2p.Prelude.Result.{ok, err}
use minip2p.Varint.{Bytes}
use minip2p.Frame.{complete, incomplete, decode_frame}
use minip2p.Frame.Laws.{decode_frame-encode_frame, length-encode_frame, encode_frame_pos}
use minip2p.Frame.Stream.{decode_frame_cut}
use minip2p.Identity.PeerId.{Multihash}
use minip2p.Dcutr.HolePunch
use minip2p.Dcutr.HolePunch.{HolePunch, punch_decode-encode}
use minip2p.Dcutr.Flow.{Handled, max_message_size, frame_of, connect_with, sync_message}
use minip2p.Dcutr.Responder.{
  DcutrResponder, awaiting_connect, awaiting_sync, done, on_data, try_decode, round, decode_loop,
}
use minip2p.Dcutr.Responder.Chunks.Rounds.{
  connected, synced, round_wait, round_connect, round_sync, round_done, try_stop, try_next,
  on_data_try,
}

append_nil_left : (xs ys : Bytes) → xs ++ ys ≡ [] → xs ≡ []
append_nil_left [] ys e = refl
append_nil_left (x ∷ xs) ys e = cc

-- A list of chunks each of which leaves room for `n` bytes.
abbrev pub Roomy : ℕ → List Bytes → Type 0
Roomy n = All (λ (c : Bytes). length c + n ≤ max_message_size)

roomier : (k n : ℕ) (cs : List Bytes) → Roomy (k + n) cs → Roomy n cs
roomier k n [] h = tt
roomier k n (c ∷ cs) h = (omega (arith, h.0), roomier k n cs h.1)

module _ {H : Type 0} ⦃m : Multihash H⦄ where
  -- Chunks of the stream one after the other, up to the first error.
  unfoldable pub feed : DcutrResponder H → List Bytes → Handled (DcutrResponder H)
  feed f [] = some (f, ok tt)
  feed f (c ∷ cs) = elim (on_data f c) [
    | none ↦ none
    | some (f', err e) ↦ some (f', err e)
    | some (f', ok _) ↦ feed f' cs
  ]

  feed_next :
      (f f' : DcutrResponder H) (c : Bytes) (cs : List Bytes)
      → on_data f c ≡ some (f', ok tt)
      → feed f (c ∷ cs) ≡ feed f' cs
  unfolding feed
  feed_next f f' c cs e = rw (e, feed)

  feed_same :
      (f g : DcutrResponder H) (c d : Bytes) (cs : List Bytes)
      → on_data f c ≡ on_data g d
      → feed f (c ∷ cs) ≡ feed g (d ∷ cs)
  unfolding feed
  feed_same f g c d cs e = rw (e, feed)

  -- A flow that is done takes no notice of further data.
  feed_done :
      (f : DcutrResponder H) (cs : List Bytes) → f.state ≡ done → feed f cs ≡ some (f, ok tt)
  unfolding feed
  feed_done f [] s = refl
  feed_done f (c ∷ cs) s = feed_next f f c cs (unfold on_data in ground arith) ∙ feed_done f cs s

  on_data_wait :
      (f : DcutrResponder H) (c : Bytes)
      → f.state ≢ done
      → length (f.recv_buf ++ c) ≤ max_message_size
      → decode_frame (f.recv_buf ++ c) ≡ incomplete
      → on_data f c ≡ some (record f { recv_buf = f.recv_buf ++ c }, ok tt)
  on_data_wait f c s h e =
      on_data_try f c s
      ∙ try_stop (record f { recv_buf = f.recv_buf ++ c })
          (round_wait (record f { recv_buf = f.recv_buf ++ c }) s h e)

  -- Nothing arrives.
  pub feed_nothing :
      (f : DcutrResponder H) (cs : List Bytes)
      → f.state ≢ done
      → f.recv_buf ≡ []
      → flatten cs ≡ []
      → feed f cs ≡ some (f, ok tt)
  unfolding feed flatten
  feed_nothing f [] s n e = refl
  feed_nothing f (c ∷ cs) s n e =
      let none_here : c ≡ [] = append_nil_left c (flatten cs) e in
      let later : flatten cs ≡ [] = rw none_here at e in
      let buf : f.recv_buf ++ c ≡ [] = rw (none_here, append-nil) n in
      let size : length (f.recv_buf ++ c) ≤ max_message_size = omega (arith, ap length buf) in
      let wait = on_data_wait f c s size (ap decode_frame buf ∙ unfold decode_frame in refl) in
      feed_next f f c cs
        (wait ∙ ap (λ (b : Bytes). some (record f { recv_buf = b }, ok tt)) (buf ∙ sym n))
      ∙ feed_nothing f cs s n later

  module _ (f : DcutrResponder H) (size : length f.recv_buf ≤ max_message_size) (over : Bytes) where
    -- The CONNECT of the peer stands in the buffer, with `over` behind it.
    try_connect :
        (addrs : List Bytes)
        → length (HolePunch.encode (connect_with addrs)) < 2 ^ 63
        → f.state ≡ awaiting_connect
        → f.recv_buf ≡ frame_of (connect_with addrs) ++ over
        → try_decode f ≡ try_decode (connected f addrs over)
    try_connect addrs fits s e =
        let body = HolePunch.encode (connect_with addrs) in
        let frame = ap decode_frame e ∙ decode_frame-encode_frame body over fits in
        let n = length (frame_of (connect_with addrs)) in
        let behind = ap (drop n) e ∙ drop-length (frame_of (connect_with addrs)) over in
        let read = punch_decode-encode (connect_with addrs) (omega arith) in
        try_next f (connected f addrs over)
          (round_connect f body n addrs s size frame read
            ∙ ap (λ (b : Bytes). some (connected f addrs b, ok true)) behind)
          (omega arith)

    try_sync :
        length (HolePunch.encode sync_message) < 2 ^ 63
        → f.state ≡ awaiting_sync
        → f.recv_buf ≡ frame_of sync_message ++ over
        → try_decode f ≡ some (synced f over, ok tt)
    try_sync fits s e =
        let body = HolePunch.encode sync_message in
        let frame = ap decode_frame e ∙ decode_frame-encode_frame body over fits in
        let n = length (frame_of sync_message) in
        let behind = ap (drop n) e ∙ drop-length (frame_of sync_message) over in
        let read = punch_decode-encode sync_message (omega arith) in
        try_next f (synced f over)
          (round_sync f body n s size frame read
            ∙ ap (λ (b : Bytes). some (synced f b, ok true)) behind)
          (omega arith)
        ∙ try_stop (synced f over) (round_done (synced f over) refl)

  -- What is left when the CONNECT has come in: the flow goes on as if the bytes behind it were the
  -- next chunk.
  pub record Handover (f : DcutrResponder H) (addrs : List Bytes) (n : ℕ) (after : Bytes)
      (cs : List Bytes) : Type 0 where
    pub over : Bytes
    pub later : List Bytes
    pub all : over ++ flatten later ≡ after
    pub over_le : length over + n ≤ max_message_size
    pub later_le : Roomy n later
    pub same : feed f cs ≡ feed (connected f addrs []) (over ∷ later)

  module _ (addrs : List Bytes) (n : ℕ)
      (fits : length (HolePunch.encode (connect_with addrs)) < 2 ^ 63) where
    on_data-connect :
        (f : DcutrResponder H) (c over : Bytes)
        → f.state ≡ awaiting_connect
        → length (f.recv_buf ++ c) ≤ max_message_size
        → f.recv_buf ++ c ≡ frame_of (connect_with addrs) ++ over
        → on_data f c ≡ on_data (connected f addrs []) over
    on_data-connect f c over s h e =
        on_data_try f c (λ d. cc (s, d))
        ∙ try_connect (record f { recv_buf = f.recv_buf ++ c }) h over addrs fits s e
        ∙ sym (on_data_try (connected f addrs []) over (λ d. cc))

    pub feed-connect :
        (cs : List Bytes) (f : DcutrResponder H) (after : Bytes)
        → f.state ≡ awaiting_connect
        → length f.recv_buf < length (frame_of (connect_with addrs))
        → Roomy (length (frame_of (connect_with addrs)) + n) cs
        → f.recv_buf ++ flatten cs ≡ frame_of (connect_with addrs) ++ after
        → Handover f addrs n after cs
    unfolding flatten
    feed-connect [] f after s p h e = absurd (
        omega (
          arith,
          ap length e,
          length-append f.recv_buf [],
          length-append (frame_of (connect_with addrs)) after,
        ))
    feed-connect (c ∷ cs) f after s p h e =
        let frame : Bytes = frame_of (connect_with addrs) in
        let buf = f.recv_buf ++ c in
        let size : length buf ≤ max_message_size = omega (arith, length-append f.recv_buf c, h.0) in
        let whole : buf ++ flatten cs ≡ frame ++ after =
          append_assoc f.recv_buf c (flatten cs) ∙ e in
        elim (append_split buf (flatten cs) frame after whole) [
          | inl (x, back, cut) ↦
              let short =
                decode_frame_cut (HolePunch.encode (connect_with addrs)) buf x back fits cut in
              let wait = on_data_wait f c (λ d. cc (s, d)) size short in
              let f' : DcutrResponder H = record f { recv_buf = buf } in
              let rest =
                feed-connect cs f' after s
                  (omega (arith, ap length cut, length-append buf (x ∷ back))) h.1 whole in
              record {
                over = rest.over;
                later = rest.later;
                all = rest.all;
                over_le = rest.over_le;
                later_le = rest.later_le;
                same = feed_next f f' c cs wait ∙ rest.same;
              }
          | inr (over, here, later) ↦ record {
            over = over;
            later = cs;
            all = sym later;
            over_le =
                omega (
                  arith,
                  ap length here,
                  length-append frame over,
                  length-append f.recv_buf c,
                  h.0,
                );
            later_le = roomier (length frame) n cs h.1;
            same =
                feed_same f (connected f addrs []) c over cs (on_data-connect f c over s size here);
          }
        ]

  -- The flow at its end; `buf` is what came in behind the SYNC in the same chunk.
  abbrev pub Ends : DcutrResponder H → List Bytes → Type 0
  Ends f cs = (buf : Bytes) × (feed f cs ≡ some (synced f buf, ok tt))

  pub feed-sync :
      (cs : List Bytes) (f : DcutrResponder H) (after : Bytes)
      → length (HolePunch.encode sync_message) < 2 ^ 63
      → f.state ≡ awaiting_sync
      → length f.recv_buf < length (frame_of sync_message)
      → Roomy (length (frame_of sync_message)) cs
      → f.recv_buf ++ flatten cs ≡ frame_of sync_message ++ after
      → Ends f cs
  unfolding flatten
  feed-sync [] f after fits s p h e = absurd (
      omega (
        arith,
        ap length e,
        length-append f.recv_buf [],
        length-append (frame_of sync_message) after,
      ))
  feed-sync (c ∷ cs) f after fits s p h e =
      let frame : Bytes = frame_of sync_message in
      let buf = f.recv_buf ++ c in
      let size : length buf ≤ max_message_size = omega (arith, length-append f.recv_buf c, h.0) in
      let whole : buf ++ flatten cs ≡ frame ++ after = append_assoc f.recv_buf c (flatten cs) ∙ e in
      elim (append_split buf (flatten cs) frame after whole) [
        | inl (x, back, cut) ↦
            let short = decode_frame_cut (HolePunch.encode sync_message) buf x back fits cut in
            let wait = on_data_wait f c (λ d. cc (s, d)) size short in
            let f' : DcutrResponder H = record f { recv_buf = buf } in
            let (b, rest) =
              feed-sync cs f' after fits s
                (omega (arith, ap length cut, length-append buf (x ∷ back))) h.1 whole in
            (b, feed_next f f' c cs wait ∙ rest)
        | inr (over, here, later) ↦
            let g : DcutrResponder H = record f { recv_buf = buf } in
            let end = on_data_try f c (λ d. cc (s, d)) ∙ try_sync g size over fits s here in
            (over, feed_next f (synced f over) c cs end ∙ feed_done (synced f over) cs refl)
      ]
