-- ===== src/Dcutr/Exchange.antt =====
-- The two DCUtR flows against each other, over streams that cut the messages as they like.
use mathlib.Core.List.{flatten}
use minip2p.Prelude.{
  ℕ, ◌+◌, ◌<◌, ◌^◌, ◌≡◌, ap, ◌∙◌, sym, refl, true, List, [], ◌∷◌, ◌++◌, map, some, arith, length,
  append-nil, All,
}
use minip2p.Prelude.Result.{ok}
use minip2p.Varint.{Bytes}
use minip2p.Frame.Laws.{length-encode_frame, encode_frame_pos}
use minip2p.Identity.PeerId.{Multihash, IsLawful}
use minip2p.Core.Multiaddr.{Multiaddr}
use minip2p.Core.Multiaddr.RoundTrip.{AllTyped}
use minip2p.Dcutr.HolePunch
use minip2p.Dcutr.HolePunch.{HolePunch}
use minip2p.Dcutr.Flow.{frame_of, connect_with, sync_message, encode_multiaddr, decode-encode_addrs}
use minip2p.Dcutr.Initiator
use minip2p.Dcutr.Initiator.{DcutrInitiator, InitiatorOutcome, dial_now, awaiting_connect_reply}
use minip2p.Dcutr.Initiator.Chunks.{initiator_chunks, replied}
use minip2p.Dcutr.Responder
use minip2p.Dcutr.Responder.{
  DcutrResponder, ResponderEvent, connect_received, sync_received, awaiting_connect, awaiting_sync,
}
use minip2p.Dcutr.Responder.Chunks.Rounds.{connected, synced}
use minip2p.Dcutr.Responder.Chunks.{Roomy, Ends, feed-connect, feed-sync, feed_nothing}

-- A message whose chunks leave room for it lies in memory.
fits_of :
    (msg : HolePunch) (cs : List Bytes)
    → Roomy (length (frame_of msg)) cs
    → flatten cs ≡ frame_of msg
    → length (HolePunch.encode msg) < 2 ^ 63
unfolding flatten
fits_of msg [] h e = absurd (omega (arith, ap length e, encode_frame_pos (HolePunch.encode msg)))
fits_of msg (c ∷ cs) h e = omega (arith, length-encode_frame (HolePunch.encode msg), h.0)

Roomy-zero : (n : ℕ) (cs : List Bytes) → Roomy n cs → Roomy (n + 0) cs
Roomy-zero n [] h = tt
Roomy-zero n (c ∷ cs) h = (omega (arith, h.0), Roomy-zero n cs h.1)

module _ {H : Type 0} ⦃m : Multihash H⦄ where
  -- Both messages in one stream of bytes, in any chunks: the responder reports both and is done.
  pub responder_chunks :
      (addrs : List Bytes) (f : DcutrResponder H) (cs : List Bytes) (after : Bytes)
      → f.state ≡ awaiting_connect
      → f.recv_buf ≡ []
      → length (HolePunch.encode (connect_with addrs)) < 2 ^ 63
      → length (HolePunch.encode sync_message) < 2 ^ 63
      → Roomy (length (frame_of (connect_with addrs)) + length (frame_of sync_message)) cs
      → flatten cs ≡ frame_of (connect_with addrs) ++ (frame_of sync_message ++ after)
      → (buf : Bytes) × (Responder.Chunks.feed f cs
          ≡ some (synced (connected f addrs []) buf, ok tt))
  unfolding flatten
  responder_chunks addrs f cs after s n cfits sfits h e =
      let n' = ap length n in
      let hand =
        feed-connect addrs (length (frame_of sync_message)) cfits cs f
          (frame_of sync_message ++ after) s
          (omega (arith, n', encode_frame_pos (HolePunch.encode (connect_with addrs)))) h
          (ap (λ (b : Bytes). b ++ flatten cs) n ∙ e) in
      let (buf, end) =
        feed-sync (hand.over ∷ hand.later) (connected f addrs []) after sfits refl
          (omega (arith, encode_frame_pos (HolePunch.encode sync_message)))
          (hand.over_le, hand.later_le) hand.all in
      (buf, hand.same ∙ end)

  responder_connects :
      (addrs : List Bytes) (f : DcutrResponder H) (cs : List Bytes)
      → f.state ≡ awaiting_connect
      → f.recv_buf ≡ []
      → length (HolePunch.encode (connect_with addrs)) < 2 ^ 63
      → Roomy (length (frame_of (connect_with addrs)) + 0) cs
      → flatten cs ≡ frame_of (connect_with addrs)
      → Responder.Chunks.feed f cs ≡ some (connected f addrs [], ok tt)
  unfolding flatten
  responder_connects addrs f cs s n fits h e =
      let n' = ap length n in
      let hand =
        feed-connect addrs 0 fits cs f [] s
          (omega (arith, n', encode_frame_pos (HolePunch.encode (connect_with addrs)))) h
          (ap (λ (b : Bytes). b ++ flatten cs) n
            ∙ e
            ∙ sym (append-nil (frame_of (connect_with addrs)))) in
      hand.same
      ∙ feed_nothing (connected f addrs []) (hand.over ∷ hand.later) (λ d. cc) refl hand.all

  initiator_connects :
      (rtt_ms : ℕ) (addrs : List Bytes) (f : DcutrInitiator H) (cs : List Bytes)
      → f.state ≡ awaiting_connect_reply
      → f.recv_buf ≡ []
      → Roomy (length (frame_of (connect_with addrs))) cs
      → flatten cs ≡ frame_of (connect_with addrs)
      → Initiator.Chunks.feed rtt_ms f cs ≡ some (replied rtt_ms f addrs [], ok tt)
  unfolding flatten
  initiator_connects rtt_ms addrs f [] s n h e =
      absurd (omega (arith, ap length e, encode_frame_pos (HolePunch.encode (connect_with addrs))))
  initiator_connects rtt_ms addrs f (c ∷ cs) s n h e =
      initiator_chunks rtt_ms addrs f c cs [] s n h
        (e ∙ sym (append-nil (frame_of (connect_with addrs))))

module _ {H : Type 0} ⦃m : Multihash H⦄ (own remote : List (Multiaddr H)) (rtt_ms : ℕ) where
  abbrev own_bytes : List Bytes
  own_bytes = map encode_multiaddr own

  abbrev remote_bytes : List Bytes
  remote_bytes = map encode_multiaddr remote

  -- The exchange between an initiator with the addresses `own` and a responder with `remote`: what
  -- each sends is what the other is given, in the chunks `hello`, `reply` and `sync`.
  pub record Upgraded (hello reply sync : List Bytes) : Type 0 where
    pub asked : DcutrResponder H
    pub ready : DcutrInitiator H
    pub syncing : DcutrInitiator H
    pub finished : DcutrResponder H
    pub sends_hello :
        (Initiator.take_outbound (Initiator.new own)).1 ≡ frame_of (connect_with own_bytes)
    pub takes_hello : Responder.Chunks.feed (Responder.new remote) hello ≡ some (asked, ok tt)
    pub reports_hello : asked.events ≡ connect_received own own_bytes ∷ []
    pub sends_reply : (Responder.take_outbound asked).1 ≡ frame_of (connect_with remote_bytes)
    pub takes_reply :
        Initiator.Chunks.feed rtt_ms (Initiator.take_outbound (Initiator.new own)).0 reply
        ≡ some (ready, ok tt)
    pub reports_reply : ready.outcome ≡ some (dial_now remote remote_bytes rtt_ms)
    pub asks_sync : Initiator.send_sync ready ≡ some (syncing, ok tt)
    pub sends_sync : (Initiator.take_outbound syncing).1 ≡ frame_of sync_message
    pub initiator_done : Initiator.is_done (Initiator.take_outbound syncing).0 ≡ true
    pub takes_sync :
        Responder.Chunks.feed (Responder.take_outbound asked).0 sync ≡ some (finished, ok tt)
    pub reports_sync : finished.events ≡ connect_received own own_bytes ∷ sync_received ∷ []
    pub responder_done : Responder.is_done finished ≡ true

  -- A whole upgrade runs to its end however the three messages are cut into chunks: both flows are
  -- done, and each has the addresses of the other, decoded and raw, the initiator with its round
  -- trip time. The components of the addresses are of their machine types and multihashes are read
  -- back; each chunk leaves room for the message that it is a part of.
  pub dcutr_exchange :
      (l : IsLawful m) (hello reply sync : List Bytes)
      → All AllTyped own
      → All AllTyped remote
      → Roomy (length (frame_of (connect_with own_bytes))) hello
      → Roomy (length (frame_of (connect_with remote_bytes))) reply
      → Roomy (length (frame_of sync_message)) sync
      → flatten hello ≡ frame_of (connect_with own_bytes)
      → flatten reply ≡ frame_of (connect_with remote_bytes)
      → flatten sync ≡ frame_of sync_message
      → Upgraded hello reply sync
  unfolding Initiator.new Initiator.take_outbound Initiator.send_sync Initiator.is_done
      Responder.new Responder.take_outbound Responder.is_done
  dcutr_exchange l hello reply sync ot rt hh hr hs eh er es =
      let asked : DcutrResponder H = connected (Responder.new remote) own_bytes [] in
      let ready : DcutrInitiator H =
        replied rtt_ms (Initiator.take_outbound (Initiator.new own)).0 remote_bytes [] in
      let syncing : DcutrInitiator H = record ready {
        outbound = frame_of sync_message;
        state = Initiator.sync_pending;
      } in
      let greeted =
        responder_connects own_bytes (Responder.new remote) hello refl refl
          (fits_of (connect_with own_bytes) hello hh eh)
          (Roomy-zero (length (frame_of (connect_with own_bytes))) hello hh) eh in
      let answered =
        initiator_connects rtt_ms remote_bytes (Initiator.take_outbound (Initiator.new own)).0 reply
          refl refl hr er in
      let (buf, ended) =
        feed-sync sync (Responder.take_outbound asked).0 [] (fits_of sync_message sync hs es) refl
          (omega (arith, encode_frame_pos (HolePunch.encode sync_message))) hs
          (es ∙ sym (append-nil (frame_of sync_message))) in
      let finished : DcutrResponder H = synced (Responder.take_outbound asked).0 buf in
      let own_read = decode-encode_addrs l own ot in
      record {
        asked = asked;
        ready = ready;
        syncing = syncing;
        finished = finished;
        sends_hello = refl;
        takes_hello = greeted;
        reports_hello = rw own_read refl;
        sends_reply = refl;
        takes_reply = answered;
        reports_reply = rw (decode-encode_addrs l remote rt) refl;
        asks_sync = refl;
        sends_sync = refl;
        initiator_done = refl;
        takes_sync = ended;
        reports_sync = rw own_read refl;
        responder_done = refl;
      }
