-- ===== src/Autonat/Server/Chunks.antt =====
-- `AutoNatServer` on a request in pieces.
use mathlib.Core.List.{flatten}
use minip2p.Prelude.{
  ℕ, ◌≤◌, ◌≡◌, refl, sym, ap, ◌∙◌, arith, false, List, [], ◌++◌, some, All, length, append-nil,
  drop, drop-length,
}
use minip2p.Prelude.Result.{ok}
use minip2p.Varint.{Bytes}
use minip2p.Frame.Laws.{length-encode_frame, encode_frame_pos}
use minip2p.Identity.PeerId
use minip2p.Identity.PeerId.{Multihash, IsLawful, PeerId, IsPeerId, peer_id-from_bytes-to_bytes}
use minip2p.Core.Multiaddr.{Multiaddr}
use minip2p.Core.Multiaddr.RoundTrip.{AllTyped}
use minip2p.Autonat.Types.{AutoNatRequest, max_message_size}
use minip2p.Autonat.Message
use minip2p.Autonat.Message.{autonat_decode-encode}
use minip2p.Autonat.Frame.{complete, incomplete, decode_frame, enforce_max_size}
use minip2p.Autonat.Frame.Laws.{autonat_frame_whole, autonat_frame_cut}
use minip2p.Autonat.Flow.{
  Reads, frame_of, Roomy, feed, feed-chunks, encode_addrs, decode_addrs, decode_addrs-encode,
}
use minip2p.Autonat.Client.{dial_of, peer_info}
use minip2p.Autonat.Server.{AutoNatServer, awaiting_request, request_ready, on_data}
use minip2p.Autonat.Server

-- The request of a client with these addresses.
abbrev pub request_of :
    {H : Type 0} ⦃m : Multihash H⦄ (peer : PeerId H) (addrs : List (Multiaddr H)) → AutoNatRequest H
request_of peer addrs = record { peer_id = peer; addrs = addrs; raw_addrs = encode_addrs addrs }

module _ {H : Type 0} ⦃m : Multihash H⦄ (f : AutoNatServer H) (s : f.state ≡ awaiting_request)
    (peer : PeerId H) (addrs : List (Multiaddr H)) where
  abbrev waiting : Bytes → AutoNatServer H
  waiting buf = record f { recv_buf = buf }

  abbrev pub asked : Bytes → AutoNatServer H
  asked over = record f {
    recv_buf = over;
    request = some (request_of peer addrs);
    emitted_request = false;
    state = Server.ServerState.request_ready;
  }

  server_wait :
      (buf c : Bytes)
      → length (buf ++ c) ≤ max_message_size
      → decode_frame (buf ++ c) ≡ incomplete
      → on_data (waiting buf) c ≡ (waiting (buf ++ c), ok tt)
  unfolding on_data enforce_max_size
  server_wait buf c h e = ground (arith, s)

  server_whole :
      (buf c payload : Bytes) (consumed : ℕ)
      → length (buf ++ c) ≤ max_message_size
      → decode_frame (buf ++ c) ≡ complete payload consumed
      → Message.decode payload ≡ ok (dial_of (peer_info peer addrs))
      → PeerId.from_bytes (PeerId.to_bytes peer) ≡ ok peer
      → decode_addrs (encode_addrs addrs) ≡ addrs
      → on_data (waiting buf) c ≡ (asked (drop consumed (buf ++ c)), ok tt)
  unfolding on_data enforce_max_size peer_info
  server_whole buf c payload consumed h e d p a = ground (arith, s)

  server_done : (over c : Bytes) → on_data (asked over) c ≡ (asked over, ok tt)
  unfolding on_data
  server_done over c = refl

  abbrev request_frame : Bytes
  request_frame = frame_of (dial_of (peer_info peer addrs))

  server-Reads :
      IsLawful m
      → IsPeerId peer
      → All AllTyped addrs
      → length request_frame ≤ max_message_size
      → Reads on_data request_frame waiting asked
  server-Reads l p t h =
      let msg = dial_of (peer_info peer addrs) in
      let body = Message.encode msg in
      let small : length body ≤ max_message_size = omega (arith, length-encode_frame body) in
      record {
        wait = λ buf c x back k e.
            server_wait buf c k (autonat_frame_cut body (buf ++ c) x back small e);
        whole = λ buf c over k e.
            server_whole buf c body (length request_frame) k
              (ap decode_frame e ∙ autonat_frame_whole body over small)
              (autonat_decode-encode msg tt (omega arith)) (peer_id-from_bytes-to_bytes l peer p)
              (decode_addrs-encode l addrs t)
            ∙ ap (λ (b : Bytes). (asked b, ok tt))
                (ap (drop (length request_frame)) e ∙ drop-length request_frame over);
        finished = server_done;
      }

  -- However the request is cut into chunks, a server that waits for it with nothing buffered has the
  -- request of the client.
  pub server_chunks :
      (cs : List Bytes)
      → f.recv_buf ≡ []
      → IsLawful m
      → IsPeerId peer
      → All AllTyped addrs
      → Roomy (dial_of (peer_info peer addrs)) cs
      → length request_frame ≤ max_message_size
      → flatten cs ≡ request_frame
      → (over : Bytes) × (feed on_data f cs ≡ (asked over, ok tt))
  server_chunks cs n l p t h k e =
      let body = Message.encode (dial_of (peer_info peer addrs)) in
      let (over, r) =
        feed-chunks on_data request_frame waiting asked (server-Reads l p t k) cs [] []
          (omega (arith, encode_frame_pos body)) h (e ∙ sym (append-nil request_frame)) in
      let same : waiting [] ≡ f = ap waiting (sym n) in
      (over, ap (λ (g : AutoNatServer H). feed on_data g cs) (sym same) ∙ r)
