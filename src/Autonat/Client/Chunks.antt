-- ===== src/Autonat/Client/Chunks.antt =====
-- `AutoNatClient` on a response in pieces.
use mathlib.Core.List.{flatten}
use minip2p.Prelude.{
  ℕ, ◌≤◌, ◌≡◌, refl, sym, ap, ◌∙◌, arith, List, [], ◌++◌, Option, some, length, append-nil, drop,
  drop-length,
}
use minip2p.Prelude.Result.{ok}
use minip2p.Varint.{Bytes}
use minip2p.Frame.Laws.{length-encode_frame, encode_frame_pos}
use minip2p.Wire.Encode.{OnSome}
use minip2p.Identity.PeerId.{Multihash}
use minip2p.Autonat.Types.{ResponseStatus, max_message_size}
use minip2p.Autonat.DialResponse.{IsText}
use minip2p.Autonat.Message
use minip2p.Autonat.Message.{autonat_decode-encode}
use minip2p.Autonat.Frame.{complete, incomplete, decode_frame, enforce_max_size}
use minip2p.Autonat.Frame.Laws.{autonat_frame_whole, autonat_frame_cut}
use minip2p.Autonat.Flow.{Reads, frame_of, Roomy, feed, feed-chunks}
use minip2p.Autonat.Client.{AutoNatClient, awaiting_response, done, outcome_of, or_default, on_data}
use minip2p.Autonat.Server.{response_of}

module _ {H : Type 0} ⦃m : Multihash H⦄ (f : AutoNatClient H) (s : f.state ≡ awaiting_response)
    (status : ResponseStatus) (text : Option Bytes) (addrs : List Bytes) where
  abbrev waiting : Bytes → AutoNatClient H
  waiting buf = record f { recv_buf = buf }

  abbrev pub answered : Bytes → AutoNatClient H
  answered over = record f {
    recv_buf = over;
    outcome = some (outcome_of status (or_default text) addrs);
    state = done;
  }

  client_wait :
      (buf c : Bytes)
      → length (buf ++ c) ≤ max_message_size
      → decode_frame (buf ++ c) ≡ incomplete
      → on_data (waiting buf) c ≡ (waiting (buf ++ c), ok tt)
  unfolding on_data enforce_max_size
  client_wait buf c h e = ground (arith, s)

  client_whole :
      (buf c payload : Bytes) (consumed : ℕ)
      → length (buf ++ c) ≤ max_message_size
      → decode_frame (buf ++ c) ≡ complete payload consumed
      → Message.decode payload ≡ ok (response_of status text addrs)
      → on_data (waiting buf) c ≡ (answered (drop consumed (buf ++ c)), ok tt)
  unfolding on_data enforce_max_size
  client_whole buf c payload consumed h e d = ground (arith, s)

  client_done : (over c : Bytes) → on_data (answered over) c ≡ (answered over, ok tt)
  unfolding on_data
  client_done over c = refl

  abbrev response_frame : Bytes
  response_frame = frame_of (response_of status text addrs)

  client-Reads :
      OnSome IsText text
      → length response_frame ≤ max_message_size
      → Reads on_data response_frame waiting answered
  client-Reads t h =
      let msg = response_of status text addrs in
      let body = Message.encode msg in
      let small : length body ≤ max_message_size = omega (arith, length-encode_frame body) in
      record {
        wait = λ buf c x back k e.
            client_wait buf c k (autonat_frame_cut body (buf ++ c) x back small e);
        whole = λ buf c over k e.
            client_whole buf c body (length response_frame) k
              (ap decode_frame e ∙ autonat_frame_whole body over small)
              (autonat_decode-encode msg t (omega arith))
            ∙ ap (λ (b : Bytes). (answered b, ok tt))
                (ap (drop (length response_frame)) e ∙ drop-length response_frame over);
        finished = client_done;
      }

  -- However the response is cut into chunks, a client that waits for it with nothing buffered is done
  -- and has the outcome of its status.
  pub client_chunks :
      (cs : List Bytes)
      → f.recv_buf ≡ []
      → OnSome IsText text
      → Roomy (response_of status text addrs) cs
      → length response_frame ≤ max_message_size
      → flatten cs ≡ response_frame
      → (over : Bytes) × (feed on_data f cs ≡ (answered over, ok tt))
  client_chunks cs n t h k e =
      let body = Message.encode (response_of status text addrs) in
      let (over, r) =
        feed-chunks on_data response_frame waiting answered (client-Reads t k) cs [] []
          (omega (arith, encode_frame_pos body)) h (e ∙ sym (append-nil response_frame)) in
      let same : waiting [] ≡ f = ap waiting (sym n) in
      (over, ap (λ (g : AutoNatClient H). feed on_data g cs) (sym same) ∙ r)
