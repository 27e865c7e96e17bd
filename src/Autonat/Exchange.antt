-- ===== src/Autonat/Exchange.antt =====
-- The AutoNAT client and server against each other, over streams that cut the messages as they like.
use mathlib.Core.List.{flatten}
use minip2p.Prelude.{
  ℕ, ◌<◌, ◌≡◌, refl, ap, ◌∙◌, arith, true, List, [], ◌∷◌, Option, none, some, All, length,
}
use minip2p.Prelude.Result.{ok}
use minip2p.Varint.{Bytes}
use minip2p.Frame.Laws.{encode_frame_pos}
use minip2p.Wire.Encode.{OnSome}
use minip2p.Identity.PeerId.{Multihash, IsLawful, PeerId, IsPeerId}
use minip2p.Core.Multiaddr.{Multiaddr}
use minip2p.Core.Multiaddr.RoundTrip.{AllTyped}
use minip2p.Autonat.Types
use minip2p.Autonat.Types.{ResponseStatus, Reachability, public, private, unknown, Message}
use minip2p.Autonat.DialResponse.{IsText}
use minip2p.Autonat.Message
use minip2p.Autonat.Flow.{
  frame_of, Roomy, Roomy-fits, feed, encode_addrs, decode_addrs, decode_addrs-encode,
}
use minip2p.Autonat.Client
use minip2p.Autonat.Client.{AutoNatClient, dial_of, peer_info, outcome_of, or_default}
use minip2p.Autonat.Client.Chunks.{answered, client_chunks}
use minip2p.Autonat.Server
use minip2p.Autonat.Server.{AutoNatServer, AutoNatServerInput, response_of}
use minip2p.Autonat.Server.Chunks.{request_of, asked, server_chunks}

-- What the service has found out.
pub data Answer (H : Type 0) : Type 0 where
  reached : (found : List (Multiaddr H)) → Answer H
  failed : (status : ResponseStatus) (reason : Bytes) → Answer H

abbrev pub input_of : {H : Type 0} → Answer H → AutoNatServerInput H
input_of (reached found) = Server.public_response found
input_of (failed status reason) = Server.error_response status reason

-- What the client is to make of it. A failure with the status of a success counts as a success that
-- names no address.
abbrev pub verdict : {H : Type 0} ⦃m : Multihash H⦄ → Answer H → Reachability H
verdict (reached found) = public found (encode_addrs found)
verdict (failed Types.ok reason) = public [] []
verdict (failed Types.dial_error reason) = private Types.dial_error reason
verdict (failed Types.dial_refused reason) = private Types.dial_refused reason
verdict (failed Types.bad_request reason) = unknown Types.bad_request reason
verdict (failed Types.internal_error reason) = unknown Types.internal_error reason

module _ {H : Type 0} ⦃m : Multihash H⦄ where
  abbrev status_of : Answer H → ResponseStatus
  status_of (reached found) = Types.ok
  status_of (failed status reason) = status

  abbrev text_of : Answer H → Option Bytes
  text_of (reached found) = none
  text_of (failed status reason) = some reason

  abbrev found_of : Answer H → List (Multiaddr H)
  found_of (reached found) = found
  found_of (failed status reason) = []

  abbrev pub reply_of : Answer H → Message
  reply_of answer = response_of (status_of answer) (text_of answer) (encode_addrs (found_of answer))

  -- The addresses that were found are of their machine types, and the reason is a text.
  abbrev pub IsAnswer : Answer H → Type 0
  IsAnswer answer = All AllTyped (found_of answer) × OnSome IsText (text_of answer)

  verdict_lem :
      (l : IsLawful m) (answer : Answer H)
      → IsAnswer answer
      → outcome_of (status_of answer) (or_default (text_of answer)) (encode_addrs (found_of answer))
        ≡ verdict answer
  unfolding outcome_of encode_addrs decode_addrs
  verdict_lem l (reached found) t =
      ap (λ a. public a (encode_addrs found)) (decode_addrs-encode l found t.0)
  verdict_lem l (failed Types.ok reason) t = refl
  verdict_lem l (failed Types.dial_error reason) t = refl
  verdict_lem l (failed Types.dial_refused reason) t = refl
  verdict_lem l (failed Types.bad_request reason) t = refl
  verdict_lem l (failed Types.internal_error reason) t = refl

cons_of : (xs : Bytes) → 0 < length xs → (b : ℕ) × (bs : Bytes) × (xs ≡ b ∷ bs)
cons_of [] h = absurd (omega arith)
cons_of (b ∷ bs) h = (b, bs, refl)

module _ {H : Type 0} ⦃m : Multihash H⦄ (peer : PeerId H) (addrs : List (Multiaddr H))
    (answer : Answer H) where
  abbrev pub hello_message : Message
  hello_message = dial_of (peer_info peer addrs)

  -- The probe of a client with the addresses `addrs`, which the service answers with `answer`: what
  -- each sends is what the other is given, in the chunks `hello` and `reply`.
  pub record Probed (hello reply : List Bytes) : Type 0 where
    pub server : AutoNatServer H
    pub replying : AutoNatServer H
    pub client : AutoNatClient H
    pub sends_hello :
        (Client.poll_output (Client.new peer addrs)).1
        ≡ some (Client.outbound_bytes (frame_of hello_message))
    pub takes_hello : feed Server.on_data Server.new hello ≡ (server, ok tt)
    pub reports_request :
        (Server.poll_output server).1
        ≡ some (Server.AutoNatServerOutput.request_ready (request_of peer addrs))
    pub takes_answer :
        Server.handle_input (Server.poll_output server).0 (input_of answer) ≡ (replying, ok tt)
    pub sends_reply :
        (Server.poll_output replying).1 ≡ some (Server.outbound_bytes (frame_of (reply_of answer)))
    pub takes_reply :
        feed Client.on_data (Client.poll_output (Client.new peer addrs)).0 reply ≡ (client, ok tt)
    pub reports_outcome :
        (Client.poll_output client).1 ≡ some (Client.outcome_reached (verdict answer))

  take_answer :
      (f : AutoNatServer H)
      → Server.handle_input f (input_of answer)
        ≡ (record f { outbound = frame_of (reply_of answer); state = Server.done }, ok tt)
  unfolding Server.handle_input Server.respond_public Server.respond_error Server.respond
      encode_addrs
  take_answer f = by_answer answer
    where
      by_answer :
          (a : Answer H)
          → Server.handle_input f (input_of a)
            ≡ (record f { outbound = frame_of (reply_of a); state = Server.done }, ok tt)
      by_answer (reached found) = refl
      by_answer (failed status reason) = refl

  client_polls :
      (Client.poll_output (Client.new peer addrs) ≡ (
        record (Client.new peer addrs) { outbound = []; state = Client.awaiting_response },
        some (Client.outbound_bytes (frame_of hello_message)),
      ))
  unfolding Client.new Client.poll_output Client.take_outbound
  client_polls =
      let (b, bs, e) =
        cons_of (frame_of hello_message) (encode_frame_pos (Message.encode hello_message)) in
      rw e refl

  server_replies :
      (f : AutoNatServer H)
      → f.emitted_request ≡ true
      → f.outbound ≡ frame_of (reply_of answer)
      → (Server.poll_output f).1 ≡ some (Server.outbound_bytes (frame_of (reply_of answer)))
  unfolding Server.poll_output Server.take_outbound
  server_replies f h o =
      let (b, bs, e) =
        cons_of (frame_of (reply_of answer))
          (encode_frame_pos (Message.encode (reply_of answer))) in
      rw (h, o, e) refl

  -- A client that probes a service learns what the service found out: the service reports the request
  -- with the client's peer id and addresses, and whatever it answers the client has the outcome of that
  -- answer, however request and response are cut into chunks. The addresses are of their machine types,
  -- the reason is a text, multihashes are read back, and each chunk leaves room for its message.
  pub autonat_probe :
      (l : IsLawful m) (hello reply : List Bytes)
      → IsPeerId peer
      → All AllTyped addrs
      → IsAnswer answer
      → Roomy hello_message hello
      → Roomy (reply_of answer) reply
      → flatten hello ≡ frame_of hello_message
      → flatten reply ≡ frame_of (reply_of answer)
      → Probed hello reply
  unfolding Client.new Client.poll_output Client.take_outbound Server.new Server.poll_output
      Server.handle_input Server.respond_public Server.respond_error Server.respond
  autonat_probe l hello reply p t a hh hr eh er =
      let (over, served) =
        server_chunks Server.new refl peer addrs hello refl l p t hh
          (Roomy-fits hello_message hello hh eh) eh in
      let server = asked Server.new refl peer addrs over in
      let waiting : AutoNatClient H = record (Client.new peer addrs) {
        outbound = [];
        state = Client.awaiting_response;
      } in
      let (rest, told) =
        client_chunks waiting refl (status_of answer) (text_of answer)
          (encode_addrs (found_of answer)) reply refl a.1 hr
          (Roomy-fits (reply_of answer) reply hr er) er in
      let polled = (Server.poll_output server).0 in
      let replying : AutoNatServer H = record server {
        outbound = frame_of (reply_of answer);
        emitted_request = true;
        state = Server.done;
      } in
      record {
        server = server;
        replying = replying;
        client =
            answered waiting refl (status_of answer) (text_of answer)
              (encode_addrs (found_of answer)) rest;
        sends_hello = ap (λ r. r.1) client_polls;
        takes_hello = served;
        reports_request = refl;
        takes_answer = take_answer (record server { emitted_request = true });
        sends_reply = server_replies replying refl refl;
        takes_reply =
            ap
              (λ (r : AutoNatClient H × Option (Client.AutoNatClientOutput H)).
                feed Client.on_data r.0 reply)
              client_polls
            ∙ told;
        reports_outcome = ap (λ o. some (Client.outcome_reached o)) (verdict_lem l answer a);
      }
