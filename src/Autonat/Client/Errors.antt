-- ===== src/Autonat/Client/Errors.antt =====
-- `AutoNatClient` when the service sends what it cannot use.
use minip2p.Prelude.{◌+◌, ◌<◌, ◌≡◌, ◌≢◌, arith, ◌++◌, length, length-append}
use minip2p.Prelude.Result.{err}
use minip2p.Varint.{Bytes}
use minip2p.Identity.PeerId.{Multihash}
use minip2p.Autonat.Types.{AutoNatError, message_too_large, unexpected_message, max_message_size}
use minip2p.Autonat.Frame.{enforce_max_size}
use minip2p.Autonat.Client.{AutoNatClient, done, on_data, try_decode_response}

module _ {H : Type 0} ⦃m : Multihash H⦄ where
  -- Data that a client answers with an error changes neither its outcome nor its outbound bytes, and
  -- after every error but that of a message of the wrong kind the client is in the state that it was in.
  pub client_fails :
      (f : AutoNatClient H) (chunk : Bytes) (e : AutoNatError)
      → (on_data f chunk).1 ≡ err e
      → ((on_data f chunk).0.outcome ≡ f.outcome)
        × ((on_data f chunk).0.outbound ≡ f.outbound)
        × (e ≢ unexpected_message "expected DIAL_RESPONSE" → (on_data f chunk).0.state ≡ f.state)
  unfolding on_data try_decode_response enforce_max_size
  client_fails f chunk e h = ground arith

  -- A client whose buffer has outgrown the limit refuses everything that follows, and keeps it.
  pub client_stuck :
      (f : AutoNatClient H) (chunk : Bytes)
      → f.state ≢ done
      → max_message_size < length f.recv_buf
      → on_data f chunk ≡ (
        record f { recv_buf = f.recv_buf ++ chunk },
        err (message_too_large (length f.recv_buf + length chunk)),
      )
  unfolding on_data try_decode_response enforce_max_size
  client_stuck f chunk s h = ground (arith, length-append f.recv_buf chunk)
