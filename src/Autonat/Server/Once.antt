-- ===== src/Autonat/Server/Once.antt =====
-- Runs of `AutoNatServer`: a request is reported once.
use minip2p.Prelude.{
  ℕ, ◌+◌, ◌≤◌, ◌≡◌, refl, arith, Bool, true, false, List, [], ◌∷◌, Option, none, some,
}
use minip2p.Varint.{Bytes}
use minip2p.Identity.PeerId.{Multihash}
use minip2p.Autonat.Server
use minip2p.Autonat.Server.{
  AutoNatServer, AutoNatServerInput, AutoNatServerOutput, ServerState, awaiting_request, new,
  on_data, handle_input, poll_output,
}

-- A server that waits has no request, and has reported none.
abbrev pub IsFresh : {H : Type 0} → AutoNatServer H → Type 0
IsFresh f = f.state ≡ awaiting_request → (f.request ≡ none) × (f.emitted_request ≡ false)

-- The requests that a server may still report.
abbrev left : Bool → ℕ
left true = 0
left false = 1

module _ {H : Type 0} ⦃m : Multihash H⦄ where
  abbrev Keeps : AutoNatServer H → AutoNatServer H → Type 0
  Keeps f g = IsFresh g × (left g.emitted_request ≤ left f.emitted_request)

  on_data-Keeps : (f : AutoNatServer H) (chunk : Bytes) → IsFresh f → Keeps f (on_data f chunk).0
  unfolding on_data Server.try_decode_request
  on_data-Keeps f chunk h = ground arith

  handle_input-Keeps :
      (f : AutoNatServer H) (input : AutoNatServerInput H)
      → IsFresh f
      → Keeps f (handle_input f input).0
  unfolding handle_input Server.respond_public Server.respond_error Server.respond
  handle_input-Keeps f (Server.received chunk) h = on_data-Keeps f chunk h
  handle_input-Keeps f (Server.public_response addrs) h = ((λ e. cc), omega arith)
  handle_input-Keeps f (Server.error_response status reason) h = ((λ e. cc), omega arith)
  handle_input-Keeps f Server.flush h = (h, omega arith)

  -- The requests among the outputs.
  abbrev count : Option (AutoNatServerOutput H) → ℕ
  count (some (Server.AutoNatServerOutput.request_ready r)) = 1
  count _ = 0

  poll_output-Keeps :
      (f : AutoNatServer H)
      → IsFresh f
      → IsFresh (poll_output f).0
        × (count (poll_output f).1 + left (poll_output f).0.emitted_request
            ≤ left f.emitted_request)
  unfolding poll_output Server.take_outbound
  poll_output-Keeps f h = ground arith

-- What the owner of a server does.
pub data ServerOp (H : Type 0) : Type 0 where
  give : AutoNatServerInput H → ServerOp H
  poll : ServerOp H

module _ {H : Type 0} ⦃m : Multihash H⦄ where
  -- The requests that a server reports in a run, whatever the inputs answer.
  unfoldable pub reported : AutoNatServer H → List (ServerOp H) → ℕ
  reported f [] = 0
  reported f (give input ∷ ops) = reported (handle_input f input).0 ops
  reported f (poll ∷ ops) = count (poll_output f).1 + reported (poll_output f).0 ops

  reported-left :
      (ops : List (ServerOp H)) (f : AutoNatServer H)
      → IsFresh f
      → reported f ops ≤ left f.emitted_request
  unfolding reported
  reported-left [] f h = omega arith
  reported-left (give input ∷ ops) f h =
      let (k, n) = handle_input-Keeps f input h in
      let r = reported-left ops (handle_input f input).0 k in omega arith
  reported-left (poll ∷ ops) f h =
      let (k, n) = poll_output-Keeps f h in
      let r = reported-left ops (poll_output f).0 k in omega arith

  -- Whatever is given to a server and in whatever order it is polled, it reports one request at most.
  pub server_once : (ops : List (ServerOp H)) → reported new ops ≤ 1
  unfolding new
  server_once ops = reported-left ops new (λ e. (refl, refl))
