-- ===== src/Core/Multiaddr.antt =====
-- crates/core/src/multiaddr.rs: `Multiaddr`, its binary form, and equality of addresses. The text
-- form is not here.
pub mod RoundTrip
use mathlib.Core.List.{foldl}
use minip2p.Prelude.{
  ℕ, zero, suc, ◌+◌, ◌-◌, Bool, true, false, ◌&&◌, ◌||◌, List, [], ◌∷◌, ◌++◌, Option, none, some,
  ltb, ◌==◌, if◌then◌else◌, length, take, drop, any,
}
use minip2p.Prelude.Result.{Result, ok, err}
use minip2p.Varint.{Bytes}
use minip2p.Multistream.Utf8.{bytes_eq}
use minip2p.Identity.PeerId
use minip2p.Identity.PeerId.{Multihash, PeerId}
use minip2p.Core.Protocol
use minip2p.Core.Protocol.{
  Protocol, ip4, ip6, dns, dns4, dns6, udp, quic_v1, p2p, MultiaddrError, is_host, write_binary,
  read_binary,
}

pub record Multiaddr (H : Type 0) : Type 0 where
  pub protocols : List (Protocol H)

abbrev is_empty_list {ℓ} : {A : Type ℓ} → List A → Bool
is_empty_list [] = true
is_empty_list (x ∷ xs) = false

module _ {H : Type 0} where
  abbrev pub from_protocols : List (Protocol H) → Multiaddr H
  from_protocols protocols = record { protocols = protocols }

  -- `push`.
  abbrev pub push : Multiaddr H → Protocol H → Multiaddr H
  push addr p = record { protocols = addr.protocols ++ (p ∷ []) }

  unfoldable pub is_empty : Multiaddr H → Bool
  is_empty addr = is_empty_list addr.protocols

  abbrev is_quic : Protocol H → Bool
  is_quic quic_v1 = true
  is_quic _ = false

  abbrev pub is_p2p : Protocol H → Bool
  is_p2p (p2p _) = true
  is_p2p _ = false

  abbrev is_udp : Protocol H → Bool
  is_udp (udp _) = true
  is_udp _ = false

  unfoldable pub has_quic_v1 : Multiaddr H → Bool
  has_quic_v1 addr = any is_quic addr.protocols

  abbrev first_peer_id : List (Protocol H) → Option (PeerId H)
  first_peer_id [] = none
  first_peer_id (p2p peer_id ∷ ps) = some peer_id
  first_peer_id (p ∷ ps) = first_peer_id ps

  unfoldable pub peer_id : Multiaddr H → Option (PeerId H)
  peer_id addr = first_peer_id addr.protocols

  unfoldable pub encapsulate : Multiaddr H → Multiaddr H → Multiaddr H
  encapsulate addr other = record { protocols = addr.protocols ++ other.protocols }

  -- The `&&`s of the source are evaluated on a slice of three components only.
  unfoldable pub is_quic_transport_slice : List (Protocol H) → Bool
  is_quic_transport_slice (host ∷ port ∷ last ∷ []) = is_host host && (is_udp port && is_quic last)
  is_quic_transport_slice _ = false

  unfoldable pub is_quic_transport : Multiaddr H → Bool
  unfolding is_quic_transport_slice
  is_quic_transport addr = is_quic_transport_slice addr.protocols

module _ {H : Type 0} ⦃m : Multihash H⦄ where
  -- `==`, derived.
  unfoldable pub protocol_eq : Protocol H → Protocol H → Bool
  protocol_eq (ip4 a) (ip4 b) = bytes_eq a b
  protocol_eq (ip6 a) (ip6 b) = bytes_eq a b
  protocol_eq (dns a) (dns b) = bytes_eq a b
  protocol_eq (dns4 a) (dns4 b) = bytes_eq a b
  protocol_eq (dns6 a) (dns6 b) = bytes_eq a b
  protocol_eq (udp a) (udp b) = a == b
  protocol_eq quic_v1 quic_v1 = true
  protocol_eq (p2p a) (p2p b) = PeerId.same a b
  protocol_eq _ _ = false

  unfoldable pub protocols_eq : List (Protocol H) → List (Protocol H) → Bool
  protocols_eq [] [] = true
  protocols_eq [] (q ∷ qs) = false
  protocols_eq (p ∷ ps) [] = false
  protocols_eq (p ∷ ps) (q ∷ qs) = protocol_eq p q && protocols_eq ps qs

  unfoldable pub addr_eq : Multiaddr H → Multiaddr H → Bool
  addr_eq a b = protocols_eq a.protocols b.protocols

  -- The loop from `idx` down to 0; `suc idx` is what is left of the range.
  unfoldable pub decapsulate_from : ℕ → List (Protocol H) → List (Protocol H) → Option (Multiaddr H)
  decapsulate_from zero protocols suffix = none
  decapsulate_from (suc idx) protocols suffix =
      let before = decapsulate_from idx protocols suffix in
      if protocols_eq (take (length suffix) (drop idx protocols)) suffix
      then some (from_protocols (take idx protocols))
      else before

  unfoldable pub decapsulate : Multiaddr H → Multiaddr H → Option (Multiaddr H)
  unfolding decapsulate_from
  decapsulate addr suffix =
      if is_empty_list suffix.protocols
      then some addr
      else if ltb (length addr.protocols) (length suffix.protocols)
      then none
      else decapsulate_from (suc (length addr.protocols - length suffix.protocols)) addr.protocols
          suffix.protocols

  unfoldable pub to_bytes : Multiaddr H → Bytes
  to_bytes addr = foldl (λ out p. write_binary p out) [] addr.protocols

  -- `bytes` is what the loop has not reached; `none`: the fuel ran out.
  unfoldable pub read_protocols :
      ℕ → Bytes → List (Protocol H) → Option (Result MultiaddrError (List (Protocol H)))
  read_protocols zero bytes protocols = none
  read_protocols (suc fuel) [] protocols = some (ok protocols)
  read_protocols (suc fuel) (b ∷ bs) protocols = elim (read_binary {H = H} (b ∷ bs)) [
    | err e ↦ some (err e)
    | ok (p, consumed) ↦ read_protocols fuel (drop consumed (b ∷ bs)) (protocols ++ (p ∷ []))
  ]

  abbrev decoded :
      Option (Result MultiaddrError (List (Protocol H))) → Result MultiaddrError (Multiaddr H)
  decoded none = ok (from_protocols [])
  decoded (some (ok protocols)) = ok (from_protocols protocols)
  decoded (some (err e)) = err e

  -- Every component takes a byte at least, so this fuel is enough (`read_protocols_total`).
  unfoldable pub from_bytes : Bytes → Result MultiaddrError (Multiaddr H)
  unfolding read_protocols
  from_bytes bytes = decoded (read_protocols (suc (length bytes)) bytes [])
