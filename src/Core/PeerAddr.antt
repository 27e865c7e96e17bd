-- ===== src/Core/PeerAddr.antt =====
-- crates/core/src/peer_addr.rs: `PeerAddr`, a transport address with the peer behind it.
pub mod Laws
use minip2p.Prelude.{
  ℕ, zero, suc, ◌+◌, ◌-◌, Bool, true, false, not, List, [], ◌∷◌, ◌++◌, Option, none, some, ◌==◌,
  if◌then◌else◌, length, take, get_elem?, any,
}
use minip2p.Prelude.Result.{Result, ok, err, ◌>>=◌, ok_or}
use minip2p.Varint.{Bytes}
use minip2p.Identity.PeerId.{PeerId}
use minip2p.Core.Protocol.{Protocol, ip4, ip6, udp, quic_v1, p2p, MultiaddrError}
use minip2p.Core.Multiaddr.{Multiaddr, from_protocols, is_empty, is_p2p}

pub data PeerAddrError : Type 0 where
  multiaddr : MultiaddrError → PeerAddrError
  missing_peer_id : PeerAddrError
  non_terminal_peer_id : PeerAddrError
  transport_contains_peer_id : PeerAddrError
  empty_transport : PeerAddrError

-- `core::net::IpAddr`, by its octets.
pub data IpAddr : Type 0 where
  v4 : Bytes → IpAddr
  v6 : Bytes → IpAddr

abbrev pub after_head : Option ℕ → Option ℕ
after_head none = none
after_head (some i) = some (suc i)

module _ {A : Type 0} (f : A → Bool) where
  -- `iter().position(f)` and `iter().rposition(f)`.
  unfoldable pub position : List A → Option ℕ
  position [] = none
  position (x ∷ xs) = let rest = after_head (position xs) in if f x then some 0 else rest

  abbrev last_or : Option ℕ → Bool → Option ℕ
  last_or (some i) here = some (suc i)
  last_or none true = some 0
  last_or none false = none

  unfoldable pub rposition : List A → Option ℕ
  rposition [] = none
  rposition (x ∷ xs) = last_or (rposition xs) (f x)

pub record PeerAddr (H : Type 0) : Type 0 where
  pub transport : Multiaddr H
  pub peer_id : PeerId H

module _ {H : Type 0} where
  unfoldable pub new : Multiaddr H → PeerId H → Result PeerAddrError (PeerAddr H)
  unfolding is_empty
  new transport peer_id =
      if any is_p2p transport.protocols
      then err transport_contains_peer_id
      else if is_empty transport
      then err empty_transport
      else ok (record { transport = transport; peer_id = peer_id })

  abbrev host_of : IpAddr → Protocol H
  host_of (v4 octets) = ip4 octets
  host_of (v6 octets) = ip6 octets

  unfoldable pub quic_v1_addr : IpAddr → ℕ → PeerId H → PeerAddr H
  quic_v1_addr ip udp_port peer_id = record {
    transport = from_protocols (host_of ip ∷ udp udp_port ∷ quic_v1 ∷ []);
    peer_id = peer_id;
  }

  abbrev peer_id_at : Option (Protocol H) → Result PeerAddrError (PeerId H)
  peer_id_at (some (p2p peer_id)) = ok peer_id
  peer_id_at _ = err missing_peer_id

  -- From the position of the last `/p2p` on.
  unfoldable pub transport_of : List (Protocol H) → PeerId H → Result PeerAddrError (PeerAddr H)
  transport_of [] peer_id = err empty_transport
  transport_of (p ∷ ps) peer_id =
      ok (record { transport = from_protocols (p ∷ ps); peer_id = peer_id })

  unfoldable pub from_multiaddr : Multiaddr H → Result PeerAddrError (PeerAddr H)
  unfolding position rposition transport_of
  from_multiaddr addr =
      let protocols = addr.protocols in
      do
        last ← ok_or (rposition is_p2p protocols) missing_peer_id
        (if not (last == length protocols - 1) then err non_terminal_peer_id else (do
          first ← ok_or (position is_p2p protocols) missing_peer_id
          (if not (first == last) then err non_terminal_peer_id else (do
            peer_id ← peer_id_at (get_elem? protocols last)
            transport_of (take last protocols) peer_id))))

  unfoldable pub to_multiaddr : PeerAddr H → Multiaddr H
  to_multiaddr addr = from_protocols (addr.transport.protocols ++ (p2p addr.peer_id ∷ []))
