-- ===== src/Core/Candidates/Shapes.antt =====
-- crates/core/src/candidates.rs: the addresses that the policy tells apart, described by their
-- shapes and not by the tests of the code.
use minip2p.Prelude.{
  ℕ, ◌≡◌, refl, true, false, List, [], ◌∷◌, ◌++◌, All, arith, replicate, Bool-cases, inl, inr,
}
use minip2p.Multistream.Utf8.{bytes_eq_refl, bytes_eq→eq}
use minip2p.Varint.{Bytes}
use minip2p.Identity.PeerId.{Multihash}
use minip2p.Core.Protocol.{Protocol, ip4, ip6, dns, dns4, dns6, udp, quic_v1, p2p, is_host}
use minip2p.Core.Multiaddr.{Multiaddr, addr_eq, is_quic_transport, is_quic_transport_slice}
use minip2p.Core.Candidates.{DirectCandidate, is_wildcard_addr, starts_wild, has_addr}

module _ {H : Type 0} where
  pub data IsHost : Protocol H → Type 0 where
    by_ip4 : (b : Bytes) → IsHost (ip4 b)
    by_ip6 : (b : Bytes) → IsHost (ip6 b)
    by_dns : (b : Bytes) → IsHost (dns b)
    by_dns4 : (b : Bytes) → IsHost (dns4 b)
    by_dns6 : (b : Bytes) → IsHost (dns6 b)

  -- 0.0.0.0 or ::, and anything behind it.
  pub data StartsWild : List (Protocol H) → Type 0 where
    any_ip4 : (ps : List (Protocol H)) → StartsWild (ip4 (replicate 4 0) ∷ ps)
    any_ip6 : (ps : List (Protocol H)) → StartsWild (ip6 (replicate 16 0) ∷ ps)

  -- A host, a UDP port and QUIC v1, and no more.
  pub data HasQuicShape : List (Protocol H) → Type 0 where
    quic_shape :
        (host : Protocol H) (port : ℕ) → IsHost host → HasQuicShape (host ∷ udp port ∷ quic_v1 ∷ [])

  abbrev pub IsWild : Multiaddr H → Type 0
  IsWild addr = StartsWild addr.protocols

  abbrev pub IsQuic : Multiaddr H → Type 0
  IsQuic addr = HasQuicShape addr.protocols

  -- An address that the policy offers.
  abbrev pub IsDialable : Multiaddr H → Type 0
  IsDialable addr = (¬ IsWild addr) × IsQuic addr

  starts_wild-StartsWild : (ps : List (Protocol H)) → starts_wild ps ≡ true → StartsWild ps
  starts_wild-StartsWild [] e = cc
  starts_wild-StartsWild (ip4 b ∷ ps) e = rw (bytes_eq→eq b (replicate 4 0) e) (any_ip4 ps)
  starts_wild-StartsWild (ip6 b ∷ ps) e = rw (bytes_eq→eq b (replicate 16 0) e) (any_ip6 ps)
  starts_wild-StartsWild (_ ∷ ps) e = cc

  StartsWild-starts_wild : {ps : List (Protocol H)} → StartsWild ps → starts_wild ps ≡ true
  StartsWild-starts_wild (any_ip4 ps) = bytes_eq_refl (replicate 4 0)
  StartsWild-starts_wild (any_ip6 ps) = bytes_eq_refl (replicate 16 0)

  pub is_wildcard_addr-IsWild : (addr : Multiaddr H) → is_wildcard_addr addr ≡ true → IsWild addr
  unfolding is_wildcard_addr
  is_wildcard_addr-IsWild addr = starts_wild-StartsWild addr.protocols

  pub not-IsWild : (addr : Multiaddr H) → is_wildcard_addr addr ≡ false → ¬ IsWild addr
  unfolding is_wildcard_addr
  not-IsWild addr e w = let t = StartsWild-starts_wild w in cc

  is_host-IsHost : (p : Protocol H) → is_host p ≡ true → IsHost p
  unfolding is_host
  is_host-IsHost (ip4 b) e = by_ip4 b
  is_host-IsHost (ip6 b) e = by_ip6 b
  is_host-IsHost (dns b) e = by_dns b
  is_host-IsHost (dns4 b) e = by_dns4 b
  is_host-IsHost (dns6 b) e = by_dns6 b
  is_host-IsHost (udp n) e = cc
  is_host-IsHost quic_v1 e = cc
  is_host-IsHost (p2p k) e = cc

  IsHost-is_host : {p : Protocol H} → IsHost p → is_host p ≡ true
  unfolding is_host
  IsHost-is_host (by_ip4 b) = refl
  IsHost-is_host (by_ip6 b) = refl
  IsHost-is_host (by_dns b) = refl
  IsHost-is_host (by_dns4 b) = refl
  IsHost-is_host (by_dns6 b) = refl

  slice_shape : (ps : List (Protocol H)) → is_quic_transport_slice ps ≡ true → HasQuicShape ps
  unfolding is_quic_transport_slice
  slice_shape [] e = cc
  slice_shape (a ∷ []) e = cc
  slice_shape (a ∷ b ∷ []) e = cc
  slice_shape (host ∷ udp port ∷ quic_v1 ∷ []) e =
      quic_shape host port (is_host-IsHost host (ground arith))
  slice_shape (a ∷ b ∷ c ∷ d ∷ ps) e = cc
  slice_shape (a ∷ b ∷ c ∷ []) e = ground arith

  shape_slice : {ps : List (Protocol H)} → HasQuicShape ps → is_quic_transport_slice ps ≡ true
  unfolding is_quic_transport_slice
  shape_slice (quic_shape host port h) = rw (IsHost-is_host h) refl

  pub is_quic_transport-IsQuic : (addr : Multiaddr H) → is_quic_transport addr ≡ true → IsQuic addr
  unfolding is_quic_transport
  is_quic_transport-IsQuic addr = slice_shape addr.protocols

  pub not-IsQuic : (addr : Multiaddr H) → is_quic_transport addr ≡ false → ¬ IsQuic addr
  unfolding is_quic_transport
  not-IsQuic addr e q = let t = shape_slice q in cc

module _ {H : Type 0} ⦃m : Multihash H⦄ where
  -- No candidate has the address: none is equal to it, by the derived `==`.
  abbrev pub IsNew : List (DirectCandidate H) → Multiaddr H → Type 0
  IsNew cs addr = All (λ (c : DirectCandidate H). addr_eq c.addr addr ≡ false) cs

  pub data IsTaken : List (DirectCandidate H) → Multiaddr H → Type 0 where
    here :
        {addr : Multiaddr H} (c : DirectCandidate H) (cs : List (DirectCandidate H))
        → addr_eq c.addr addr ≡ true
        → IsTaken (c ∷ cs) addr
    there :
        {addr : Multiaddr H} {cs : List (DirectCandidate H)} (c : DirectCandidate H)
        → IsTaken cs addr
        → IsTaken (c ∷ cs) addr

  pub has_addr-IsTaken :
      (cs : List (DirectCandidate H)) (addr : Multiaddr H)
      → has_addr cs addr ≡ true
      → IsTaken cs addr
  unfolding has_addr
  has_addr-IsTaken [] addr e = cc
  has_addr-IsTaken (c ∷ cs) addr e = elim (Bool-cases (addr_eq c.addr addr)) [
    | inl y ↦ here c cs y
    | inr n ↦ there c (has_addr-IsTaken cs addr (rw n at e))
  ]

  pub has_addr-IsNew :
      (cs : List (DirectCandidate H)) (addr : Multiaddr H)
      → has_addr cs addr ≡ false
      → IsNew cs addr
  unfolding has_addr
  has_addr-IsNew [] addr e = tt
  has_addr-IsNew (c ∷ cs) addr e = elim (Bool-cases (addr_eq c.addr addr)) [
    | inl y ↦ ground arith
    | inr n ↦ (n, has_addr-IsNew cs addr (rw n at e))
  ]

  pub IsTaken-append :
      {cs : List (DirectCandidate H)} {addr : Multiaddr H} (ds : List (DirectCandidate H))
      → IsTaken cs addr
      → IsTaken (cs ++ ds) addr
  IsTaken-append ds (here c cs e) = here c (cs ++ ds) e
  IsTaken-append ds (there c t) = there c (IsTaken-append ds t)
