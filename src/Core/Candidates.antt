-- ===== src/Core/Candidates.antt =====
-- crates/core/src/candidates.rs: which addresses are offered for a direct connection.
pub mod Shapes
pub mod Merge
pub mod Laws
use mathlib.Core.List.{foldl}
use minip2p.Prelude.{
  ℕ, Bool, true, false, not, ◌||◌, List, [], ◌∷◌, ◌++◌, Option, none, some, if◌then◌else◌, if_some,
  replicate, map,
}
use minip2p.Multistream.Utf8.{bytes_eq}
use minip2p.Identity.PeerId.{Multihash}
use minip2p.Core.Protocol.{Protocol, ip4, ip6}
use minip2p.Core.Multiaddr.{Multiaddr, addr_eq, is_quic_transport}

pub data DirectCandidateSource : Type 0 where
  manual identify_observed listen : DirectCandidateSource

pub data DirectCandidateRejectReason : Type 0 where
  wildcard_bind_address not_quic_v1_transport duplicate : DirectCandidateRejectReason

pub record DirectCandidateRejection (H : Type 0) : Type 0 where
  pub source : DirectCandidateSource
  pub addr : Multiaddr H
  pub reason : DirectCandidateRejectReason

pub record DirectCandidate (H : Type 0) : Type 0 where
  pub source : DirectCandidateSource
  pub addr : Multiaddr H

pub record DirectCandidateSelection (H : Type 0) : Type 0 where
  pub accepted : List (DirectCandidate H)
  pub rejected : List (DirectCandidateRejection H)

module _ {H : Type 0} where
  unfoldable pub into_addrs : DirectCandidateSelection H → List (Multiaddr H)
  into_addrs selection = map (λ (c : DirectCandidate H). c.addr) selection.accepted

  abbrev starts_wild : List (Protocol H) → Bool
  starts_wild (ip4 bytes ∷ ps) = bytes_eq bytes (replicate 4 0)
  starts_wild (ip6 bytes ∷ ps) = bytes_eq bytes (replicate 16 0)
  starts_wild _ = false

  unfoldable pub is_wildcard_addr : Multiaddr H → Bool
  is_wildcard_addr addr = starts_wild addr.protocols

  unfoldable pub reject :
      DirectCandidateSelection H
      → DirectCandidateSource
      → Multiaddr H
      → DirectCandidateRejectReason
      → DirectCandidateSelection H
  reject selection source addr reason = record selection {
    rejected =
        selection.rejected ++ (record { source = source; addr = addr; reason = reason } ∷ []);
  }

module _ {H : Type 0} ⦃m : Multihash H⦄ where
  -- `iter().any(|candidate| candidate.addr == addr)`.
  unfoldable pub has_addr : List (DirectCandidate H) → Multiaddr H → Bool
  has_addr [] addr = false
  has_addr (c ∷ cs) addr = addr_eq c.addr addr || has_addr cs addr

  unfoldable pub push_candidate :
      DirectCandidateSelection H → DirectCandidateSource → Multiaddr H → DirectCandidateSelection H
  unfolding reject
  push_candidate selection source addr =
      if is_wildcard_addr addr
      then reject selection source addr wildcard_bind_address
      else if not (is_quic_transport addr)
      then reject selection source addr not_quic_v1_transport
      else if has_addr selection.accepted addr
      then reject selection source addr duplicate
      else record selection {
        accepted = selection.accepted ++ (record { source = source; addr = addr } ∷ []);
      }

  abbrev pub nothing_selected : DirectCandidateSelection H
  nothing_selected = record { accepted = []; rejected = [] }

  abbrev push_some :
      DirectCandidateSelection H
      → DirectCandidateSource
      → Option (Multiaddr H)
      → DirectCandidateSelection H
  push_some selection source none = selection
  push_some selection source (some addr) = push_candidate selection source addr

  unfoldable pub select_direct_candidates :
      List (Multiaddr H) → Option (Multiaddr H) → Option (Multiaddr H) → DirectCandidateSelection H
  select_direct_candidates manuals observed listening =
      let selection = foldl (λ s addr. push_candidate s manual addr) nothing_selected manuals in
      push_some (push_some selection identify_observed observed) listen listening
