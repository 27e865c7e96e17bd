-- ===== src/Core/Candidates/Laws.antt =====
-- What a selection accepts, why it rejects, and that it accounts for every address.
use mathlib.Core.List.{foldl}
use minip2p.Prelude.{
  inl, inr, List, [], ◌∷◌, ◌++◌, Option, none, some, All, All-append, append-nil, append_assoc,
  Bool-cases,
}
use minip2p.Identity.PeerId.{Multihash}
use minip2p.Core.Multiaddr.{Multiaddr, is_quic_transport}
use minip2p.Core.Candidates.Merge.{Merge, none_left, Merge-accepts, Merge-rejects}
use minip2p.Core.Candidates.Shapes.{
  IsWild, IsQuic, IsDialable, IsNew, IsTaken, IsTaken-append, is_wildcard_addr-IsWild, not-IsWild,
  is_quic_transport-IsQuic, not-IsQuic, has_addr-IsTaken, has_addr-IsNew,
}
use minip2p.Core.Candidates.{
  DirectCandidateSource, manual, identify_observed, listen, DirectCandidateRejectReason,
  wildcard_bind_address, not_quic_v1_transport, duplicate, DirectCandidateRejection,
  DirectCandidate, DirectCandidateSelection, is_wildcard_addr, has_addr, reject, push_candidate,
  nothing_selected, push_some, select_direct_candidates,
}

module _ {H : Type 0} ⦃m : Multihash H⦄ where
  -- Each candidate differs from those accepted before it.
  abbrev pub Distinct : List (DirectCandidate H) → List (DirectCandidate H) → Type 0
  Distinct earlier [] = Unit {0}
  Distinct earlier (c ∷ cs) = IsNew earlier c.addr × Distinct (earlier ++ (c ∷ [])) cs

  abbrev pub ReasonHolds :
      List (DirectCandidate H) → Multiaddr H → DirectCandidateRejectReason → Type 0
  ReasonHolds accepted addr wildcard_bind_address = IsWild addr
  ReasonHolds accepted addr not_quic_v1_transport = (¬ IsWild addr) × (¬ IsQuic addr)
  ReasonHolds accepted addr duplicate = IsDialable addr × IsTaken accepted addr

  -- What a selection has made of the addresses that were offered: all that it accepted is dialable
  -- and new, and every rejection has its reason.
  pub record Accounts (offered : List (DirectCandidateSource × Multiaddr H))
      (s : DirectCandidateSelection H) : Type 0 where
    pub merged : Merge offered s.accepted s.rejected
    pub dialable : All (λ (c : DirectCandidate H). IsDialable c.addr) s.accepted
    pub distinct : Distinct [] s.accepted
    pub reasons :
        All (λ (r : DirectCandidateRejection H). ReasonHolds s.accepted r.addr r.reason) s.rejected

  Distinct-append :
      (earlier cs : List (DirectCandidate H)) (c : DirectCandidate H)
      → Distinct earlier cs
      → IsNew (earlier ++ cs) c.addr
      → Distinct earlier (cs ++ (c ∷ []))
  Distinct-append earlier [] c d h = (rw append-nil at h, tt)
  Distinct-append earlier (x ∷ cs) c d h =
      (d.0, Distinct-append (earlier ++ (x ∷ [])) cs c d.1 (rw append_assoc h))

  ReasonHolds-later :
      (cs ds : List (DirectCandidate H)) (addr : Multiaddr H) (r : DirectCandidateRejectReason)
      → ReasonHolds cs addr r
      → ReasonHolds (cs ++ ds) addr r
  ReasonHolds-later cs ds addr wildcard_bind_address h = h
  ReasonHolds-later cs ds addr not_quic_v1_transport h = h
  ReasonHolds-later cs ds addr duplicate h = (h.0, IsTaken-append ds h.1)

  reasons_later :
      (cs ds : List (DirectCandidate H)) (rs : List (DirectCandidateRejection H))
      → All (λ (r : DirectCandidateRejection H). ReasonHolds cs r.addr r.reason) rs
      → All (λ (r : DirectCandidateRejection H). ReasonHolds (cs ++ ds) r.addr r.reason) rs
  reasons_later cs ds [] h = tt
  reasons_later cs ds (r ∷ rs) h =
      (ReasonHolds-later cs ds r.addr r.reason h.0, reasons_later cs ds rs h.1)

  reject-Accounts :
      (xs : List (DirectCandidateSource × Multiaddr H)) (s : DirectCandidateSelection H)
      (source : DirectCandidateSource) (addr : Multiaddr H) (reason : DirectCandidateRejectReason)
      → Accounts xs s
      → ReasonHolds s.accepted addr reason
      → Accounts (xs ++ ((source, addr) ∷ [])) (reject s source addr reason)
  unfolding reject
  reject-Accounts xs s source addr reason a h = record {
    merged = Merge-rejects (record { source = source; addr = addr; reason = reason }) a.merged;
    dialable = a.dialable;
    distinct = a.distinct;
    reasons = All-append _ s.rejected _ a.reasons (h, tt);
  }

  accept-Accounts :
      (xs : List (DirectCandidateSource × Multiaddr H)) (s : DirectCandidateSelection H)
      (c : DirectCandidate H)
      → Accounts xs s
      → IsDialable c.addr
      → IsNew s.accepted c.addr
      → Accounts (xs ++ ((c.source, c.addr) ∷ [])) (record s { accepted = s.accepted ++ (c ∷ []) })
  accept-Accounts xs s c a d n = record {
    merged = Merge-accepts c a.merged;
    dialable = All-append _ s.accepted _ a.dialable (d, tt);
    distinct = Distinct-append [] s.accepted c a.distinct n;
    reasons = reasons_later s.accepted (c ∷ []) s.rejected a.reasons;
  }

  push-Accounts :
      (xs : List (DirectCandidateSource × Multiaddr H)) (s : DirectCandidateSelection H)
      (source : DirectCandidateSource) (addr : Multiaddr H)
      → Accounts xs s
      → Accounts (xs ++ ((source, addr) ∷ [])) (push_candidate s source addr)
  unfolding push_candidate
  push-Accounts xs s source addr a = elim (Bool-cases (is_wildcard_addr addr)) [
    | inl w ↦
        rw w (
          reject-Accounts xs s source addr wildcard_bind_address a (is_wildcard_addr-IsWild addr w))
    | inr w ↦
        let tame = not-IsWild addr w in
        elim (Bool-cases (is_quic_transport addr)) [
          | inr q ↦
              rw (w, q)
                (reject-Accounts xs s source addr not_quic_v1_transport a (tame, not-IsQuic addr q))
          | inl q ↦
              let fine : IsDialable addr = (tame, is_quic_transport-IsQuic addr q) in
              elim (Bool-cases (has_addr s.accepted addr)) [
                | inl d ↦
                    rw (w, q, d)
                      (reject-Accounts xs s source addr duplicate a
                        (fine, has_addr-IsTaken s.accepted addr d))
                | inr d ↦
                    rw (w, q, d)
                      (accept-Accounts xs s (record { source = source; addr = addr }) a fine
                        (has_addr-IsNew s.accepted addr d))
              ]
        ]
  ]

  -- What the three arguments offer, in the order of their priority.
  abbrev from_source :
      DirectCandidateSource → List (Multiaddr H) → List (DirectCandidateSource × Multiaddr H)
  from_source source [] = []
  from_source source (addr ∷ addrs) = (source, addr) ∷ from_source source addrs

  abbrev of_option : Option (Multiaddr H) → List (Multiaddr H)
  of_option none = []
  of_option (some addr) = addr ∷ []

  abbrev pub offered :
      List (Multiaddr H)
      → Option (Multiaddr H)
      → Option (Multiaddr H)
      → List (DirectCandidateSource × Multiaddr H)
  offered manuals observed listening =
      (from_source manual manuals ++ from_source identify_observed (of_option observed))
      ++ from_source listen (of_option listening)

  manuals-Accounts :
      (xs : List (DirectCandidateSource × Multiaddr H)) (s : DirectCandidateSelection H)
      (manuals : List (Multiaddr H))
      → Accounts xs s
      → Accounts
          (xs ++ from_source manual manuals)
          (foldl (λ s addr. push_candidate s manual addr) s manuals)
  manuals-Accounts xs s [] a = rw append-nil a
  manuals-Accounts xs s (addr ∷ addrs) a = rw append_assoc at (
      manuals-Accounts (xs ++ ((manual, addr) ∷ [])) (push_candidate s manual addr) addrs
        (push-Accounts xs s manual addr a))

  some-Accounts :
      (xs : List (DirectCandidateSource × Multiaddr H)) (s : DirectCandidateSelection H)
      (source : DirectCandidateSource) (addr : Option (Multiaddr H))
      → Accounts xs s
      → Accounts (xs ++ from_source source (of_option addr)) (push_some s source addr)
  some-Accounts xs s source none a = rw append-nil a
  some-Accounts xs s source (some addr) a = push-Accounts xs s source addr a

  -- A selection accounts for every address that it is offered, in the order manual, observed,
  -- listening: the accepted and the rejected ones, merged, are what was offered. All that it accepted
  -- is a host, a UDP port and QUIC v1, does not start with the unspecified IPv4 or IPv6 address, and
  -- differs from what it accepted before, and each rejection states a reason that holds.
  pub select-Accounts :
      (manuals : List (Multiaddr H)) (observed listening : Option (Multiaddr H))
      → Accounts
          (offered manuals observed listening)
          (select_direct_candidates manuals observed listening)
  unfolding select_direct_candidates
  select-Accounts manuals observed listening =
      let start : Accounts [] nothing_selected = record {
        merged = none_left;
        dialable = tt;
        distinct = tt;
        reasons = tt;
      } in
      let first = manuals-Accounts [] nothing_selected manuals start in
      let s = foldl (λ s addr. push_candidate s manual addr) nothing_selected manuals in
      let second = some-Accounts (from_source manual manuals) s identify_observed observed first in
      some-Accounts
        (from_source manual manuals ++ from_source identify_observed (of_option observed))
        (push_some s identify_observed observed) listen listening second
