-- ===== src/Core/Candidates/Merge.antt =====
-- crates/core/src/candidates.rs: the accepted and the rejected addresses of a selection against those
-- that were offered.
use minip2p.Prelude.{List, [], ◌∷◌, ◌++◌}
use minip2p.Core.Multiaddr.{Multiaddr}
use minip2p.Core.Candidates.{DirectCandidateSource, DirectCandidateRejection, DirectCandidate}

module _ {H : Type 0} where
  -- The addresses that were offered, in their order, are the accepted and the rejected ones merged.
  pub data Merge
      : List (DirectCandidateSource × Multiaddr H)
        → List (DirectCandidate H)
        → List (DirectCandidateRejection H)
        → Type 0 where
    none_left : Merge [] [] []
    accepts :
        {xs : List (DirectCandidateSource × Multiaddr H)} {cs : List (DirectCandidate H)}
        {rs : List (DirectCandidateRejection H)} (c : DirectCandidate H)
        → Merge xs cs rs
        → Merge ((c.source, c.addr) ∷ xs) (c ∷ cs) rs
    rejects :
        {xs : List (DirectCandidateSource × Multiaddr H)} {cs : List (DirectCandidate H)}
        {rs : List (DirectCandidateRejection H)} (r : DirectCandidateRejection H)
        → Merge xs cs rs
        → Merge ((r.source, r.addr) ∷ xs) cs (r ∷ rs)

  pub Merge-accepts :
      {xs : List (DirectCandidateSource × Multiaddr H)} {cs : List (DirectCandidate H)}
      {rs : List (DirectCandidateRejection H)} (c : DirectCandidate H)
      → Merge xs cs rs
      → Merge (xs ++ ((c.source, c.addr) ∷ [])) (cs ++ (c ∷ [])) rs
  Merge-accepts c none_left = accepts c none_left
  Merge-accepts c (accepts d g) = accepts d (Merge-accepts c g)
  Merge-accepts c (rejects r g) = rejects r (Merge-accepts c g)

  pub Merge-rejects :
      {xs : List (DirectCandidateSource × Multiaddr H)} {cs : List (DirectCandidate H)}
      {rs : List (DirectCandidateRejection H)} (r : DirectCandidateRejection H)
      → Merge xs cs rs
      → Merge (xs ++ ((r.source, r.addr) ∷ [])) cs (rs ++ (r ∷ []))
  Merge-rejects r none_left = rejects r none_left
  Merge-rejects r (accepts d g) = accepts d (Merge-rejects r g)
  Merge-rejects r (rejects q g) = rejects q (Merge-rejects r g)
