-- ===== src/Core/PeerAddr/Laws.antt =====
-- When a multiaddr is a peer address.
use minip2p.Prelude.{
  ℕ, zero, suc, ◌-◌, ◌≡◌, ◌↔◌, refl, sym, ap, ◌∙◌, true, false, Bool, List, [], ◌∷◌, ◌++◌, some,
  length, take, take-length, length-append, get_elem?, any, ◌==◌, if◌then◌else◌, arith, inl, inr,
  Bool-cases, Option-cases,
}
use minip2p.Prelude.Maps.{==_refl, ==→eq}
use minip2p.Prelude.Result.{ok, err, ◌>>=◌}
use minip2p.Identity.PeerId.{PeerId}
use minip2p.Core.Protocol.{Protocol, ip4, ip6, dns, dns4, dns6, udp, quic_v1, p2p}
use minip2p.Core.Multiaddr.{Multiaddr, from_protocols, is_p2p, is_empty}
use minip2p.Core.PeerAddr.{
  PeerAddr, new, position, rposition, from_multiaddr, to_multiaddr, transport_of, peer_id_at,
  empty_transport,
}

module _ {A : Type 0} (f : A → Bool) where
  -- The last element alone satisfies `f`.
  rposition-last :
      (xs : List A) (x : A) → f x ≡ true → rposition f (xs ++ (x ∷ [])) ≡ some (length xs)
  unfolding rposition
  rposition-last [] x h = rw h refl
  rposition-last (y ∷ ys) x h = rw (rposition-last ys x h) refl

  position-last :
      (xs : List A) (x : A)
      → any f xs ≡ false
      → f x ≡ true
      → position f (xs ++ (x ∷ [])) ≡ some (length xs)
  unfolding position
  position-last [] x n h = rw h refl
  position-last (y ∷ ys) x n h = ground (arith, position-last ys x)

  -- Nothing before the first position satisfies `f`.
  any-take-position : (xs : List A) (i : ℕ) → position f xs ≡ some i → any f (take i xs) ≡ false
  unfolding position
  any-take-position [] i e = cc
  any-take-position (x ∷ xs) i e = elim (Bool-cases (f x)) [
    | inl h ↦ let i' : 0 ≡ i = ground (arith, h, e) in rw (sym i') refl
    | inr h ↦ elim (Option-cases (position f xs)) [
      | inl n ↦ ground (arith, h, n, e)
      | inr (j, n) ↦
          let i' : suc j ≡ i = ground (arith, h, n, e) in rw (sym i', h) (any-take-position xs j n)
    ]
  ]

  get_elem?-last : (xs : List A) (x : A) → get_elem? (xs ++ (x ∷ [])) (length xs) ≡ some x
  get_elem?-last [] x = refl
  get_elem?-last (y ∷ ys) x = get_elem?-last ys x

-- A list is what stands before its last element, and that element.
split_last :
    {A : Type 0} (xs : List A) (i : ℕ)
    → suc i ≡ length xs
    → (x : A) × (get_elem? xs i ≡ some x) × (xs ≡ take i xs ++ (x ∷ []))
split_last [] i e = absurd (omega arith)
split_last (x ∷ []) zero e = (x, refl, refl)
split_last (x ∷ y ∷ ys) zero e = absurd (omega arith)
split_last (x ∷ []) (suc i) e = absurd (omega arith)
split_last (x ∷ y ∷ ys) (suc i) e =
    let (z, g, s) = split_last (y ∷ ys) i (omega arith) in (z, g, ap (◌∷◌ x) s)

module _ {H : Type 0} where
  new_valid :
      (t : Multiaddr H) (peer_id : PeerId H) (a : PeerAddr H)
      → new t peer_id ≡ ok a
      → (any is_p2p t.protocols ≡ false) × (is_empty t ≡ false)
  unfolding new transport_of
  new_valid t peer_id a e = ground arith

  parts_read :
      (ps : List (Protocol H)) (peer_id : PeerId H)
      → any is_p2p ps ≡ false
      → from_multiaddr (from_protocols (ps ++ (p2p peer_id ∷ []))) ≡ transport_of ps peer_id
  unfolding from_multiaddr
  parts_read ps peer_id n =
      let x : Protocol H = p2p peer_id in
      let last : (length ps == length (ps ++ (x ∷ [])) - 1) ≡ true =
        ground (arith, length-append ps (x ∷ [])) in
      rw
        (
          rposition-last is_p2p ps x refl,
          last,
          position-last is_p2p ps x n refl,
          ==_refl (length ps),
          get_elem?-last is_p2p ps x,
          take-length ps (x ∷ []),
        )
        refl

  transport_of-new :
      (t : Multiaddr H) (peer_id : PeerId H)
      → any is_p2p t.protocols ≡ false
      → transport_of t.protocols peer_id ≡ new t peer_id
  unfolding new transport_of
  transport_of-new t peer_id n = rw n (go t.protocols)
    where
      go :
          (ps : List (Protocol H))
          → transport_of ps peer_id ≡ (
              if is_empty (from_protocols ps)
              then err empty_transport
              else ok (record { transport = from_protocols ps; peer_id = peer_id }))
      go [] = refl
      go (p ∷ ps) = refl

  -- What is read when a peer id is the last component and no other one is a peer id.
  abbrev Reads : List (Protocol H) → PeerAddr H → Type 0
  Reads ps a = (to_multiaddr a ≡ from_protocols ps) × (new a.transport a.peer_id ≡ ok a)

  transport-Reads :
      (front : List (Protocol H)) (peer_id : PeerId H) (a : PeerAddr H)
      → any is_p2p front ≡ false
      → transport_of front peer_id ≡ ok a
      → Reads (front ++ (p2p peer_id ∷ [])) a
  unfolding to_multiaddr transport_of
  transport-Reads [] peer_id a n e = cc
  transport-Reads (p ∷ ps) peer_id a n e =
      let here : a ≡ record { transport = from_protocols (p ∷ ps); peer_id = peer_id } = cc in
      rw here (refl, sym (transport_of-new (from_protocols (p ∷ ps)) peer_id n))

  last-Reads :
      (front : List (Protocol H)) (x : Protocol H) (a : PeerAddr H)
      → any is_p2p front ≡ false
      → (peer_id_at (some x) >>= λ peer_id. transport_of front peer_id) ≡ ok a
      → Reads (front ++ (x ∷ [])) a
  last-Reads front (p2p peer_id) a n e = transport-Reads front peer_id a n e
  last-Reads front (ip4 _) a n e = cc
  last-Reads front (ip6 _) a n e = cc
  last-Reads front (dns _) a n e = cc
  last-Reads front (dns4 _) a n e = cc
  last-Reads front (dns6 _) a n e = cc
  last-Reads front (udp _) a n e = cc
  last-Reads front quic_v1 a n e = cc

  from_multiaddr-Reads :
      (ps : List (Protocol H)) (a : PeerAddr H)
      → from_multiaddr (from_protocols ps) ≡ ok a
      → Reads ps a
  unfolding from_multiaddr
  from_multiaddr-Reads [] a e = cc
  from_multiaddr-Reads (p ∷ ps) a e = elim (Option-cases (rposition is_p2p (p ∷ ps))) [
    | inl r ↦ cc (rw r at e)
    | inr (last, r) ↦ elim (Bool-cases (last == length (p ∷ ps) - 1)) [
      | inr b ↦ cc (rw (r, b) at e)
      | inl b ↦ elim (Option-cases (position is_p2p (p ∷ ps))) [
        | inl q ↦ cc (rw (r, b, q) at e)
        | inr (first, q) ↦ elim (Bool-cases (first == last)) [
          | inr c ↦ cc (rw (r, b, q, c) at e)
          | inl c ↦
              let (x, g, s) = split_last (p ∷ ps) last (ground (arith, b)) in
              let same : first ≡ last = ==→eq first last c in
              let clean = any-take-position is_p2p (p ∷ ps) last (q ∙ ap some same) in
              rw s (last-Reads (take last (p ∷ ps)) x a clean (rw (r, b, q, c, g) at e))
        ]
      ]
    ]
  ]

  -- `from_multiaddr` accepts an address exactly when it is the text of a peer address that `new`
  -- accepts, and the answer is that peer address.
  pub from_multiaddr_iff :
      (addr : Multiaddr H) (a : PeerAddr H)
      → (from_multiaddr addr ≡ ok a)
        ↔ ((to_multiaddr a ≡ addr) × (new a.transport a.peer_id ≡ ok a))
  from_multiaddr_iff addr a = (λ e. from_multiaddr-Reads addr.protocols a e, λ h. back h.0 h.1)
    where
      back : to_multiaddr a ≡ addr → new a.transport a.peer_id ≡ ok a → from_multiaddr addr ≡ ok a
      back e v =
          let n = (new_valid a.transport a.peer_id a v).0 in
          ap from_multiaddr (sym e)
          ∙ unfold to_multiaddr in
            parts_read a.transport.protocols a.peer_id n
            ∙ transport_of-new a.transport a.peer_id n
            ∙ v
