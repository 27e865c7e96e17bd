-- ===== src/Core/Multiaddr/RoundTrip.antt =====
-- The binary form of a multiaddr: it is read back, the reading ends, and equality is equality.
use mathlib.Core.List.{foldl}
use minip2p.Prelude.{
  ℕ, zero, suc, ◌+◌, ◌-◌, ◌<◌, ◌≡◌, ◌≢◌, refl, sym, ap, ◌∙◌, true, false, List, [], ◌∷◌, ◌++◌, none,
  some, length, take, drop, All, append_assoc, append-nil, length-append, length-drop, take-length,
  drop-length, arith, inl, inr, ltb,
}
use minip2p.Prelude.Result.{ok, Result-cases}
use minip2p.Varint.{Bytes, read_uvarint}
use minip2p.Varint.Encode.{uvarint, length-uvarint, uvarint_len_pos}
use minip2p.Varint.Stream.{read_uvarint_used}
use minip2p.Multistream.Utf8.{bytes_eq_refl}
use minip2p.Identity.PeerId
use minip2p.Identity.PeerId.{Multihash, IsLawful, PeerId}
use minip2p.Core.Protocol.{
  Protocol, ip4, ip6, dns, dns4, dns6, udp, quic_v1, p2p, code, read_binary, write_binary,
}
use minip2p.Core.Protocol.RoundTrip.{
  IsTyped, component_bytes, write_binary-component, read_binary-component, read_value_moves,
}
use minip2p.Core.Multiaddr.{
  Multiaddr, from_protocols, encapsulate, decapsulate, decapsulate_from, protocol_eq, protocols_eq,
  addr_eq, to_bytes, read_protocols, from_bytes,
}

take_all : {A : Type 0} (xs : List A) → take (length xs) xs ≡ xs
take_all [] = refl
take_all (x ∷ xs) = ap (◌∷◌ x) (take_all xs)

module _ {H : Type 0} ⦃m : Multihash H⦄ where
  abbrev pub AllTyped : Multiaddr H → Type 0
  AllTyped addr = All IsTyped addr.protocols

  all_bytes : List (Protocol H) → Bytes
  all_bytes [] = []
  all_bytes (p ∷ ps) = component_bytes p ++ all_bytes ps

  write_all :
      (ps : List (Protocol H)) (out : Bytes)
      → foldl (λ out p. write_binary p out) out ps ≡ out ++ all_bytes ps
  unfolding all_bytes
  write_all [] out = sym (append-nil out)
  write_all (p ∷ ps) out =
      write_all ps (write_binary p out)
      ∙ ap (λ (b : Bytes). b ++ all_bytes ps) (write_binary-component p out)
      ∙ append_assoc out (component_bytes p) (all_bytes ps)

  component_bytes_pos : (p : Protocol H) → 0 < length (component_bytes p)
  unfolding component_bytes
  component_bytes_pos p =
      omega (
        arith,
        length-append (uvarint (code p)) _,
        length-uvarint (code p),
        uvarint_len_pos (code p),
      )

  read_protocols_next :
      (fuel : ℕ) (bytes : Bytes) (p : Protocol H) (consumed : ℕ) (protocols : List (Protocol H))
      → 0 < length bytes
      → read_binary bytes ≡ ok (p, consumed)
      → read_protocols (suc fuel) bytes protocols
        ≡ read_protocols fuel (drop consumed bytes) (protocols ++ (p ∷ []))
  unfolding read_protocols
  read_protocols_next fuel [] p consumed protocols n e = absurd (omega arith)
  read_protocols_next fuel (b ∷ bs) p consumed protocols n e = rw (e, read_protocols) refl

  module _ (l : IsLawful m) where
    read-All :
        (ps : List (Protocol H)) (fuel : ℕ) (protocols : List (Protocol H))
        → All IsTyped ps
        → length (all_bytes ps) < fuel
        → read_protocols fuel (all_bytes ps) protocols ≡ some (ok (protocols ++ ps))
    unfolding all_bytes
    read-All [] zero protocols t f = absurd (omega arith)
    read-All [] (suc fuel) protocols t f = unfold read_protocols in rw append-nil refl
    read-All (p ∷ ps) zero protocols t f = absurd (omega arith)
    read-All (p ∷ ps) (suc fuel) protocols t f =
        let here = component_bytes p in
        let n : length (here ++ all_bytes ps) ≡ length here + length (all_bytes ps) =
          length-append here (all_bytes ps) in
        let pos = component_bytes_pos p in
        read_protocols_next fuel (here ++ all_bytes ps) p (length here) protocols (omega arith)
          (read_binary-component l (all_bytes ps) p t.0)
        ∙ rw (drop-length here (all_bytes ps))
            (read-All ps fuel (protocols ++ (p ∷ [])) t.1 (omega arith) ∙ rw append_assoc refl)

    -- `from_bytes` reads back every address that `to_bytes` wrote, when its components are of their
    -- machine types, and multihashes are read back.
    pub addr_from_bytes-to_bytes :
        (addr : Multiaddr H) → AllTyped addr → from_bytes (to_bytes addr) ≡ ok addr
    unfolding from_bytes to_bytes
    addr_from_bytes-to_bytes addr t =
        rw
          (
            write_all addr.protocols [],
            read-All addr.protocols (suc (length (all_bytes addr.protocols))) [] t (omega arith),
          )
          refl

  -- A component that is read took a byte at least.
  read_binary_pos :
      (bytes : Bytes) (p : Protocol H) (consumed : ℕ)
      → read_binary bytes ≡ ok (p, consumed)
      → 0 < consumed
  unfolding read_binary
  read_binary_pos bytes p consumed e = elim (Result-cases (read_uvarint bytes)) [
    | inr (x, r) ↦ cc (rw r at e)
    | inl ((c, used), r) ↦ omega (
      arith,
      read_uvarint_used bytes c used r,
      read_value_moves c (drop used bytes) used p consumed (rw r at e),
    )
  ]

  -- The loop of `from_bytes` ends: the fuel of one round a byte, and one, never runs out.
  read_protocols_total :
      (fuel : ℕ) (bytes : Bytes) (protocols : List (Protocol H))
      → length bytes < fuel
      → read_protocols fuel bytes protocols ≢ none
  unfolding read_protocols
  read_protocols_total zero bytes protocols h = absurd (omega arith)
  read_protocols_total (suc fuel) [] protocols h = λ e. cc
  read_protocols_total (suc fuel) (b ∷ bs) protocols h =
      elim (Result-cases (read_binary {H = H} (b ∷ bs))) [
        | inr (x, r) ↦ rw (r, read_protocols) (λ e. cc)
        | inl ((p, consumed), r) ↦
            let pos = read_binary_pos (b ∷ bs) p consumed r in
            rw (r, read_protocols)
              (read_protocols_total fuel (drop consumed (b ∷ bs)) (protocols ++ (p ∷ []))
                (omega (arith, length-drop consumed (b ∷ bs))))
      ]

  protocol_eq_refl : (l : IsLawful m) (p : Protocol H) → protocol_eq p p ≡ true
  unfolding protocol_eq PeerId.same
  protocol_eq_refl l (ip4 a) = bytes_eq_refl a
  protocol_eq_refl l (ip6 a) = bytes_eq_refl a
  protocol_eq_refl l (dns a) = bytes_eq_refl a
  protocol_eq_refl l (dns4 a) = bytes_eq_refl a
  protocol_eq_refl l (dns6 a) = bytes_eq_refl a
  protocol_eq_refl l (udp port) = ground arith
  protocol_eq_refl l quic_v1 = refl
  protocol_eq_refl l (p2p peer_id) = l.same_refl peer_id.multihash

  protocols_eq_refl : (l : IsLawful m) (ps : List (Protocol H)) → protocols_eq ps ps ≡ true
  unfolding protocols_eq
  protocols_eq_refl l [] = refl
  protocols_eq_refl l (p ∷ ps) = rw (protocol_eq_refl l p, protocols_eq_refl l ps) refl

  pub addr_eq_refl : (l : IsLawful m) (addr : Multiaddr H) → addr_eq addr addr ≡ true
  unfolding addr_eq
  addr_eq_refl l addr = protocols_eq_refl l addr.protocols

  -- What `encapsulate` appended `decapsulate` takes off again, whatever else the address holds, when
  -- multihashes are lawful.
  pub decapsulate-encapsulate :
      (l : IsLawful m) (addr suffix : Multiaddr H)
      → decapsulate (encapsulate addr suffix) suffix ≡ some addr
  unfolding decapsulate encapsulate decapsulate_from
  decapsulate-encapsulate l addr suffix = go suffix.protocols
    where
      go :
          (qs : List (Protocol H))
          → decapsulate (encapsulate addr (from_protocols qs)) (from_protocols qs) ≡ some addr
      go [] = rw append-nil refl
      go (q ∷ qs) =
          let ps = addr.protocols in
          let n : length (ps ++ (q ∷ qs)) ≡ length ps + suc (length qs) =
            length-append ps (q ∷ qs) in
          let enough : ltb (length (ps ++ (q ∷ qs))) (suc (length qs)) ≡ false =
            ground (arith, n) in
          let idx : length (ps ++ (q ∷ qs)) - suc (length qs) ≡ length ps = omega (arith, n) in
          rw
            (
              enough,
              idx,
              drop-length ps (q ∷ qs),
              take_all (q ∷ qs),
              protocols_eq_refl l (q ∷ qs),
              take-length ps (q ∷ qs),
            )
            refl
