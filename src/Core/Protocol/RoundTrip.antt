-- ===== src/Core/Protocol/RoundTrip.antt =====
-- Reading back one component, and how far a component is read.
use minip2p.Prelude.{
  ℕ, ◌+◌, ◌-◌, ◌^◌, ◌≤◌, ◌<◌, ◌≡◌, refl, sym, ap, ◌∙◌, true, false, [], ◌++◌, ltb, length, drop,
  append_assoc, append-nil, length-append, take-length, drop-length, arith,
}
use minip2p.Prelude.Bits.{IsU64}
use minip2p.Prelude.Result.{ok}
use minip2p.Varint.{Bytes, uvarint_len, write_uvarint}
use minip2p.Varint.Encode.{uvarint, write_uvarint-uvarint, length-uvarint}
use minip2p.Varint.RoundTrip.{read_uvarint-uvarint}
use minip2p.Multistream.Utf8.{is_utf8}
use minip2p.Identity.PeerId
use minip2p.Identity.PeerId.{Multihash, IsLawful, PeerId, IsPeerId, peer_id-from_bytes-to_bytes}
use minip2p.Core.Protocol.{
  Protocol, ip4, ip6, dns, dns4, dns6, udp, quic_v1, p2p, fixed, length_prefixed, from_utf8,
  to_be_bytes, from_be_bytes, code, write_value, write_binary, read_value, read_binary,
}
use Prim.Native.String.{String}

fixed-append :
    (n : ℕ) (value rest : Bytes) (label : String)
    → length value ≡ n
    → fixed n (value ++ rest) label ≡ ok value
unfolding fixed
fixed-append n value rest label e =
    let enough : ltb (length (value ++ rest)) (length value) ≡ false =
      ground (arith, length-append value rest) in
    rw (sym e, enough, take-length value rest) refl

abbrev prefixed : Bytes → Bytes
prefixed body = uvarint (length body) ++ body

length_prefixed-append :
    (body rest : Bytes) (label : String)
    → IsU64 (length body)
    → length_prefixed (prefixed body ++ rest) label ≡ ok (body, length (prefixed body))
unfolding length_prefixed
length_prefixed-append body rest label h =
    let front = uvarint (length body) in
    let n = length-uvarint (length body) in
    let read = read_uvarint-uvarint (length body) (body ++ rest) h in
    let behind : drop (uvarint_len (length body)) (front ++ (body ++ rest)) ≡ body ++ rest =
      ap (λ (k : ℕ). drop k (front ++ (body ++ rest))) (sym n) ∙ drop-length front (body ++ rest) in
    let all : length (front ++ (body ++ rest)) ≡ length front + (length body + length rest) =
      omega (arith, length-append front (body ++ rest), length-append body rest) in
    let enough : ltb (length (front ++ (body ++ rest)) - uvarint_len (length body)) (length body)
        ≡ false =
      ground (arith, all, n) in
    let total : uvarint_len (length body) + length body ≡ length front + length body =
      omega (arith, n) in
    rw
      (
        append_assoc front body rest,
        read,
        enough,
        behind,
        take-length body rest,
        length-append front body,
        total,
      )
      refl

write_prefixed_lem :
    (body out : Bytes) → write_uvarint (length body) out ++ body ≡ out ++ prefixed body
write_prefixed_lem body out =
    rw (write_uvarint-uvarint (length body) out) (append_assoc out (uvarint (length body)) body)

from_utf8_ok :
    (name : Bytes) (label : String) → is_utf8 name ≡ true → from_utf8 name label ≡ ok name
unfolding from_utf8
from_utf8_ok name label h = rw h

port_read : (port : ℕ) → port < 2 ^ 16 → from_be_bytes (to_be_bytes port) ≡ port
port_read port h = omega arith

module _ {H : Type 0} ⦃m : Multihash H⦄ where
  -- The machine types: an address of 4 or 16 bytes, a name that is a text, a port of 16 bits.
  abbrev pub IsTyped : Protocol H → Type 0
  IsTyped (ip4 bytes) = length bytes ≡ 4
  IsTyped (ip6 bytes) = length bytes ≡ 16
  IsTyped (dns name) = (is_utf8 name ≡ true) × IsU64 (length name)
  IsTyped (dns4 name) = (is_utf8 name ≡ true) × IsU64 (length name)
  IsTyped (dns6 name) = (is_utf8 name ≡ true) × IsU64 (length name)
  IsTyped (udp port) = port < 2 ^ 16
  IsTyped quic_v1 = Unit {0}
  IsTyped (p2p peer_id) = IsPeerId peer_id

  -- What stands behind the code.
  unfoldable pub value_bytes : Protocol H → Bytes
  value_bytes (ip4 bytes) = bytes
  value_bytes (ip6 bytes) = bytes
  value_bytes (dns name) = prefixed name
  value_bytes (dns4 name) = prefixed name
  value_bytes (dns6 name) = prefixed name
  value_bytes (udp port) = to_be_bytes port
  value_bytes quic_v1 = []
  value_bytes (p2p peer_id) = prefixed (PeerId.to_bytes peer_id)

  unfoldable pub component_bytes : Protocol H → Bytes
  component_bytes p = uvarint (code p) ++ value_bytes p

  pub write_binary-component :
      (p : Protocol H) (out : Bytes) → write_binary p out ≡ out ++ component_bytes p
  unfolding write_binary component_bytes value_bytes
  write_binary-component p out = rw (write_uvarint-uvarint (code p) out) (
      write_value-append p (out ++ uvarint (code p))
      ∙ append_assoc out (uvarint (code p)) (value_bytes p))
    where
      write_value-append : (p : Protocol H) (out : Bytes) → write_value p out ≡ out ++ value_bytes p
      write_value-append (ip4 bytes) out = refl
      write_value-append (ip6 bytes) out = refl
      write_value-append (dns name) out = write_prefixed_lem name out
      write_value-append (dns4 name) out = write_prefixed_lem name out
      write_value-append (dns6 name) out = write_prefixed_lem name out
      write_value-append (udp port) out = refl
      write_value-append quic_v1 out = sym (append-nil out)
      write_value-append (p2p peer_id) out = write_prefixed_lem (PeerId.to_bytes peer_id) out

  code_fits : (p : Protocol H) → IsU64 (code p)
  unfolding code
  code_fits p = ground arith

  module _ (l : IsLawful m) (rest : Bytes) where
    read_value-bytes :
        (p : Protocol H) (consumed : ℕ)
        → IsTyped p
        → read_value (code p) (value_bytes p ++ rest) consumed
          ≡ ok (p, consumed + length (value_bytes p))
    unfolding read_value value_bytes code
    read_value-bytes (ip4 bytes) consumed t = rw (fixed-append 4 bytes rest "ip4" t, t) refl
    read_value-bytes (ip6 bytes) consumed t = rw (fixed-append 16 bytes rest "ip6" t, t) refl
    read_value-bytes (dns name) consumed t =
        rw (length_prefixed-append name rest "dns" t.1, from_utf8_ok name "dns" t.0) refl
    read_value-bytes (dns4 name) consumed t =
        rw (length_prefixed-append name rest "dns4" t.1, from_utf8_ok name "dns4" t.0) refl
    read_value-bytes (dns6 name) consumed t =
        rw (length_prefixed-append name rest "dns6" t.1, from_utf8_ok name "dns6" t.0) refl
    read_value-bytes (udp port) consumed t =
        rw (fixed-append 2 (to_be_bytes port) rest "udp" refl, port_read port t) refl
    read_value-bytes quic_v1 consumed t = ap (λ (k : ℕ). ok (quic_v1, k)) (omega arith)
    read_value-bytes (p2p peer_id) consumed t =
        rw
          (
            length_prefixed-append (PeerId.to_bytes peer_id) rest "p2p"
                (unfold PeerId.to_bytes in l.to_bytes_len peer_id.multihash),
            peer_id-from_bytes-to_bytes l peer_id t,
          )
          refl

    pub read_binary-component :
        (p : Protocol H)
        → IsTyped p
        → read_binary (component_bytes p ++ rest) ≡ ok (p, length (component_bytes p))
    unfolding read_binary component_bytes
    read_binary-component p t =
        let front = uvarint (code p) in
        let n = length-uvarint (code p) in
        let read = read_uvarint-uvarint (code p) (value_bytes p ++ rest) (code_fits p) in
        let behind : drop (uvarint_len (code p)) (front ++ (value_bytes p ++ rest))
            ≡ value_bytes p ++ rest =
          ap (λ (k : ℕ). drop k (front ++ (value_bytes p ++ rest))) (sym n)
          ∙ drop-length front (value_bytes p ++ rest) in
        rw
          (
            append_assoc front (value_bytes p) rest,
            read,
            behind,
            read_value-bytes p (uvarint_len (code p)) t,
            length-append front (value_bytes p),
            n,
          )
          refl

  -- A component ends behind its code.
  pub read_value_moves :
      (c : ℕ) (rest : Bytes) (consumed : ℕ) (p : Protocol H) (consumed' : ℕ)
      → read_value c rest consumed ≡ ok (p, consumed')
      → consumed ≤ consumed'
  unfolding read_value
  read_value_moves c rest consumed p consumed' e = ground arith
