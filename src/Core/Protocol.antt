-- ===== src/Core/Protocol.antt =====
-- crates/core/src/protocol.rs: the components of a multiaddr and their binary form. A text is its
-- bytes; `reason` keeps the error whose text the source stores.
pub mod RoundTrip
use Prim.Native.String.{String}
use minip2p.Prelude.{
  ℕ, ◌+◌, ◌-◌, ◌*◌, ◌/◌, ◌%◌, Bool, true, false, ◌||◌, List, [], ◌∷◌, ◌++◌, ltb, ◌==◌,
  if◌then◌else◌, length, take, drop,
}
use minip2p.Prelude.Result.{Result, ok, err, ◌>>=◌, map_err}
use minip2p.Varint.{Bytes, VarintError, read_uvarint, write_uvarint}
use minip2p.Multistream.Utf8.{is_utf8}
use minip2p.Identity.PeerId
use minip2p.Identity.PeerId.{Multihash, PeerId, PeerIdError}

abbrev pub ip4_code : ℕ
ip4_code = 0x04

abbrev pub ip6_code : ℕ
ip6_code = 0x29

abbrev pub dns_code : ℕ
dns_code = 0x35

abbrev pub dns4_code : ℕ
dns4_code = 0x36

abbrev pub dns6_code : ℕ
dns6_code = 0x37

abbrev pub udp_code : ℕ
udp_code = 0x0111

abbrev pub quic_v1_code : ℕ
quic_v1_code = 0x01cd

abbrev pub p2p_code : ℕ
p2p_code = 0x01a5

-- `[u8; N]` is a list of bytes, whose length is part of `IsTyped`.
pub data Protocol (H : Type 0) : Type 0 where
  ip4 : Bytes → Protocol H
  ip6 : Bytes → Protocol H
  dns : Bytes → Protocol H
  dns4 : Bytes → Protocol H
  dns6 : Bytes → Protocol H
  udp : (port : ℕ) → Protocol H
  quic_v1 : Protocol H
  p2p : PeerId H → Protocol H

pub data InvalidReason : Type 0 where
  not_utf8 : InvalidReason
  bad_peer_id : PeerIdError → InvalidReason

pub data MultiaddrError : Type 0 where
  empty_input : MultiaddrError
  missing_leading_slash : MultiaddrError
  empty_protocol : MultiaddrError
  missing_value : (protocol : Bytes) → MultiaddrError
  unknown_protocol : (protocol : Bytes) → MultiaddrError
  invalid_ip4 : (value : Bytes) → MultiaddrError
  invalid_ip6 : (value : Bytes) → MultiaddrError
  invalid_port : (value : Bytes) → MultiaddrError
  invalid_dns_name : (value : Bytes) → MultiaddrError
  invalid_peer_id : (value : Bytes) → (source : PeerIdError) → MultiaddrError
  unknown_protocol_code : (code : ℕ) → MultiaddrError
  truncated_binary_value : (protocol : String) → MultiaddrError
  invalid_binary_value : (protocol : String) → (reason : InvalidReason) → MultiaddrError
  varint : VarintError → MultiaddrError

unfoldable pub fixed : ℕ → Bytes → String → Result MultiaddrError Bytes
fixed n bytes protocol =
    if ltb (length bytes) n then err (truncated_binary_value protocol) else ok (take n bytes)

unfoldable pub length_prefixed : Bytes → String → Result MultiaddrError (Bytes × ℕ)
length_prefixed bytes protocol = do
  (len, consumed) ← map_err varint (read_uvarint bytes)
  (if ltb (length bytes - consumed) len
      then err (truncated_binary_value protocol)
      else ok (take len (drop consumed bytes), consumed + len))

-- `u16::to_be_bytes` and `u16::from_be_bytes`.
abbrev pub to_be_bytes : ℕ → Bytes
to_be_bytes port = (port / 256 % 256) ∷ (port % 256) ∷ []

abbrev pub from_be_bytes : Bytes → ℕ
from_be_bytes [] = 0
from_be_bytes (a ∷ []) = a
from_be_bytes (a ∷ b ∷ _) = a * 256 + b

unfoldable pub from_utf8 : Bytes → String → Result MultiaddrError Bytes
from_utf8 body label = if is_utf8 body then ok body else err (invalid_binary_value label not_utf8)

abbrev pub dns_label : ℕ → String
dns_label c = if c == dns_code then "dns" else if c == dns4_code then "dns4" else "dns6"

module _ {H : Type 0} where
  unfoldable pub is_host : Protocol H → Bool
  is_host (ip4 _) = true
  is_host (ip6 _) = true
  is_host (dns _) = true
  is_host (dns4 _) = true
  is_host (dns6 _) = true
  is_host (udp _) = false
  is_host quic_v1 = false
  is_host (p2p _) = false

  unfoldable pub code : Protocol H → ℕ
  code (ip4 _) = ip4_code
  code (ip6 _) = ip6_code
  code (dns _) = dns_code
  code (dns4 _) = dns4_code
  code (dns6 _) = dns6_code
  code (udp _) = udp_code
  code quic_v1 = quic_v1_code
  code (p2p _) = p2p_code

  abbrev pub dns_protocol : ℕ → Bytes → Protocol H
  dns_protocol c name =
      if c == dns_code then dns name else if c == dns4_code then dns4 name else dns6 name

-- A length prefix and the body behind it.
abbrev pub write_prefixed : Bytes → Bytes → Bytes
write_prefixed body out = write_uvarint (length body) out ++ body

module _ {H : Type 0} ⦃m : Multihash H⦄ where
  unfoldable pub write_value : Protocol H → Bytes → Bytes
  unfolding PeerId.to_bytes
  write_value (ip4 bytes) out = out ++ bytes
  write_value (ip6 bytes) out = out ++ bytes
  write_value (dns name) out = write_prefixed name out
  write_value (dns4 name) out = write_prefixed name out
  write_value (dns6 name) out = write_prefixed name out
  write_value (udp port) out = out ++ to_be_bytes port
  write_value quic_v1 out = out
  write_value (p2p peer_id) out = write_prefixed (PeerId.to_bytes peer_id) out

  unfoldable pub write_binary : Protocol H → Bytes → Bytes
  unfolding code write_value
  write_binary p out = write_value p (write_uvarint (code p) out)

  -- The `match` on the code; `rest` is behind the code, which took `consumed` bytes.
  unfoldable pub read_value : ℕ → Bytes → ℕ → Result MultiaddrError (Protocol H × ℕ)
  read_value c rest consumed =
      if c == ip4_code
      then (do value ← fixed 4 rest "ip4"; ok (ip4 value, consumed + 4))
      else if c == ip6_code
      then (do value ← fixed 16 rest "ip6"; ok (ip6 value, consumed + 16))
      else if c == udp_code
      then (do value ← fixed 2 rest "udp"; ok (udp (from_be_bytes value), consumed + 2))
      else if c == quic_v1_code
      then ok (quic_v1, consumed)
      else if c == dns_code || (c == dns4_code || c == dns6_code)
      then (do
        (body, used) ← length_prefixed rest (dns_label c)
        name ← from_utf8 body (dns_label c)
        ok (dns_protocol c name, consumed + used))
      else if c == p2p_code
      then (do
        (body, used) ← length_prefixed rest "p2p"
        peer_id ← map_err (λ e. invalid_binary_value "p2p" (bad_peer_id e)) (PeerId.from_bytes body)
        ok (p2p peer_id, consumed + used))
      else err (unknown_protocol_code c)

  unfoldable pub read_binary : Bytes → Result MultiaddrError (Protocol H × ℕ)
  unfolding read_value
  read_binary bytes = do
    (c, consumed) ← map_err varint (read_uvarint bytes)
    read_value c (drop consumed bytes) consumed
