-- ===== src/Autonat/Dial.antt =====
-- crates/autonat/src/lib.rs: `Dial`, its encoding and its decoding.
use minip2p.Prelude.{
  ℕ, ◌≡◌, refl, List, [], ◌&&◌, ◌==◌, if◌then◌else◌, arith, length, none, some, if_some,
}
use minip2p.Prelude.Bits.{IsU64}
use minip2p.Prelude.Result.{Result, ok, ◌>>=◌}
use minip2p.Varint.{Bytes}
use minip2p.Wire.{tag_byte, wire_len, encode_bytes_field, read_len_delimited}
use minip2p.Wire.Fields.{Field, len_field, IsField-All, Takes}
use minip2p.Wire.Encode.{
  encode_opt_nested_lem, opt_field, IsSound-opt, read_len_delimited_body, Folds-opt,
}
use minip2p.Wire.Loop.{Advances, moves}
use minip2p.Autonat.Types.{PeerInfo, Dial, AutoNatError, autonat_wire_error}
use minip2p.Autonat.PeerInfo
use minip2p.Autonat.PeerInfo.{peer_info_decode-encode}
use minip2p.Autonat.Reader.{
  skip_field, skip_field_moves, decode_fields, decode_fields-Folds, IsNumbered-opt,
}

unfoldable pub encode : Dial → Bytes
encode dial =
    if_some dial.peer (λ peer. encode_bytes_field [] (tag_byte 1 wire_len) (PeerInfo.encode peer))
      []

unfoldable pub step : Bytes → Dial → (field wire_type idx : ℕ) → Result AutoNatError (Dial × ℕ)
step input msg field wire_type idx =
    if field == 1 && wire_type == wire_len
    then (do
      (body, idx') ← read_len_delimited input idx
      peer ← PeerInfo.decode body
      ok (record msg { peer = some peer }, idx'))
    else do idx' ← skip_field input idx wire_type; ok (msg, idx')

abbrev pub default : Dial
default = record { peer = none }

unfoldable pub decode : Bytes → Result AutoNatError Dial
decode input = decode_fields step input default

pub step-Advances : Advances step
unfolding step
step-Advances input msg field wire_type idx msg' idx' e = grind (arith, moves, skip_field_moves)

abbrev peer_field : PeerInfo → Field
peer_field peer = len_field 1 (PeerInfo.encode peer)

abbrev fields : Dial → List Field
fields dial = opt_field peer_field dial.peer

Takes-peer :
    (peer : PeerInfo) (msg : Dial)
    → IsU64 (length (PeerInfo.encode peer))
    → Takes step (peer_field peer) msg (record msg { peer = some peer })
unfolding step
Takes-peer peer msg h input idx rest a =
    rw
      (
        read_len_delimited_body input idx (PeerInfo.encode peer) rest h a,
        peer_info_decode-encode peer h,
      )
      refl

pub dial_decode-encode : (d : Dial) → IsU64 (length (encode d)) → decode (encode d) ≡ ok d
unfolding encode decode
dial_decode-encode d h =
    let e = encode_opt_nested_lem PeerInfo.encode 1 d.peer [] (omega arith) in
    let sound = IsSound-opt peer_field d.peer (λ x. (omega arith, tt)) in
    let f = IsField-All (fields d) sound (rw e at h) in
    rw e (
      decode_fields-Folds step f (IsNumbered-opt peer_field d.peer (λ x z. absurd (omega arith))) (
        Folds-opt step peer_field (λ o. record { peer = o }) d.peer f
          (λ x _ k. Takes-peer x _ k.1)))
