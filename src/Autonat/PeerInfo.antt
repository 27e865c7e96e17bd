-- ===== src/Autonat/PeerInfo.antt =====
-- crates/autonat/src/lib.rs: `PeerInfo`, its encoding and its decoding.
use mathlib.Core.List.{foldl}
use minip2p.Prelude.{
  ℕ, ◌≡◌, refl, ◌∙◌, List, [], ◌∷◌, ◌++◌, map, ◌&&◌, ◌==◌, if◌then◌else◌, arith, length, All,
  append_assoc, append-nil,
}
use minip2p.Prelude.Bits.{IsU64}
use minip2p.Prelude.Result.{Result, ok, ◌>>=◌}
use minip2p.Varint.{Bytes}
use minip2p.Wire.{tag_byte, wire_len, encode_bytes_field, read_len_delimited}
use minip2p.Wire.Fields.{
  Field, len_field, message_bytes, IsField, IsSound, IsField-All, Takes, Folds, stop, more,
}
use minip2p.Wire.Encode.{
  encode_bytes_field_lem, encode_repeated_lem, IsSound-repeated, read_len_delimited_body,
}
use minip2p.Wire.Loop.{Advances, moves}
use minip2p.Autonat.Types.{PeerInfo, AutoNatError, autonat_wire_error}
use minip2p.Autonat.Reader.{
  skip_field, skip_field_moves, decode_fields, decode_fields-Folds, IsNumbered-repeated,
}

unfoldable pub encode : PeerInfo → Bytes
encode peer =
    let out = encode_bytes_field [] (tag_byte 1 wire_len) peer.id in
    foldl (λ out addr. encode_bytes_field out (tag_byte 2 wire_len) addr) out peer.addrs

unfoldable pub step :
    Bytes → PeerInfo → (field wire_type idx : ℕ) → Result AutoNatError (PeerInfo × ℕ)
step input msg field wire_type idx =
    if field == 1 && wire_type == wire_len
    then (do (id, idx') ← read_len_delimited input idx; ok (record msg { id = id }, idx'))
    else if field == 2 && wire_type == wire_len
    then (do
      (addr, idx') ← read_len_delimited input idx
      ok (record msg { addrs = msg.addrs ++ (addr ∷ []) }, idx'))
    else do idx' ← skip_field input idx wire_type; ok (msg, idx')

abbrev pub default : PeerInfo
default = record { id = []; addrs = [] }

unfoldable pub decode : Bytes → Result AutoNatError PeerInfo
decode input = decode_fields step input default

pub step-Advances : Advances step
unfolding step
step-Advances input msg field wire_type idx msg' idx' e = grind (arith, moves, skip_field_moves)

abbrev fields : PeerInfo → List Field
fields p = len_field 1 p.id ∷ map (len_field 2) p.addrs

Takes-addrs :
    (d : Bytes) (msg : PeerInfo)
    → IsU64 (length d)
    → Takes step (len_field 2 d) msg (record msg { addrs = msg.addrs ++ (d ∷ []) })
unfolding step
Takes-addrs d msg h input idx rest a = rw (read_len_delimited_body input idx d rest h a)

Folds-addrs :
    (items : List Bytes) (msg : PeerInfo)
    → All IsField (map (len_field 2) items)
    → Folds step (map (len_field 2) items) msg (record msg { addrs = msg.addrs ++ items })
Folds-addrs [] msg h = rw append-nil stop
Folds-addrs (d ∷ ds) msg h =
    more (Takes-addrs d msg h.0.1)
      (rw append_assoc at (Folds-addrs ds (record msg { addrs = msg.addrs ++ (d ∷ []) }) h.1))

Takes-id :
    (d : Bytes) (msg : PeerInfo)
    → IsU64 (length d)
    → Takes step (len_field 1 d) msg (record msg { id = d })
unfolding step
Takes-id d msg h input idx rest a = rw (read_len_delimited_body input idx d rest h a)

Folds-fields : (p : PeerInfo) → All IsField (fields p) → Folds step (fields p) default p
Folds-fields p h =
    more (Takes-id p.id default h.0.1) (Folds-addrs p.addrs (record { id = p.id; addrs = [] }) h.1)

encode-fields : (p : PeerInfo) → encode p ≡ message_bytes (fields p)
unfolding encode
encode-fields p =
    encode_repeated_lem 2 p.addrs _ (omega arith)
    ∙ rw (encode_bytes_field_lem [] 1 p.id (omega arith)) refl

pub peer_info_decode-encode : (p : PeerInfo) → IsU64 (length (encode p)) → decode (encode p) ≡ ok p
unfolding decode
peer_info_decode-encode p h =
    let e = encode-fields p in
    let sound : All IsSound (fields p) =
      ((omega arith, tt), IsSound-repeated 2 p.addrs (omega arith)) in
    let f = IsField-All (fields p) sound (rw e at h) in
    rw e (
      decode_fields-Folds step f
        ((λ z. absurd (omega arith)), IsNumbered-repeated 2 p.addrs (λ z. absurd (omega arith)))
        (Folds-fields p f))
