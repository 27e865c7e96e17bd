-- ===== src/Relay/Limit.antt =====
-- crates/relay/src/message.rs: `Limit`, its encoding and its decoding.
use minip2p.Prelude.{
  ℕ, ◌%◌, ◌^◌, ◌≡◌, List, [], ◌++◌, ◌&&◌, ◌==◌, if◌then◌else◌, arith, length, All, All-append,
  Option, none, some, if_some,
}
use minip2p.Prelude.Bits.{IsU64, IsU32}
use minip2p.Prelude.Result.{Result, ok, ◌>>=◌}
use minip2p.Varint.{Bytes}
use minip2p.Wire.{
  tag_byte, wire_varint, encode_varint_field, read_varint_value, skip_unknown_field, decode_fields,
}
use minip2p.Wire.Cursor.{read_varint_value-At}
use minip2p.Wire.Fields.{
  Field, varint_field, message_bytes, message_bytes-append, IsSound, IsField-All, Takes, Folds,
  stop, more, decode_fields-Folds,
}
use minip2p.Wire.Encode.{encode_opt_varint_lem, opt_field, OnSome, IsSound-opt_varint}
use minip2p.Wire.Loop.{Advances, moves}
use minip2p.Relay.Codes.{RelayMessageError, relay_wire_error}

-- `duration` is a `u32`, `data` (here `bytes`) a `u64`.
pub record Limit : Type 0 where
  pub duration : Option ℕ
  pub bytes : Option ℕ

abbrev pub default : Limit
default = record { duration = none; bytes = none }

unfoldable pub encode : Limit → Bytes
encode l =
    let out =
      if_some l.duration (λ duration. encode_varint_field [] (tag_byte 1 wire_varint) duration)
        [] in
    if_some l.bytes (λ bytes. encode_varint_field out (tag_byte 2 wire_varint) bytes) out

-- The duration is cut to 32 bits.
unfoldable pub step :
    Bytes → Limit → (field wire_type idx : ℕ) → Result RelayMessageError (Limit × ℕ)
step input msg field wire_type idx =
    if field == 1 && wire_type == wire_varint
    then (do
      (duration, idx') ← read_varint_value input idx
      ok (record msg { duration = some (duration % 2 ^ 32) }, idx'))
    else if field == 2 && wire_type == wire_varint
    then (do
      (bytes, idx') ← read_varint_value input idx
      ok (record msg { bytes = some bytes }, idx'))
    else do idx' ← skip_unknown_field input idx wire_type; ok (msg, idx')

unfoldable pub decode : Bytes → Result RelayMessageError Limit
unfolding step
decode input = decode_fields step input default

pub step-Advances : Advances step
unfolding step
step-Advances input msg field wire_type idx msg' idx' e = grind (arith, moves)

abbrev pub fields : Limit → List Field
fields l = opt_field (varint_field 1) l.duration ++ opt_field (varint_field 2) l.bytes

Takes-duration :
    (v : ℕ) (msg : Limit)
    → IsU32 v
    → Takes step (varint_field 1 v) msg (record msg { duration = some v })
unfolding step
Takes-duration v msg h input idx rest a =
    let e : v % 2 ^ 32 ≡ v = omega arith in
    rw (read_varint_value-At input idx v rest (omega arith) a, e)

Takes-bytes :
    (v : ℕ) (msg : Limit)
    → IsU64 v
    → Takes step (varint_field 2 v) msg (record msg { bytes = some v })
unfolding step
Takes-bytes v msg h input idx rest a = rw (read_varint_value-At input idx v rest h a)

encode-fields : (l : Limit) → encode l ≡ message_bytes (fields l)
unfolding encode
encode-fields l =
    rw
      (
        encode_opt_varint_lem 2 l.bytes _ (omega arith),
        encode_opt_varint_lem 1 l.duration [] (omega arith),
      )
      (simp message_bytes-append)

-- The values are of their types.
abbrev pub IsTyped : Limit → Type 0
IsTyped l = OnSome IsU32 l.duration × OnSome IsU64 l.bytes

Folds-fields : (l : Limit) → IsTyped l → Folds step (fields l) default l
Folds-fields l = go l.duration l.bytes
  where
    go :
        (duration bytes : Option ℕ)
        → OnSome IsU32 duration × OnSome IsU64 bytes
        → Folds step
            (opt_field (varint_field 1) duration ++ opt_field (varint_field 2) bytes)
            default
            (record { duration = duration; bytes = bytes })
    go none none u = stop
    go none (some b) u = more (Takes-bytes b default u.1) stop
    go (some d) none u = more (Takes-duration d default u.0) stop
    go (some d) (some b) u =
        more (Takes-duration d default u.0)
          (more (Takes-bytes b (record default { duration = some d }) u.1) stop)

IsSound-fields : (l : Limit) → IsTyped l → All IsSound (fields l)
IsSound-fields l u =
    All-append IsSound (opt_field (varint_field 1) l.duration) _
      (IsSound-opt_varint 1 l.duration (omega arith) (wide l.duration u.0))
      (IsSound-opt_varint 2 l.bytes (omega arith) u.1)
  where
    wide : (o : Option ℕ) → OnSome IsU32 o → OnSome IsU64 o
    wide none h = tt
    wide (some v) h = omega arith

pub decode-encode : (l : Limit) → IsTyped l → IsU64 (length (encode l)) → decode (encode l) ≡ ok l
unfolding decode
decode-encode l u h =
    let e = encode-fields l in
    rw e (
      decode_fields-Folds step (IsField-All (fields l) (IsSound-fields l u) (rw e at h))
        (Folds-fields l u))
