-- ===== src/Dcutr/HolePunch.antt =====
-- crates/dcutr/src/message.rs: `HolePunch`, its encoding and its decoding. The source writes the
-- field helpers of Wire inline; its frames are those of Frame.
use mathlib.Core.List.{foldl}
use minip2p.Prelude.{
  ℕ, suc, ◌<◌, ◌^◌, ◌≡◌, ◌≢◌, refl, ◌∙◌, List, [], ◌∷◌, ◌++◌, map, ◌&&◌, ◌==◌, if◌then◌else◌, arith,
  length, All, append_assoc, append-nil, Option, none, some,
}
use minip2p.Prelude.Bits.{IsU64}
use minip2p.Prelude.Result.{Result, ok, ◌>>=◌, ok_or}
use minip2p.Varint.{Bytes, VarintError}
use minip2p.Wire.{
  WireError, tag_byte, wire_varint, wire_len, encode_varint_field, encode_bytes_field,
  read_varint_value, read_len_delimited, skip_unknown_field, run_fields, decode_fields,
}
use minip2p.Wire.Cursor.{read_varint_value-At}
use minip2p.Wire.Fields.{
  Field, varint_field, len_field, message_bytes, IsField, IsSound, IsField-All, Takes, Folds, stop,
  more, decode_fields-Folds,
}
use minip2p.Wire.Encode.{
  encode_varint_field_lem, encode_repeated_lem, IsSound-repeated, read_len_delimited_body,
}
use minip2p.Wire.Loop.{Advances, moves, decode_fields_total}

pub data HolePunchType : Type 0 where
  connect sync : HolePunchType

-- `self.kind as u64`
unfoldable pub type_to_u64 : HolePunchType → ℕ
type_to_u64 connect = 100
type_to_u64 sync = 300

unfoldable pub type_from_u64 : ℕ → Option HolePunchType
type_from_u64 value =
    if value == 100 then some connect else if value == 300 then some sync else none

pub record HolePunch : Type 0 where
  pub kind : HolePunchType
  pub obs_addrs : List Bytes

pub data DcutrMessageError : Type 0 where
  varint : VarintError → DcutrMessageError
  field_overflow : (offset len remaining : ℕ) → DcutrMessageError
  unsupported_wire_type : (wire_type offset : ℕ) → DcutrMessageError
  missing_type : DcutrMessageError
  invalid_type : (value : ℕ) → DcutrMessageError

instance abbrev pub dcutr_wire_error : WireError DcutrMessageError
dcutr_wire_error = record {
  varint = varint;
  field_overflow = field_overflow;
  unsupported_wire_type = unsupported_wire_type;
}

unfoldable pub encode : HolePunch → Bytes
encode msg =
    let out = encode_varint_field [] (tag_byte 1 wire_varint) (type_to_u64 msg.kind) in
    foldl (λ out addr. encode_bytes_field out (tag_byte 2 wire_len) addr) out msg.obs_addrs

-- The local variables of `decode`.
pub record Parts : Type 0 where
  pub kind : Option HolePunchType
  pub obs_addrs : List Bytes

abbrev pub nothing : Parts
nothing = record { kind = none; obs_addrs = [] }

unfoldable pub step :
    Bytes → Parts → (field wire_type idx : ℕ) → Result DcutrMessageError (Parts × ℕ)
step input msg field wire_type idx =
    if field == 1 && wire_type == wire_varint
    then (do
      (value, idx') ← read_varint_value input idx
      kind ← ok_or (type_from_u64 value) (invalid_type value)
      ok (record msg { kind = some kind }, idx'))
    else if field == 2 && wire_type == wire_len
    then (do
      (addr, idx') ← read_len_delimited input idx
      ok (record msg { obs_addrs = msg.obs_addrs ++ (addr ∷ []) }, idx'))
    else do idx' ← skip_unknown_field input idx wire_type; ok (msg, idx')

unfoldable pub decode : Bytes → Result DcutrMessageError HolePunch
unfolding step
decode input = do
  msg ← decode_fields step input nothing
  kind ← ok_or msg.kind missing_type
  ok (record { kind = kind; obs_addrs = msg.obs_addrs })

step-Advances : Advances step
unfolding step
step-Advances input msg field wire_type idx msg' idx' e = grind (arith, moves)

type_from-to : (t : HolePunchType) → type_from_u64 (type_to_u64 t) ≡ some t
unfolding type_from_u64 type_to_u64
type_from-to connect = refl
type_from-to sync = refl

type_lt : (t : HolePunchType) → type_to_u64 t < 2 ^ 64
unfolding type_to_u64
type_lt connect = omega arith
type_lt sync = omega arith

abbrev kind_field : HolePunchType → Field
kind_field t = varint_field 1 (type_to_u64 t)

abbrev fields : HolePunch → List Field
fields msg = kind_field msg.kind ∷ map (len_field 2) msg.obs_addrs

Takes-kind :
    (t : HolePunchType) → Takes step (kind_field t) nothing (record nothing { kind = some t })
unfolding step
Takes-kind t input idx rest a =
    rw (read_varint_value-At input idx (type_to_u64 t) rest (type_lt t) a, type_from-to t)

Takes-addrs :
    (d : Bytes) (msg : Parts)
    → IsU64 (length d)
    → Takes step (len_field 2 d) msg (record msg { obs_addrs = msg.obs_addrs ++ (d ∷ []) })
unfolding step
Takes-addrs d msg h input idx rest a = rw (read_len_delimited_body input idx d rest h a)

Folds-addrs :
    (items : List Bytes) (msg : Parts)
    → All IsField (map (len_field 2) items)
    → Folds step (map (len_field 2) items) msg (record msg { obs_addrs = msg.obs_addrs ++ items })
Folds-addrs [] msg h = rw append-nil stop
Folds-addrs (d ∷ ds) msg h =
    more (Takes-addrs d msg h.0.1) (
      rw append_assoc at
        (Folds-addrs ds (record msg { obs_addrs = msg.obs_addrs ++ (d ∷ []) }) h.1))

encode-fields : (msg : HolePunch) → encode msg ≡ message_bytes (fields msg)
unfolding encode
encode-fields msg =
    encode_repeated_lem 2 msg.obs_addrs _ (omega arith)
    ∙ rw (encode_varint_field_lem [] 1 (type_to_u64 msg.kind) (omega arith)) refl

-- `HolePunch::decode` reads back every message that `encode` wrote, when the length of the encoding
-- fits 64 bits.
pub punch_decode-encode :
    (msg : HolePunch) → IsU64 (length (encode msg)) → decode (encode msg) ≡ ok msg
unfolding decode
punch_decode-encode msg h =
    let e = encode-fields msg in
    let sound : All IsSound (fields msg) =
      ((omega arith, type_lt msg.kind), IsSound-repeated 2 msg.obs_addrs (omega arith)) in
    let f = IsField-All (fields msg) sound (rw e at h) in
    rw (
      e,
      decode_fields-Folds step f (
          more (Takes-kind msg.kind)
            (Folds-addrs msg.obs_addrs (record nothing { kind = some msg.kind }) f.1)),
    )

-- On every input the loop of `decode` ends: its fuel, one round a byte, never runs out.
pub punch_decode_total :
    (input : Bytes) → run_fields step (suc (length input)) input 0 nothing ≢ none
punch_decode_total input = decode_fields_total step input nothing step-Advances
