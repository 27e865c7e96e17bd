-- ===== src/Autonat/Message.antt =====
-- crates/autonat/src/lib.rs: `Message`, its encoding and its decoding.
use minip2p.Prelude.{
  ℕ, ◌≡◌, ◌≢◌, refl, suc, List, [], ◌∷◌, ◌++◌, ◌&&◌, ◌==◌, if◌then◌else◌, arith, length, All,
  All-append, append_assoc, Option, none, some, if_some,
}
use minip2p.Prelude.Bits.{IsU64}
use minip2p.Prelude.Result.{Result, ok, ◌>>=◌, ok_or}
use minip2p.Varint.{Bytes}
use minip2p.Wire.{
  tag_byte, wire_len, wire_varint, encode_bytes_field, encode_varint_field, read_len_delimited,
  read_varint_value,
}
use minip2p.Wire.Cursor.{read_varint_value-At}
use minip2p.Wire.Fields.{
  Field, varint_field, len_field, message_bytes, message_bytes-append, IsField, IsSound,
  IsField-All, All-IsField_split, Takes, Folds, more, Folds-append,
}
use minip2p.Wire.Encode.{
  encode_varint_field_lem, encode_opt_nested_lem, IsSound-opt, read_len_delimited_body, opt_field,
  OnSome, OnSome_at, Folds-opt,
}
use minip2p.Wire.Loop.{Advances, moves}
use minip2p.Autonat.Types.{
  MessageType, dial, dial_response, type_to_u64, type_from_u64, Dial, DialResponse, Message,
  AutoNatError, autonat_wire_error, missing_type, invalid_message_type,
}
use minip2p.Autonat.Dial
use minip2p.Autonat.Dial.{dial_decode-encode}
use minip2p.Autonat.DialResponse
use minip2p.Autonat.DialResponse.{IsText, dial_response_decode-encode}
use minip2p.Autonat.Reader.{
  skip_field, skip_field_moves, run_fields, decode_fields, decode_fields-Folds, decode_fields_total,
  IsNumbered, IsNumbered-opt,
}

unfoldable pub encode : Message → Bytes
encode msg =
    let out = encode_varint_field [] (tag_byte 1 wire_varint) (type_to_u64 msg.kind) in
    let out =
      if_some msg.dial (λ d. encode_bytes_field out (tag_byte 2 wire_len) (Dial.encode d)) out in
    if_some msg.dial_response
      (λ r. encode_bytes_field out (tag_byte 3 wire_len) (DialResponse.encode r)) out

-- The local variables of `decode`.
pub record Parts : Type 0 where
  pub kind : Option MessageType
  pub dial : Option Dial
  pub dial_response : Option DialResponse

abbrev pub nothing : Parts
nothing = record { kind = none; dial = none; dial_response = none }

unfoldable pub step : Bytes → Parts → (field wire_type idx : ℕ) → Result AutoNatError (Parts × ℕ)
step input msg field wire_type idx =
    if field == 1 && wire_type == wire_varint
    then (do
      (value, idx') ← read_varint_value input idx
      kind ← ok_or (type_from_u64 value) (invalid_message_type value)
      ok (record msg { kind = some kind }, idx'))
    else if field == 2 && wire_type == wire_len
    then (do
      (body, idx') ← read_len_delimited input idx
      d ← Dial.decode body
      ok (record msg { dial = some d }, idx'))
    else if field == 3 && wire_type == wire_len
    then (do
      (body, idx') ← read_len_delimited input idx
      r ← DialResponse.decode body
      ok (record msg { dial_response = some r }, idx'))
    else do idx' ← skip_field input idx wire_type; ok (msg, idx')

unfoldable pub decode : Bytes → Result AutoNatError Message
decode input = do
  msg ← decode_fields step input nothing
  kind ← ok_or msg.kind missing_type
  ok (record { kind = kind; dial = msg.dial; dial_response = msg.dial_response })

-- The text of a response is a text.
abbrev pub HasText : DialResponse → Type 0
HasText r = OnSome IsText r.status_text

abbrev dial_field : Dial → Field
dial_field d = len_field 2 (Dial.encode d)

abbrev response_field : DialResponse → Field
response_field r = len_field 3 (DialResponse.encode r)

abbrev fields : Message → List Field
fields msg =
    varint_field 1 (type_to_u64 msg.kind)
    ∷ (opt_field dial_field msg.dial ++ opt_field response_field msg.dial_response)

type-from-to : (k : MessageType) → type_from_u64 (type_to_u64 k) ≡ some k
unfolding type_from_u64 type_to_u64
type-from-to dial = refl
type-from-to dial_response = refl

type_lt : (k : MessageType) → IsU64 (type_to_u64 k)
unfolding type_to_u64
type_lt dial = omega arith
type_lt dial_response = omega arith

Takes-kind :
    (k : MessageType) (msg : Parts)
    → Takes step (varint_field 1 (type_to_u64 k)) msg (record msg { kind = some k })
unfolding step
Takes-kind k msg input idx rest a =
    rw
      (
        read_varint_value-At {E = AutoNatError} input idx (type_to_u64 k) rest (type_lt k) a,
        type-from-to k,
      )
      refl

Takes-dial :
    (d : Dial) (msg : Parts)
    → IsU64 (length (Dial.encode d))
    → Takes step (dial_field d) msg (record msg { dial = some d })
unfolding step
Takes-dial d msg h input idx rest a =
    rw (read_len_delimited_body input idx (Dial.encode d) rest h a, dial_decode-encode d h) refl

Takes-response :
    (r : DialResponse) (msg : Parts)
    → HasText r
    → IsU64 (length (DialResponse.encode r))
    → Takes step (response_field r) msg (record msg { dial_response = some r })
unfolding step
Takes-response r msg u h input idx rest a =
    rw
      (
        read_len_delimited_body input idx (DialResponse.encode r) rest h a,
        dial_response_decode-encode r u h,
      )
      refl

encode-fields : (msg : Message) → encode msg ≡ message_bytes (fields msg)
unfolding encode
encode-fields msg =
    rw
      (
        encode_opt_nested_lem DialResponse.encode 3 msg.dial_response _ (omega arith),
        encode_opt_nested_lem Dial.encode 2 msg.dial _ (omega arith),
        encode_varint_field_lem [] 1 (type_to_u64 msg.kind) (omega arith),
      )
      (simp (message_bytes-append, append_assoc))

abbrev parts : Message → Parts
parts msg = record { kind = some msg.kind; dial = msg.dial; dial_response = msg.dial_response }

Folds-fields :
    (msg : Message)
    → OnSome HasText msg.dial_response
    → All IsField (fields msg)
    → Folds step (fields msg) nothing (parts msg)
Folds-fields msg u h =
    let (hd, hr) = All-IsField_split (opt_field dial_field msg.dial) _ h.1 in
    more (Takes-kind msg.kind nothing) (
      Folds-append step
        (Folds-opt step dial_field
          (λ o. record { kind = some msg.kind; dial = o; dial_response = none }) msg.dial hd
          (λ d _ f. Takes-dial d _ f.1))
        (Folds-opt step response_field
          (λ o. record { kind = some msg.kind; dial = msg.dial; dial_response = o })
          msg.dial_response hr
          (λ r e f. Takes-response r _ (OnSome_at HasText msg.dial_response r u e) f.1)))

IsSound-fields : (msg : Message) → All IsSound (fields msg)
IsSound-fields msg = (
  (omega arith, type_lt msg.kind),
  All-append IsSound (opt_field dial_field msg.dial) _
      (IsSound-opt dial_field msg.dial (λ x. (omega arith, tt)))
      (IsSound-opt response_field msg.dial_response (λ x. (omega arith, tt))),
)

IsNumbered-fields : (msg : Message) → All IsNumbered (fields msg)
IsNumbered-fields msg = (
  (λ z. absurd (omega arith)),
  All-append IsNumbered (opt_field dial_field msg.dial) _
      (IsNumbered-opt dial_field msg.dial (λ x z. absurd (omega arith)))
      (IsNumbered-opt response_field msg.dial_response (λ x z. absurd (omega arith))),
)

-- `Message::decode` reads back every message that `encode` wrote, when the text of its response is UTF-8
-- and the length of the encoding fits 64 bits.
pub autonat_decode-encode :
    (msg : Message)
    → OnSome HasText msg.dial_response
    → IsU64 (length (encode msg))
    → decode (encode msg) ≡ ok msg
unfolding decode
autonat_decode-encode msg u h =
    let e = encode-fields msg in
    let f = IsField-All (fields msg) (IsSound-fields msg) (rw e at h) in
    rw (e, decode_fields-Folds step f (IsNumbered-fields msg) (Folds-fields msg u f)) refl

step-Advances : Advances step
unfolding step
step-Advances input msg field wire_type idx msg' idx' e = grind (arith, moves, skip_field_moves)

-- The loop of `Message::decode` ends on every input.
autonat_decode_total : (input : Bytes) → run_fields step (suc (length input)) input 0 nothing ≢ none
autonat_decode_total input = decode_fields_total step input nothing step-Advances
