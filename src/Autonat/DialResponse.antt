-- ===== src/Autonat/DialResponse.antt =====
-- crates/autonat/src/lib.rs: `DialResponse`, its encoding and its decoding.
use mathlib.Core.List.{foldl}
use minip2p.Prelude.{
  ℕ, ◌≡◌, refl, true, List, [], ◌∷◌, ◌++◌, map, ◌&&◌, ◌==◌, if◌then◌else◌, arith, length, All,
  All-append, append_assoc, append-nil, none, some, if_some,
}
use minip2p.Prelude.Bits.{IsU64}
use minip2p.Prelude.Result.{Result, ok, ◌>>=◌}
use minip2p.Varint.{Bytes}
use minip2p.Multistream.Utf8.{is_utf8}
use minip2p.Wire.{
  tag_byte, wire_len, wire_varint, encode_bytes_field, encode_varint_field, read_len_delimited,
  read_varint_value,
}
use minip2p.Wire.Cursor.{read_varint_value-At}
use minip2p.Wire.Fields.{
  Field, varint_field, len_field, message_bytes, message_bytes-append, IsField, IsSound,
  IsField-All, All-IsField_split, Takes, Folds, stop, more, Folds-append,
}
use minip2p.Wire.Encode.{
  encode_varint_field_lem, encode_opt_bytes_lem, encode_repeated_lem, IsSound-repeated,
  IsSound-opt_len, read_len_delimited_body, opt_field, OnSome, OnSome_at, Folds-opt,
}
use minip2p.Wire.Loop.{Advances, moves}
use minip2p.Autonat.Types.{
  ResponseStatus, internal_error, status_to_u64, status_from_u64, DialResponse, AutoNatError,
  autonat_wire_error,
}
use minip2p.Autonat.Types
use minip2p.Autonat.Lossy.{from_utf8_lossy, from_utf8_lossy_text}
use minip2p.Autonat.Reader.{
  skip_field, skip_field_moves, decode_fields, decode_fields-Folds, IsNumbered, IsNumbered-repeated,
  IsNumbered-opt,
}

unfoldable pub encode : DialResponse → Bytes
encode response =
    let out = encode_varint_field [] (tag_byte 1 wire_varint) (status_to_u64 response.status) in
    let out =
      if_some response.status_text (λ text. encode_bytes_field out (tag_byte 2 wire_len) text)
        out in
    foldl (λ out addr. encode_bytes_field out (tag_byte 3 wire_len) addr) out response.addrs

unfoldable pub step :
    Bytes → DialResponse → (field wire_type idx : ℕ) → Result AutoNatError (DialResponse × ℕ)
step input msg field wire_type idx =
    if field == 1 && wire_type == wire_varint
    then (do
      (value, idx') ← read_varint_value input idx
      ok (record msg { status = status_from_u64 value }, idx'))
    else if field == 2 && wire_type == wire_len
    then (do
      (text, idx') ← read_len_delimited input idx
      ok (record msg { status_text = some (from_utf8_lossy text) }, idx'))
    else if field == 3 && wire_type == wire_len
    then (do
      (addr, idx') ← read_len_delimited input idx
      ok (record msg { addrs = msg.addrs ++ (addr ∷ []) }, idx'))
    else do idx' ← skip_field input idx wire_type; ok (msg, idx')

abbrev pub default : DialResponse
default = record { status = internal_error; status_text = none; addrs = [] }

unfoldable pub decode : Bytes → Result AutoNatError DialResponse
decode input = decode_fields step input default

pub step-Advances : Advances step
unfolding step
step-Advances input msg field wire_type idx msg' idx' e = grind (arith, moves, skip_field_moves)

abbrev pub IsText : Bytes → Type 0
IsText s = is_utf8 s ≡ true

abbrev fields : DialResponse → List Field
fields r =
    varint_field 1 (status_to_u64 r.status)
    ∷ (opt_field (len_field 2) r.status_text ++ map (len_field 3) r.addrs)

-- Every status is read back.
pub status-from-to : (s : ResponseStatus) → status_from_u64 (status_to_u64 s) ≡ s
unfolding status_from_u64 status_to_u64
status-from-to Types.ok = refl
status-from-to Types.dial_error = refl
status-from-to Types.dial_refused = refl
status-from-to Types.bad_request = refl
status-from-to internal_error = refl

status_lt : (s : ResponseStatus) → IsU64 (status_to_u64 s)
unfolding status_to_u64
status_lt Types.ok = omega arith
status_lt Types.dial_error = omega arith
status_lt Types.dial_refused = omega arith
status_lt Types.bad_request = omega arith
status_lt internal_error = omega arith

Takes-status :
    (s : ResponseStatus) (msg : DialResponse)
    → Takes step (varint_field 1 (status_to_u64 s)) msg (record msg { status = s })
unfolding step
Takes-status s msg input idx rest a =
    rw
      (
        read_varint_value-At {E = AutoNatError} input idx (status_to_u64 s) rest (status_lt s) a,
        status-from-to s,
      )
      refl

Takes-text :
    (d : Bytes) (msg : DialResponse)
    → IsU64 (length d)
    → IsText d
    → Takes step (len_field 2 d) msg (record msg { status_text = some d })
unfolding step
Takes-text d msg h t input idx rest a =
    rw (read_len_delimited_body input idx d rest h a, from_utf8_lossy_text d t) refl

Takes-addrs :
    (d : Bytes) (msg : DialResponse)
    → IsU64 (length d)
    → Takes step (len_field 3 d) msg (record msg { addrs = msg.addrs ++ (d ∷ []) })
unfolding step
Takes-addrs d msg h input idx rest a = rw (read_len_delimited_body input idx d rest h a)

Folds-addrs :
    (items : List Bytes) (msg : DialResponse)
    → All IsField (map (len_field 3) items)
    → Folds step (map (len_field 3) items) msg (record msg { addrs = msg.addrs ++ items })
Folds-addrs [] msg h = rw append-nil stop
Folds-addrs (d ∷ ds) msg h =
    more (Takes-addrs d msg h.0.1)
      (rw append_assoc at (Folds-addrs ds (record msg { addrs = msg.addrs ++ (d ∷ []) }) h.1))

encode-fields : (r : DialResponse) → encode r ≡ message_bytes (fields r)
unfolding encode
encode-fields r =
    rw
      (
        encode_repeated_lem 3 r.addrs _ (omega arith),
        encode_opt_bytes_lem 2 r.status_text _ (omega arith),
        encode_varint_field_lem [] 1 (status_to_u64 r.status) (omega arith),
      )
      (simp (message_bytes-append, append_assoc))

Folds-fields :
    (r : DialResponse)
    → OnSome IsText r.status_text
    → All IsField (fields r)
    → Folds step (fields r) default r
Folds-fields r u h =
    let (ht, ha) = All-IsField_split (opt_field (len_field 2) r.status_text) _ h.1 in
    more (Takes-status r.status default) (
      Folds-append step
        (Folds-opt step (len_field 2)
          (λ o. record { status = r.status; status_text = o; addrs = [] }) r.status_text ht
          (λ d e f. Takes-text d _ f.1 (OnSome_at IsText r.status_text d u e)))
        (Folds-addrs r.addrs (record { status = r.status; status_text = r.status_text; addrs = [] })
          ha))

IsSound-fields : (r : DialResponse) → All IsSound (fields r)
IsSound-fields r = (
  (omega arith, status_lt r.status),
  All-append IsSound (opt_field (len_field 2) r.status_text) _
      (IsSound-opt_len 2 r.status_text (omega arith)) (IsSound-repeated 3 r.addrs (omega arith)),
)

IsNumbered-fields : (r : DialResponse) → All IsNumbered (fields r)
IsNumbered-fields r = (
  (λ z. absurd (omega arith)),
  All-append IsNumbered (opt_field (len_field 2) r.status_text) _
      (IsNumbered-opt (len_field 2) r.status_text (λ x z. absurd (omega arith)))
      (IsNumbered-repeated 3 r.addrs (λ z. absurd (omega arith))),
)

pub dial_response_decode-encode :
    (r : DialResponse)
    → OnSome IsText r.status_text
    → IsU64 (length (encode r))
    → decode (encode r) ≡ ok r
unfolding decode
dial_response_decode-encode r u h =
    let e = encode-fields r in
    let f = IsField-All (fields r) (IsSound-fields r) (rw e at h) in
    rw e (decode_fields-Folds step f (IsNumbered-fields r) (Folds-fields r u f))
