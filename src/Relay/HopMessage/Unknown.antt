-- ===== src/Relay/HopMessage/Unknown.antt =====
-- `HopMessage::decode` on foreign fields, on a message with no type, and on any input at all.
use minip2p.Prelude.{
  ◌<◌, ◌≡◌, ◌≢◌, suc, List, ◌++◌, arith, none, append_assoc, length, All, All-append,
}
use minip2p.Prelude.Bits.{IsU64}
use minip2p.Prelude.Result.{ok, err}
use minip2p.Varint.{Bytes}
use minip2p.Wire.{run_fields}
use minip2p.Wire.Loop.{decode_fields_total}
use minip2p.Wire.Fields.{
  Field, number_of, message_bytes, message_bytes-append, IsField, IsField-All, Takes, Folds-append,
  decode_fields-Folds,
}
use minip2p.Wire.Encode.{skip_unknown_field_body, Folds-same}
use minip2p.Relay.Codes.{RelayMessageError, relay_wire_error, missing_type}
use minip2p.Relay.HopMessage.{HopMessage, Parts, nothing, encode, step, decode, step-Advances}
use minip2p.Relay.HopMessage.RoundTrip.{
  IsTyped, fields, encode-fields, IsSound-fields, Folds-fields, all_parts,
}

-- A field with a number that the message does not have.
abbrev pub IsForeign : Field → Type 0
IsForeign f = 5 < number_of f

Takes-foreign : (f : Field) (msg : Parts) → IsForeign f → IsField f → Takes step f msg msg
unfolding step
Takes-foreign f msg u h input idx rest a =
    ground (arith, skip_unknown_field_body {E = RelayMessageError} input idx f rest h a)

-- Fields with numbers above 5, of any supported wire type, in front of a message and behind it
-- change nothing in what `decode` returns.
pub hop_decode_foreign :
    (msg : HopMessage) (front back : List Field)
    → IsTyped msg
    → IsU64 (length (encode msg))
    → All IsForeign front × All IsField front
    → All IsForeign back × All IsField back
    → decode (message_bytes front ++ (encode msg ++ message_bytes back)) ≡ ok msg
unfolding decode
hop_decode_foreign msg front back u h hf hb =
    let e = encode-fields msg in
    let f = IsField-All (fields msg) (IsSound-fields msg) (rw e at h) in
    let bytes : message_bytes front ++ (encode msg ++ message_bytes back)
        ≡ message_bytes (front ++ (fields msg ++ back)) =
      rw e (simp (message_bytes-append, append_assoc)) in
    let folds =
      Folds-append step
        (Folds-same step IsForeign front nothing (λ f u v. Takes-foreign f nothing u v) hf.0 hf.1)
        (Folds-append step (Folds-fields msg u f) (
          Folds-same step IsForeign back (all_parts msg)
            (λ f u v. Takes-foreign f (all_parts msg) u v) hb.0 hb.1)) in
    rw (
      bytes,
      decode_fields-Folds step
          (All-append IsField front _ hf.1 (All-append IsField (fields msg) _ f hb.1)) folds,
    )

-- A message of foreign fields alone, the empty message among them, has no type and is refused.
pub hop_decode_untyped :
    (fs : List Field)
    → All IsForeign fs
    → All IsField fs
    → decode (message_bytes fs) ≡ err missing_type
unfolding decode
hop_decode_untyped fs u h = rw (
    decode_fields-Folds step h
      (Folds-same step IsForeign fs nothing (λ f u v. Takes-foreign f nothing u v) u h))

-- On every input the loop of `decode` ends: its fuel, one round a byte, never runs out.
pub hop_decode_total : (input : Bytes) → run_fields step (suc (length input)) input 0 nothing ≢ none
hop_decode_total input = decode_fields_total step input nothing step-Advances
