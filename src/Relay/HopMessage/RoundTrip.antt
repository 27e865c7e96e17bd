-- ===== src/Relay/HopMessage/RoundTrip.antt =====
-- `HopMessage::decode` after `HopMessage::encode`.
use minip2p.Prelude.{◌≡◌, List, [], ◌∷◌, ◌++◌, arith, some, append_assoc, length, All, All-append}
use minip2p.Prelude.Bits.{IsU64}
use minip2p.Prelude.Result.{ok}
use minip2p.Wire.Cursor.{read_varint_value-At}
use minip2p.Wire.Fields.{
  Field, len_field, varint_field, message_bytes, message_bytes-append, IsField, IsSound,
  IsField-All, Takes, Folds, more, Folds-append, decode_fields-Folds, All-IsField_split,
}
use minip2p.Wire.Encode.{
  encode_varint_field_lem, read_len_delimited_body, encode_opt_nested_lem, encode_opt_number_lem,
  opt_field, OnSome, IsSound-opt, Folds-opt, OnSome_at,
}
use minip2p.Relay.Codes.{
  relay_wire_error, HopMessageType, hop_type_to_u64, hop_type_from-to, hop_type_lt, Status,
  status_to_u64, status_from-to, status_lt,
}
use minip2p.Relay.Peer
use minip2p.Relay.Peer.{Peer}
use minip2p.Relay.Reservation
use minip2p.Relay.Reservation.{Reservation}
use minip2p.Relay.Limit
use minip2p.Relay.Limit.{Limit}
use minip2p.Relay.HopMessage.{HopMessage, Parts, nothing, encode, step, decode}

-- The values are of their machine types.
abbrev pub IsTyped : HopMessage → Type 0
IsTyped msg =
    OnSome (λ (r : Reservation). OnSome IsU64 r.expire) msg.reservation
    × OnSome Limit.IsTyped msg.limit

abbrev pub kind_field : HopMessageType → Field
kind_field t = varint_field 1 (hop_type_to_u64 t)

abbrev pub peer_field : Peer → Field
peer_field p = len_field 2 (Peer.encode p)

abbrev pub reservation_field : Reservation → Field
reservation_field r = len_field 3 (Reservation.encode r)

abbrev pub limit_field : Limit → Field
limit_field l = len_field 4 (Limit.encode l)

abbrev pub status_field : Status → Field
status_field s = varint_field 5 (status_to_u64 s)

abbrev pub fields : HopMessage → List Field
fields msg =
    kind_field msg.kind
    ∷ (opt_field peer_field msg.peer
        ++ (opt_field reservation_field msg.reservation
            ++ (opt_field limit_field msg.limit ++ opt_field status_field msg.status)))

Takes-kind :
    (t : HopMessageType) → Takes step (kind_field t) nothing (record nothing { kind = some t })
unfolding step
Takes-kind t input idx rest a =
    rw (
      read_varint_value-At input idx (hop_type_to_u64 t) rest (hop_type_lt t) a,
      hop_type_from-to t,
    )

Takes-peer :
    (p : Peer) (msg : Parts)
    → IsU64 (length (Peer.encode p))
    → Takes step (peer_field p) msg (record msg { peer = some p })
unfolding step
Takes-peer p msg h input idx rest a =
    rw (read_len_delimited_body input idx (Peer.encode p) rest h a, Peer.decode-encode p h)

Takes-reservation :
    (r : Reservation) (msg : Parts)
    → OnSome IsU64 r.expire
    → IsU64 (length (Reservation.encode r))
    → Takes step (reservation_field r) msg (record msg { reservation = some r })
unfolding step
Takes-reservation r msg u h input idx rest a = rw (
  read_len_delimited_body input idx (Reservation.encode r) rest h a,
  Reservation.decode-encode r u h,
)

Takes-limit :
    (l : Limit) (msg : Parts)
    → Limit.IsTyped l
    → IsU64 (length (Limit.encode l))
    → Takes step (limit_field l) msg (record msg { limit = some l })
unfolding step
Takes-limit l msg u h input idx rest a =
    rw (read_len_delimited_body input idx (Limit.encode l) rest h a, Limit.decode-encode l u h)

Takes-status :
    (s : Status) (msg : Parts) → Takes step (status_field s) msg (record msg { status = some s })
unfolding step
Takes-status s msg input idx rest a =
    rw (read_varint_value-At input idx (status_to_u64 s) rest (status_lt s) a, status_from-to s)

pub encode-fields : (msg : HopMessage) → encode msg ≡ message_bytes (fields msg)
unfolding encode
encode-fields msg =
    rw
      (
        encode_opt_number_lem status_to_u64 5 msg.status _ (omega arith),
        encode_opt_nested_lem Limit.encode 4 msg.limit _ (omega arith),
        encode_opt_nested_lem Reservation.encode 3 msg.reservation _ (omega arith),
        encode_opt_nested_lem Peer.encode 2 msg.peer _ (omega arith),
        encode_varint_field_lem [] 1 (hop_type_to_u64 msg.kind) (omega arith),
      )
      (simp (message_bytes-append, append_assoc))

pub IsSound-fields : (msg : HopMessage) → All IsSound (fields msg)
IsSound-fields msg =
    let status_ok = IsSound-opt status_field msg.status (λ s. (omega arith, status_lt s)) in
    let limit_ok = IsSound-opt limit_field msg.limit (λ l. (omega arith, tt)) in
    let reservation_ok = IsSound-opt reservation_field msg.reservation (λ r. (omega arith, tt)) in
    let peer_ok = IsSound-opt peer_field msg.peer (λ p. (omega arith, tt)) in
    (
      (omega arith, hop_type_lt msg.kind),
      All-append IsSound _ _ peer_ok
          (All-append IsSound _ _ reservation_ok (All-append IsSound _ _ limit_ok status_ok)),
    )

-- The local variables of `decode` at its end.
abbrev pub all_parts : HopMessage → Parts
all_parts msg = record {
  kind = some msg.kind;
  peer = msg.peer;
  reservation = msg.reservation;
  limit = msg.limit;
  status = msg.status;
}

pub Folds-fields :
    (msg : HopMessage)
    → IsTyped msg
    → All IsField (fields msg)
    → Folds step (fields msg) nothing (all_parts msg)
Folds-fields msg u h =
    let s0 = record nothing { kind = some msg.kind } in
    let s1 = record s0 { peer = msg.peer } in
    let s2 = record s1 { reservation = msg.reservation } in
    let s3 = record s2 { limit = msg.limit } in
    let h1 = All-IsField_split (opt_field peer_field msg.peer) _ h.1 in
    let h2 = All-IsField_split (opt_field reservation_field msg.reservation) _ h1.1 in
    let h3 = All-IsField_split (opt_field limit_field msg.limit) _ h2.1 in
    more (Takes-kind msg.kind) (
      Folds-append step
        (Folds-opt step peer_field (λ p. record s0 { peer = p }) msg.peer h1.0
          (λ p e f. Takes-peer p s0 f.1))
        (Folds-append step
          (Folds-opt step reservation_field (λ r. record s1 { reservation = r }) msg.reservation
            h2.0 (λ r e f. Takes-reservation r s1 (OnSome_at _ msg.reservation r u.0 e) f.1))
          (Folds-append step
            (Folds-opt step limit_field (λ l. record s2 { limit = l }) msg.limit h3.0
              (λ l e f. Takes-limit l s2 (OnSome_at _ msg.limit l u.1 e) f.1))
            (Folds-opt step status_field (λ s. record s3 { status = s }) msg.status h3.1
              (λ s e f. Takes-status s s3)))))

-- `HopMessage::decode` reads back every message that `encode` wrote, nested messages included,
-- when its numbers are of their machine types and the encoding's length fits 64 bits.
pub hop_decode-encode :
    (msg : HopMessage) → IsTyped msg → IsU64 (length (encode msg)) → decode (encode msg) ≡ ok msg
unfolding decode
hop_decode-encode msg u h =
    let e = encode-fields msg in
    let f = IsField-All (fields msg) (IsSound-fields msg) (rw e at h) in
    rw (e, decode_fields-Folds step f (Folds-fields msg u f))
