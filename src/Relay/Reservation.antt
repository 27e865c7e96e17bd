-- ===== src/Relay/Reservation.antt =====
-- crates/relay/src/message.rs: `Reservation`, its encoding and its decoding.
use mathlib.Core.List.{foldl}
use minip2p.Prelude.{
  ℕ, ◌≡◌, refl, List, [], ◌∷◌, ◌++◌, map, ◌&&◌, ◌==◌, if◌then◌else◌, arith, length, All, All-append,
  append_assoc, append-nil, Option, none, some, if_some,
}
use minip2p.Prelude.Bits.{IsU64}
use minip2p.Prelude.Result.{Result, ok, ◌>>=◌}
use minip2p.Varint.{Bytes}
use minip2p.Wire.{
  tag_byte, wire_len, wire_varint, encode_bytes_field, encode_varint_field, read_len_delimited,
  read_varint_value, skip_unknown_field, decode_fields,
}
use minip2p.Wire.Cursor.{read_varint_value-At}
use minip2p.Wire.Fields.{
  Field, len_field, varint_field, message_bytes, message_bytes-append, IsField, IsSound,
  IsField-All, Takes, Folds, stop, more, decode_fields-Folds,
}
use minip2p.Wire.Encode.{
  encode_repeated_lem, IsSound-repeated, read_len_delimited_body, encode_opt_bytes_lem,
  encode_opt_varint_lem, opt_field, OnSome, IsSound-opt_len, IsSound-opt_varint,
}
use minip2p.Wire.Loop.{Advances, moves}
use minip2p.Relay.Codes.{RelayMessageError, relay_wire_error}

pub record Reservation : Type 0 where
  pub expire : Option ℕ
  pub addrs : List Bytes
  pub voucher : Option Bytes

abbrev pub default : Reservation
default = record { expire = none; addrs = []; voucher = none }

unfoldable pub encode : Reservation → Bytes
encode r =
    let out =
      if_some r.expire (λ expire. encode_varint_field [] (tag_byte 1 wire_varint) expire) [] in
    let out = foldl (λ out addr. encode_bytes_field out (tag_byte 2 wire_len) addr) out r.addrs in
    if_some r.voucher (λ voucher. encode_bytes_field out (tag_byte 3 wire_len) voucher) out

unfoldable pub step :
    Bytes → Reservation → (field wire_type idx : ℕ) → Result RelayMessageError (Reservation × ℕ)
step input msg field wire_type idx =
    if field == 1 && wire_type == wire_varint
    then (do
      (expire, idx') ← read_varint_value input idx
      ok (record msg { expire = some expire }, idx'))
    else if field == 2 && wire_type == wire_len
    then (do
      (addr, idx') ← read_len_delimited input idx
      ok (record msg { addrs = msg.addrs ++ (addr ∷ []) }, idx'))
    else if field == 3 && wire_type == wire_len
    then (do
      (voucher, idx') ← read_len_delimited input idx
      ok (record msg { voucher = some voucher }, idx'))
    else do idx' ← skip_unknown_field input idx wire_type; ok (msg, idx')

unfoldable pub decode : Bytes → Result RelayMessageError Reservation
unfolding step
decode input = decode_fields step input default

pub step-Advances : Advances step
unfolding step
step-Advances input msg field wire_type idx msg' idx' e = grind (arith, moves)

abbrev pub fields : Reservation → List Field
fields r =
    opt_field (varint_field 1) r.expire
    ++ (map (len_field 2) r.addrs ++ opt_field (len_field 3) r.voucher)

Takes-expire :
    (v : ℕ) (msg : Reservation)
    → IsU64 v
    → Takes step (varint_field 1 v) msg (record msg { expire = some v })
unfolding step
Takes-expire v msg h input idx rest a = rw (read_varint_value-At input idx v rest h a)

Takes-addrs :
    (d : Bytes) (msg : Reservation)
    → IsU64 (length d)
    → Takes step (len_field 2 d) msg (record msg { addrs = msg.addrs ++ (d ∷ []) })
unfolding step
Takes-addrs d msg h input idx rest a = rw (read_len_delimited_body input idx d rest h a)

Takes-voucher :
    (d : Bytes) (msg : Reservation)
    → IsU64 (length d)
    → Takes step (len_field 3 d) msg (record msg { voucher = some d })
unfolding step
Takes-voucher d msg h input idx rest a = rw (read_len_delimited_body input idx d rest h a)

Folds-rest :
    (items : List Bytes) (voucher : Option Bytes) (msg : Reservation)
    → msg.voucher ≡ none
    → All IsField (map (len_field 2) items ++ opt_field (len_field 3) voucher)
    → Folds step
        (map (len_field 2) items ++ opt_field (len_field 3) voucher)
        msg
        (record msg { addrs = msg.addrs ++ items; voucher = voucher })
Folds-rest [] none msg n h = rw (append-nil msg.addrs, ← n) stop
Folds-rest [] (some d) msg n h = rw (append-nil msg.addrs) (more (Takes-voucher d msg h.0.1) stop)
Folds-rest (d ∷ ds) voucher msg n h = more (Takes-addrs d msg h.0.1) (
    rw append_assoc at (Folds-rest ds voucher (record msg { addrs = msg.addrs ++ (d ∷ []) }) n h.1))

encode-fields : (r : Reservation) → encode r ≡ message_bytes (fields r)
unfolding encode
encode-fields r =
    rw
      (
        encode_opt_bytes_lem 3 r.voucher _ (omega arith),
        encode_repeated_lem 2 r.addrs _ (omega arith),
        encode_opt_varint_lem 1 r.expire [] (omega arith),
      )
      (simp (message_bytes-append, append_assoc))

IsSound-fields : (r : Reservation) → OnSome IsU64 r.expire → All IsSound (fields r)
IsSound-fields r h =
    All-append IsSound (opt_field (varint_field 1) r.expire) _
      (IsSound-opt_varint 1 r.expire (omega arith) h)
      (All-append IsSound (map (len_field 2) r.addrs) _ (IsSound-repeated 2 r.addrs (omega arith))
        (IsSound-opt_len 3 r.voucher (omega arith)))

Folds-fields : (r : Reservation) → All IsField (fields r) → Folds step (fields r) default r
Folds-fields r = go r.expire
  where
    go :
        (expire : Option ℕ)
        → All IsField (fields (record r { expire = expire }))
        → Folds step (fields (record r { expire = expire })) default (record r { expire = expire })
    go none h = Folds-rest r.addrs r.voucher default refl h
    go (some v) h =
        more (Takes-expire v default h.0.1)
          (Folds-rest r.addrs r.voucher (record default { expire = some v }) refl h.1)

-- The expiry is a `u64`.
pub decode-encode :
    (r : Reservation) → OnSome IsU64 r.expire → IsU64 (length (encode r)) → decode (encode r) ≡ ok r
unfolding decode
decode-encode r u h =
    let e = encode-fields r in
    let f = IsField-All (fields r) (IsSound-fields r u) (rw e at h) in
    rw e (decode_fields-Folds step f (Folds-fields r f))
