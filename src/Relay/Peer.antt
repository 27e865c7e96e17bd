-- ===== src/Relay/Peer.antt =====
-- crates/relay/src/message.rs: `Peer`, its encoding and its decoding.
use mathlib.Core.List.{foldl}
use minip2p.Prelude.{
  ℕ, ◌≡◌, refl, ◌∙◌, List, [], ◌∷◌, ◌++◌, map, Bool, ◌&&◌, ◌==◌, if◌then◌else◌, arith, length, All,
  append_assoc, append-nil, true, false,
}
use minip2p.Prelude.Bits.{IsU64}
use minip2p.Prelude.Result.{Result, ok, ◌>>=◌}
use minip2p.Varint.{Bytes}
use minip2p.Wire.{
  tag_byte, wire_len, encode_bytes_field, read_len_delimited, skip_unknown_field, decode_fields,
}
use minip2p.Wire.Fields.{
  Field, len_field, message_bytes, IsField, IsSound, IsField-All, Takes, Folds, stop, more,
  decode_fields-Folds,
}
use minip2p.Wire.Encode.{
  encode_bytes_field_lem, encode_repeated_lem, IsSound-repeated, read_len_delimited_body,
}
use minip2p.Wire.Loop.{Advances, moves}
use minip2p.Relay.Codes.{RelayMessageError, relay_wire_error}

pub record Peer : Type 0 where
  pub id : Bytes
  pub addrs : List Bytes

abbrev pub default : Peer
default = record { id = []; addrs = [] }

is_empty : Bytes → Bool
is_empty [] = true
is_empty (b ∷ bs) = false

unfoldable pub encode : Peer → Bytes
unfolding is_empty
encode p =
    let out = if is_empty p.id then [] else encode_bytes_field [] (tag_byte 1 wire_len) p.id in
    foldl (λ out addr. encode_bytes_field out (tag_byte 2 wire_len) addr) out p.addrs

unfoldable pub step : Bytes → Peer → (field wire_type idx : ℕ) → Result RelayMessageError (Peer × ℕ)
step input msg field wire_type idx =
    if field == 1 && wire_type == wire_len
    then (do (id, idx') ← read_len_delimited input idx; ok (record msg { id = id }, idx'))
    else if field == 2 && wire_type == wire_len
    then (do
      (addr, idx') ← read_len_delimited input idx
      ok (record msg { addrs = msg.addrs ++ (addr ∷ []) }, idx'))
    else do idx' ← skip_unknown_field input idx wire_type; ok (msg, idx')

unfoldable pub decode : Bytes → Result RelayMessageError Peer
unfolding step
decode input = decode_fields step input default

pub step-Advances : Advances step
unfolding step
step-Advances input msg field wire_type idx msg' idx' e = grind (arith, moves)

abbrev id_fields : Bytes → List Field
id_fields [] = []
id_fields (b ∷ bs) = len_field 1 (b ∷ bs) ∷ []

abbrev pub fields : Peer → List Field
fields p = id_fields p.id ++ map (len_field 2) p.addrs

Takes-id :
    (d : Bytes) (msg : Peer)
    → IsU64 (length d)
    → Takes step (len_field 1 d) msg (record msg { id = d })
unfolding step
Takes-id d msg h input idx rest a = rw (read_len_delimited_body input idx d rest h a)

Takes-addrs :
    (d : Bytes) (msg : Peer)
    → IsU64 (length d)
    → Takes step (len_field 2 d) msg (record msg { addrs = msg.addrs ++ (d ∷ []) })
unfolding step
Takes-addrs d msg h input idx rest a = rw (read_len_delimited_body input idx d rest h a)

Folds-addrs :
    (items : List Bytes) (msg : Peer)
    → All IsField (map (len_field 2) items)
    → Folds step (map (len_field 2) items) msg (record msg { addrs = msg.addrs ++ items })
Folds-addrs [] msg h = rw append-nil stop
Folds-addrs (d ∷ ds) msg h =
    more (Takes-addrs d msg h.0.1)
      (rw append_assoc at (Folds-addrs ds (record msg { addrs = msg.addrs ++ (d ∷ []) }) h.1))

-- The encoding is the list of fields.
encode-fields : (p : Peer) → encode p ≡ message_bytes (fields p)
unfolding encode
encode-fields p = go p.id
  where
    go :
        (id : Bytes)
        → encode (record { id = id; addrs = p.addrs })
          ≡ message_bytes (id_fields id ++ map (len_field 2) p.addrs)
    go [] = encode_repeated_lem 2 p.addrs [] (omega arith)
    go (b ∷ bs) =
        encode_repeated_lem 2 p.addrs _ (omega arith)
        ∙ rw (encode_bytes_field_lem [] 1 (b ∷ bs) (omega arith)) refl

IsSound-fields : (p : Peer) → All IsSound (fields p)
IsSound-fields p = go p.id
  where
    go : (id : Bytes) → All IsSound (id_fields id ++ map (len_field 2) p.addrs)
    go [] = IsSound-repeated 2 p.addrs (omega arith)
    go (b ∷ bs) = ((omega arith, tt), IsSound-repeated 2 p.addrs (omega arith))

Folds-fields : (p : Peer) → All IsField (fields p) → Folds step (fields p) default p
Folds-fields p = go p.id
  where
    go :
        (id : Bytes)
        → All IsField (id_fields id ++ map (len_field 2) p.addrs)
        → Folds step
            (id_fields id ++ map (len_field 2) p.addrs)
            default
            (record { id = id; addrs = p.addrs })
    go [] h = Folds-addrs p.addrs default h
    go (b ∷ bs) h =
        more (Takes-id (b ∷ bs) default h.0.1)
          (Folds-addrs p.addrs (record { id = b ∷ bs; addrs = [] }) h.1)

pub decode-encode : (p : Peer) → IsU64 (length (encode p)) → decode (encode p) ≡ ok p
unfolding decode
decode-encode p h =
    let e = encode-fields p in
    let f = IsField-All (fields p) (IsSound-fields p) (rw e at h) in
    rw e (decode_fields-Folds step f (Folds-fields p f))
