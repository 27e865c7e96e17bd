-- ===== src/Identify/Message/RoundTrip.antt =====
-- `IdentifyMessage::decode` after `encode`, and the end of its loop.
use minip2p.Prelude.{
  ℕ, ◌≡◌, ◌≢◌, refl, true, List, [], ◌∷◌, ◌++◌, map, Option, none, some, arith, length, All,
  All-append, append_assoc, append-nil, suc,
}
use minip2p.Prelude.Bits.{IsU64}
use minip2p.Prelude.Result.{ok}
use minip2p.Varint.{Bytes}
use minip2p.Multistream.Utf8.{is_utf8}
use minip2p.Wire.{run_fields}
use minip2p.Wire.Fields.{
  Field, len_field, message_bytes, message_bytes-append, IsField, IsSound, IsField-All,
  All-IsField_split, Takes, Folds, stop, more, Folds-append, decode_fields-Folds,
}
use minip2p.Wire.Encode.{
  encode_repeated_lem, encode_opt_bytes_lem, IsSound-repeated, IsSound-opt_len,
  read_len_delimited_body, opt_field, OnSome, OnSome_at, Folds-opt,
}
use minip2p.Wire.Loop.{Advances, moves, decode_fields_total}
use minip2p.Identify.Message.{
  IdentifyMessage, default, identify_wire_error, encode, from_utf8, put_field, step, decode,
}

abbrev pub IsText : Bytes → Type 0
IsText s = is_utf8 s ≡ true

-- The texts of a message are texts.
pub record IsTyped (msg : IdentifyMessage) : Type 0 where
  pub protocols_text : All IsText msg.protocols
  pub version_text : OnSome IsText msg.protocol_version
  pub agent_text : OnSome IsText msg.agent_version

abbrev fields : IdentifyMessage → List Field
fields msg =
    opt_field (len_field 1) msg.public_key
    ++ (map (len_field 2) msg.listen_addrs
        ++ (map (len_field 3) msg.protocols
            ++ (opt_field (len_field 4) msg.observed_addr
                ++ (opt_field (len_field 5) msg.protocol_version
                    ++ opt_field (len_field 6) msg.agent_version))))

encode-fields : (msg : IdentifyMessage) → encode msg ≡ message_bytes (fields msg)
unfolding encode
encode-fields msg =
    rw
      (
        encode_opt_bytes_lem 6 msg.agent_version _ (omega arith),
        encode_opt_bytes_lem 5 msg.protocol_version _ (omega arith),
        encode_opt_bytes_lem 4 msg.observed_addr _ (omega arith),
        encode_repeated_lem 3 msg.protocols _ (omega arith),
        encode_repeated_lem 2 msg.listen_addrs _ (omega arith),
        encode_opt_bytes_lem 1 msg.public_key [] (omega arith),
      )
      (simp (message_bytes-append, append_assoc))

Takes-len :
    (n : ℕ) (d : Bytes) (msg msg' : IdentifyMessage)
    → IsU64 (length d)
    → put_field msg n d ≡ ok msg'
    → Takes step (len_field n d) msg msg'
unfolding step
Takes-len n d msg msg' h e input idx rest a =
    rw (read_len_delimited_body input idx d rest h a, e) refl

-- A repeated field fills the list that `put` names.
Folds-items :
    (n : ℕ) (P : Bytes → Type 0) (put : List Bytes → IdentifyMessage)
    → ((done : List Bytes) (d : Bytes)
        → P d
        → put_field (put done) n d ≡ ok (put (done ++ (d ∷ []))))
    → (items done : List Bytes) → All P items
    → All IsField (map (len_field n) items)
    → Folds step (map (len_field n) items) (put done) (put (done ++ items))
Folds-items n P put t [] done p h = rw append-nil stop
Folds-items n P put t (d ∷ ds) done p h =
    more (Takes-len n d (put done) (put (done ++ (d ∷ []))) h.0.1 (t done d p.0))
      (rw append_assoc at (Folds-items n P put t ds (done ++ (d ∷ [])) p.1 h.1))

-- A message whose fields are filled up to a point.
abbrev filled :
    Option Bytes
    → List Bytes
    → List Bytes
    → Option Bytes
    → Option Bytes
    → Option Bytes
    → IdentifyMessage
filled key addrs protos seen version agent = record {
  public_key = key;
  listen_addrs = addrs;
  protocols = protos;
  observed_addr = seen;
  protocol_version = version;
  agent_version = agent;
}

put_text : (d : Bytes) (n : ℕ) → IsText d → from_utf8 d n ≡ ok d
unfolding from_utf8
put_text d n t = rw t refl

All-any : (xs : List Bytes) → All (λ (d : Bytes). Unit {0}) xs
All-any [] = tt
All-any (x ∷ xs) = (tt, All-any xs)

module _ (msg : IdentifyMessage) (u : IsTyped msg) where
  where_text :
      (o : Option Bytes) (d : Bytes) (n : ℕ) → OnSome IsText o → o ≡ some d → from_utf8 d n ≡ ok d
  where_text o d n t e = put_text d n (OnSome_at IsText o d t e)

  Folds-fields : All IsField (fields msg) → Folds step (fields msg) default msg
  unfolding put_field
  Folds-fields h =
      let key = msg.public_key in
      let addrs = msg.listen_addrs in
      let protos = msg.protocols in
      let seen = msg.observed_addr in
      let version = msg.protocol_version in
      let agent = msg.agent_version in
      let (h1, r1) = All-IsField_split (opt_field (len_field 1) key) _ h in
      let (h2, r2) = All-IsField_split (map (len_field 2) addrs) _ r1 in
      let (h3, r3) = All-IsField_split (map (len_field 3) protos) _ r2 in
      let (h4, r4) = All-IsField_split (opt_field (len_field 4) seen) _ r3 in
      let (h5, h6) = All-IsField_split (opt_field (len_field 5) version) _ r4 in
      Folds-append step
        (Folds-opt step (len_field 1) (λ o. filled o [] [] none none none) key h1
          (λ d _ f. Takes-len 1 d _ _ f.1 refl))
        (Folds-append step
          (Folds-items 2 (λ d. Unit {0}) (λ ds. filled key ds [] none none none) (λ done d _. refl)
            addrs [] (All-any addrs) h2)
          (Folds-append step
            (Folds-items 3 IsText (λ ds. filled key addrs ds none none none)
              (λ done d t. rw (put_text d 3 t) refl) protos [] u.protocols_text h3)
            (Folds-append step
              (Folds-opt step (len_field 4) (λ o. filled key addrs protos o none none) seen h4
                (λ d _ f. Takes-len 4 d _ _ f.1 refl))
              (Folds-append step
                (Folds-opt step (len_field 5) (λ o. filled key addrs protos seen o none) version h5
                  (λ d e f.
                    Takes-len 5 d _ _ f.1 (rw (where_text version d 5 u.version_text e) refl)))
                (Folds-opt step (len_field 6) (λ o. filled key addrs protos seen version o) agent h6
                  (λ d e f.
                    Takes-len 6 d _ _ f.1 (rw (where_text agent d 6 u.agent_text e) refl)))))))

IsSound-fields : (msg : IdentifyMessage) → All IsSound (fields msg)
IsSound-fields msg =
    All-append IsSound (opt_field (len_field 1) msg.public_key) _
      (IsSound-opt_len 1 msg.public_key (omega arith))
      (All-append IsSound (map (len_field 2) msg.listen_addrs) _
        (IsSound-repeated 2 msg.listen_addrs (omega arith))
        (All-append IsSound (map (len_field 3) msg.protocols) _
          (IsSound-repeated 3 msg.protocols (omega arith))
          (All-append IsSound (opt_field (len_field 4) msg.observed_addr) _
            (IsSound-opt_len 4 msg.observed_addr (omega arith))
            (All-append IsSound (opt_field (len_field 5) msg.protocol_version) _
              (IsSound-opt_len 5 msg.protocol_version (omega arith))
              (IsSound-opt_len 6 msg.agent_version (omega arith))))))

-- `IdentifyMessage::decode` reads back every message that `encode` wrote, when its texts are texts and
-- the length of the encoding fits 64 bits.
pub identify_decode-encode :
    (msg : IdentifyMessage)
    → IsTyped msg
    → IsU64 (length (encode msg))
    → decode (encode msg) ≡ ok msg
unfolding decode
identify_decode-encode msg u h =
    let e = encode-fields msg in
    let f = IsField-All (fields msg) (IsSound-fields msg) (rw e at h) in
    rw e (decode_fields-Folds step f (Folds-fields msg u f))

step-Advances : Advances step
unfolding step
step-Advances input msg field wire_type idx msg' idx' e = grind (arith, moves)

-- The loop of `decode` ends on every input.
identify_decode_total :
    (input : Bytes) → run_fields step (suc (length input)) input 0 default ≢ none
identify_decode_total input = decode_fields_total step input default step-Advances
