-- ===== src/Autonat/Flow.antt =====
-- crates/autonat/src/lib.rs: what the client and the server share, and a frame that comes in chunks.
use mathlib.Core.List.{flatten}
use minip2p.Prelude.{
  ℕ, ◌+◌, ◌≤◌, ◌<◌, ◌≡◌, refl, ap, ◌∙◌, arith, Bool, true, false, List, [], ◌∷◌, ◌++◌, map,
  append_assoc, All, length, length-append, append_split, inl, inr,
}
use minip2p.Prelude.Result.{Result, ok, err}
use minip2p.Varint.{Bytes}
use minip2p.Identity.PeerId.{Multihash, IsLawful}
use minip2p.Core.Protocol.{MultiaddrError}
use minip2p.Core.Multiaddr
use minip2p.Core.Multiaddr.{Multiaddr}
use minip2p.Core.Multiaddr.RoundTrip.{AllTyped, addr_from_bytes-to_bytes}
use minip2p.Autonat.Types.{AutoNatError, Message, max_message_size}
use minip2p.Autonat.Message
use minip2p.Autonat.Frame.{encode_frame}

-- A handler returns the new state and a result.
abbrev pub Handled : Type 0 → Type 0
Handled S = S × Result AutoNatError (Unit {0})

-- `encode_frame(&msg.encode())`.
abbrev pub frame_of : Message → Bytes
frame_of msg = encode_frame (Message.encode msg)

-- A chunk leaves room for the message.
abbrev pub Roomy : Message → List Bytes → Type 0
Roomy msg cs = All (λ (c : Bytes). length c + length (frame_of msg) ≤ max_message_size) cs

abbrev and_then : {S : Type 0} → Handled S → (S → Handled S) → Handled S
and_then (s, err e) next = (s, err e)
and_then (s, ok _) next = next s

abbrev pub is_empty : Bytes → Bool
is_empty [] = true
is_empty (b ∷ bs) = false

module _ {H : Type 0} ⦃m : Multihash H⦄ where
  abbrev keep : Result MultiaddrError (Multiaddr H) → List (Multiaddr H) → List (Multiaddr H)
  keep (ok addr) addrs = addr ∷ addrs
  keep (err e) addrs = addrs

  unfoldable pub decode_addrs : List Bytes → List (Multiaddr H)
  decode_addrs [] = []
  decode_addrs (bytes ∷ raw) = keep (Multiaddr.from_bytes bytes) (decode_addrs raw)

  unfoldable pub encode_addrs : List (Multiaddr H) → List Bytes
  encode_addrs addrs = map Multiaddr.to_bytes addrs

  -- The addresses of a peer are read back, when their components are of their machine types.
  pub decode_addrs-encode :
      (l : IsLawful m) (addrs : List (Multiaddr H))
      → All AllTyped addrs
      → decode_addrs (encode_addrs addrs) ≡ addrs
  unfolding decode_addrs encode_addrs
  decode_addrs-encode l [] t = refl
  decode_addrs-encode l (addr ∷ addrs) t =
      rw (addr_from_bytes-to_bytes l addr t.0) (ap (◌∷◌ addr) (decode_addrs-encode l addrs t.1))

module _ {S : Type 0} (on_data : S → Bytes → Handled S) where
  -- Chunks of the stream one after the other, up to the first error.
  unfoldable pub feed : S → List Bytes → Handled S
  feed s [] = (s, ok tt)
  feed s (c ∷ cs) = and_then (on_data s c) (λ s'. feed s' cs)

  -- `waiting buf` has buffered `buf`; `final over` has taken the frame out, and kept what the last
  -- chunk had behind it.
  pub record Reads (frame : Bytes) (waiting final : Bytes → S) : Type 0 where
    pub wait :
        (buf c : Bytes) (x : ℕ) (back : Bytes)
        → length (buf ++ c) ≤ max_message_size
        → frame ≡ (buf ++ c) ++ (x ∷ back)
        → on_data (waiting buf) c ≡ (waiting (buf ++ c), ok tt)
    pub whole :
        (buf c over : Bytes)
        → length (buf ++ c) ≤ max_message_size
        → buf ++ c ≡ frame ++ over
        → on_data (waiting buf) c ≡ (final over, ok tt)
    pub finished : (over c : Bytes) → on_data (final over) c ≡ (final over, ok tt)

  module _ (frame : Bytes) (waiting final : Bytes → S) (r : Reads frame waiting final) where
    feed_next :
        (s s' : S) (c : Bytes) (cs : List Bytes)
        → on_data s c ≡ (s', ok tt)
        → feed s (c ∷ cs) ≡ feed s' cs
    unfolding feed
    feed_next s s' c cs e = ap (λ (p : Handled S). and_then p (λ t. feed t cs)) e

    feed-final : (over : Bytes) (cs : List Bytes) → feed (final over) cs ≡ (final over, ok tt)
    unfolding feed
    feed-final over [] = refl
    feed-final over (c ∷ cs) =
        feed_next (final over) (final over) c cs (r.finished over c) ∙ feed-final over cs

    -- However the frame is cut into chunks.
    pub feed-chunks :
        (cs : List Bytes) (buf after : Bytes)
        → length buf < length frame
        → All (λ (c : Bytes). length c + length frame ≤ max_message_size) cs
        → buf ++ flatten cs ≡ frame ++ after
        → (over : Bytes) × (feed (waiting buf) cs ≡ (final over, ok tt))
    unfolding flatten
    feed-chunks [] buf after p h e =
        absurd (omega (arith, ap length e, length-append buf [], length-append frame after))
    feed-chunks (c ∷ cs) buf after p h e =
        let size : length (buf ++ c) ≤ max_message_size = omega (arith, length-append buf c, h.0) in
        let whole : (buf ++ c) ++ flatten cs ≡ frame ++ after =
          append_assoc buf c (flatten cs) ∙ e in
        elim (append_split (buf ++ c) (flatten cs) frame after whole) [
          | inl (x, back, cut) ↦
              let (over, f) =
                feed-chunks cs (buf ++ c) after
                  (omega (arith, ap length cut, length-append (buf ++ c) (x ∷ back))) h.1 whole in
              (over, feed_next _ _ c cs (r.wait buf c x back size cut) ∙ f)
          | inr (over, here, later) ↦
              (over, feed_next _ _ c cs (r.whole buf c over size here) ∙ feed-final over cs)
        ]

-- A message that leaves room for chunks fits the limit.
pub Roomy-fits :
    (msg : Message) (cs : List Bytes)
    → Roomy msg cs
    → flatten cs ≡ frame_of msg
    → length (frame_of msg) ≤ max_message_size
unfolding flatten
Roomy-fits msg [] h e = omega (arith, ap length e)
Roomy-fits msg (c ∷ cs) h e = omega (arith, h.0)
