-- ===== src/Multistream/Stream.antt =====
-- `receive` and `handle_input` on a stream in chunks, and on any input at all.
use mathlib.Core.List.{flatten}
use minip2p.Prelude.{
  ◌⊎◌, ◌≡◌, refl, sym, ap, ◌∙◌, true, false, List, [], ◌∷◌, ◌++◌, some, append_assoc, append-nil,
  inl, inr, Bool-cases,
}
use minip2p.Varint.{Bytes}
use minip2p.Multistream.{
  MultistreamSelect, MultistreamOutput, MultistreamInput, start_input, data_input, Received,
  out_of_fuel, panicked, returned, is_done, receive_loop, receive, handle_input, start, queue,
  queue_received,
}
use minip2p.Multistream.Loop.{IsSound}
use minip2p.Multistream.Chunks.{buffer, prepend, loop_prepend, lines_left_lt, Ended, loop-Ended}

-- The chunks in order, with the outputs of all.
unfoldable pub feed : MultistreamSelect → List Bytes → Received
feed m [] = returned m []
feed m (c ∷ cs) = elim (receive m c) [
  | out_of_fuel ↦ out_of_fuel
  | panicked ↦ panicked
  | returned m' outputs ↦ prepend outputs (feed m' cs)
]

pub receive_open :
    (m : MultistreamSelect) (c : Bytes)
    → is_done m ≡ false
    → receive m c ≡ receive_loop 3 (buffer m c) []
unfolding receive
receive_open m c d = rw d refl

receive_done : (m : MultistreamSelect) (c : Bytes) → is_done m ≡ true → receive m c ≡ returned m []
unfolding receive
receive_done m c d = rw d refl

feed_nil : (m : MultistreamSelect) → feed m [] ≡ returned m []
unfolding feed
feed_nil m = refl

feed_next :
    (m m' : MultistreamSelect) (c : Bytes) (cs : List Bytes) (outs : List MultistreamOutput)
    → receive m c ≡ returned m' outs
    → feed m (c ∷ cs) ≡ prepend outs (feed m' cs)
unfolding feed
feed_next m m' c cs outs e = rw (e, feed) refl

feed_done : (m : MultistreamSelect) (cs : List Bytes) → is_done m ≡ true → feed m cs ≡ returned m []
feed_done m [] d = unfold feed in refl
feed_done m (c ∷ cs) d =
    feed_next m m c cs [] (receive_done m c d) ∙ ap (prepend []) (feed_done m cs d)

pub record Same (m : MultistreamSelect) (cs : List Bytes) : Type 0 where
  pub to : MultistreamSelect
  pub made : List MultistreamOutput
  pub lost : Bytes
  pub in_chunks : feed m cs ≡ returned to made
  pub at_once : receive m (flatten cs) ≡ returned (buffer to lost) made
  pub kept : (is_done to ≡ true) ⊎ (lost ≡ [])

Same-done : (m : MultistreamSelect) (cs : List Bytes) → is_done m ≡ true → Same m cs
Same-done m cs d = record {
  to = m;
  made = [];
  lost = [];
  in_chunks = feed_done m cs d;
  at_once =
      receive_done m (flatten cs) d
      ∙ ap (λ (b : Bytes). returned (record m { recv_buf = b }) []) (sym (append-nil m.recv_buf));
  kept = inr refl;
}

whole_buffer :
    (m : MultistreamSelect) (c rest : Bytes)
    → is_done m ≡ false
    → receive m (c ++ rest) ≡ receive_loop 3 (buffer (buffer m c) rest) []
whole_buffer m c rest d =
    receive_open m (c ++ rest) d
    ∙ ap (λ (b : Bytes). receive_loop 3 (record m { recv_buf = b }) [])
        (sym (append_assoc m.recv_buf c rest))

Same-last : (m : MultistreamSelect) (c : Bytes) → IsSound m → is_done m ≡ false → Same m (c ∷ [])
unfolding flatten
Same-last m c r d =
    let e = loop-Ended 3 (buffer m c) [] [] r (lines_left_lt m) in
    let now = receive_open m c d ∙ e.ends in
    record {
      to = e.to;
      made = e.made;
      lost = [];
      in_chunks =
          feed_next m e.to c [] e.made now
          ∙ ap (prepend e.made) (feed_nil e.to)
          ∙ ap (returned e.to) (append-nil e.made);
      at_once =
          ap (receive m) (append-nil c)
          ∙ now
          ∙ ap (λ (b : Bytes). returned (record (e.to) { recv_buf = b }) e.made)
              (sym (append-nil e.to.recv_buf));
      kept = inr refl;
    }

Same-next :
    (m : MultistreamSelect) (c : Bytes) (cs : List Bytes)
    → is_done m ≡ false
    → (e : Ended 3 (buffer m c) [] (flatten cs)) → Same e.to cs
    → Same m (c ∷ cs)
unfolding flatten
Same-next m c cs d e s =
    let now = receive_open m c d ∙ e.ends in
    elim (Bool-cases (is_done e.to)) [
      | inl o ↦ record {
        to = e.to;
        made = e.made;
        lost = flatten cs;
        in_chunks =
            feed_next m e.to c cs e.made now
            ∙ ap (prepend e.made) (feed_done e.to cs o)
            ∙ ap (returned e.to) (append-nil e.made);
        at_once = whole_buffer m c (flatten cs) d ∙ e.at_done o;
        kept = inl o;
      }
      | inr o ↦ record {
        to = s.to;
        made = e.made ++ s.made;
        lost = s.lost;
        in_chunks = feed_next m e.to c cs e.made now ∙ ap (prepend e.made) s.in_chunks;
        at_once =
            whole_buffer m c (flatten cs) d
            ∙ e.goes_on o
            ∙ ap (receive_loop 3 (buffer e.to (flatten cs))) (sym (append-nil e.made))
            ∙ loop_prepend 3 (buffer e.to (flatten cs)) e.made [] e.sound (lines_left_lt e.to)
            ∙ ap (prepend e.made) (sym (receive_open e.to (flatten cs) o) ∙ s.at_once);
        kept = s.kept;
      }
    ]

Same-chunks : (m : MultistreamSelect) (c : Bytes) (cs : List Bytes) → IsSound m → Same m (c ∷ cs)
Same-chunks m c [] r = elim (Bool-cases (is_done m)) [
  | inl d ↦ Same-done m (c ∷ []) d
  | inr d ↦ Same-last m c r d
]
Same-chunks m c (c' ∷ cs) r = elim (Bool-cases (is_done m)) [
  | inl d ↦ Same-done m (c ∷ c' ∷ cs) d
  | inr d ↦
      let e = loop-Ended 3 (buffer m c) [] (flatten (c' ∷ cs)) r (lines_left_lt m) in
      Same-next m c (c' ∷ cs) d e (Same-chunks e.to c' cs e.sound)
]

-- How the bytes of the peer are cut does not matter: in chunks and at once, a negotiation in a
-- sound state makes the same outputs without a panic and ends in the same state, except that the
-- bytes of the chunks behind its end (`lost`) are not in its buffer; it has lost none while it is
-- not done.
pub receive_chunks :
    (m : MultistreamSelect) (c : Bytes) (cs : List Bytes)
    → IsSound m
    → (m' : MultistreamSelect) × (outputs : List MultistreamOutput) × (lost : Bytes) × (feed m
          (c ∷ cs)
        ≡ returned m' outputs)
      × (receive m (flatten (c ∷ cs)) ≡ returned (buffer m' lost) outputs)
      × ((is_done m' ≡ true) ⊎ (lost ≡ []))
receive_chunks m c cs r =
    let s = Same-chunks m c cs r in (s.to, s.made, s.lost, s.in_chunks, s.at_once, s.kept)

-- No input makes a negotiation in a sound state panic or go on for ever, and the state after it is
-- sound again.
pub handle_input_safe :
    (m : MultistreamSelect) (input : MultistreamInput)
    → IsSound m
    → (m' : MultistreamSelect) × (handle_input m input ≡ some m') × IsSound m'
unfolding handle_input start
handle_input_safe m start_input r = elim (Bool-cases m.started) [
  | inl s ↦ (_, refl, rw s r)
  | inr s ↦ (_, refl, rw s r)
]
handle_input_safe m (data_input b) r = elim (Bool-cases (is_done m)) [
  | inl d ↦ (queue m [], ap queue_received (receive_done m b d), r)
  | inr d ↦
      let e = loop-Ended 3 (buffer m b) [] [] r (lines_left_lt m) in
      (queue e.to e.made, ap queue_received (receive_open m b d ∙ e.ends), e.sound)
]
