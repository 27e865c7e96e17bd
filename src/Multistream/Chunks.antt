-- ===== src/Multistream/Chunks.antt =====
-- `receive` on a stream in pieces.
use minip2p.Prelude.{
  ℕ, zero, suc, ◌≤◌, ◌<◌, ◌≡◌, ◌≢◌, refl, sym, ap, ◌∙◌, true, false, List, [], ◌∷◌, ◌++◌, arith,
  append_assoc, drop, length,
}
use minip2p.Varint.{Bytes}
use minip2p.Multistream.{
  MultistreamSelect, MultistreamOutput, done, Received, out_of_fuel, panicked, returned, next,
  is_done, receive_loop, protocol_error,
}
use minip2p.Multistream.Framing.{complete, incomplete, error, DecodeResult, decode_message}
use minip2p.Multistream.Message.{decode_message-append}
use minip2p.Multistream.Sound.{decode_message_consumed}
use minip2p.Multistream.Loop.{
  IsSound, lines_left, at_end, at_wait, at_error, at_line, Round-cases, loop_done, loop_wait,
  loop_error, loop_line, Roles-done,
}

abbrev pub buffer : MultistreamSelect → Bytes → MultistreamSelect
buffer m c = record m { recv_buf = m.recv_buf ++ c }

-- More outputs in front.
abbrev pub prepend : List MultistreamOutput → Received → Received
prepend pre out_of_fuel = out_of_fuel
prepend pre panicked = panicked
prepend pre (returned m outs) = returned m (pre ++ outs)

pub loop_fuel :
    (j k : ℕ) (m : MultistreamSelect) (outs : List MultistreamOutput)
    → IsSound m
    → lines_left m.state < j
    → lines_left m.state < k
    → receive_loop j m outs ≡ receive_loop k m outs
loop_fuel zero k m outs r g h = absurd (omega arith)
loop_fuel (suc j) zero m outs r g h = absurd (omega arith)
loop_fuel (suc j) (suc k) m outs r g h = elim (Round-cases m r) [
  | at_end d ↦ loop_done m outs j d ∙ sym (loop_done m outs k d)
  | at_wait d e ↦ loop_wait m outs j d e ∙ sym (loop_wait m outs k d e)
  | at_error x d e ↦ loop_error m outs j x d e ∙ sym (loop_error m outs k x d e)
  | at_line p n s produced d e a fewer sound ↦
      loop_line m outs j p n s produced d e a
      ∙ loop_fuel j k (next m n s) (outs ++ produced) sound (omega arith) (omega arith)
      ∙ sym (loop_line m outs k p n s produced d e a)
]

pub loop_prepend :
    (n : ℕ) (m : MultistreamSelect) (pre outs : List MultistreamOutput)
    → IsSound m
    → lines_left m.state < n
    → receive_loop n m (pre ++ outs) ≡ prepend pre (receive_loop n m outs)
loop_prepend zero m pre outs r h = absurd (omega arith)
loop_prepend (suc n) m pre outs r h = elim (Round-cases m r) [
  | at_end d ↦ loop_done m (pre ++ outs) n d ∙ ap (prepend pre) (sym (loop_done m outs n d))
  | at_wait d e ↦ loop_wait m (pre ++ outs) n d e ∙ ap (prepend pre) (sym (loop_wait m outs n d e))
  | at_error x d e ↦
      loop_error m (pre ++ outs) n x d e
      ∙ ap (returned (record m { state = done })) (append_assoc pre outs (protocol_error x ∷ []))
      ∙ ap (prepend pre) (sym (loop_error m outs n x d e))
  | at_line p k s produced d e a fewer sound ↦
      loop_line m (pre ++ outs) n p k s produced d e a
      ∙ ap (receive_loop n (next m k s)) (append_assoc pre outs produced)
      ∙ loop_prepend n (next m k s) pre (outs ++ produced) sound (omega arith)
      ∙ ap (prepend pre) (sym (loop_line m outs n p k s produced d e a))
]

drop-append : (k : ℕ) (xs ys : Bytes) → k ≤ length xs → drop k (xs ++ ys) ≡ drop k xs ++ ys
drop-append zero xs ys h = refl
drop-append (suc k) [] ys h = absurd (omega arith)
drop-append (suc k) (x ∷ xs) ys h = drop-append k xs ys (omega arith)

-- Where the loop ends, and that the loop on a longer buffer goes on from there.
pub record Ended (n : ℕ) (m : MultistreamSelect) (outs : List MultistreamOutput) (c : Bytes)
    : Type 0 where
  pub to : MultistreamSelect
  pub made : List MultistreamOutput
  pub ends : receive_loop n m outs ≡ returned to made
  pub sound : IsSound to
  pub at_done : is_done to ≡ true → receive_loop n (buffer m c) outs ≡ returned (buffer to c) made
  pub goes_on :
      is_done to ≡ false → receive_loop n (buffer m c) outs ≡ receive_loop 3 (buffer to c) made

pub lines_left_lt : (m : MultistreamSelect) → lines_left m.state < 3
lines_left_lt m = ground arith

decode_message_stays :
    (m : MultistreamSelect) (c : Bytes) (r : DecodeResult)
    → decode_message m.recv_buf ≡ r
    → r ≢ incomplete
    → decode_message (m.recv_buf ++ c) ≡ r
decode_message_stays m c r e n = decode_message-append m.recv_buf c (λ w. n (sym e ∙ w)) ∙ e

pub loop-Ended :
    (n : ℕ) (m : MultistreamSelect) (outs : List MultistreamOutput) (c : Bytes)
    → IsSound m
    → lines_left m.state < n
    → Ended n m outs c
unfolding is_done
loop-Ended zero m outs c r h = absurd (omega arith)
loop-Ended (suc n) m outs c r h = elim (Round-cases m r) [
  | at_end d ↦ record {
    to = m;
    made = outs;
    ends = loop_done m outs n d;
    sound = r;
    at_done = λ _. loop_done (buffer m c) outs n d;
    goes_on = λ o. cc (d, o);
  }
  | at_wait d e ↦ record {
    to = m;
    made = outs;
    ends = loop_wait m outs n d e;
    sound = r;
    at_done = λ o. cc (d, o);
    goes_on = λ _. loop_fuel (suc n) 3 (buffer m c) outs r h (lines_left_lt m);
  }
  | at_error x d e ↦ record {
    to = record m { state = done };
    made = outs ++ (protocol_error x ∷ []);
    ends = loop_error m outs n x d e;
    sound = Roles-done m.role m.desired_protocol m.state r;
    at_done =
        λ _. loop_error (buffer m c) outs n x d (decode_message_stays m c (error x) e (λ w. cc));
    goes_on = λ o. cc;
  }
  | at_line p k s produced d e a fewer sound ↦
      let rest = loop-Ended n (next m k s) (outs ++ produced) c sound (omega arith) in
      let step =
        loop_line (buffer m c) outs n p k s produced d
          (decode_message_stays m c (complete p k) e (λ w. cc)) a
        ∙ ap
            (λ (b : Bytes).
              receive_loop n (record m { recv_buf = b; state = s }) (outs ++ produced))
            (drop-append k m.recv_buf c (decode_message_consumed m.recv_buf p k e)) in
      record {
        to = rest.to;
        made = rest.made;
        ends = loop_line m outs n p k s produced d e a ∙ rest.ends;
        sound = rest.sound;
        at_done = λ o. step ∙ rest.at_done o;
        goes_on = λ o. step ∙ rest.goes_on o;
      }
]
