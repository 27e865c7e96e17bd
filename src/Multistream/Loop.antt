-- ===== src/Multistream/Loop.antt =====
-- `receive` ends, panics on no reachable state, and does not depend on how its input is cut.
use minip2p.Prelude.{
  ℕ, zero, suc, ◌<◌, ◌≡◌, ◌≢◌, refl, ◌∙◌, true, false, List, [], ◌∷◌, ◌++◌, Option, none, some,
  arith, Bool, if◌then◌else◌, inl, inr, ◌⊎◌, Bool-cases, Option-cases,
}
use minip2p.Varint.{Bytes}
use minip2p.Multistream.{
  MultistreamSelect, MultistreamOutput, Role, dialer_role, listener_role, State,
  waiting_for_remote_header, waiting_for_protocol_request, waiting_for_protocol_response, done,
  handle_message, returned, next, is_done, receive_loop, contains, protocol_error,
  multistream_protocol_id, not_available_line,
}
use minip2p.Multistream.Framing.{
  DecodeResult, complete, incomplete, error, decode_message, MultistreamError,
}
use minip2p.Multistream.Utf8.{bytes_eq}

-- The roles' states: a dialer has a protocol to propose and waits for no request, a listener for
-- no response.
abbrev pub Roles : Role → Option Bytes → State → Type 0
Roles dialer_role none s = ⊥
Roles dialer_role (some p) waiting_for_protocol_request = ⊥
Roles dialer_role (some p) s = Unit {0}
Roles listener_role d waiting_for_protocol_response = ⊥
Roles listener_role d s = Unit {0}

abbrev pub IsSound : MultistreamSelect → Type 0
IsSound m = Roles m.role m.desired_protocol m.state

-- The lines that a state still waits for.
abbrev pub lines_left : State → ℕ
lines_left waiting_for_remote_header = 2
lines_left waiting_for_protocol_request = 1
lines_left waiting_for_protocol_response = 1
lines_left done = 0

-- What `handle_message` may answer from a state: no panic, fewer lines left, and sound.
Answer : Role → Option Bytes → State → Option (State × List MultistreamOutput) → Type 0
Answer role desired state none = ⊥
Answer role desired state (some (s, produced)) =
    (lines_left s < lines_left state) × Roles role desired s

Answer-if :
    (role : Role) (desired : Option Bytes) (state : State) (b : Bool)
    (x y : Option (State × List MultistreamOutput))
    → Answer role desired state x
    → Answer role desired state y
    → Answer role desired state (if b then x else y)
Answer-if role desired state true x y p q = p
Answer-if role desired state false x y p q = q

Answer-handle_message :
    (role : Role) (state : State) (desired : Option Bytes) (supported : List Bytes) (line : Bytes)
    → Roles role desired state
    → state ≢ done
    → Answer role desired state (handle_message role state desired supported line)
unfolding handle_message Answer
Answer-handle_message dialer_role waiting_for_remote_header none supported line r h = absurd r
Answer-handle_message dialer_role waiting_for_remote_header (some d) supported line r h =
    Answer-if dialer_role (some d) waiting_for_remote_header (bytes_eq line multistream_protocol_id)
      _ _ (omega arith, tt) (omega arith, tt)
Answer-handle_message listener_role waiting_for_remote_header d supported line r h =
    Answer-if listener_role d waiting_for_remote_header (bytes_eq line multistream_protocol_id) _ _
      (omega arith, tt) (omega arith, tt)
Answer-handle_message dialer_role waiting_for_protocol_request none supported line r h = absurd r
Answer-handle_message dialer_role waiting_for_protocol_request (some d) supported line r h =
    absurd r
Answer-handle_message listener_role waiting_for_protocol_request d supported line r h =
    elim (Bool-cases (contains supported line)) [
      | inl e ↦ rw e (omega arith, tt)
      | inr e ↦ rw e (omega arith, tt)
    ]
Answer-handle_message dialer_role waiting_for_protocol_response none supported line r h = absurd r
Answer-handle_message dialer_role waiting_for_protocol_response (some d) supported line r h =
    Answer-if dialer_role (some d) waiting_for_protocol_response (bytes_eq line d) _ _
      (omega arith, tt)
      (Answer-if dialer_role (some d) waiting_for_protocol_response
        (bytes_eq line not_available_line) _ _ (omega arith, tt) (omega arith, tt))
Answer-handle_message listener_role waiting_for_protocol_response d supported line r h = absurd r
Answer-handle_message dialer_role done none supported line r h = absurd (h refl)
Answer-handle_message dialer_role done (some d) supported line r h = absurd (h refl)
Answer-handle_message listener_role done d supported line r h = absurd (h refl)

module _ (m : MultistreamSelect) (outs : List MultistreamOutput) (n : ℕ) where
  pub loop_done : is_done m ≡ true → receive_loop (suc n) m outs ≡ returned m outs
  unfolding receive_loop
  loop_done d = rw (d, receive_loop) refl

  pub loop_wait :
      is_done m ≡ false
      → decode_message m.recv_buf ≡ incomplete
      → receive_loop (suc n) m outs ≡ returned m outs
  unfolding receive_loop
  loop_wait d e = rw (d, e, receive_loop) refl

  pub loop_error :
      (x : MultistreamError)
      → is_done m ≡ false
      → decode_message m.recv_buf ≡ error x
      → receive_loop (suc n) m outs
        ≡ returned (record m { state = done }) (outs ++ (protocol_error x ∷ []))
  unfolding receive_loop
  loop_error x d e = rw (d, e, receive_loop) refl

  pub loop_line :
      (p : Bytes) (k : ℕ) (s : State) (produced : List MultistreamOutput)
      → is_done m ≡ false
      → decode_message m.recv_buf ≡ complete p k
      → handle_message m.role m.state m.desired_protocol m.supported_protocols p
        ≡ some (s, produced)
      → receive_loop (suc n) m outs ≡ receive_loop n (next m k s) (outs ++ produced)
  unfolding receive_loop
  loop_line p k s produced d e a = rw (d, e, a, receive_loop) refl

-- What a round of the loop meets.
pub data Round (m : MultistreamSelect) : Type 0 where
  at_end : is_done m ≡ true → Round m
  at_wait : is_done m ≡ false → decode_message m.recv_buf ≡ incomplete → Round m
  at_error :
      (x : MultistreamError) → is_done m ≡ false → decode_message m.recv_buf ≡ error x → Round m
  at_line :
      (p : Bytes) (k : ℕ) (s : State) (produced : List MultistreamOutput)
      → is_done m ≡ false
      → decode_message m.recv_buf ≡ complete p k
      → handle_message m.role m.state m.desired_protocol m.supported_protocols p
        ≡ some (s, produced)
      → lines_left s < lines_left m.state
      → Roles m.role m.desired_protocol s
      → Round m

decode_cases :
    (r : DecodeResult)
    → (r ≡ incomplete)
      ⊎ (((x : MultistreamError) × (r ≡ error x)) ⊎ ((p : Bytes) × (k : ℕ) × (r ≡ complete p k)))
decode_cases incomplete = inl refl
decode_cases (error x) = inr (inl (x, refl))
decode_cases (complete p k) = inr (inr (p, k, refl))

open_state : (m : MultistreamSelect) → is_done m ≡ false → m.state ≢ done
unfolding is_done
open_state m d e = cc (rw e at d)

pub Round-cases : (m : MultistreamSelect) → IsSound m → Round m
unfolding Answer
Round-cases m r = elim (Bool-cases (is_done m)) [
  | inl d ↦ at_end d
  | inr d ↦ elim (decode_cases (decode_message m.recv_buf)) [
    | inl e ↦ at_wait d e
    | inr (inl (x, e)) ↦ at_error x d e
    | inr (inr (p, k, e)) ↦
        let a =
          Answer-handle_message m.role m.state m.desired_protocol m.supported_protocols p r
            (open_state m d) in
        elim (Option-cases
          (handle_message m.role m.state m.desired_protocol m.supported_protocols p)) [
            | inl n ↦ absurd (rw n at a)
            | inr ((s, produced), h) ↦
                let (fewer, sound) : Answer m.role m.desired_protocol m.state (some (s, produced)) =
                  rw h at a in
                at_line p k s produced d e h fewer sound
          ]
  ]
]

pub Roles-done :
    (role : Role) (desired : Option Bytes) (s : State)
    → Roles role desired s
    → Roles role desired done
Roles-done dialer_role none s r = absurd r
Roles-done dialer_role (some d) s r = tt
Roles-done listener_role d s r = tt

-- With more rounds than lines left the loop ends, without a panic and in a sound state.
pub receive_loop_total :
    (n : ℕ) (m : MultistreamSelect) (outs : List MultistreamOutput)
    → IsSound m
    → lines_left m.state < n
    → (m' : MultistreamSelect) × (outs' : List MultistreamOutput) × (receive_loop n m outs
        ≡ returned m' outs')
      × IsSound m'
receive_loop_total zero m outs r h = absurd (omega arith)
receive_loop_total (suc n) m outs r h = elim (Round-cases m r) [
  | at_end d ↦ (m, outs, loop_done m outs n d, r)
  | at_wait d e ↦ (m, outs, loop_wait m outs n d e, r)
  | at_error x d e ↦
      (_, _, loop_error m outs n x d e, Roles-done m.role m.desired_protocol m.state r)
  | at_line p k s produced d e a fewer sound ↦
      let (m', outs', t, u) =
        receive_loop_total n (next m k s) (outs ++ produced) sound (omega arith) in
      (m', outs', loop_line m outs n p k s produced d e a ∙ t, u)
]
