-- ===== src/Dcutr/Responder/Chunks/Rounds.antt =====
-- One round of `try_decode` on each kind of buffer, and how many rounds there are.
use minip2p.Prelude.{
  ℕ, zero, suc, ◌≤◌, ◌<◌, ◌≡◌, ◌≢◌, refl, Bool, true, false, List, [], ◌∷◌, ◌++◌, Option, none,
  some, drop, arith, length,
}
use minip2p.Prelude.Result.{Result, ok, err}
use minip2p.Varint.{Bytes}
use minip2p.Frame.{FrameDecode, complete, incomplete, error, panicked, decode_frame}
use minip2p.Identity.PeerId.{Multihash}
use minip2p.Dcutr.HolePunch
use minip2p.Dcutr.HolePunch.{HolePunch, HolePunchType, DcutrMessageError}
use minip2p.Dcutr.Flow.{
  DcutrError, enforce_max_size, max_message_size, frame_of, connect_with, sync_message,
  decode_remote_addrs,
}
use minip2p.Dcutr.Responder.{
  DcutrResponder, ResponderState, awaiting_connect, awaiting_sync, done, connect_received,
  sync_received, round, round_in, on_buffer, on_frame, on_payload, on_message, decode_loop,
  try_decode, on_data,
}

-- The rounds that are left: each message moves the state on.
abbrev pub left : ResponderState → ℕ
left awaiting_connect = 3
left awaiting_sync = 2
left done = 1

left_pos : (s : ResponderState) → 0 < left s
left_pos awaiting_connect = omega arith
left_pos awaiting_sync = omega arith
left_pos done = omega arith

module _ {H : Type 0} ⦃m : Multihash H⦄ where
  -- The responder that has the addresses of the peer and has queued its own.
  abbrev pub connected : DcutrResponder H → List Bytes → Bytes → DcutrResponder H
  connected f addrs over = record f {
    outbound = f.outbound ++ frame_of (connect_with f.own_addrs);
    recv_buf = over;
    state = awaiting_sync;
    events = f.events ++ (connect_received (decode_remote_addrs addrs) addrs ∷ []);
  }

  abbrev pub synced : DcutrResponder H → Bytes → DcutrResponder H
  synced f over = record f {
    recv_buf = over;
    state = done;
    events = f.events ++ (sync_received ∷ []);
  }

  pub round_wait :
      (f : DcutrResponder H)
      → f.state ≢ done
      → length f.recv_buf ≤ max_message_size
      → decode_frame f.recv_buf ≡ incomplete
      → round f ≡ some (f, ok false)
  unfolding round enforce_max_size
  round_wait f s h e = ground arith

  pub round_connect :
      (f : DcutrResponder H) (payload : Bytes) (consumed : ℕ) (addrs : List Bytes)
      → f.state ≡ awaiting_connect
      → length f.recv_buf ≤ max_message_size
      → decode_frame f.recv_buf ≡ complete payload consumed
      → HolePunch.decode payload ≡ ok (connect_with addrs)
      → round f ≡ some (connected f addrs (drop consumed f.recv_buf), ok true)
  unfolding round enforce_max_size
  round_connect f payload consumed addrs s h e d = ground arith

  pub round_sync :
      (f : DcutrResponder H) (payload : Bytes) (consumed : ℕ)
      → f.state ≡ awaiting_sync
      → length f.recv_buf ≤ max_message_size
      → decode_frame f.recv_buf ≡ complete payload consumed
      → HolePunch.decode payload ≡ ok sync_message
      → round f ≡ some (synced f (drop consumed f.recv_buf), ok true)
  unfolding round enforce_max_size
  round_sync f payload consumed s h e d = ground arith

  pub round_done : (f : DcutrResponder H) → f.state ≡ done → round f ≡ some (f, ok false)
  unfolding round
  round_done f s = ground arith

  loop_stop :
      (n : ℕ) (f : DcutrResponder H)
      → round f ≡ some (f, ok false)
      → decode_loop (suc n) f ≡ some (some (f, ok tt))
  unfolding decode_loop
  loop_stop n f e = rw (e, decode_loop) refl

  loop_next :
      (n : ℕ) (f f' : DcutrResponder H)
      → round f ≡ some (f', ok true)
      → decode_loop (suc n) f ≡ decode_loop n f'
  unfolding decode_loop
  loop_next n f f' e = rw (e, decode_loop) refl

  abbrev Lowers : ResponderState → Option (DcutrResponder H × Result DcutrError Bool) → Type 0
  Lowers s (some (f', ok true)) = left f'.state < left s
  Lowers s _ = Unit {0}

  message-Lowers :
      (s : ResponderState) (k : HolePunchType) (f : DcutrResponder H) (msg : HolePunch)
      → Lowers s (some (on_message s k f msg))
  unfolding on_message
  message-Lowers awaiting_connect HolePunch.connect f msg = omega arith
  message-Lowers awaiting_connect HolePunch.sync f msg = tt
  message-Lowers awaiting_sync HolePunch.sync f msg = omega arith
  message-Lowers awaiting_sync HolePunch.connect f msg = tt
  message-Lowers done HolePunch.connect f msg = tt
  message-Lowers done HolePunch.sync f msg = tt

  payload-Lowers :
      (f : DcutrResponder H) (n : ℕ) (r : Result DcutrMessageError HolePunch)
      → Lowers f.state (some (on_payload f n r))
  unfolding on_payload
  payload-Lowers f n (err e) = tt
  payload-Lowers f n (ok msg) =
      message-Lowers f.state msg.kind (record f { recv_buf = drop n f.recv_buf }) msg

  frame-Lowers : (f : DcutrResponder H) (d : FrameDecode) → Lowers f.state (on_frame f d)
  unfolding on_frame
  frame-Lowers f panicked = tt
  frame-Lowers f incomplete = tt
  frame-Lowers f (error e) = tt
  frame-Lowers f (complete p n) = payload-Lowers f n (HolePunch.decode p)

  buffer-Lowers :
      (f : DcutrResponder H) (r : Result DcutrError (Unit {0})) → Lowers f.state (on_buffer f r)
  unfolding on_buffer
  buffer-Lowers f (err e) = tt
  buffer-Lowers f (ok _) = frame-Lowers f (decode_frame f.recv_buf)

  state-Lowers : (s : ResponderState) (f : DcutrResponder H) → Lowers f.state (round_in s f)
  unfolding round_in
  state-Lowers done f = tt
  state-Lowers awaiting_connect f = buffer-Lowers f (enforce_max_size f.recv_buf)
  state-Lowers awaiting_sync f = buffer-Lowers f (enforce_max_size f.recv_buf)

  abbrev Settles : ℕ → DcutrResponder H → Type 0
  Settles n f = (decode_loop n f ≢ none) × (decode_loop (suc n) f ≡ decode_loop n f)

  Settles-by :
      (n : ℕ) (f : DcutrResponder H) (r : Option (DcutrResponder H × Result DcutrError Bool))
      → round f ≡ r
      → Lowers f.state r
      → left f.state ≤ suc n
      → ((f' : DcutrResponder H) → left f'.state ≤ n → Settles n f')
      → Settles (suc n) f
  unfolding decode_loop
  Settles-by n f none e w h ih = rw (e, decode_loop) ((λ x. cc), refl)
  Settles-by n f (some (f', err x)) e w h ih = rw (e, decode_loop) ((λ y. cc), refl)
  Settles-by n f (some (f', ok false)) e w h ih = rw (e, decode_loop) ((λ x. cc), refl)
  Settles-by n f (some (f', ok true)) e w h ih =
      rw (loop_next n f f' e, loop_next (suc n) f f' e) (ih f' (omega arith))

  -- With a round for each message that can still come, and one, the loop answers, and more fuel
  -- changes nothing.
  decode_loop_total : (n : ℕ) (f : DcutrResponder H) → left f.state ≤ n → Settles n f
  decode_loop_total zero f h = absurd (omega (arith, left_pos f.state))
  decode_loop_total (suc n) f h =
      Settles-by n f (round f) refl (unfold round in state-Lowers f.state f) h
        (λ f' h'. decode_loop_total n f' h')

  pub try_stop :
      (f : DcutrResponder H) → round f ≡ some (f, ok false) → try_decode f ≡ some (f, ok tt)
  unfolding try_decode
  try_stop f e = rw (loop_stop 2 f e) refl

  -- A message that moves the state on, and then what `try_decode` makes of the rest.
  pub try_next :
      (f f' : DcutrResponder H)
      → round f ≡ some (f', ok true)
      → left f'.state ≤ 2
      → try_decode f ≡ try_decode f'
  unfolding try_decode
  try_next f f' e h = rw (loop_next 2 f f' e, (decode_loop_total 2 f' h).1) refl

  pub on_data_try :
      (f : DcutrResponder H) (c : Bytes)
      → f.state ≢ done
      → on_data f c ≡ try_decode (record f { recv_buf = f.recv_buf ++ c })
  unfolding on_data
  on_data_try f c s = ground arith
