-- ===== src/Identify.antt =====
-- crates/identify/src: the identify message (message.rs) and the protocol with its trait methods
-- (lib.rs).
pub mod Message
pub mod Types
pub mod Invariant
pub mod Delivery
mod Tests
use minip2p.Prelude.{
  ℕ, ◌+◌, ◌-◌, Bool, true, false, not, ◌&&◌, List, [], ◌∷◌, ◌++◌, map, Option, none, some, ltb, leb,
  ◌==◌, if◌then◌else◌, length, take, drop, any,
}
use minip2p.Prelude.Maps.{Order, nat_order, Map, get, insert, remove}
use minip2p.Prelude.Result.{Result, ok, err, ◌>>=◌, map_err}
use minip2p.Varint.{Bytes, read_uvarint, write_uvarint}
use minip2p.Multistream.Utf8.{bytes_eq}
use minip2p.Identity.PeerId.{Multihash, PeerId}
use minip2p.Core.Multiaddr
use minip2p.Core.Multiaddr.{Multiaddr}
use minip2p.Identify.Message
use minip2p.Identify.Message.{IdentifyMessage, IdentifyMessageError, varint, field_overflow}
use minip2p.Identify.Types.{
  max_message_size, StreamId, IdentifyConfig, IdentifyAction, send, close_stream_write, Failure,
  exceeds_maximum, undecodable, IdentifyEvent, received, error, IdentifyInput, register_outbound,
  register_inbound, stream_data, stream_remote_write_closed, stream_closed, forget_peer, move_peer,
  IdentifyOutput, action, event, IdentifyError, stream_already_registered, PeerIdentifyState,
  default, IdentifyProtocol,
}
use minip2p.Ping.{is_some, is_stream, or_else}

unfoldable pub encode_length_prefixed : Bytes → Bytes
encode_length_prefixed payload = write_uvarint (length payload) [] ++ payload

unfoldable pub decode_length_prefixed : Bytes → Result IdentifyMessageError Bytes
decode_length_prefixed buf = do
  (len, consumed) ← map_err varint (read_uvarint buf)
  let remaining = length buf - consumed
  (if ltb remaining len
      then err (field_overflow consumed len remaining)
      else ok (take len (drop consumed buf)))

-- `decode_length_prefixed(&buf).and_then(IdentifyMessage::decode)`.
unfoldable pub decode_buf : Bytes → Result IdentifyMessageError IdentifyMessage
decode_buf buf = do payload ← decode_length_prefixed buf; Message.decode payload

is_empty {ℓ} : {A : Type ℓ} → List A → Bool
is_empty [] = true
is_empty (x ∷ xs) = false

module _ {H : Type 0} where
  unfoldable pub new : IdentifyConfig → IdentifyProtocol H
  new config = record { peers = []; events = []; actions = []; config = config }

  unfoldable pub add_protocol : IdentifyProtocol H → Bytes → IdentifyProtocol H
  add_protocol m id =
      if not (any (λ p. bytes_eq p id) m.config.protocols)
      then record m { config = record m.config { protocols = m.config.protocols ++ (id ∷ []) } }
      else m

  poll_event :
      List (IdentifyEvent H) → IdentifyProtocol H → IdentifyProtocol H × Option (IdentifyOutput H)
  poll_event [] m = (m, none)
  poll_event (e ∷ es) m = (record m { events = es }, some (event e))

  poll_action :
      List (IdentifyAction H) → IdentifyProtocol H → IdentifyProtocol H × Option (IdentifyOutput H)
  poll_action [] m = poll_event m.events m
  poll_action (a ∷ rest) m = (record m { actions = rest }, some (action a))

  unfoldable pub poll_output : IdentifyProtocol H → IdentifyProtocol H × Option (IdentifyOutput H)
  unfolding poll_action poll_event
  poll_output m = poll_action m.actions m

  unfoldable pub is_idle : IdentifyProtocol H → Bool
  unfolding is_empty
  is_idle m = is_empty m.actions && is_empty m.events

  abbrev pub push_event : IdentifyProtocol H → IdentifyEvent H → IdentifyProtocol H
  push_event m e = record m { events = m.events ++ (e ∷ []) }

  abbrev pub queue :
      IdentifyProtocol H × List (IdentifyAction H)
      → IdentifyProtocol H × Result (IdentifyError H) (Unit {0})
  queue (m, added) = (record m { actions = m.actions ++ added }, ok tt)

unfoldable pub without_stream : PeerIdentifyState → StreamId → PeerIdentifyState
without_stream state stream_id = record {
  outbound_stream =
      if is_stream state.outbound_stream stream_id then none else state.outbound_stream;
  inbound_streams = remove state.inbound_streams stream_id;
}

module _ {H : Type 0} ⦃m : Multihash H⦄ ⦃o : Order (PeerId H)⦄ where
  abbrev pub store : IdentifyProtocol H → PeerId H → PeerIdentifyState → IdentifyProtocol H
  store p peer_id state = record p { peers = insert p.peers peer_id state }

  abbrev opt_bytes : Option (Multiaddr H) → Option Bytes
  opt_bytes none = none
  opt_bytes (some addr) = some (Multiaddr.to_bytes addr)

  -- What a peer tells about itself.
  unfoldable pub own_message :
      IdentifyConfig → Option (Multiaddr H) → List (Multiaddr H) → IdentifyMessage
  own_message config observed_addr listen_addrs = record {
    protocol_version = some config.protocol_version;
    agent_version = some config.agent_version;
    public_key = some config.public_key;
    listen_addrs = map (λ addr. Multiaddr.to_bytes addr) listen_addrs;
    observed_addr = opt_bytes observed_addr;
    protocols = config.protocols;
  }

  unfoldable pub register_outbound_stream :
      IdentifyProtocol H
      → PeerId H
      → StreamId
      → Option (Multiaddr H)
      → List (Multiaddr H)
      → IdentifyProtocol H × Result (IdentifyError H) (List (IdentifyAction H))
  unfolding own_message
  register_outbound_stream p peer_id stream_id observed_addr listen_addrs =
      let state = or_else (get p.peers peer_id) default in
      if is_some state.outbound_stream
      then (store p peer_id state, err (stream_already_registered peer_id))
      else (
        store p peer_id (record state { outbound_stream = some stream_id }),
        ok (
            send peer_id stream_id (
              encode_length_prefixed
                (Message.encode (own_message p.config observed_addr listen_addrs)))
            ∷ close_stream_write peer_id stream_id
            ∷ []),
      )

  unfoldable pub register_inbound_stream :
      IdentifyProtocol H → PeerId H → StreamId → IdentifyProtocol H
  register_inbound_stream p peer_id stream_id =
      let state = or_else (get p.peers peer_id) default in
      let buf = or_else (get state.inbound_streams stream_id) [] in
      store p peer_id
        (record state { inbound_streams = insert state.inbound_streams stream_id buf })

  -- `if let Some(buf) = state.inbound_streams.get_mut(&stream_id)`.
  on_inbound :
      IdentifyProtocol H
      → PeerId H
      → StreamId
      → PeerIdentifyState
      → Option Bytes
      → Bytes
      → IdentifyProtocol H
  on_inbound p peer_id stream_id state none bytes = p
  on_inbound p peer_id stream_id state (some buf) bytes =
      let buf' = buf ++ bytes in
      if ltb max_message_size (length buf')
      then push_event
          (store p peer_id
            (record state { inbound_streams = remove state.inbound_streams stream_id }))
          (error peer_id stream_id (exceeds_maximum (length buf')))
      else store p peer_id
          (record state { inbound_streams = insert state.inbound_streams stream_id buf' })

  on_peer_data :
      IdentifyProtocol H
      → PeerId H
      → StreamId
      → Option PeerIdentifyState
      → Bytes
      → IdentifyProtocol H
  on_peer_data p peer_id stream_id none bytes = p
  on_peer_data p peer_id stream_id (some state) bytes =
      on_inbound p peer_id stream_id state (get state.inbound_streams stream_id) bytes

  unfoldable pub on_stream_data :
      IdentifyProtocol H
      → PeerId H
      → StreamId
      → Bytes
      → IdentifyProtocol H × List (IdentifyAction H)
  unfolding on_peer_data on_inbound
  on_stream_data p peer_id stream_id bytes =
      (on_peer_data p peer_id stream_id (get p.peers peer_id) bytes, [])

  abbrev decoded_event :
      PeerId H → StreamId → Result IdentifyMessageError IdentifyMessage → IdentifyEvent H
  decoded_event peer_id stream_id (ok info) = received peer_id info
  decoded_event peer_id stream_id (err e) = error peer_id stream_id (undecodable e)

  close_inbound :
      IdentifyProtocol H
      → PeerId H
      → StreamId
      → PeerIdentifyState
      → Option Bytes
      → IdentifyProtocol H × List (IdentifyAction H)
  close_inbound p peer_id stream_id state none = (p, [])
  close_inbound p peer_id stream_id state (some buf) = (
    push_event
        (store p peer_id
          (record state { inbound_streams = remove state.inbound_streams stream_id }))
        (decoded_event peer_id stream_id (decode_buf buf)),
    close_stream_write peer_id stream_id ∷ [],
  )

  close_peer_stream :
      IdentifyProtocol H
      → PeerId H
      → StreamId
      → Option PeerIdentifyState
      → IdentifyProtocol H × List (IdentifyAction H)
  close_peer_stream p peer_id stream_id none = (p, [])
  close_peer_stream p peer_id stream_id (some state) =
      close_inbound p peer_id stream_id state (get state.inbound_streams stream_id)

  unfoldable pub on_stream_remote_write_closed :
      IdentifyProtocol H → PeerId H → StreamId → IdentifyProtocol H × List (IdentifyAction H)
  unfolding close_peer_stream close_inbound
  on_stream_remote_write_closed p peer_id stream_id =
      close_peer_stream p peer_id stream_id (get p.peers peer_id)

  kept : IdentifyProtocol H → PeerId H → PeerIdentifyState → IdentifyProtocol H
  unfolding is_empty
  kept p peer_id state =
      if not (is_some state.outbound_stream) && is_empty state.inbound_streams
      then record p { peers = remove p.peers peer_id }
      else store p peer_id state

  close_stream :
      IdentifyProtocol H → PeerId H → StreamId → Option PeerIdentifyState → IdentifyProtocol H
  close_stream p peer_id stream_id none = p
  close_stream p peer_id stream_id (some state) = kept p peer_id (without_stream state stream_id)

  unfoldable pub on_stream_closed : IdentifyProtocol H → PeerId H → StreamId → IdentifyProtocol H
  unfolding close_stream kept without_stream
  on_stream_closed p peer_id stream_id = close_stream p peer_id stream_id (get p.peers peer_id)

  unfoldable pub remove_peer : IdentifyProtocol H → PeerId H → IdentifyProtocol H
  remove_peer p peer_id = record p { peers = remove p.peers peer_id }

  renamed : PeerId H → PeerId H → PeerId H → PeerId H
  renamed old new_id peer_id = if o.same peer_id old then new_id else peer_id

  rename_event : PeerId H → PeerId H → IdentifyEvent H → IdentifyEvent H
  unfolding renamed
  rename_event old new_id (received peer_id info) = received (renamed old new_id peer_id) info
  rename_event old new_id (error peer_id s e) = error (renamed old new_id peer_id) s e

  abbrev moved :
      Map (PeerId H) PeerIdentifyState → PeerId H → PeerId H → Map (PeerId H) PeerIdentifyState
  moved peers old new_id = elim (get peers old) [
    | none ↦ peers
    | some state ↦ insert (remove peers old) new_id state
  ]

  unfoldable pub migrate_peer : IdentifyProtocol H → PeerId H → PeerId H → IdentifyProtocol H
  unfolding rename_event
  migrate_peer p old new_id = if o.same old new_id then p else record p {
    peers = moved p.peers old new_id;
    events = map (rename_event old new_id) p.events;
  }

  abbrev queue_ok :
      IdentifyProtocol H × Result (IdentifyError H) (List (IdentifyAction H))
      → IdentifyProtocol H × Result (IdentifyError H) (Unit {0})
  queue_ok (p, err e) = (p, err e)
  queue_ok (p, ok added) = queue (p, added)

  unfoldable pub handle_input :
      IdentifyProtocol H
      → IdentifyInput H
      → IdentifyProtocol H × Result (IdentifyError H) (Unit {0})
  handle_input p (register_outbound peer_id stream_id observed_addr listen_addrs) =
      queue_ok (register_outbound_stream p peer_id stream_id observed_addr listen_addrs)
  handle_input p (register_inbound peer_id stream_id) =
      (register_inbound_stream p peer_id stream_id, ok tt)
  handle_input p (stream_data peer_id stream_id bytes) =
      queue (on_stream_data p peer_id stream_id bytes)
  handle_input p (stream_remote_write_closed peer_id stream_id) =
      queue (on_stream_remote_write_closed p peer_id stream_id)
  handle_input p (stream_closed peer_id stream_id) = (on_stream_closed p peer_id stream_id, ok tt)
  handle_input p (forget_peer peer_id) = (remove_peer p peer_id, ok tt)
  handle_input p (move_peer old new_id) = (migrate_peer p old new_id, ok tt)
