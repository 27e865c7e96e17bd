-- ===== src/Dcutr/Flow.antt =====
-- crates/dcutr/src/lib.rs: what the two flows share (errors, the size limit, addresses as bytes).
use Prim.Native.String.{String}
use minip2p.Prelude.{ℕ, ◌≡◌, refl, ap, List, [], ◌∷◌, map, Option, All, ltb, if◌then◌else◌, length}
use minip2p.Prelude.Result.{Result, ok, err}
use minip2p.Varint.{Bytes}
use minip2p.Frame.{encode_frame}
use minip2p.Identity.PeerId.{Multihash, IsLawful}
use minip2p.Core.Protocol.{MultiaddrError}
use minip2p.Core.Multiaddr
use minip2p.Core.Multiaddr.{Multiaddr}
use minip2p.Core.Multiaddr.RoundTrip.{AllTyped, addr_from_bytes-to_bytes}
use minip2p.Dcutr.HolePunch
use minip2p.Dcutr.HolePunch.{HolePunch, DcutrMessageError}

abbrev pub max_message_size : ℕ
max_message_size = 4096

pub data DcutrError : Type 0 where
  message_too_large : (len : ℕ) → DcutrError
  malformed : DcutrMessageError → DcutrError
  unexpected_message : String → DcutrError

-- A handler returns the new state and a result; `none`: it panicked.
abbrev pub Handled : Type 0 → Type 0
Handled S = Option (S × Result DcutrError (Unit {0}))

unfoldable pub enforce_max_size : Bytes → Result DcutrError (Unit {0})
enforce_max_size buf =
    if ltb max_message_size (length buf) then err (message_too_large (length buf)) else ok tt

-- `encode_frame(&msg.encode())`.
abbrev pub frame_of : HolePunch → Bytes
frame_of msg = encode_frame (HolePunch.encode msg)

abbrev pub connect_with : List Bytes → HolePunch
connect_with addrs = record { kind = HolePunch.connect; obs_addrs = addrs }

abbrev pub sync_message : HolePunch
sync_message = record { kind = HolePunch.sync; obs_addrs = [] }

module _ {H : Type 0} ⦃m : Multihash H⦄ where
  unfoldable pub encode_multiaddr : Multiaddr H → Bytes
  encode_multiaddr addr = Multiaddr.to_bytes addr

  abbrev keep : Result MultiaddrError (Multiaddr H) → List (Multiaddr H) → List (Multiaddr H)
  keep (ok addr) addrs = addr ∷ addrs
  keep (err e) addrs = addrs

  unfoldable pub decode_remote_addrs : List Bytes → List (Multiaddr H)
  decode_remote_addrs [] = []
  decode_remote_addrs (bytes ∷ raw) = keep (Multiaddr.from_bytes bytes) (decode_remote_addrs raw)

  -- The addresses of a peer are read back, when their components are of their machine types.
  pub decode-encode_addrs :
      (l : IsLawful m) (addrs : List (Multiaddr H))
      → All AllTyped addrs
      → decode_remote_addrs (map encode_multiaddr addrs) ≡ addrs
  unfolding decode_remote_addrs encode_multiaddr
  decode-encode_addrs l [] t = refl
  decode-encode_addrs l (addr ∷ addrs) t =
      rw (addr_from_bytes-to_bytes l addr t.0) (ap (◌∷◌ addr) (decode-encode_addrs l addrs t.1))
