-- ===== src/Core/Tests.antt =====
-- The theorems on concrete addresses.
use minip2p.Prelude.{◌≡◌, ◌↔◌, refl, [], ◌∷◌, some, arith, replicate}
use minip2p.Prelude.Result.{ok}
use minip2p.Identity.PeerId.{IsPeerId, validate_multihash}
use minip2p.Identity.Sample.{SampleHash, sample_hash, sample-IsLawful, alice_id}
use minip2p.Core.Protocol.{ip4, udp, quic_v1, p2p}
use minip2p.Core.Multiaddr.{
  Multiaddr, from_protocols, encapsulate, decapsulate, to_bytes, from_bytes,
}
use minip2p.Core.Multiaddr.RoundTrip.{addr_from_bytes-to_bytes, decapsulate-encapsulate}
use minip2p.Core.PeerAddr.{PeerAddr, new, from_multiaddr, to_multiaddr}
use minip2p.Core.PeerAddr.Laws.{from_multiaddr_iff}
use minip2p.Core.Candidates.{select_direct_candidates}
use minip2p.Core.Candidates.Laws.{Accounts, offered, select-Accounts}

abbrev quic_addr : Multiaddr SampleHash
quic_addr = from_protocols (ip4 (10 ∷ 0 ∷ 0 ∷ 1 ∷ []) ∷ udp 4001 ∷ quic_v1 ∷ [])

abbrev wild_addr : Multiaddr SampleHash
wild_addr = from_protocols (ip4 (replicate 4 0) ∷ udp 4001 ∷ quic_v1 ∷ [])

abbrev alice_addr : PeerAddr SampleHash
alice_addr = record { transport = quic_addr; peer_id = alice_id }

alice-IsPeerId : IsPeerId alice_id
unfolding validate_multihash
alice-IsPeerId = refl

abbrev alice_multiaddr : Multiaddr SampleHash
alice_multiaddr =
    from_protocols (ip4 (10 ∷ 0 ∷ 0 ∷ 1 ∷ []) ∷ udp 4001 ∷ quic_v1 ∷ p2p alice_id ∷ [])

addr_from_bytes-to_bytes_example : from_bytes (to_bytes alice_multiaddr) ≡ ok alice_multiaddr
addr_from_bytes-to_bytes_example =
    addr_from_bytes-to_bytes sample-IsLawful alice_multiaddr
      (refl, (omega arith, (tt, (alice-IsPeerId, tt))))

from_multiaddr_iff_example :
    (from_multiaddr alice_multiaddr ≡ ok alice_addr)
    ↔ ((to_multiaddr alice_addr ≡ alice_multiaddr) × (new quic_addr alice_id ≡ ok alice_addr))
from_multiaddr_iff_example = from_multiaddr_iff alice_multiaddr alice_addr

decapsulate-encapsulate_example :
    decapsulate (encapsulate quic_addr alice_multiaddr) alice_multiaddr ≡ some quic_addr
decapsulate-encapsulate_example = decapsulate-encapsulate sample-IsLawful quic_addr alice_multiaddr

select-Accounts_example :
    Accounts
      (offered (quic_addr ∷ []) (some quic_addr) (some wild_addr))
      (select_direct_candidates (quic_addr ∷ []) (some quic_addr) (some wild_addr))
select-Accounts_example = select-Accounts (quic_addr ∷ []) (some quic_addr) (some wild_addr)
