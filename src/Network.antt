-- ===== src/Network.antt =====
-- `network.Network` and `network.Conn` of go-libp2p, as far as p2p/libp2p uses them: the state of the
-- network is of any type, and its calls are the fields of an interface.
use drt_go_chain_communicati.Prelude.{◌≡◌, not, List, Bytes, bytes_eq, ◌==◌, keep_if}

pub record NetworkCalls (S : Type 0) : Type 0 where
  pub peers : S → List Bytes
  pub close_peer : S → Bytes → S

-- What the documentation of `network.Network` promises: ClosePeer closes the connection to a given
-- peer, and Peers are the peers that are connected.
pub record NetworkLaws {S : Type 0} (calls : NetworkCalls S) : Type 0 where
  pub closes :
      (s : S) (p : Bytes)
      → calls.peers (calls.close_peer s p) ≡ keep_if (λ q. not (p == q)) (calls.peers s)

-- `network.Conn`; `conn_id` is its method ID.
pub record Conn : Type 0 where
  pub remote_peer : Bytes
  pub remote_multiaddr : Bytes
  pub conn_id : Bytes
