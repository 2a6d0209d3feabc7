-- ===== src/Discovery/Host.antt =====
-- p2p/libp2p/discovery/hostWithConnectionManagement.go with the connection monitor and the lists sharder:
-- a peer that the host may connect to is not closed when it is connected.
use mathlib.Core.Path.{fun_ext}
use mathlib.Core.List.{Mem, mem-append_right, mem-cons_self}
use drt_go_chain_communicati.Prelude.{
  ℕ, false, List, [], ◌∷◌, ◌++◌, ◌≡◌, refl, ap, Bytes, Bool-cases, inl, inr,
}
use drt_go_chain_communicati.Errors.{ok}
use drt_go_chain_communicati.Network.{NetworkCalls, NetworkLaws, Conn}
use drt_go_chain_communicati.PeersHolder.{PeersHolder, put_connection_address}
use drt_go_chain_communicati.PeersHolder.Adding.{contains_peer-put_connection_address}
use drt_go_chain_communicati.Sharding.{ListsSharder, has, compute_eviction_list}
use drt_go_chain_communicati.Sharding.Sorting.{PeerDistance}
use drt_go_chain_communicati.Monitor.Connecting.{
  with_holder, lists_sharder, peers_after, Mem-keep_if,
}
use drt_go_chain_communicati.Monitor.{ConnectionMonitor, connected}
use drt_go_chain_communicati.Discovery.{can_connect_to_peer}

module _ (pretty : Bytes → Bytes) (sort : List PeerDistance → List PeerDistance) where
  not_proposed :
      (ls : ListsSharder) (holder : PeersHolder) (peers : List Bytes) (pid : Bytes)
      → has pid peers ≡ false
      → can_connect_to_peer (lists_sharder pretty sort ls) holder peers pid ≡ ok tt
      → has pid (compute_eviction_list pretty sort (with_holder ls holder) (peers ++ pid ∷ []))
        ≡ false
  unfolding can_connect_to_peer
  not_proposed ls holder peers pid new allowed =
      elim (Bool-cases
        (has pid (compute_eviction_list pretty sort (with_holder ls holder) (peers ++ pid ∷ [])))) [
          | inl there ↦ cc (rw there at (rw (new, can_connect_to_peer) at allowed))
          | inr absent ↦ absent
        ]

  same_holder :
      (ls : ListsSharder) (all_shard_id : ℕ) (holder : PeersHolder) (peer_id address : Bytes)
      → with_holder ls (put_connection_address all_shard_id holder peer_id address)
        ≡ with_holder ls holder
  same_holder ls all_shard_id holder peer_id address =
      ap (λ contains. record ls { preferred_peers_holder = contains })
        (fun_ext (contains_peer-put_connection_address all_shard_id holder peer_id address))

  module _ {S : Type 0} (calls : NetworkCalls S) (laws : NetworkLaws calls)
      (close_conn : S → Conn → S) (all_shard_id : ℕ) where
    -- On a network that keeps the documented laws, with the lists sharder in the host and the
    -- monitor: when the host may connect to a peer that is not connected, and next the network has
    -- this peer after the others, Connected of a peer that is not denied leaves it connected.
    pub can_connect-connected :
        (ls : ListsSharder) (cm : ConnectionMonitor S) (conn : Conn) (peers : List Bytes)
        (pid : Bytes)
        → cm.sharder ≡ lists_sharder pretty sort ls
        → has pid peers ≡ false
        → can_connect_to_peer (lists_sharder pretty sort ls) cm.preferred_peers_holder peers pid
          ≡ ok tt
        → calls.peers cm.network ≡ peers ++ pid ∷ []
        → cm.peer_denial_evaluator conn.remote_peer ≡ false
        → Mem pid (calls.peers (connected calls close_conn all_shard_id cm conn).network)
    can_connect-connected ls cm conn peers pid s new allowed now admitted =
        let holder =
          put_connection_address all_shard_id cm.preferred_peers_holder conn.remote_peer
            conn.remote_multiaddr in
        let spared = not_proposed ls cm.preferred_peers_holder peers pid new allowed in
        rw
          (
            peers_after calls laws close_conn all_shard_id pretty sort ls cm conn s admitted,
            same_holder ls all_shard_id cm.preferred_peers_holder conn.remote_peer
                conn.remote_multiaddr,
            now,
          )
          (Mem-keep_if _ (peers ++ pid ∷ []) pid (rw spared refl)
            (mem-append_right peers mem-cons_self))
