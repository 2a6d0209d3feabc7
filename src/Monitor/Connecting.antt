-- ===== src/Monitor/Connecting.antt =====
-- p2p/libp2p/connectionMonitor/libp2pConnectionMonitorSimple.go with
-- p2p/libp2p/networksharding/listsSharder.go: `Connected` and `Disconnected` of a monitor whose
-- sharder is the lists sharder.
use mathlib.Core.List.{Mem, Memᴰ, Mem-prop, mem-cons_self, mem-cons_of_mem}
use mathlib.Core.Logic.{∥∥₁_elim}
use drt_go_chain_communicati.Prelude.{
  ℕ, ◌≤◌, Bool, true, false, not, List, [], ◌∷◌, some, ◌≡◌, ◌≢◌, refl, ◌∙◌, Bytes, bytes_eq, ◌==◌,
  length, keep_if, Bool-cases, inl, inr, eq_of_==,
}
use drt_go_chain_communicati.Prelude.Int.{pos, ltb_ℤ}
use drt_go_chain_communicati.Network.{NetworkCalls, NetworkLaws, Conn}
use drt_go_chain_communicati.PeersHolder.{
  PeersHolder, contains_peer, put_connection_address, remove,
}
use drt_go_chain_communicati.PeersHolder.Adding.{contains_peer-put_connection_address}
use drt_go_chain_communicati.PeersHolder.Removal.{remove-contains_peer}
use drt_go_chain_communicati.PeersHolder.Invariant.{IsValid}
use drt_go_chain_communicati.Sharding.{ListsSharder, has, is_seeder, compute_eviction_list}
use drt_go_chain_communicati.Sharding.Sorting.{PeerDistance, SortLaws}
use drt_go_chain_communicati.Sharding.Capacity.{Fits, counted}
use drt_go_chain_communicati.Sharding.Choice.{evictable, compute_eviction_list-IsCandidate}
use drt_go_chain_communicati.Sharding.Remaining.{compute_eviction_list-keep_if}
use drt_go_chain_communicati.Monitor.Sweep.{peers-close_peers}
use drt_go_chain_communicati.Monitor.{
  ConnectionMonitor, Sharder, accept, connected, disconnected, is_connected_to_the_network,
}

-- The lists sharder, on the preferred peers of a holder.
abbrev pub with_holder : ListsSharder → PeersHolder → ListsSharder
with_holder ls holder = record ls { preferred_peers_holder = contains_peer holder }

abbrev pub lists_sharder :
    (Bytes → Bytes) → (List PeerDistance → List PeerDistance) → ListsSharder → Sharder
lists_sharder pretty sort ls = record {
  compute_eviction_list = λ holder. compute_eviction_list pretty sort (with_holder ls holder);
}

not-not : (b : Bool) → not (not b) ≡ b
not-not true = refl
not-not false = refl

has-Mem : (p : Bytes) (ps : List Bytes) → has p ps ≡ true → Mem p ps
unfolding has
has-Mem p [] h = cc
has-Mem p (q ∷ ps) h = elim (Bool-cases (q == p)) [
  | inl same ↦ rw (eq_of_== q p same) mem-cons_self
  | inr other ↦ mem-cons_of_mem q (has-Mem p ps (rw other at h))
]

pub Mem-keep_if :
    (f : Bytes → Bool) (ps : List Bytes) (p : Bytes) → f p ≡ true → Mem p ps → Mem p (keep_if f ps)
Mem-keep_if f ps p h m = ∥∥₁_elim m Mem-prop (go ps)
  where
    go : (qs : List Bytes) → Memᴰ p qs → Mem p (keep_if f qs)
    go [] t = elim t [ ]
    go (q ∷ qs) (Memᴰ.head e) = let passes : f q ≡ true = rw e at h in rw (passes, e) mem-cons_self
    go (q ∷ qs) (Memᴰ.tail t) = elim (Bool-cases (f q)) [
      | inl passes ↦ rw passes (mem-cons_of_mem q (go qs t))
      | inr fails ↦ rw fails (go qs t)
    ]

module _ {S : Type 0} (calls : NetworkCalls S) (laws : NetworkLaws calls)
    (close_conn : S → Conn → S) (all_shard_id : ℕ) (pretty : Bytes → Bytes)
    (sort : List PeerDistance → List PeerDistance) where
  -- The peers that are left by Connected of a peer that is not denied, with a lists sharder.
  pub peers_after :
      (ls : ListsSharder) (cm : ConnectionMonitor S) (conn : Conn)
      → cm.sharder ≡ lists_sharder pretty sort ls
      → cm.peer_denial_evaluator conn.remote_peer ≡ false
      → let holder =
          put_connection_address all_shard_id cm.preferred_peers_holder conn.remote_peer
            conn.remote_multiaddr in
        (calls.peers (connected calls close_conn all_shard_id cm conn).network
          ≡ keep_if
              (λ q. not (
                has q (
                  compute_eviction_list pretty sort
                    (with_holder ls holder)
                    (calls.peers cm.network))))
              (calls.peers cm.network))
  unfolding connected accept
  peers_after ls cm conn s allowed = rw (allowed, peers-close_peers calls laws cm.network, s) refl

module _ {S : Type 0} (calls : NetworkCalls S) (laws : NetworkLaws calls)
    (close_conn : S → Conn → S) (all_shard_id : ℕ) (pretty : Bytes → Bytes)
    (sort : List PeerDistance → List PeerDistance) (sort_laws : SortLaws sort) where
  peers-accept :
      (cm : ConnectionMonitor S) (conn : Conn)
      → let after = accept calls close_conn all_shard_id cm conn in
        calls.peers after.network
        ≡ keep_if
            (λ q. not (
              has q (
                cm.sharder.compute_eviction_list after.preferred_peers_holder
                  (calls.peers cm.network))))
            (calls.peers cm.network)
  unfolding accept
  peers-accept cm conn = peers-close_peers calls laws cm.network _

  -- On a network that keeps the documented laws, with a lists sharder whose limits add up and a
  -- sort that permutes and sorts: after Connected of a peer that is not denied, at most the target
  -- number of the peers that count for the sharder is connected.
  pub connected_capacity :
      (ls : ListsSharder) (cm : ConnectionMonitor S) (conn : Conn)
      → Fits ls
      → cm.sharder ≡ lists_sharder pretty sort ls
      → cm.peer_denial_evaluator conn.remote_peer ≡ false
      → let after = connected calls close_conn all_shard_id cm conn in
        (length (
            keep_if
              (counted pretty sort sort_laws (with_holder ls after.preferred_peers_holder))
              (calls.peers after.network))
          ≤ ls.max_peer_count)
  unfolding connected accept
  connected_capacity ls cm conn fits s allowed =
      rw (allowed, peers-accept cm conn, s)
        (compute_eviction_list-keep_if pretty sort sort_laws
          (with_holder ls (accept calls close_conn all_shard_id cm conn).preferred_peers_holder)
          (calls.peers cm.network) fits)

  not_evicted :
      (ls : ListsSharder) (ps : List Bytes) (p : Bytes)
      → evictable pretty sort sort_laws ls p ≡ false
      → has p (compute_eviction_list pretty sort ls ps) ≡ false
  not_evicted ls ps p h = elim (Bool-cases (has p (compute_eviction_list pretty sort ls ps))) [
    | inl there ↦
        let v =
          compute_eviction_list-IsCandidate pretty sort sort_laws ls ps p (has-Mem p _ there) in
        cc (v.1)
    | inr absent ↦ absent
  ]

  -- On a network that keeps the documented laws, with a lists sharder and a sort that permutes and
  -- sorts: Connected of a peer that is not denied leaves every connected peer that is preferred,
  -- and no seeder, connected.
  pub connected_kept :
      (ls : ListsSharder) (cm : ConnectionMonitor S) (conn : Conn) (p : Bytes)
      → cm.sharder ≡ lists_sharder pretty sort ls
      → cm.peer_denial_evaluator conn.remote_peer ≡ false
      → Mem p (calls.peers cm.network)
      → contains_peer cm.preferred_peers_holder p ≡ true
      → is_seeder pretty ls.seeders p ≡ false
      → Mem p (calls.peers (connected calls close_conn all_shard_id cm conn).network)
  unfolding connected accept
  connected_kept ls cm conn p s allowed m preferred other =
      let holder =
        put_connection_address all_shard_id cm.preferred_peers_holder conn.remote_peer
          conn.remote_multiaddr in
      let still : contains_peer holder p ≡ true =
        contains_peer-put_connection_address all_shard_id cm.preferred_peers_holder conn.remote_peer
          conn.remote_multiaddr p
        ∙ preferred in
      let stays =
        not_evicted (with_holder ls holder) (calls.peers cm.network) p (rw (other, still) refl) in
      rw (allowed, peers-close_peers calls laws cm.network, s)
        (Mem-keep_if _ (calls.peers cm.network) p (rw stays refl) m)

module _ {S : Type 0} (calls : NetworkCalls S) where
  disconnected_with :
      (cm : ConnectionMonitor S) (conn : Conn) (holder : PeersHolder)
      → remove cm.preferred_peers_holder conn.conn_id ≡ some holder
      → disconnected calls cm (some conn)
        ≡ some (
          record cm { preferred_peers_holder = holder },
          ltb_ℤ (pos (length (calls.peers cm.network))) cm.threshold_min_connected_peers,
        )
  unfolding disconnected is_connected_to_the_network
  disconnected_with cm conn holder r = rw (r, disconnected) (rw (not-not _) refl)

  -- With a valid preferred peers holder, Disconnected does not panic; it takes the connection's own
  -- identifier out of the preferred peers, and leaves preferred each other peer that was, also the
  -- connection's remote peer when its peer ID is not this identifier; and it asks for a reconnection
  -- exactly if fewer peers than the threshold are connected.
  pub disconnected_lem :
      (cm : ConnectionMonitor S) (conn : Conn) (p : Bytes)
      → IsValid cm.preferred_peers_holder
      → conn.conn_id ≢ p
      → (holder : PeersHolder) × (disconnected calls cm (some conn)
          ≡ some (
            record cm { preferred_peers_holder = holder },
            ltb_ℤ (pos (length (calls.peers cm.network))) cm.threshold_min_connected_peers,
          ))
        × (contains_peer holder conn.conn_id ≡ false)
        × (contains_peer holder p ≡ contains_peer cm.preferred_peers_holder p)
  disconnected_lem cm conn p valid other =
      let (holder, r, gone, others) =
        remove-contains_peer cm.preferred_peers_holder conn.conn_id valid in
      (holder, disconnected_with cm conn holder r, gone, others p other)
