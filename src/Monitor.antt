-- ===== src/Monitor.antt =====
-- p2p/libp2p/connectionMonitor/libp2pConnectionMonitorSimple.go: the connection monitor.
-- The network, the sharder, the connections watcher and the denial evaluator are the monitor's
-- parameters, as its constructor takes them as interfaces. The preferred peers holder is the one
-- of PeersHolder; the sharder reads the same holder, so it gets its state.
pub mod Sweep
pub mod Connecting
pub mod Loop
mod Examples
use drt_go_chain_communicati.Prelude.{
  ℕ, Bool, true, false, not, ◌||◌, List, [], ◌∷◌, ◌++◌, Option, none, some, Bytes, length,
  if◌then◌else◌,
}
use drt_go_chain_communicati.Prelude.Int.{ℤ, pos, ltb_ℤ}
use drt_go_chain_communicati.Errors.{
  Error, Result, ok, err, ◌>>=◌, ◌>>◌, not_nil, nil_reconnecter, nil_sharder,
  nil_preferred_peers_holder, nil_connections_watcher, nil_network, nil_logger,
  nil_peer_denial_evaluator,
}
use drt_go_chain_communicati.PeersHolder.{PeersHolder, put_connection_address, remove}
use drt_go_chain_communicati.Network.{NetworkCalls, Conn}

-- A reconnecter is known by a number. `ComputeEvictionList` reads the preferred peers holder.
pub record Sharder : Type 0 where
  pub compute_eviction_list : PeersHolder → List Bytes → List Bytes

-- ArgsConnectionMonitorSimple; `none` is a nil interface.
pub record ArgsConnectionMonitorSimple (S : Type 0) : Type 0 where
  pub reconnecters : List (Option ℕ)
  pub threshold_min_connected_peers : ℕ
  pub sharder : Option Sharder
  pub preferred_peers_holder : Option PeersHolder
  pub connections_watcher : Option (Unit {0})
  pub network : Option S
  pub logger : Option (Unit {0})

pub record ConnectionMonitor (S : Type 0) : Type 0 where
  pub reconnecters : List ℕ
  pub threshold_min_connected_peers : ℤ
  pub sharder : Sharder
  pub preferred_peers_holder : PeersHolder
  pub known_connections : List (Bytes × Bytes)
  pub network : S
  pub peer_denial_evaluator : Bytes → Bool

pub check_reconnecters : List (Option ℕ) → Result (List ℕ)
check_reconnecters [] = ok []
check_reconnecters (r ∷ rest) = do
  reconnecter ← not_nil r nil_reconnecter
  checked ← check_reconnecters rest
  ok (reconnecter ∷ checked)

-- NewLibp2pConnectionMonitorSimple with its `checkArgs`; the disabled evaluator denies nobody.
pub new_connection_monitor :
    {S : Type 0} → ArgsConnectionMonitorSimple S → Result (ConnectionMonitor S)
new_connection_monitor args = do
  reconnecters ← check_reconnecters args.reconnecters
  sharder ← not_nil args.sharder nil_sharder
  holder ← not_nil args.preferred_peers_holder nil_preferred_peers_holder
  watcher ← not_nil args.connections_watcher nil_connections_watcher
  network ← not_nil args.network nil_network
  logger ← not_nil args.logger nil_logger
  ok (record {
    reconnecters = reconnecters;
    threshold_min_connected_peers = pos args.threshold_min_connected_peers;
    sharder = sharder;
    preferred_peers_holder = holder;
    known_connections = [];
    network = network;
    peer_denial_evaluator = λ p. false;
  })

pub set_peer_denial_evaluator :
    {S : Type 0} → ConnectionMonitor S → Option (Bytes → Bool) → Result (ConnectionMonitor S)
set_peer_denial_evaluator cm handler = do
  evaluator ← not_nil handler nil_peer_denial_evaluator
  ok (record cm { peer_denial_evaluator = evaluator })

module _ {S : Type 0} (calls : NetworkCalls S) where
  -- `for _, evictedPID := range evictedList { _ = netw.ClosePeer(evictedPID) }`.
  unfoldable pub close_peers : S → List Bytes → S
  close_peers s [] = s
  close_peers s (p ∷ rest) = close_peers (calls.close_peer s p) rest

  pub is_connected_to_the_network : ConnectionMonitor S → Bool
  is_connected_to_the_network cm =
      not (ltb_ℤ (pos (length (calls.peers cm.network))) cm.threshold_min_connected_peers)

  -- The second part tells whether `doReconn` is called; `none` is a panic of the holder.
  pub disconnected : ConnectionMonitor S → Option Conn → Option (ConnectionMonitor S × Bool)
  disconnected cm none = some (cm, not (is_connected_to_the_network cm))
  disconnected cm (some conn) = elim (remove cm.preferred_peers_holder conn.conn_id) [
    | none ↦ none
    | some holder ↦
        let after = record cm { preferred_peers_holder = holder } in
        some (after, not (is_connected_to_the_network after))
  ]

  -- `netw` is nil or the monitor's network; the second part tells whether `doReconn` is called.
  pub set_threshold_min_connected_peers :
      ConnectionMonitor S → ℤ → Bool → ConnectionMonitor S × Bool
  set_threshold_min_connected_peers cm threshold netw_is_nil =
      let after = record cm { threshold_min_connected_peers = threshold } in
      if netw_is_nil then (cm, false) else (after, not (is_connected_to_the_network after))

  pub close_denied : (Bytes → Bool) → S → List Bytes → S
  close_denied is_denied s [] = s
  close_denied is_denied s (p ∷ rest) =
      if is_denied p
      then close_denied is_denied (calls.close_peer s p) rest
      else close_denied is_denied s rest

  pub check_connections_blocking : ConnectionMonitor S → ConnectionMonitor S
  check_connections_blocking cm = record cm {
    network = close_denied cm.peer_denial_evaluator cm.network (calls.peers cm.network);
  }

  -- `conn.Close` of the connection that is refused, and `core.AllShardId`.
  module _ (close_conn : S → Conn → S) (all_shard_id : ℕ) where
    pub accept : ConnectionMonitor S → Conn → ConnectionMonitor S
    accept cm conn =
        let peer_id = conn.remote_peer in
        let holder =
          put_connection_address all_shard_id cm.preferred_peers_holder peer_id
            conn.remote_multiaddr in
        let evicted_list = cm.sharder.compute_eviction_list holder (calls.peers cm.network) in
        record cm {
          known_connections = cm.known_connections ++ (peer_id, conn.remote_multiaddr) ∷ [];
          preferred_peers_holder = holder;
          network = close_peers cm.network evicted_list;
        }

    pub connected : ConnectionMonitor S → Conn → ConnectionMonitor S
    connected cm conn =
        if cm.peer_denial_evaluator conn.remote_peer
        then record cm { network = close_conn cm.network conn }
        else accept cm conn
