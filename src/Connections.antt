-- ===== src/Connections.antt =====
-- p2p/libp2p/connectionsHandler.go: the connections of the host, and what is known of the peers.
-- The host, its network and its peer store are arguments: their answers are lists and functions. The
-- sharder is the lists sharder of Sharding, the connection monitor that of Monitor.
pub mod Info
pub mod Peers
mod Examples
use drt_go_chain_communicati.Prelude.{
  ℕ, ◌+◌, Bool, true, false, not, List, [], ◌∷◌, ◌++◌, Option, none, some, Bytes, bytes_eq, nat_eq,
  Dict, lookup, insert, ◌==◌, length, codes, nat_beq, leb, if◌then◌else◌, map,
}
use drt_go_chain_communicati.Prelude.Int.{ℤ, pos, ltb_ℤ}
use drt_go_chain_communicati.Errors.{
  Error, Result, ok, err, ◌>>=◌, ◌>>◌, fail_if, not_nil, nil_host, nil_peers_on_channel,
  nil_peer_shard_resolver, nil_sharder, nil_preferred_peers_holder, nil_connection_monitor,
  nil_peer_discoverer, nil_connections_metric, nil_logger, invalid_value,
}
use drt_go_chain_communicati.PeersHolder.Maps.{get_list, is_some}
use drt_go_chain_communicati.Sharding.{
  PeerType, P2PPeerInfo, unknown_peer, validator_peer, observer_peer, other_peer, ListsSharder,
}
use drt_go_chain_communicati.Sharding
use drt_go_chain_communicati.Network.{NetworkCalls}
use drt_go_chain_communicati.Monitor.{ConnectionMonitor}
use drt_go_chain_communicati.Monitor

-- ArgConnectionsHandler; `none` is a nil interface.
pub record ArgConnectionsHandler (S : Type 0) : Type 0 where
  pub p2p_host : Option (Unit {0})
  pub peers_on_channel : Option (Unit {0})
  pub peer_shard_resolver : Option (Bytes → P2PPeerInfo)
  pub sharder : Option ListsSharder
  pub preferred_peers_holder : Option (Bytes → Bool)
  pub conn_monitor : Option (ConnectionMonitor S)
  pub peer_discoverers : List (Option ℕ)
  pub peer_id : Bytes
  pub connections_metric : Option (Unit {0})
  pub logger : Option (Unit {0})
  pub protocol_ids : List Bytes

-- `protocolIDs` is a set.
pub record ConnectionsHandler (S : Type 0) : Type 0 where
  pub peer_shard_resolver : Bytes → P2PPeerInfo
  pub sharder : ListsSharder
  pub preferred_peers_holder : Bytes → Bool
  pub conn_monitor : ConnectionMonitor S
  pub peer_discoverers : List ℕ
  pub peer_id : Bytes
  pub protocol_ids : List Bytes

abbrev pub kad_protocol : Bytes
kad_protocol = codes "/kad/1.0.0"

pub check_discoverers : List (Option ℕ) → Result (List ℕ)
check_discoverers [] = ok []
check_discoverers (d ∷ rest) = do
  discoverer ← not_nil d nil_peer_discoverer
  checked ← check_discoverers rest
  ok (discoverer ∷ checked)

-- NewConnectionsHandler, with its `checkArgConnectionsHandler`.
pub new_connections_handler : {S : Type 0} → ArgConnectionsHandler S → Result (ConnectionsHandler S)
new_connections_handler args = do
  host ← not_nil args.p2p_host nil_host
  poc ← not_nil args.peers_on_channel nil_peers_on_channel
  resolver ← not_nil args.peer_shard_resolver nil_peer_shard_resolver
  sharder ← not_nil args.sharder nil_sharder
  preferred ← not_nil args.preferred_peers_holder nil_preferred_peers_holder
  monitor ← not_nil args.conn_monitor nil_connection_monitor
  discoverers ← check_discoverers args.peer_discoverers
  metric ← not_nil args.connections_metric nil_connections_metric
  log ← not_nil args.logger nil_logger
  ok (record {
    peer_shard_resolver = resolver;
    sharder = sharder;
    preferred_peers_holder = preferred;
    conn_monitor = monitor;
    peer_discoverers = discoverers;
    peer_id = args.peer_id;
    protocol_ids = map (λ id. id ++ kad_protocol) args.protocol_ids;
  })

-- The last error of some results, after one so far.
pub last_error : Option Error → List (Option Error) → Option Error
last_error last [] = last
last_error last (none ∷ results) = last_error last results
last_error last (some e ∷ results) = last_error (some e) results

-- With what Bootstrap of each discoverer returns.
pub bootstrap : (ℕ → Option Error) → List ℕ → Option Error
bootstrap start discoverers = last_error none (map start discoverers)

-- With what Close of the peers on channel and of the connection monitor return.
pub close : Option Error → Option Error → Option Error
close err_poc err_conn_monitor = last_error none (err_poc ∷ err_conn_monitor ∷ [])

unfoldable pub any_in : List Bytes → List Bytes → Bool
any_in [] ids = false
any_in (p ∷ protocols) ids =
    let rest = any_in protocols ids in if Sharding.has p ids then true else rest

-- With the peer of the address and the protocols of the peer, where asking does not fail.
pub has_compatible_protocol_id :
    {S : Type 0}
    → (Bytes → Option Bytes)
    → (Bytes → Option (List Bytes))
    → ConnectionsHandler S
    → Bytes
    → Bool
has_compatible_protocol_id address_to_peer_info get_protocols handler address =
    elim (address_to_peer_info address) [
      | none ↦ false
      | some id ↦ elim (get_protocols id) [
        | none ↦ false
        | some protocols ↦ any_in protocols handler.protocol_ids
      ]
    ]

abbrev p2p_separator : Bytes
p2p_separator = codes "/p2p/"

pub addresses : (Bytes → Bytes) → List Bytes → Bytes → List Bytes
addresses pretty host_addresses peer_id =
    map (λ a. a ++ (p2p_separator ++ pretty peer_id)) host_addresses

-- A connection of the network, as far as the handler reads it.
pub record HostConn : Type 0 where
  pub remote_peer : Bytes
  pub remote_multiaddr : Bytes

pub connected_addresses : (Bytes → Bytes) → List HostConn → List Bytes
connected_addresses peer_string conns =
    map (λ c. c.remote_multiaddr ++ (p2p_separator ++ peer_string c.remote_peer)) conns

pub first_address : Bytes → List HostConn → List Bytes
first_address pid [] = []
first_address pid (c ∷ conns) =
    let rest = first_address pid conns in
    if c.remote_peer == pid then c.remote_multiaddr ∷ [] else rest

pub peer_addresses : List HostConn → (Bytes → List Bytes) → Bytes → List Bytes
peer_addresses conns peerstore_addrs pid = first_address pid conns ++ peerstore_addrs pid

-- The loop of ConnectedPeers; `added` is the set of the peers that it took.
pub connected_peers_loop : (Bytes → Bool) → List Bytes → List HostConn → List Bytes
connected_peers_loop is_connected added [] = []
connected_peers_loop is_connected added (c ∷ conns) =
    if is_connected c.remote_peer
    then (if Sharding.has c.remote_peer added
        then connected_peers_loop is_connected added conns
        else c.remote_peer ∷ connected_peers_loop is_connected (c.remote_peer ∷ added) conns)
    else connected_peers_loop is_connected added conns

pub connected_peers : (Bytes → Bool) → List HostConn → List Bytes
connected_peers is_connected conns = connected_peers_loop is_connected [] conns

-- What `shouldStopWaiting` sees: the end of the whole time, or of one interval, with the number of
-- the peers connected then.
pub data WaitEvent : Type 0 where
  max_time_over : WaitEvent
  interval_over : ℕ → WaitEvent

pub should_stop_waiting : ℕ → WaitEvent → Bool
should_stop_waiting min_num_of_peers max_time_over = true
should_stop_waiting min_num_of_peers (interval_over connected) = leb min_num_of_peers connected

-- `waitForConnections` over what it sees; how many events end it, or `none` where they do not.
pub wait_for_connections : ℕ → List WaitEvent → Option ℕ
wait_for_connections min_num_of_peers [] = none
wait_for_connections min_num_of_peers (e ∷ events) =
    let rest = wait_for_connections min_num_of_peers events in
    if should_stop_waiting min_num_of_peers e
    then some 1
    else elim rest [ none ↦ none | some n ↦ some (n + 1) ]

pub set_peer_shard_resolver :
    {S : Type 0}
    → ConnectionsHandler S
    → Option (Bytes → P2PPeerInfo)
    → Result (ConnectionsHandler S)
set_peer_shard_resolver handler peer_shard_resolver = do
  resolver ← not_nil peer_shard_resolver nil_peer_shard_resolver
  sharder ← Sharding.set_peer_shard_resolver handler.sharder (some resolver)
  ok (record handler { sharder = sharder; peer_shard_resolver = resolver })

-- The second part tells whether the monitor asks for a reconnection.
pub set_threshold_min_connected_peers :
    {S : Type 0} → NetworkCalls S → ConnectionsHandler S → ℤ → Result (ConnectionsHandler S × Bool)
set_threshold_min_connected_peers calls handler min_connected_peers =
    let (monitor, asks) =
      Monitor.set_threshold_min_connected_peers calls handler.conn_monitor min_connected_peers
        false in
    if ltb_ℤ min_connected_peers (pos 0)
    then err invalid_value
    else ok (record handler { conn_monitor = monitor }, asks)

pub set_peer_denial_evaluator :
    {S : Type 0} → ConnectionsHandler S → Option (Bytes → Bool) → Result (ConnectionsHandler S)
set_peer_denial_evaluator handler evaluator = do
  monitor ← Monitor.set_peer_denial_evaluator handler.conn_monitor evaluator
  ok (record handler { conn_monitor = monitor })
