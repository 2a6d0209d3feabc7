-- ===== src/Connections/Examples.antt =====
-- p2p/libp2p/connectionsHandler.go: the theorems at concrete inputs, and runs of the code.
use drt_go_chain_communicati.Prelude.{
  Bool, false, List, [], ◌∷◌, ◌&&◌, some, ◌≡◌, refl, Bytes, bytes_eq, bytes_beq, ◌==◌,
  if◌then◌else◌,
}
use drt_go_chain_communicati.Prelude.Int.{pos}
use drt_go_chain_communicati.Monitor.{ConnectionMonitor}
use drt_go_chain_communicati.Sharding.{
  P2PPeerInfo, ListsSharder, validator_peer, observer_peer, unknown_peer, has,
}
use drt_go_chain_communicati.Connections.Info.Appending.{Balanced}
use drt_go_chain_communicati.Connections.Info.Balance.{get_connected_peers_info-Balanced}
use drt_go_chain_communicati.Connections.Info.{get_connected_peers_info}
use drt_go_chain_communicati.Connections.Peers.{NoRepeats, remote_peers, connected_peers_lem}
use drt_go_chain_communicati.Connections.{
  ConnectionsHandler, HostConn, connected_peers, connected_peers_loop, wait_for_connections,
  should_stop_waiting, max_time_over, interval_over,
}

-- Peer 1 is a validator of shard 0, peer 2 an observer of shard 1, every other one is unknown.
abbrev resolver : Bytes → P2PPeerInfo
resolver p =
    if p == 1 ∷ []
    then record { peer_type = validator_peer; shard_id = 0 }
    else (if p == 2 ∷ []
        then record { peer_type = observer_peer; shard_id = 1 }
        else record { peer_type = unknown_peer; shard_id = 0 })

abbrev sharder : ListsSharder
sharder = record {
  peer_shard_resolver = resolver;
  self_peer_id = 9 ∷ [];
  max_peer_count = 6;
  max_intra_shard_validators = 1;
  max_cross_shard_validators = 1;
  max_intra_shard_observers = 1;
  max_cross_shard_observers = 1;
  max_seeders = 1;
  max_unknown = 1;
  seeders = [];
  compute_distance = λ p q. 0;
  preferred_peers_holder = λ p. false;
}

abbrev monitor : ConnectionMonitor (List Bytes)
monitor = record {
  reconnecters = [];
  threshold_min_connected_peers = pos 1;
  sharder = record { compute_eviction_list = λ holder peers. [] };
  preferred_peers_holder = record {
    preferred_conn_addresses = [];
    conn_addr_to_peers_info = [];
    temp_peer_ids_waiting_for_shard = [];
    peer_ids_per_shard = [];
    peer_ids = [];
  };
  known_connections = [];
  network = [];
  peer_denial_evaluator = λ p. false;
}

abbrev handler : ConnectionsHandler (List Bytes)
handler = record {
  peer_shard_resolver = resolver;
  sharder = sharder;
  preferred_peers_holder = λ p. p == 1 ∷ [];
  conn_monitor = monitor;
  peer_discoverers = [];
  peer_id = 9 ∷ [];
  protocol_ids = [];
}

abbrev same_text : Bytes → Bytes
same_text p = p

abbrev one_address : Bytes → List Bytes
one_address p = (5 ∷ []) ∷ []

get_connected_peers_info-Balanced_example : Balanced 0 3 (
    get_connected_peers_info one_address same_text same_text handler
      ((1 ∷ []) ∷ (2 ∷ []) ∷ (3 ∷ []) ∷ []))
unfolding bytes_beq
get_connected_peers_info-Balanced_example =
    get_connected_peers_info-Balanced one_address same_text same_text handler
      ((1 ∷ []) ∷ (2 ∷ []) ∷ (3 ∷ []) ∷ [])

abbrev conn_to : Bytes → HostConn
conn_to p = record { remote_peer = p; remote_multiaddr = [] }

-- Peer 1 has two connections, and peer 2 is no more connected.
abbrev conns : List HostConn
conns = conn_to (1 ∷ []) ∷ conn_to (2 ∷ []) ∷ conn_to (1 ∷ []) ∷ []

abbrev is_first : Bytes → Bool
is_first p = p == 1 ∷ []

connected_peers_lem_example :
    NoRepeats (connected_peers is_first conns)
    × ((p : Bytes)
        → has p (connected_peers is_first conns) ≡ (has p (remote_peers conns) && is_first p))
connected_peers_lem_example = connected_peers_lem is_first conns

peers_once : connected_peers is_first conns ≡ (1 ∷ []) ∷ []
unfolding connected_peers connected_peers_loop has bytes_beq
peers_once = refl

waits_for_two :
    wait_for_connections 2 (interval_over 1 ∷ interval_over 2 ∷ max_time_over ∷ []) ≡ some 2
unfolding wait_for_connections should_stop_waiting
waits_for_two = refl
