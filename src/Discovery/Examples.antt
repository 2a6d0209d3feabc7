-- ===== src/Discovery/Examples.antt =====
-- p2p/libp2p/discovery/: the theorem at a concrete input, and runs of the code.
use mathlib.Core.List.{Mem}
use drt_go_chain_communicati.Prelude.{
  Bool, false, not, List, [], ◌∷◌, some, ◌≡◌, refl, Bytes, bytes_eq, bytes_beq, lookup, ◌==◌,
  length, keep_if,
}
use drt_go_chain_communicati.Prelude.Int.{pos}
use drt_go_chain_communicati.Errors.{ok, err, external, peer_discovery_process_already_started}
use drt_go_chain_communicati.Network.{NetworkCalls, NetworkLaws, Conn}
use drt_go_chain_communicati.PeersHolder.{PeersHolder, contains_peer}
use drt_go_chain_communicati.Sharding.{
  ListsSharder, observer_peer, is_seeder, has, compute_used_and_spare, add_by_type, split_peer,
  split_loop, split_peer_ids, num_kept, evict_all, compute_eviction_list,
}
use drt_go_chain_communicati.Sharding.Sorting.{evict}
use drt_go_chain_communicati.Sharding.InsertionSort.{insertion_sort}
use drt_go_chain_communicati.Monitor.{ConnectionMonitor, connected}
use drt_go_chain_communicati.Monitor.Connecting.{lists_sharder}
use drt_go_chain_communicati.Discovery.Host.{can_connect-connected}
use drt_go_chain_communicati.Discovery.{
  can_connect_to_peer, OptimizedKadDhtDiscoverer, Seeder, stat_not_initialized, stat_initialized,
  after_seeders_reconnection_interval, init, process_init, process_seeders_reconnect, find_peers,
  try_to_reconnect_at_least_to_a_seeder, seeders_loop, connect_to_seeder,
  create_ch_time_seeders_reconnect,
}

-- The network as the list of the connected peers.
abbrev calls : NetworkCalls (List Bytes)
calls = record { peers = λ s. s; close_peer = λ s p. keep_if (λ q. not (p == q)) s }

laws : NetworkLaws calls
laws = record { closes = λ s p. refl }

abbrev close_conn : List Bytes → Conn → List Bytes
close_conn s conn = s

abbrev same_text : Bytes → Bytes
same_text p = p

abbrev ls : ListsSharder
ls = record {
  peer_shard_resolver = λ p. record { peer_type = observer_peer; shard_id = 0 };
  self_peer_id = [];
  max_peer_count = 3;
  max_intra_shard_validators = 0;
  max_cross_shard_validators = 0;
  max_intra_shard_observers = 2;
  max_cross_shard_observers = 0;
  max_seeders = 0;
  max_unknown = 1;
  seeders = [];
  compute_distance = λ p q. length p;
  preferred_peers_holder = λ p. false;
}

abbrev holder : PeersHolder
holder = record {
  preferred_conn_addresses = [];
  conn_addr_to_peers_info = [];
  temp_peer_ids_waiting_for_shard = [];
  peer_ids_per_shard = [];
  peer_ids = [];
}

-- Peer 2 has come after peer 1.
abbrev cm : ConnectionMonitor (List Bytes)
cm = record {
  reconnecters = [];
  threshold_min_connected_peers = pos 1;
  sharder = lists_sharder same_text insertion_sort ls;
  preferred_peers_holder = holder;
  known_connections = [];
  network = (1 ∷ []) ∷ (2 ∷ []) ∷ [];
  peer_denial_evaluator = λ p. false;
}

abbrev conn : Conn
conn = record { remote_peer = 2 ∷ []; remote_multiaddr = 9 ∷ []; conn_id = 5 ∷ [] }

room_for_two :
    can_connect_to_peer (lists_sharder same_text insertion_sort ls) holder ((1 ∷ []) ∷ []) (2 ∷ [])
    ≡ ok tt
unfolding can_connect_to_peer compute_eviction_list split_peer_ids split_loop split_peer add_by_type
    num_kept evict_all compute_used_and_spare evict is_seeder has contains_peer bytes_beq lookup
room_for_two = refl

can_connect-connected_example : Mem (2 ∷ []) (connected calls close_conn 0 cm conn).network
unfolding has bytes_beq
can_connect-connected_example =
    can_connect-connected same_text insertion_sort calls laws close_conn 0 ls cm conn
      ((1 ∷ []) ∷ []) (2 ∷ []) refl refl room_for_two refl refl

abbrev discoverer : OptimizedKadDhtDiscoverer
discoverer = record {
  initial_peers_list = (1 ∷ []) ∷ (2 ∷ []) ∷ [];
  status = stat_not_initialized;
  seeders_timer = after_seeders_reconnection_interval;
  table_bootstraps = 0;
}

-- Only the seeder 2 can be reached.
abbrev seeder : Bytes → Seeder
seeder address = record {
  peer_info = some address;
  is_connected = address == 2 ∷ [];
  connect_result = err (external 0);
}

abbrev never : Bytes → Bool
never address = false

bootstrapped :
    process_init (external 1) seeder never (ok tt) discoverer
    ≡ (record discoverer { status = stat_initialized; table_bootstraps = 1 }, ok tt)
unfolding process_init process_seeders_reconnect init find_peers
    try_to_reconnect_at_least_to_a_seeder seeders_loop connect_to_seeder
    create_ch_time_seeders_reconnect bytes_beq
bootstrapped = refl

started_twice :
    (process_init
      (external 1)
      seeder
      never
      (ok tt)
      (process_init (external 1) seeder never (ok tt) discoverer).0).1
    ≡ err peer_discovery_process_already_started
unfolding process_init process_seeders_reconnect init find_peers
    try_to_reconnect_at_least_to_a_seeder seeders_loop connect_to_seeder
    create_ch_time_seeders_reconnect bytes_beq
started_twice = refl
