-- ===== src/Monitor/Examples.antt =====
-- p2p/libp2p/connectionMonitor/libp2pConnectionMonitorSimple.go: the theorems at concrete inputs.
use mathlib.Core.List.{Mem, mem-cons_self, mem-cons_of_mem}
use drt_go_chain_communicati.Prelude.{
  ◌≤◌, ◌+◌, true, false, not, List, [], ◌∷◌, some, ◌≡◌, refl, Bytes, bytes_eq, bytes_beq, lookup,
  ◌==◌, length, keep_if, nat_eq, Bool-cases, inl, inr, some_injective, subst, get_elem?, ap,
  eq_of_==,
}
use drt_go_chain_communicati.Prelude.Int.{pos}
use drt_go_chain_communicati.Network.{NetworkCalls, NetworkLaws, Conn}
use drt_go_chain_communicati.PeersHolder.{PeersHolder, PeerIdData, contains_peer}
use drt_go_chain_communicati.PeersHolder.Invariant.{IsValid}
use drt_go_chain_communicati.PeersHolder.Maps.{get_list}
use drt_go_chain_communicati.Sharding.{ListsSharder, observer_peer, is_seeder}
use drt_go_chain_communicati.Sharding.InsertionSort.{insertion_sort, insertion_sort-SortLaws}
use drt_go_chain_communicati.Sharding.Capacity.{counted}
use drt_go_chain_communicati.Monitor.Sweep.{check_connections_blocking_lem}
use drt_go_chain_communicati.Monitor.Connecting.{
  with_holder, lists_sharder, connected_capacity, connected_kept, disconnected_lem,
}
use drt_go_chain_communicati.Monitor.Loop.{
  LoopEvent, LoopState, Run, run_start, run_step, step_reconnect, step_fires, step_reconnected,
  step_tick, reconnect_starts, timer_fires, reconnect_ends, tick_received, reconnecting,
  Run-throttled,
}
use drt_go_chain_communicati.Monitor.{
  ConnectionMonitor, check_connections_blocking, connected, disconnected,
}

-- The network as the list of the connected peers.
abbrev calls : NetworkCalls (List Bytes)
calls = record { peers = λ s. s; close_peer = λ s p. keep_if (λ q. not (p == q)) s }

laws : NetworkLaws calls
laws = record { closes = λ s p. refl }

abbrev close_conn : List Bytes → Conn → List Bytes
close_conn s conn = s

abbrev same_text : Bytes → Bytes
same_text p = p

-- Room for one intra-shard observer and one peer of unknown type.
abbrev ls : ListsSharder
ls = record {
  peer_shard_resolver = λ p. record { peer_type = observer_peer; shard_id = 0 };
  self_peer_id = [];
  max_peer_count = 2;
  max_intra_shard_validators = 0;
  max_cross_shard_validators = 0;
  max_intra_shard_observers = 1;
  max_cross_shard_observers = 0;
  max_seeders = 0;
  max_unknown = 1;
  seeders = [];
  compute_distance = λ p q. length p;
  preferred_peers_holder = λ p. false;
}

abbrev holder : PeersHolder
holder = record {
  preferred_conn_addresses = [];
  conn_addr_to_peers_info = [];
  temp_peer_ids_waiting_for_shard = [];
  peer_ids_per_shard = (0, (3 ∷ []) ∷ []) ∷ [];
  peer_ids = (3 ∷ [], record { connection_address = 7 ∷ []; shard_id = 0; index = 0 }) ∷ [];
}

abbrev cm : ConnectionMonitor (List Bytes)
cm = record {
  reconnecters = [];
  threshold_min_connected_peers = pos 4;
  sharder = lists_sharder same_text insertion_sort ls;
  preferred_peers_holder = holder;
  known_connections = [];
  network = (1 ∷ []) ∷ (2 ∷ []) ∷ (3 ∷ []) ∷ [];
  peer_denial_evaluator = λ p. p == (2 ∷ []);
}

abbrev conn : Conn
conn = record { remote_peer = 1 ∷ []; remote_multiaddr = 9 ∷ []; conn_id = 5 ∷ [] }

connected_capacity_example :
    length (
      keep_if
        (counted same_text insertion_sort insertion_sort-SortLaws
          (with_holder ls (connected calls close_conn 0 cm conn).preferred_peers_holder))
        (connected calls close_conn 0 cm conn).network)
    ≤ 2
unfolding bytes_beq
connected_capacity_example =
    connected_capacity calls laws close_conn 0 same_text insertion_sort insertion_sort-SortLaws ls
      cm conn refl refl refl

connected_kept_example : Mem (3 ∷ []) (connected calls close_conn 0 cm conn).network
unfolding contains_peer is_seeder lookup bytes_beq
connected_kept_example =
    connected_kept calls laws close_conn 0 same_text insertion_sort insertion_sort-SortLaws ls cm
      conn (3 ∷ []) refl refl (mem-cons_of_mem _ (mem-cons_of_mem _ mem-cons_self)) refl refl

abbrev preferred : PeerIdData
preferred = record { connection_address = 7 ∷ []; shard_id = 0; index = 0 }

holder-IsValid : IsValid holder
unfolding lookup get_list
holder-IsValid = record {
  indexed = λ p d h. elim (Bool-cases (3 ∷ [] == p)) [
    | inl same ↦
        let e : preferred ≡ d = some_injective (rw same at h) in
        subst (λ x. get_elem? (get_list x.shard_id holder.peer_ids_per_shard) x.index ≡ some p) e
          (ap some (eq_of_== (3 ∷ []) p same))
    | inr other ↦ cc (rw other at h)
  ];
  waits = λ p known h. cc;
}

-- The connection 5 of the preferred peer 3.
abbrev preferred_conn : Conn
preferred_conn = record { remote_peer = 3 ∷ []; remote_multiaddr = 7 ∷ []; conn_id = 5 ∷ [] }

disconnected_lem_example :
    (after : PeersHolder) × (disconnected calls cm (some preferred_conn)
      ≡ some (record cm { preferred_peers_holder = after }, true))
    × (contains_peer after (5 ∷ []) ≡ false)
    × (contains_peer after (3 ∷ []) ≡ contains_peer holder (3 ∷ []))
disconnected_lem_example =
    disconnected_lem calls cm preferred_conn (3 ∷ []) holder-IsValid (λ e. cc)

check_connections_blocking_lem_example :
    ((check_connections_blocking calls cm).network ≡ (1 ∷ []) ∷ (3 ∷ []) ∷ [])
    × (check_connections_blocking calls cm
        ≡ record cm { network = (check_connections_blocking calls cm).network })
unfolding bytes_beq
check_connections_blocking_lem_example = check_connections_blocking_lem calls laws cm

-- The timer of the start fires while the first attempt runs, so the next one may start at once.
abbrev events : List LoopEvent
events = reconnect_starts ∷ tick_received ∷ reconnect_ends ∷ timer_fires ∷ reconnect_starts ∷ []

abbrev after_second : LoopState
after_second = record {
  phase = reconnecting;
  can_reconnect = true;
  armed = true;
  tick_waits = false;
}

at_once : Run events after_second
at_once =
    run_step
      (run_step
        (run_step
          (run_step (run_step run_start (step_reconnect true false))
            (step_fires reconnecting true false))
          (step_reconnected true false true))
        (step_tick false true))
      (step_reconnect true false)

Run-throttled_example : (2 ≤ 1 + 1) × (1 ≤ 1 + 1)
Run-throttled_example = Run-throttled events after_second at_once
