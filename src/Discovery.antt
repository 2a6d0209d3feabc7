-- ===== src/Discovery.antt =====
-- p2p/libp2p/discovery/hostWithConnectionManagement.go and optimizedKadDhtDiscoverer.go: which peers
-- the host connects to, and the loop that finds peers.
-- The host, the Kademlia table and the context are arguments. The sharder is that of Monitor, which
-- reads the preferred peers holder.
pub mod Host
mod Examples
pub mod Continuous
use drt_go_chain_communicati.Prelude.{
  ℕ, suc, Bool, true, false, List, [], ◌∷◌, ◌++◌, Option, none, some, Bytes, length, nat_beq, ltb,
  if◌then◌else◌,
}
use drt_go_chain_communicati.Errors.{
  Error, Result, ok, err, ◌>>=◌, ◌>>◌, fail_if, not_nil, nil_host, nil_sharder,
  nil_connections_watcher, unwanted_peer, peer_discovery_process_already_started,
  invalid_seeders_reconnection_interval, nil_context, nil_logger, wrong_type_assertion,
  invalid_value,
}
use drt_go_chain_communicati.PeersHolder.{PeersHolder}
use drt_go_chain_communicati.Sharding.{ListsSharder, has, set_seeders}
use drt_go_chain_communicati.Monitor.{Sharder}

-- ArgsHostWithConnectionManagement, with the one field that matters after the tests.
pub new_host_with_connection_management :
    Option (Unit {0}) → Option Sharder → Option (Unit {0}) → Result Sharder
new_host_with_connection_management host sharder watcher = do
  h ← not_nil host nil_host
  s ← not_nil sharder nil_sharder
  w ← not_nil watcher nil_connections_watcher
  ok s

-- The text forms of the addresses, each with a space (32) after it.
pub concatenate_addresses : List Bytes → Bytes
concatenate_addresses [] = []
concatenate_addresses (address ∷ rest) = address ++ (32 ∷ concatenate_addresses rest)

-- `peers` are those of the network. `Has` of the lists sharder is `has`.
pub can_connect_to_peer : Sharder → PeersHolder → List Bytes → Bytes → Result (Unit {0})
can_connect_to_peer sharder holder peers pid =
    let all_peers = if has pid peers then peers else peers ++ pid ∷ [] in
    if has pid (sharder.compute_eviction_list holder all_peers) then err unwanted_peer else ok tt

-- What Connect tells the connections watcher, and its result, with that of the host's Connect.
pub connect :
    Sharder
    → PeersHolder
    → List Bytes
    → Result (Unit {0})
    → Bytes
    → List Bytes
    → (Bytes × Bytes) × Result (Unit {0})
connect sharder holder peers connected pid addresses = (
  (pid, concatenate_addresses addresses),
  can_connect_to_peer sharder holder peers pid >> connected,
)

pub data DiscovererStatus : Type 0 where
  stat_not_initialized stat_initialized : DiscovererStatus

-- What the loop waits for: when it tries the seeders again.
pub data SeedersTimer : Type 0 where
  after_seeders_reconnection_interval after_peers_refresh_interval : SeedersTimer

-- `table_bootstraps` counts the calls of Bootstrap of the Kademlia table.
pub record OptimizedKadDhtDiscoverer : Type 0 where
  pub initial_peers_list : List Bytes
  pub status : DiscovererStatus
  pub seeders_timer : SeedersTimer
  pub table_bootstraps : ℕ

-- ArgKadDht, with the fields that the constructor tests or keeps here. `none` is a nil interface; a
-- sharder that is not a discovery.Sharder is `none` inside. Intervals are in nanoseconds.
pub record ArgKadDht : Type 0 where
  pub context : Option (Unit {0})
  pub host : Option (Unit {0})
  pub kdd_sharder : Option (Option ListsSharder)
  pub connection_watcher : Option (Unit {0})
  pub peers_refresh_interval : ℕ
  pub routing_table_refresh : ℕ
  pub seeders_reconnection_interval : ℕ
  pub logger : Option (Unit {0})
  pub initial_peers : List Bytes

abbrev pub second : ℕ
second = 1000000000

pub prepare_arguments : ArgKadDht → Result ListsSharder
prepare_arguments arg = do
  ctx ← not_nil arg.context nil_context
  h ← not_nil arg.host nil_host
  any_sharder ← not_nil arg.kdd_sharder nil_sharder
  watcher ← not_nil arg.connection_watcher nil_connections_watcher
  sharder ← not_nil any_sharder wrong_type_assertion
  fail_if (ltb arg.peers_refresh_interval second) invalid_value
  fail_if (ltb arg.routing_table_refresh second) invalid_value
  log ← not_nil arg.logger nil_logger
  ok sharder

-- The second part is the sharder, which knows the seeders now. NewHostWithConnectionManagement tests
-- again what `prepare_arguments` has tested.
pub new_optimized_kad_dht_discoverer : ArgKadDht → Result (OptimizedKadDhtDiscoverer × ListsSharder)
new_optimized_kad_dht_discoverer arg = do
  sharder ← prepare_arguments arg
  fail_if (ltb arg.seeders_reconnection_interval second) invalid_seeders_reconnection_interval
  ok (
    record {
      initial_peers_list = arg.initial_peers;
      status = stat_not_initialized;
      seeders_timer = after_seeders_reconnection_interval;
      table_bootstraps = 0;
    },
    set_seeders sharder arg.initial_peers,
  )

-- With what `createKadDhtHandler` returns.
pub init :
    Result (Unit {0}) → OptimizedKadDhtDiscoverer → OptimizedKadDhtDiscoverer × Result (Unit {0})
init created okdd = elim okdd.status [
  | stat_initialized ↦ (okdd, err peer_discovery_process_already_started)
  | stat_not_initialized ↦ elim created [
    | err e ↦ (okdd, err e)
    | ok u ↦ (record okdd { status = stat_initialized }, ok tt)
  ]
]

-- A seeder as the host knows it: whether its address is one, whether it is connected, and what
-- Connect returns.
pub record Seeder : Type 0 where
  pub peer_info : Option Bytes
  pub is_connected : Bool
  pub connect_result : Result (Unit {0})

pub connect_to_seeder : Error → Seeder → Result (Unit {0})
connect_to_seeder bad_address seeder = elim seeder.peer_info [
  | none ↦ err bad_address
  | some info ↦ if seeder.is_connected then ok tt else seeder.connect_result
]

-- The loop over the seeders; `done` tells, after each of them, whether the context is done.
pub seeders_loop : Error → (Bytes → Seeder) → (Bytes → Bool) → Bool → List Bytes → Bool
seeders_loop bad_address seeder done connected [] = connected
seeders_loop bad_address seeder done connected (address ∷ rest) =
    let now_connected : Bool = elim (connect_to_seeder bad_address (seeder address)) [
      | err e ↦ connected
      | ok u ↦ true
    ] in
    let later = seeders_loop bad_address seeder done now_connected rest in
    if done address then true else later

pub try_to_reconnect_at_least_to_a_seeder :
    Error → (Bytes → Seeder) → (Bytes → Bool) → OptimizedKadDhtDiscoverer → Bool
try_to_reconnect_at_least_to_a_seeder bad_address seeder done okdd =
    let tried = seeders_loop bad_address seeder done false okdd.initial_peers_list in
    elim okdd.status [
      | stat_not_initialized ↦ false
      | stat_initialized ↦ if nat_beq (length okdd.initial_peers_list) 0 then true else tried
    ]

pub create_ch_time_seeders_reconnect : Bool → SeedersTimer
create_ch_time_seeders_reconnect true = after_seeders_reconnection_interval
create_ch_time_seeders_reconnect false = after_peers_refresh_interval

pub find_peers : OptimizedKadDhtDiscoverer → OptimizedKadDhtDiscoverer
find_peers okdd = elim okdd.status [
  | stat_not_initialized ↦ okdd
  | stat_initialized ↦ record okdd { table_bootstraps = suc okdd.table_bootstraps }
]

module _ (bad_address : Error) (seeder : Bytes → Seeder) (done : Bytes → Bool) where
  pub process_seeders_reconnect : OptimizedKadDhtDiscoverer → OptimizedKadDhtDiscoverer
  process_seeders_reconnect okdd = record okdd {
    seeders_timer =
        create_ch_time_seeders_reconnect
          (try_to_reconnect_at_least_to_a_seeder bad_address seeder done okdd);
  }

  -- The second part is what Bootstrap returns.
  pub process_init :
      Result (Unit {0}) → OptimizedKadDhtDiscoverer → OptimizedKadDhtDiscoverer × Result (Unit {0})
  process_init created okdd =
      let (next, result) = init created okdd in
      elim result [
        | err e ↦ (record next { seeders_timer = create_ch_time_seeders_reconnect false }, err e)
        | ok u ↦ (find_peers (process_seeders_reconnect next), ok tt)
      ]
