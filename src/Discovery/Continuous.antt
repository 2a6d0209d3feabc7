-- ===== src/Discovery/Continuous.antt =====
-- p2p/libp2p/discovery/continuousKadDhtDiscoverer.go: the discoverer that starts and stops a Kademlia
-- table, and the loop that connects to one of the seeders.
-- What the host answers to each attempt, and whether the context is done after it, are arguments.
pub mod Seeders
mod Examples
use drt_go_chain_communicati.Prelude.{
  ℕ, zero, suc, ◌+◌, ◌%◌, Bool, true, false, List, [], Option, none, some, Bytes, length, get_elem?,
  nat_beq, if◌then◌else◌,
}
use drt_go_chain_communicati.Errors.{Result, ok, err, ◌>>=◌, peer_discovery_process_already_started}
use drt_go_chain_communicati.Sharding.{ListsSharder, set_seeders}
use drt_go_chain_communicati.Discovery.{ArgKadDht, prepare_arguments}

-- `kad_dht` tells whether there is a table, `refresh_cancel` whether there is a cancel function.
pub record ContinuousKadDhtDiscoverer : Type 0 where
  pub peer_list : List Bytes
  pub kad_dht : Bool
  pub refresh_cancel : Bool

-- The second part is the sharder, which knows the seeders now.
pub new_continuous_kad_dht_discoverer :
    ArgKadDht → Result (ContinuousKadDhtDiscoverer × ListsSharder)
new_continuous_kad_dht_discoverer arg = do
  sharder ← prepare_arguments arg
  ok (
    record { peer_list = arg.initial_peers; kad_dht = false; refresh_cancel = false },
    set_seeders sharder arg.initial_peers,
  )

-- With the results of NewHostWithConnectionManagement and of `dht.New`.
pub start_dht :
    Result (Unit {0})
    → Result (Unit {0})
    → ContinuousKadDhtDiscoverer
    → ContinuousKadDhtDiscoverer × Result (Unit {0})
start_dht made_host made_dht ckdd = elim made_host [
  | err e ↦ (ckdd, err e)
  | ok h ↦ elim made_dht [
    | err e ↦ (ckdd, err e)
    | ok d ↦ (record ckdd { kad_dht = true; refresh_cancel = true }, ok tt)
  ]
]

pub bootstrap_dht :
    Result (Unit {0})
    → Result (Unit {0})
    → ContinuousKadDhtDiscoverer
    → ContinuousKadDhtDiscoverer × Result (Unit {0})
bootstrap_dht made_host made_dht ckdd =
    if ckdd.kad_dht
    then (ckdd, err peer_discovery_process_already_started)
    else start_dht made_host made_dht ckdd

-- With what Close of the table returns.
pub stop_dht :
    Result (Unit {0}) → ContinuousKadDhtDiscoverer → ContinuousKadDhtDiscoverer × Result (Unit {0})
stop_dht closed ckdd =
    if ckdd.refresh_cancel
    then (record ckdd { kad_dht = false; refresh_cancel = false }, closed)
    else (ckdd, ok tt)

-- How the loop over the seeders ends: connected to one of them, by the context, or by the panic of an
-- index.
pub data Ending : Type 0 where
  connected_to : Bytes → Ending
  context_done : Ending
  panicked : Ending

-- `attempt` counts the turns of the loop, and `none` is a loop that still runs after `fuel` turns.
pub try_connect_to_seeder :
    (ℕ → Bytes → Result (Unit {0})) → (ℕ → Bool) → List Bytes → ℕ → ℕ → ℕ → Option Ending
try_connect_to_seeder connect done peers zero attempt start_index = none
try_connect_to_seeder connect done peers (suc fuel) attempt start_index =
    let later =
      try_connect_to_seeder connect done peers fuel (attempt + 1)
        ((start_index + 1) % length peers) in
    elim (get_elem? peers start_index) [
      | none ↦ some panicked
      | some initial_peer ↦ elim (connect attempt initial_peer) [
        | ok u ↦ some (connected_to initial_peer)
        | err e ↦ if done attempt then some context_done else later
      ]
    ]

-- Whether the channel that is returned gets its value, within `fuel` attempts.
pub connect_to_one_peer_from_initial_peers_list :
    (ℕ → Bytes → Result (Unit {0})) → (ℕ → Bool) → ℕ → List Bytes → Bool
connect_to_one_peer_from_initial_peers_list connect done fuel peers =
    if nat_beq (length peers) 0
    then true
    else elim (try_connect_to_seeder connect done peers fuel 0 0) [
      | none ↦ false
      | some ending ↦ elim ending [
        | connected_to p ↦ true
        | context_done ↦ false
        | panicked ↦ false
      ]
    ]
