-- ===== src/Discovery/Continuous/Examples.antt =====
-- p2p/libp2p/discovery/continuousKadDhtDiscoverer.go: the theorem at a concrete input, and runs of the
-- code.
use drt_go_chain_communicati.Prelude.{
  ℕ, Bool, true, false, List, [], ◌∷◌, some, ◌≡◌, refl, Bytes, bytes_eq, bytes_beq, ◌==◌, nat_beq,
  if◌then◌else◌,
}
use drt_go_chain_communicati.Errors.{
  Result, ok, err, external, peer_discovery_process_already_started,
}
use drt_go_chain_communicati.Discovery.Continuous.{
  ContinuousKadDhtDiscoverer, connected_to, context_done, start_dht, bootstrap_dht, stop_dht,
  try_connect_to_seeder, connect_to_one_peer_from_initial_peers_list,
}
use drt_go_chain_communicati.Discovery.Continuous.Seeders.{
  first_accepting, try_connect_to_seeder-first_accepting,
}

-- The first seeder accepts the fourth attempt only, the second never, the third always.
abbrev connect : ℕ → Bytes → Result (Unit {0})
connect attempt peer =
    if peer == 1 ∷ []
    then (if nat_beq attempt 3 then ok tt else err (external 1))
    else (if peer == 3 ∷ [] then ok tt else err (external 2))

abbrev seeders : List Bytes
seeders = (1 ∷ []) ∷ (2 ∷ []) ∷ (3 ∷ []) ∷ []

abbrev never : ℕ → Bool
never attempt = false

try_connect_to_seeder-first_accepting_example :
    try_connect_to_seeder connect never seeders 3 0 0 ≡ some (connected_to (3 ∷ []))
unfolding first_accepting bytes_beq
try_connect_to_seeder-first_accepting_example =
    try_connect_to_seeder-first_accepting connect never (λ attempt. refl) seeders (3 ∷ []) refl

-- The loop tries the two seeders in turn until the fourth attempt.
wraps_around :
    try_connect_to_seeder connect never ((2 ∷ []) ∷ (1 ∷ []) ∷ []) 4 0 0
    ≡ some (connected_to (1 ∷ []))
unfolding try_connect_to_seeder bytes_beq
wraps_around = refl

done_after_two :
    try_connect_to_seeder connect (λ attempt. nat_beq attempt 1) ((2 ∷ []) ∷ (1 ∷ []) ∷ []) 4 0 0
    ≡ some context_done
unfolding try_connect_to_seeder bytes_beq
done_after_two = refl

no_seeders : connect_to_one_peer_from_initial_peers_list connect never 0 [] ≡ true
unfolding connect_to_one_peer_from_initial_peers_list
no_seeders = refl

abbrev idle : ContinuousKadDhtDiscoverer
idle = record { peer_list = seeders; kad_dht = false; refresh_cancel = false }

abbrev running : ContinuousKadDhtDiscoverer
running = record { peer_list = seeders; kad_dht = true; refresh_cancel = true }

starts : bootstrap_dht (ok tt) (ok tt) idle ≡ (running, ok tt)
unfolding bootstrap_dht start_dht
starts = refl

starts_once :
    bootstrap_dht (ok tt) (ok tt) running ≡ (running, err peer_discovery_process_already_started)
unfolding bootstrap_dht start_dht
starts_once = refl

stops : stop_dht (ok tt) running ≡ (idle, ok tt)
unfolding stop_dht
stops = refl
