-- ===== src/Sharding/Examples.antt =====
-- p2p/libp2p/networksharding/listsSharder.go: the theorems at concrete inputs, and runs of the code.
use mathlib.Core.List.{mem-cons_self}
use drt_go_chain_communicati.Prelude.{
  ℕ, ◌≤◌, not, false, List, [], ◌∷◌, some, ◌≡◌, refl, Bytes, bytes_eq, bytes_beq, length, keep_if,
  arith,
}
use drt_go_chain_communicati.Prelude.Int.{pos}
use drt_go_chain_communicati.Errors.{ok}
use drt_go_chain_communicati.Sharding.Sorting.{PeerDistance, evict}
use drt_go_chain_communicati.Sharding.InsertionSort.{insertion_sort, put, insertion_sort-SortLaws}
use drt_go_chain_communicati.Sharding.Distance.BitLength.{
  bits_of, xor_bytes, bit_length, AreBytes, compute_distance_log2_based-bit_length,
}
use drt_go_chain_communicati.Sharding.Distance.{
  leading_zeros_count, common_bits, compute_distance_log2_based, compute_distance_by_counting_bits,
  cumulated_bits, ones_count8, ones_count,
}
use drt_go_chain_communicati.Sharding.Evict.{Eviction, evict-Eviction}
use drt_go_chain_communicati.Sharding.Capacity.{
  new_lists_sharder-Fits, counted, compute_eviction_list-Within,
}
use drt_go_chain_communicati.Sharding.Remaining.{compute_eviction_list-keep_if}
use drt_go_chain_communicati.Sharding.Choice.{IsCandidate, compute_eviction_list-IsCandidate}
use drt_go_chain_communicati.Sharding.{
  unknown_peer, P2PPeerInfo, ArgListsSharder, ListsSharder, has, process_num_connections,
  new_lists_sharder, compute_used_and_spare, is_seeder, add_by_type, split_peer, split_loop,
  split_peer_ids, num_kept, evict_all, compute_eviction_list,
}

abbrev resolver : Bytes → P2PPeerInfo
resolver p = record { peer_type = unknown_peer; shard_id = 0 }

abbrev same_text : Bytes → Bytes
same_text p = p

abbrev distance : Bytes → Bytes → ℕ
distance = compute_distance_by_counting_bits same_text

abbrev arg : ArgListsSharder
arg = record {
  peer_resolver = some resolver;
  self_peer_id = 0 ∷ [];
  p2p_config = record {
    target_peer_count = 6;
    max_intra_shard_validators = 1;
    max_cross_shard_validators = 1;
    max_intra_shard_observers = 1;
    max_cross_shard_observers = 1;
    max_seeders = 1;
  };
  preferred_peers_holder = some (λ p. false);
  logger = some tt;
}

sharder : ListsSharder
sharder = record {
  peer_shard_resolver = resolver;
  self_peer_id = 0 ∷ [];
  max_peer_count = 6;
  max_intra_shard_validators = 1;
  max_cross_shard_validators = 1;
  max_intra_shard_observers = 1;
  max_cross_shard_observers = 1;
  max_seeders = 1;
  max_unknown = 1;
  seeders = [];
  compute_distance = distance;
  preferred_peers_holder = λ p. false;
}

sharder_made : new_lists_sharder distance arg ≡ ok sharder
unfolding new_lists_sharder process_num_connections sharder
sharder_made = refl

abbrev peers : List Bytes
peers = (1 ∷ []) ∷ (2 ∷ []) ∷ (3 ∷ []) ∷ (4 ∷ []) ∷ (5 ∷ []) ∷ (6 ∷ []) ∷ (7 ∷ []) ∷ []

-- Five of seven peers of unknown type stay: those that differ from the node in the fewest bits.
evicted_peers :
    compute_eviction_list same_text insertion_sort sharder peers ≡ (6 ∷ []) ∷ (7 ∷ []) ∷ []
unfolding compute_eviction_list split_peer_ids split_loop split_peer add_by_type is_seeder num_kept
    evict_all compute_used_and_spare sharder evict insertion_sort put
    compute_distance_by_counting_bits cumulated_bits ones_count8 ones_count bytes_beq
evicted_peers = refl

compute_eviction_list-keep_if_example :
    let gone = compute_eviction_list same_text insertion_sort sharder peers in
    (length (
        keep_if
          (counted same_text insertion_sort insertion_sort-SortLaws sharder)
          (keep_if (λ p. not (has p gone)) peers))
      ≤ 6)
unfolding sharder
compute_eviction_list-keep_if_example =
    compute_eviction_list-keep_if same_text insertion_sort insertion_sort-SortLaws sharder peers
      (new_lists_sharder-Fits distance arg sharder_made)

compute_eviction_list-Within_example :
    compute_eviction_list same_text insertion_sort sharder ((5 ∷ []) ∷ []) ≡ []
unfolding split_peer_ids split_loop split_peer add_by_type is_seeder sharder
compute_eviction_list-Within_example =
    compute_eviction_list-Within same_text insertion_sort insertion_sort-SortLaws sharder
      ((5 ∷ []) ∷ []) (omega arith, omega arith, omega arith, omega arith, omega arith, omega arith)

compute_eviction_list-IsCandidate_example :
    IsCandidate same_text insertion_sort insertion_sort-SortLaws sharder peers (6 ∷ [])
compute_eviction_list-IsCandidate_example =
    compute_eviction_list-IsCandidate same_text insertion_sort insertion_sort-SortLaws sharder peers
      (6 ∷ []) (rw evicted_peers mem-cons_self)

abbrev distances : List PeerDistance
distances =
    record { id = 1 ∷ []; distance = 9 }
    ∷ record { id = 2 ∷ []; distance = 4 }
    ∷ record { id = 3 ∷ []; distance = 7 }
    ∷ []

evict-Eviction_example : Eviction distances (pos 2) (evict insertion_sort distances (pos 2))
evict-Eviction_example = evict-Eviction insertion_sort insertion_sort-SortLaws distances (pos 2)

compute_distance_log2_based-bit_length_example :
    compute_distance_log2_based same_text (9 ∷ 2 ∷ []) (9 ∷ 34 ∷ [])
    ≡ bit_length (bits_of (xor_bytes (9 ∷ 2 ∷ []) (9 ∷ 34 ∷ [])))
unfolding AreBytes xor_bytes
compute_distance_log2_based-bit_length_example =
    compute_distance_log2_based-bit_length same_text (9 ∷ 2 ∷ []) (9 ∷ 34 ∷ []) refl
      (omega arith, (omega arith, tt))

log2_distance : compute_distance_log2_based same_text (9 ∷ 2 ∷ []) (9 ∷ 34 ∷ []) ≡ 6
unfolding compute_distance_log2_based common_bits leading_zeros_count
log2_distance = refl
