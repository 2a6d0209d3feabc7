-- ===== src/Sharding/Factory/Examples.antt =====
-- p2p/libp2p/networksharding/factory/sharderFactory.go: runs of the code.
use drt_go_chain_communicati.Prelude.{
  false, [], ◌∷◌, some, ◌≡◌, refl, Bytes, bytes_beq, length, codes,
}
use drt_go_chain_communicati.Errors.{ok, err, invalid_value}
use drt_go_chain_communicati.Sharding.{unknown_peer}
use drt_go_chain_communicati.Sharding.Distance.{
  compute_distance_log2_based, common_bits, leading_zeros_count,
}
use drt_go_chain_communicati.Sharding.Factory.{
  ArgsSharderFactory, nil_list_sharder, sharder_of_type, new_sharder, nil_list_sharder_name,
}

abbrev args : Bytes → ArgsSharderFactory
args name = record {
  sharding_type = name;
  lists_args = record {
    peer_resolver = some (λ p. record { peer_type = unknown_peer; shard_id = 0 });
    self_peer_id = [];
    p2p_config = record {
      target_peer_count = 6;
      max_intra_shard_validators = 1;
      max_cross_shard_validators = 1;
      max_intra_shard_observers = 1;
      max_cross_shard_observers = 1;
      max_seeders = 1;
    };
    preferred_peers_holder = some (λ p. false);
    logger = some tt;
  };
}

nil_by_name : new_sharder (λ p q. length p) (args nil_list_sharder_name) ≡ ok nil_list_sharder
unfolding new_sharder sharder_of_type bytes_beq
nil_by_name = refl

unknown_name : new_sharder (λ p q. length p) (args (codes "other")) ≡ err invalid_value
unfolding new_sharder sharder_of_type bytes_beq
unknown_name = refl

-- The first 11 bits are common: 8 of the first byte and 3 of the second.
eleven_in_common : compute_distance_log2_based (λ p. p) (7 ∷ 16 ∷ 1 ∷ []) (7 ∷ 0 ∷ 5 ∷ []) ≡ 13
unfolding compute_distance_log2_based common_bits leading_zeros_count
eleven_in_common = refl
