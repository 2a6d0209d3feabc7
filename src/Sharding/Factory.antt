-- ===== src/Sharding/Factory.antt =====
-- p2p/libp2p/networksharding/factory/sharderFactory.go and nilListSharder.go: the sharder that the
-- configuration names.
mod Examples
use drt_go_chain_communicati.Prelude.{
  ℕ, Bool, true, false, List, [], Option, none, some, Bytes, bytes_eq, ◌==◌, codes, if◌then◌else◌,
}
use drt_go_chain_communicati.Prelude.Int.{pos}
use drt_go_chain_communicati.Errors.{Result, ok, err, ◌>>=◌, not_nil, nil_logger, invalid_value}
use drt_go_chain_communicati.Sharding.{
  ListsSharder, ArgListsSharder, new_lists_sharder, P2PPeerInfo,
}
use drt_go_chain_communicati.Sharding.OneList.{OneListSharder, new_one_list_sharder}

-- The three values of p2p/constants.go.
abbrev pub lists_sharder_name : Bytes
lists_sharder_name = codes "ListsSharder"

abbrev pub one_list_sharder_name : Bytes
one_list_sharder_name = codes "OneListSharder"

abbrev pub nil_list_sharder_name : Bytes
nil_list_sharder_name = codes "NilListSharder"

-- p2p.Sharder, as the factory makes one.
pub data AnySharder : Type 0 where
  lists_sharder : ListsSharder → AnySharder
  one_list_sharder : OneListSharder → AnySharder
  nil_list_sharder : AnySharder

-- ArgsSharderFactory: the type of the sharder, and the arguments of the lists sharder.
pub record ArgsSharderFactory : Type 0 where
  pub sharding_type : Bytes
  pub lists_args : ArgListsSharder

-- The switch of NewSharder.
pub sharder_of_type : (Bytes → Bytes → ℕ) → ArgsSharderFactory → Result AnySharder
sharder_of_type compute_distance arg =
    if arg.sharding_type == lists_sharder_name
    then (new_lists_sharder compute_distance arg.lists_args >>= λ ls. ok (lists_sharder ls))
    else (if arg.sharding_type == one_list_sharder_name
        then (new_one_list_sharder compute_distance arg.lists_args.self_peer_id
              (pos arg.lists_args.p2p_config.target_peer_count)
            >>= λ ols. ok (one_list_sharder ols))
        else (if arg.sharding_type == nil_list_sharder_name
            then ok nil_list_sharder
            else err invalid_value))

pub new_sharder : (Bytes → Bytes → ℕ) → ArgsSharderFactory → Result AnySharder
new_sharder compute_distance arg =
    not_nil arg.lists_args.logger nil_logger >>= λ logger. sharder_of_type compute_distance arg

-- The methods of the nil sharder.
pub nil_compute_eviction_list : List Bytes → List Bytes
nil_compute_eviction_list pid_list = []

pub nil_has : Bytes → List Bytes → Bool
nil_has pid list = false

pub nil_set_peer_shard_resolver : Option (Bytes → P2PPeerInfo) → Result (Unit {0})
nil_set_peer_shard_resolver resolver = ok tt

pub nil_is_seeder : Bytes → Bool
nil_is_seeder pid = false
