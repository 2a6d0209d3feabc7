-- ===== src/Sharding.antt =====
-- p2p/libp2p/networksharding/listsSharder.go and oneListSharder.go: which connections to close.
-- `uint32` settings become Go's 64-bit `int`, where their sums do not wrap, so counts are numbers.
-- The shard resolver, the preferred peers and the text form of a peer ID are arguments.
pub mod Sorting
pub mod Evict
pub mod Distance
pub mod Capacity
pub mod Choice
pub mod OneList
pub mod Remaining
pub mod Factory
pub mod InsertionSort
mod Examples
use drt_go_chain_communicati.Prelude.{
  ℕ, ◌+◌, ◌-◌, Bool, true, false, List, [], ◌∷◌, ◌++◌, Option, none, some, Bytes, bytes_eq, ◌==◌,
  length, if◌then◌else◌, ltb, leb, nat_beq,
}
use drt_go_chain_communicati.Prelude.Int.{ℤ, pos, ltb_ℤ, negsuc}
use drt_go_chain_communicati.Prelude.Text.{contains}
use drt_go_chain_communicati.Errors.{
  Result, ok, err, ◌>>=◌, ◌>>◌, fail_if, not_nil, invalid_value, nil_peer_shard_resolver,
  nil_preferred_peers_holder, nil_logger,
}
use Sorting.{PeerDistance, evict}

-- core.P2PPeerType; the switches below know three of its values.
pub data PeerType : Type 0 where
  unknown_peer validator_peer observer_peer : PeerType
  other_peer : ℕ → PeerType

pub record P2PPeerInfo : Type 0 where
  pub peer_type : PeerType
  pub shard_id : ℕ

-- config.ShardingConfig.
pub record ShardingConfig : Type 0 where
  pub target_peer_count : ℕ
  pub max_intra_shard_validators : ℕ
  pub max_cross_shard_validators : ℕ
  pub max_intra_shard_observers : ℕ
  pub max_cross_shard_observers : ℕ
  pub max_seeders : ℕ

pub record PeersConnections : Type 0 where
  pub max_peer_count : ℕ
  pub intra_shard_validators : ℕ
  pub cross_shard_validators : ℕ
  pub intra_shard_observers : ℕ
  pub cross_shard_observers : ℕ
  pub seeders : ℕ
  pub unknown : ℕ

abbrev min_allowed_connected_peers_list_sharder : ℕ
min_allowed_connected_peers_list_sharder = 5

abbrev min_allowed_validators : ℕ
min_allowed_validators = 1

abbrev min_allowed_observers : ℕ
min_allowed_observers = 1

abbrev min_unknown_peers : ℕ
min_unknown_peers = 1

-- The number of peers of unknown type is what the other settings leave over.
pub process_num_connections : ShardingConfig → Result PeersConnections
process_num_connections c =
    let provided_peers =
      c.max_intra_shard_validators + c.max_cross_shard_validators + c.max_intra_shard_observers
      + c.max_cross_shard_observers + c.max_seeders in
    if ltb c.target_peer_count (provided_peers + min_unknown_peers)
    then err invalid_value
    else ok (record {
      max_peer_count = c.target_peer_count;
      intra_shard_validators = c.max_intra_shard_validators;
      cross_shard_validators = c.max_cross_shard_validators;
      intra_shard_observers = c.max_intra_shard_observers;
      cross_shard_observers = c.max_cross_shard_observers;
      seeders = c.max_seeders;
      unknown = c.target_peer_count - provided_peers;
    })

-- ArgListsSharder; `none` is a nil interface.
pub record ArgListsSharder : Type 0 where
  pub peer_resolver : Option (Bytes → P2PPeerInfo)
  pub self_peer_id : Bytes
  pub p2p_config : ShardingConfig
  pub preferred_peers_holder : Option (Bytes → Bool)
  pub logger : Option (Unit {0})

pub record ListsSharder : Type 0 where
  pub peer_shard_resolver : Bytes → P2PPeerInfo
  pub self_peer_id : Bytes
  pub max_peer_count : ℕ
  pub max_intra_shard_validators : ℕ
  pub max_cross_shard_validators : ℕ
  pub max_intra_shard_observers : ℕ
  pub max_cross_shard_observers : ℕ
  pub max_seeders : ℕ
  pub max_unknown : ℕ
  pub seeders : List Bytes
  pub compute_distance : Bytes → Bytes → ℕ
  pub preferred_peers_holder : Bytes → Bool

-- NewListsSharder; `compute_distance` is `computeDistanceByCountingBits`.
pub new_lists_sharder : (Bytes → Bytes → ℕ) → ArgListsSharder → Result ListsSharder
unfolding process_num_connections
new_lists_sharder compute_distance arg = do
  let c = arg.p2p_config
  resolver ← not_nil arg.peer_resolver nil_peer_shard_resolver
  fail_if (ltb c.target_peer_count min_allowed_connected_peers_list_sharder) invalid_value
  fail_if (ltb c.max_intra_shard_validators min_allowed_validators) invalid_value
  fail_if (ltb c.max_cross_shard_validators min_allowed_validators) invalid_value
  fail_if (ltb c.max_intra_shard_observers min_allowed_observers) invalid_value
  fail_if (ltb c.max_cross_shard_observers min_allowed_observers) invalid_value
  preferred ← not_nil arg.preferred_peers_holder nil_preferred_peers_holder
  _ ← not_nil arg.logger nil_logger
  peers_conn ← process_num_connections c
  ok (record {
    peer_shard_resolver = resolver;
    self_peer_id = arg.self_peer_id;
    max_peer_count = peers_conn.max_peer_count;
    max_intra_shard_validators = peers_conn.intra_shard_validators;
    max_cross_shard_validators = peers_conn.cross_shard_validators;
    max_intra_shard_observers = peers_conn.intra_shard_observers;
    max_cross_shard_observers = peers_conn.cross_shard_observers;
    max_seeders = peers_conn.seeders;
    max_unknown = peers_conn.unknown;
    seeders = [];
    compute_distance = compute_distance;
    preferred_peers_holder = preferred;
  })

-- How many of `existing` fit in `maximum`, and how much of it is left.
unfoldable pub compute_used_and_spare : ℕ → ℕ → ℕ × ℕ
compute_used_and_spare existing maximum =
    if ltb existing maximum then (existing, maximum - existing) else (maximum, 0)

unfoldable pub has : Bytes → List Bytes → Bool
has pid [] = false
has pid (p ∷ list) = if p == pid then true else has pid list

-- `IsSeeder`; `pretty` is `core.PeerID.Pretty`.
unfoldable pub is_seeder : (Bytes → Bytes) → List Bytes → Bytes → Bool
is_seeder pretty [] pid = false
is_seeder pretty (seeder ∷ seeders) pid =
    if contains seeder (pretty pid) then true else is_seeder pretty seeders pid

pub set_seeders : ListsSharder → List Bytes → ListsSharder
set_seeders ls addresses = record ls { seeders = addresses }

pub set_peer_shard_resolver : ListsSharder → Option (Bytes → P2PPeerInfo) → Result ListsSharder
set_peer_shard_resolver ls psp = do
  resolver ← not_nil psp nil_peer_shard_resolver
  ok (record ls { peer_shard_resolver = resolver })

-- The map of `splitPeerIds`, with its six keys.
pub record PeerLists : Type 0 where
  pub intra_validators : List PeerDistance
  pub intra_observers : List PeerDistance
  pub cross_validators : List PeerDistance
  pub cross_observers : List PeerDistance
  pub seeder_peers : List PeerDistance
  pub unknown_peers : List PeerDistance

abbrev pub no_peers : PeerLists
no_peers = record {
  intra_validators = [];
  intra_observers = [];
  cross_validators = [];
  cross_observers = [];
  seeder_peers = [];
  unknown_peers = [];
}

-- The two switches, on a peer that is no seeder, not preferred and of a known type.
unfoldable pub add_by_type : PeerType → Bool → PeerDistance → PeerLists → PeerLists
add_by_type validator_peer true pd l = record l { cross_validators = l.cross_validators ++ pd ∷ [] }
add_by_type observer_peer true pd l = record l { cross_observers = l.cross_observers ++ pd ∷ [] }
add_by_type validator_peer false pd l = record l {
  intra_validators = l.intra_validators ++ pd ∷ [];
}
add_by_type observer_peer false pd l = record l { intra_observers = l.intra_observers ++ pd ∷ [] }
add_by_type unknown_peer is_cross pd l = record l { unknown_peers = l.unknown_peers ++ pd ∷ [] }
add_by_type (other_peer n) is_cross pd l = l

module _ (pretty : Bytes → Bytes) (sort : List PeerDistance → List PeerDistance) where
  unfoldable pub split_peer : ListsSharder → PeerLists → Bytes → PeerLists
  split_peer ls l p =
      let pd : PeerDistance = record { id = p; distance = ls.compute_distance p ls.self_peer_id } in
      let info = ls.peer_shard_resolver p in
      let is_cross_shard =
        if nat_beq info.shard_id (ls.peer_shard_resolver ls.self_peer_id).shard_id
        then false
        else true in
      if is_seeder pretty ls.seeders p
      then record l { seeder_peers = l.seeder_peers ++ pd ∷ [] }
      else (if ls.preferred_peers_holder p
          then l
          else add_by_type info.peer_type is_cross_shard pd l)

  unfoldable pub split_loop : ListsSharder → PeerLists → List Bytes → PeerLists
  split_loop ls l [] = l
  split_loop ls l (p ∷ peers) = split_loop ls (split_peer ls l p) peers

  unfoldable pub split_peer_ids : ListsSharder → List Bytes → PeerLists
  split_peer_ids ls peers = split_loop ls no_peers peers

  -- How many peers of each list stay: each maximum is raised by what the lists before it left over,
  -- except that of the seeders.
  unfoldable pub num_kept : ListsSharder → PeerLists → PeersConnections
  num_kept ls l =
      let (intra_vals, r1) =
        compute_used_and_spare (length l.intra_validators) ls.max_intra_shard_validators in
      let (cross_vals, r2) =
        compute_used_and_spare (length l.cross_validators) (ls.max_cross_shard_validators + r1) in
      let (intra_obs, r3) =
        compute_used_and_spare (length l.intra_observers) (ls.max_intra_shard_observers + r2) in
      let (cross_obs, r4) =
        compute_used_and_spare (length l.cross_observers) (ls.max_cross_shard_observers + r3) in
      let (num_seeders, _s) = compute_used_and_spare (length l.seeder_peers) ls.max_seeders in
      let (num_unknown, _u) =
        compute_used_and_spare (length l.unknown_peers) (ls.max_unknown + r4) in
      record {
        max_peer_count = ls.max_peer_count;
        intra_shard_validators = intra_vals;
        cross_shard_validators = cross_vals;
        intra_shard_observers = intra_obs;
        cross_shard_observers = cross_obs;
        seeders = num_seeders;
        unknown = num_unknown;
      }

  unfoldable pub evict_all : PeersConnections → PeerLists → List Bytes
  evict_all n l =
      evict sort l.intra_validators (pos n.intra_shard_validators)
      ++ (evict sort l.cross_validators (pos n.cross_shard_validators)
          ++ (evict sort l.intra_observers (pos n.intra_shard_observers)
              ++ (evict sort l.cross_observers (pos n.cross_shard_observers)
                  ++ (evict sort l.seeder_peers (pos n.seeders)
                      ++ evict sort l.unknown_peers (pos n.unknown)))))

  unfoldable pub compute_eviction_list : ListsSharder → List Bytes → List Bytes
  compute_eviction_list ls pid_list =
      let l = split_peer_ids ls pid_list in evict_all (num_kept ls l) l
