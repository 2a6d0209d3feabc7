-- ===== src/Sharding/Capacity.antt =====
-- p2p/libp2p/networksharding/listsSharder.go: how many peers ComputeEvictionList leaves.
use drt_go_chain_communicati.Prelude.{
  empty_of_length, ℕ, ◌+◌, ◌-◌, ◌≤◌, Bool, true, false, List, [], ◌≡◌, Bytes, length, length-append,
  arith, ◌⊎◌, ◌||◌, not, ◌&&◌,
}
use drt_go_chain_communicati.Prelude.Int.{pos}
use drt_go_chain_communicati.Errors.{ok}
use drt_go_chain_communicati.Sharding.Sorting.{PeerDistance, SortLaws, evict}
use drt_go_chain_communicati.Sharding.Evict.{evict-Eviction}
use drt_go_chain_communicati.Sharding.{
  ListsSharder, ArgListsSharder, PeersConnections, PeerLists, PeerType, unknown_peer,
  validator_peer, observer_peer, other_peer, new_lists_sharder, compute_used_and_spare, is_seeder,
  split_peer_ids, num_kept, evict_all, compute_eviction_list,
}

-- The six limits add up to the target number of peers.
abbrev pub Fits : ListsSharder → Type 0
Fits ls =
    ls.max_intra_shard_validators + ls.max_cross_shard_validators + ls.max_intra_shard_observers
      + ls.max_cross_shard_observers + ls.max_seeders + ls.max_unknown
    ≡ ls.max_peer_count

-- In a sharder that NewListsSharder returned, the six limits add up to the target number of peers.
pub new_lists_sharder-Fits :
    (compute_distance : Bytes → Bytes → ℕ) (arg : ArgListsSharder) {ls : ListsSharder}
    → new_lists_sharder compute_distance arg ≡ ok ls
    → Fits ls
unfolding new_lists_sharder
new_lists_sharder-Fits compute_distance arg h = ground arith

abbrev pub total : PeerLists → ℕ
total l =
    length l.intra_validators
    + length l.cross_validators
    + length l.intra_observers
    + length l.cross_observers
    + length l.seeder_peers
    + length l.unknown_peers

abbrev pub is_known_type : PeerType → Bool
is_known_type (other_peer n) = false
is_known_type unknown_peer = true
is_known_type validator_peer = true
is_known_type observer_peer = true

used_and_spare :
    (e m : ℕ)
    → let (u, r) = compute_used_and_spare e m in (u + r ≡ m) × (u ≤ e) × ((u ≡ e) ⊎ (u ≡ m))
unfolding compute_used_and_spare
used_and_spare e m = ground arith

module _ (pretty : Bytes → Bytes) (sort : List PeerDistance → List PeerDistance)
    (laws : SortLaws sort) where
  length-evict : (ds : List PeerDistance) (n : ℕ) → length (evict sort ds (pos n)) ≡ length ds - n
  length-evict ds n = (evict-Eviction sort laws ds (pos n)).count

  length-evict_all :
      (n : PeersConnections) (l : PeerLists)
      → length (evict_all pretty sort n l)
        ≡ (length l.intra_validators - n.intra_shard_validators)
          + (length l.cross_validators - n.cross_shard_validators)
          + (length l.intra_observers - n.intra_shard_observers)
          + (length l.cross_observers - n.cross_shard_observers)
          + (length l.seeder_peers - n.seeders)
          + (length l.unknown_peers - n.unknown)
  unfolding evict_all
  length-evict_all n l = omega (arith, length-append {0}, length-evict)

  -- In a sharder whose limits add up, at most the target number of the listed peers is left.
  pub evict_all_capacity :
      (ls : ListsSharder) (l : PeerLists)
      → Fits ls
      → let evicted = length (evict_all pretty sort (num_kept pretty sort ls l) l) in
        (total l ≤ evicted + ls.max_peer_count)
  unfolding num_kept
  evict_all_capacity ls l fits =
      let (u1, r1) =
        compute_used_and_spare (length l.intra_validators) ls.max_intra_shard_validators in
      let (u2, r2) =
        compute_used_and_spare (length l.cross_validators) (ls.max_cross_shard_validators + r1) in
      let (u3, r3) =
        compute_used_and_spare (length l.intra_observers) (ls.max_intra_shard_observers + r2) in
      let (u4, r4) =
        compute_used_and_spare (length l.cross_observers) (ls.max_cross_shard_observers + r3) in
      omega (
        arith,
        length-evict_all (num_kept pretty sort ls l) l,
        used_and_spare (length l.intra_validators) ls.max_intra_shard_validators,
        used_and_spare (length l.cross_validators) (ls.max_cross_shard_validators + r1),
        used_and_spare (length l.intra_observers) (ls.max_intra_shard_observers + r2),
        used_and_spare (length l.cross_observers) (ls.max_cross_shard_observers + r3),
        used_and_spare (length l.seeder_peers) ls.max_seeders,
        used_and_spare (length l.unknown_peers) (ls.max_unknown + r4),
      )

  -- Each list within its own limit.
  abbrev pub Within : ListsSharder → PeerLists → Type 0
  Within ls l =
      (length l.intra_validators ≤ ls.max_intra_shard_validators)
      × (length l.cross_validators ≤ ls.max_cross_shard_validators)
      × (length l.intra_observers ≤ ls.max_intra_shard_observers)
      × (length l.cross_observers ≤ ls.max_cross_shard_observers)
      × (length l.seeder_peers ≤ ls.max_seeders)
      × (length l.unknown_peers ≤ ls.max_unknown)

  evict_all-Within :
      (ls : ListsSharder) (l : PeerLists)
      → Within ls l
      → length (evict_all pretty sort (num_kept pretty sort ls l) l) ≡ 0
  unfolding num_kept
  evict_all-Within ls l w =
      let (u1, r1) =
        compute_used_and_spare (length l.intra_validators) ls.max_intra_shard_validators in
      let (u2, r2) =
        compute_used_and_spare (length l.cross_validators) (ls.max_cross_shard_validators + r1) in
      let (u3, r3) =
        compute_used_and_spare (length l.intra_observers) (ls.max_intra_shard_observers + r2) in
      let (u4, r4) =
        compute_used_and_spare (length l.cross_observers) (ls.max_cross_shard_observers + r3) in
      omega (
        arith,
        length-evict_all (num_kept pretty sort ls l) l,
        used_and_spare (length l.intra_validators) ls.max_intra_shard_validators,
        used_and_spare (length l.cross_validators) (ls.max_cross_shard_validators + r1),
        used_and_spare (length l.intra_observers) (ls.max_intra_shard_observers + r2),
        used_and_spare (length l.cross_observers) (ls.max_cross_shard_observers + r3),
        used_and_spare (length l.seeder_peers) ls.max_seeders,
        used_and_spare (length l.unknown_peers) (ls.max_unknown + r4),
      )

  -- Whether `splitPeerIds` puts a peer in one of its lists.
  abbrev pub counted : ListsSharder → Bytes → Bool
  counted ls p =
      is_seeder pretty ls.seeders p
      || (not (ls.preferred_peers_holder p) && is_known_type (ls.peer_shard_resolver p).peer_type)

  -- With a sort that permutes and sorts, ComputeEvictionList proposes nobody while each of the six
  -- lists of peers is within its own limit.
  pub compute_eviction_list-Within :
      (ls : ListsSharder) (pid_list : List Bytes)
      → Within ls (split_peer_ids pretty sort ls pid_list)
      → compute_eviction_list pretty sort ls pid_list ≡ []
  unfolding compute_eviction_list
  compute_eviction_list-Within ls pid_list w =
      empty_of_length _ (evict_all-Within ls (split_peer_ids pretty sort ls pid_list) w)
