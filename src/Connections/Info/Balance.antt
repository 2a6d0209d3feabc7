-- ===== src/Connections/Info/Balance.antt =====
-- p2p/libp2p/connectionsHandler.go: the counts and the lists of GetConnectedPeersInfo agree.
use drt_go_chain_communicati.Prelude.{
  ℕ, subst, ◌+◌, Bool, true, false, List, [], ◌∷◌, ◌≡◌, refl, Bytes, nat_eq, ◌==◌, ==_refl,
  ==_of_ne, eq_cases, lookup, length, keep_if, arith, Bool-cases, inl, inr, ◌⊎◌, if◌then◌else◌,
}
use drt_go_chain_communicati.PeersHolder.Maps.{get_list}
use drt_go_chain_communicati.Sharding.{
  PeerType, P2PPeerInfo, unknown_peer, validator_peer, observer_peer, other_peer, is_seeder,
}
use drt_go_chain_communicati.Sharding.Capacity.{is_known_type}
use drt_go_chain_communicati.Connections.{ConnectionsHandler}
use drt_go_chain_communicati.Connections.Info.{
  ConnectedPeersInfo, increment, empty_info, append_validator, append_observer, append_peer_info,
  conn_string, add_peer, peers_loop, get_connected_peers_info,
}
use drt_go_chain_communicati.Connections.Info.Appending.{
  Balanced, own_validator-Balanced, cross_validator-Balanced, own_observer-Balanced,
  cross_observer-Balanced, append_unknown-Balanced,
}

append_validator-Balanced :
    (self_shard peers shard : ℕ) (i : ConnectedPeersInfo) (conn : Bytes)
    → Balanced self_shard peers i
    → Balanced self_shard (peers + 1) (append_validator (self_shard == shard) shard i conn)
append_validator-Balanced self_shard peers shard i conn b = elim (eq_cases self_shard shard) [
  | inl same ↦ rw (← same, ==_refl self_shard) (own_validator-Balanced self_shard peers i conn b)
  | inr differ ↦
      rw (==_of_ne self_shard shard differ)
        (cross_validator-Balanced self_shard peers shard i conn differ b)
]

append_observer-Balanced :
    (self_shard peers shard : ℕ) (i : ConnectedPeersInfo) (conn : Bytes)
    → Balanced self_shard peers i
    → Balanced self_shard (peers + 1) (append_observer (self_shard == shard) shard i conn)
append_observer-Balanced self_shard peers shard i conn b = elim (eq_cases self_shard shard) [
  | inl same ↦ rw (← same, ==_refl self_shard) (own_observer-Balanced self_shard peers i conn b)
  | inr differ ↦
      rw (==_of_ne self_shard shard differ)
        (cross_observer-Balanced self_shard peers shard i conn differ b)
]

append_peer_info-Balanced :
    (seeder : Bool) (t : PeerType) (shard : ℕ) (self_info : P2PPeerInfo) (peers : ℕ)
    (i : ConnectedPeersInfo) (conn : Bytes)
    → Balanced self_info.shard_id peers i
    → Balanced self_info.shard_id
        (peers + (if is_known_type t then 1 else 0))
        (append_peer_info seeder (record { peer_type = t; shard_id = shard }) self_info i conn)
unfolding append_peer_info
append_peer_info-Balanced seeder unknown_peer shard self_info peers i conn b =
    append_unknown-Balanced seeder self_info.shard_id peers i conn b
append_peer_info-Balanced seeder validator_peer shard self_info peers i conn b =
    append_validator-Balanced self_info.shard_id peers shard i conn b
append_peer_info-Balanced seeder observer_peer shard self_info peers i conn b =
    append_observer-Balanced self_info.shard_id peers shard i conn b
append_peer_info-Balanced seeder (other_peer n) shard self_info peers i conn b =
    subst (λ count. Balanced self_info.shard_id count i) (omega arith) b

preferred-Balanced :
    (self_shard peers shard : ℕ) (preferred : Bool) (i : ConnectedPeersInfo)
    → Balanced self_shard peers i
    → Balanced self_shard peers (
        if preferred
        then (record i {
          num_preferred_peers_on_shard = increment shard i.num_preferred_peers_on_shard;
        })
        else i)
preferred-Balanced self_shard peers shard false i b = b
preferred-Balanced self_shard peers shard true i b = record {
  validators = b.validators;
  observers = b.observers;
  own_validators = b.own_validators;
  own_observers = b.own_observers;
  intra_validators = b.intra_validators;
  intra_observers = b.intra_observers;
  all_counted = b.all_counted;
}

module _ {S : Type 0} (conns_to_peer : Bytes → List Bytes) (peer_string pretty : Bytes → Bytes)
    (handler : ConnectionsHandler S) where
  abbrev pub self_shard : ℕ
  self_shard = (handler.peer_shard_resolver handler.peer_id).shard_id

  abbrev pub has_known_type : Bytes → Bool
  has_known_type p = is_known_type (handler.peer_shard_resolver p).peer_type

  abbrev add : ConnectedPeersInfo → Bytes → ConnectedPeersInfo
  add = add_peer conns_to_peer peer_string pretty handler

  add_peer-Balanced :
      (n : ℕ) (i : ConnectedPeersInfo) (p : Bytes)
      → Balanced self_shard n i
      → Balanced self_shard (n + (if has_known_type p then 1 else 0)) (add i p)
  unfolding add_peer
  add_peer-Balanced n i p b =
      preferred-Balanced self_shard _ (handler.peer_shard_resolver p).shard_id
        (handler.preferred_peers_holder p) _
        (append_peer_info-Balanced (is_seeder pretty handler.sharder.seeders p)
          (handler.peer_shard_resolver p).peer_type (handler.peer_shard_resolver p).shard_id
          (handler.peer_shard_resolver handler.peer_id) n i
          (conn_string conns_to_peer peer_string pretty p) b)

  peers_loop-Balanced :
      (peers : List Bytes) (i : ConnectedPeersInfo) (n all : ℕ)
      → n + length (keep_if has_known_type peers) ≡ all
      → Balanced self_shard n i
      → Balanced self_shard all (peers_loop conns_to_peer peer_string pretty handler i peers)
  unfolding peers_loop
  peers_loop-Balanced [] i n all sum b =
      subst (λ count. Balanced self_shard count i) (omega (arith, sum)) b
  peers_loop-Balanced (p ∷ peers) i n all sum b =
      peers_loop-Balanced peers (add i p) (n + (if has_known_type p then 1 else 0)) all
        (sum_of sum (Bool-cases (has_known_type p))) (add_peer-Balanced n i p b)
    where
      sum_of :
          n + length (keep_if has_known_type (p ∷ peers)) ≡ all
          → (has_known_type p ≡ true) ⊎ (has_known_type p ≡ false)
          → n + (if has_known_type p then 1 else 0) + length (keep_if has_known_type peers) ≡ all
      sum_of h (inl known) = rw known (omega (arith, rw known at h))
      sum_of h (inr other) = rw other (omega (arith, rw other at h))

  -- In what GetConnectedPeersInfo returns, the number of validators of each shard is that of the
  -- strings listed for it, in the lists of the own shard and of the other ones together, and the
  -- same of the observers; the lists of the own shard have strings of no other one, and their counts
  -- are those of the own shard; and the counts and the two other lists add up to the number of the
  -- given peers that are of a known type.
  pub get_connected_peers_info-Balanced :
      (peers : List Bytes)
      → Balanced self_shard
          (length (keep_if has_known_type peers))
          (get_connected_peers_info conns_to_peer peer_string pretty handler peers)
  unfolding get_connected_peers_info lookup get_list
  get_connected_peers_info-Balanced peers =
      peers_loop-Balanced peers (empty_info self_shard) 0 _ (omega arith) empty_balanced
    where
      empty_balanced : Balanced self_shard 0 (empty_info self_shard)
      empty_balanced = record {
        validators = λ s. refl;
        observers = λ s. refl;
        own_validators = refl;
        own_observers = refl;
        intra_validators = λ s h. refl;
        intra_observers = λ s h. refl;
        all_counted = refl;
      }
