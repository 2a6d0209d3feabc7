-- ===== src/Connections/Info.antt =====
-- p2p/libp2p/connectionsHandler.go: GetConnectedPeersInfo and `appendPeerInfo`.
pub mod Appending
pub mod Balance
use drt_go_chain_communicati.Prelude.{
  ℕ, ◌+◌, Bool, true, false, List, [], ◌∷◌, ◌++◌, Option, none, some, Bytes, nat_eq, Dict, lookup,
  insert, codes, nat_beq, if◌then◌else◌,
}
use drt_go_chain_communicati.PeersHolder.Maps.{get_list}
use drt_go_chain_communicati.Sharding.{
  PeerType, P2PPeerInfo, unknown_peer, validator_peer, observer_peer, other_peer, is_seeder,
}
use drt_go_chain_communicati.Connections.{ConnectionsHandler}

-- p2p.ConnectedPeersInfo.
pub record ConnectedPeersInfo : Type 0 where
  pub self_shard_id : ℕ
  pub unknown_peers : List Bytes
  pub seeders : List Bytes
  pub intra_shard_validators : Dict ℕ (List Bytes)
  pub intra_shard_observers : Dict ℕ (List Bytes)
  pub cross_shard_validators : Dict ℕ (List Bytes)
  pub cross_shard_observers : Dict ℕ (List Bytes)
  pub num_observers_on_shard : Dict ℕ ℕ
  pub num_validators_on_shard : Dict ℕ ℕ
  pub num_preferred_peers_on_shard : Dict ℕ ℕ
  pub num_intra_shard_validators : ℕ
  pub num_intra_shard_observers : ℕ
  pub num_cross_shard_validators : ℕ
  pub num_cross_shard_observers : ℕ

abbrev pub or_zero : Option ℕ → ℕ
or_zero none = 0
or_zero (some n) = n

-- `m[key]++`.
pub increment : ℕ → Dict ℕ ℕ → Dict ℕ ℕ
increment key m = insert key (or_zero (lookup key m) + 1) m

-- `m[key] = append(m[key], value)`.
pub append_at : ℕ → Bytes → Dict ℕ (List Bytes) → Dict ℕ (List Bytes)
append_at key value m = insert key (get_list key m ++ value ∷ []) m

abbrev pub empty_info : ℕ → ConnectedPeersInfo
empty_info self_shard_id = record {
  self_shard_id = self_shard_id;
  unknown_peers = [];
  seeders = [];
  intra_shard_validators = [];
  intra_shard_observers = [];
  cross_shard_validators = [];
  cross_shard_observers = [];
  num_observers_on_shard = [];
  num_validators_on_shard = [];
  num_preferred_peers_on_shard = [];
  num_intra_shard_validators = 0;
  num_intra_shard_observers = 0;
  num_cross_shard_validators = 0;
  num_cross_shard_observers = 0;
}

-- The cases of the switch; the Boolean tells whether the peer is a seeder, or is of the same shard.
pub append_unknown : Bool → ConnectedPeersInfo → Bytes → ConnectedPeersInfo
append_unknown true i conn = record i { seeders = i.seeders ++ conn ∷ [] }
append_unknown false i conn = record i { unknown_peers = i.unknown_peers ++ conn ∷ [] }

pub append_validator : Bool → ℕ → ConnectedPeersInfo → Bytes → ConnectedPeersInfo
append_validator false shard i conn = record i {
  num_validators_on_shard = increment shard i.num_validators_on_shard;
  cross_shard_validators = append_at shard conn i.cross_shard_validators;
  num_cross_shard_validators = i.num_cross_shard_validators + 1;
}
append_validator true shard i conn = record i {
  num_validators_on_shard = increment shard i.num_validators_on_shard;
  intra_shard_validators = append_at shard conn i.intra_shard_validators;
  num_intra_shard_validators = i.num_intra_shard_validators + 1;
}

pub append_observer : Bool → ℕ → ConnectedPeersInfo → Bytes → ConnectedPeersInfo
append_observer false shard i conn = record i {
  num_observers_on_shard = increment shard i.num_observers_on_shard;
  cross_shard_observers = append_at shard conn i.cross_shard_observers;
  num_cross_shard_observers = i.num_cross_shard_observers + 1;
}
append_observer true shard i conn = record i {
  num_observers_on_shard = increment shard i.num_observers_on_shard;
  intra_shard_observers = append_at shard conn i.intra_shard_observers;
  num_intra_shard_observers = i.num_intra_shard_observers + 1;
}

pub append_peer_info :
    Bool → P2PPeerInfo → P2PPeerInfo → ConnectedPeersInfo → Bytes → ConnectedPeersInfo
append_peer_info seeder peer_info self_peer_info i conn =
    let same_shard = nat_beq self_peer_info.shard_id peer_info.shard_id in
    elim peer_info.peer_type [
      | unknown_peer ↦ append_unknown seeder i conn
      | validator_peer ↦ append_validator same_shard peer_info.shard_id i conn
      | observer_peer ↦ append_observer same_shard peer_info.shard_id i conn
      | other_peer n ↦ i
    ]

-- With the text of the addresses of a peer's connections, and the text forms of a peer ID.
module _ (conns_to_peer : Bytes → List Bytes) (peer_string pretty : Bytes → Bytes) where
  pub conn_string : Bytes → Bytes
  conn_string p = elim (conns_to_peer p) [
    | [] ↦ codes "[invalid connection string]"
    | address ∷ others ↦ address ++ (codes "/p2p/" ++ peer_string p)
  ]

  pub add_peer :
      {S : Type 0} → ConnectionsHandler S → ConnectedPeersInfo → Bytes → ConnectedPeersInfo
  add_peer handler i p =
      let peer_info = handler.peer_shard_resolver p in
      let next =
        append_peer_info (is_seeder pretty handler.sharder.seeders p) peer_info
          (handler.peer_shard_resolver handler.peer_id) i (conn_string p) in
      if handler.preferred_peers_holder p
      then record next {
        num_preferred_peers_on_shard =
            increment peer_info.shard_id next.num_preferred_peers_on_shard;
      }
      else next

  pub peers_loop :
      {S : Type 0} → ConnectionsHandler S → ConnectedPeersInfo → List Bytes → ConnectedPeersInfo
  peers_loop handler i [] = i
  peers_loop handler i (p ∷ peers) = peers_loop handler (add_peer handler i p) peers

  pub get_connected_peers_info :
      {S : Type 0} → ConnectionsHandler S → List Bytes → ConnectedPeersInfo
  get_connected_peers_info handler peers =
      peers_loop handler (empty_info (handler.peer_shard_resolver handler.peer_id).shard_id) peers
