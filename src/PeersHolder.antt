-- ===== src/PeersHolder.antt =====
-- p2p/peersHolder/peersHolder.go and connectionStringValidator.go beside it: the preferred peers.
-- A slice is a list, and a nil slice the empty one, which the code never keeps apart. A pointer to
-- a `peerInfo` stands in one slice only, so a write through it is a write into that slice's entry.
-- A method that can panic returns an `Option`, with `none` for the panic.
pub mod Maps
pub mod Invariant
pub mod Adding
pub mod Removal
mod Examples
use drt_go_chain_communicati.Prelude.{
  ℕ, ◌+◌, ◌-◌, Bool, true, false, not, ◌||◌, List, [], ◌∷◌, ◌++◌, Option, none, some, Bytes,
  bytes_eq, nat_eq, Dict, lookup, insert, erase, length, remove_nth, if◌then◌else◌, ◌==◌, ltb,
  nat_beq,
}
use drt_go_chain_communicati.Prelude.Text.{contains}
use drt_go_chain_communicati.Errors.{Result, ok, err, invalid_value}
use Maps.{get_list, is_some}

pub record PeerInfo : Type 0 where
  pub pid : Bytes
  pub shard_id : ℕ

pub record PeerIdData : Type 0 where
  pub connection_address : Bytes
  pub shard_id : ℕ
  pub index : ℕ

pub record PeersHolder : Type 0 where
  pub preferred_conn_addresses : List Bytes
  pub conn_addr_to_peers_info : Dict Bytes (List PeerInfo)
  pub temp_peer_ids_waiting_for_shard : Dict Bytes Bytes
  pub peer_ids_per_shard : Dict ℕ (List Bytes)
  pub peer_ids : Dict Bytes PeerIdData

-- `IsValid` of the connection string validator; `net.ParseIP` and `core.NewPeerID` are arguments.
pub is_valid : (Bytes → Bool) → (Bytes → Bool) → Bytes → Bool
is_valid parses_as_ip parses_as_peer_id conn_str =
    parses_as_ip conn_str || parses_as_peer_id conn_str

pub new_loop :
    (Bytes → Bool) → List Bytes → List Bytes → Dict Bytes (List PeerInfo) → Result PeersHolder
new_loop valid [] preferred infos = ok (record {
  preferred_conn_addresses = preferred;
  conn_addr_to_peers_info = infos;
  temp_peer_ids_waiting_for_shard = [];
  peer_ids_per_shard = [];
  peer_ids = [];
})
new_loop valid (conn_addr ∷ rest) preferred infos =
    let next = new_loop valid rest (preferred ++ conn_addr ∷ []) (insert conn_addr [] infos) in
    if valid conn_addr then next else err invalid_value

pub new_peers_holder : (Bytes → Bool) → List Bytes → Result PeersHolder
new_peers_holder valid preferred_connection_addresses =
    new_loop valid preferred_connection_addresses [] []

-- The preferred address that the connection string contains, or the empty string.
pub get_known_connection : List Bytes → Bytes → Bytes
get_known_connection [] connection_address = []
get_known_connection (preferred ∷ rest) connection_address =
    if contains connection_address preferred
    then preferred
    else get_known_connection rest connection_address

pub get_peer_info_for_peer_id : Bytes → List PeerInfo → Option PeerInfo
get_peer_info_for_peer_id peer_id [] = none
get_peer_info_for_peer_id peer_id (p ∷ infos) =
    if peer_id == p.pid then some p else get_peer_info_for_peer_id peer_id infos

-- `core.AllShardId` is an argument.
pub add_new_peer_info_to_maps : ℕ → PeersHolder → Bytes → Bytes → PeersHolder
add_new_peer_info_to_maps all_shard_id ph peer_id known_connection = record ph {
  temp_peer_ids_waiting_for_shard =
      insert peer_id known_connection ph.temp_peer_ids_waiting_for_shard;
  conn_addr_to_peers_info =
      insert known_connection
        (get_list known_connection ph.conn_addr_to_peers_info
          ++ record { pid = peer_id; shard_id = all_shard_id } ∷ [])
        ph.conn_addr_to_peers_info;
}

pub put_connection_address : ℕ → PeersHolder → Bytes → Bytes → PeersHolder
put_connection_address all_shard_id ph peer_id connection_address =
    let known_connection = get_known_connection ph.preferred_conn_addresses connection_address in
    let peers_info = get_list known_connection ph.conn_addr_to_peers_info in
    if nat_beq (length known_connection) 0
    then ph
    else (if nat_beq (length peers_info) 0
        then add_new_peer_info_to_maps all_shard_id ph peer_id known_connection
        else (if is_some (get_peer_info_for_peer_id peer_id peers_info)
            then ph
            else add_new_peer_info_to_maps all_shard_id ph peer_id known_connection))

-- `pInfo.shardID = shardID`, through the pointer that `getPeerInfoForPeerID` returns.
pub set_shard_id : Bytes → ℕ → List PeerInfo → List PeerInfo
set_shard_id peer_id shard_id [] = []
set_shard_id peer_id shard_id (p ∷ infos) =
    if peer_id == p.pid
    then record { pid = p.pid; shard_id = shard_id } ∷ infos
    else p ∷ set_shard_id peer_id shard_id infos

pub store_shard_id : PeersHolder → Bytes → ℕ → Bytes → PeersHolder
store_shard_id ph peer_id shard_id known_connection =
    let peers = get_list shard_id ph.peer_ids_per_shard ++ peer_id ∷ [] in
    record ph {
      conn_addr_to_peers_info =
          insert known_connection
            (set_shard_id peer_id shard_id (get_list known_connection ph.conn_addr_to_peers_info))
            ph.conn_addr_to_peers_info;
      peer_ids_per_shard = insert shard_id peers ph.peer_ids_per_shard;
      peer_ids =
          insert peer_id
            (record {
              connection_address = known_connection;
              shard_id = shard_id;
              index = length peers - 1;
            })
            ph.peer_ids;
      temp_peer_ids_waiting_for_shard = erase peer_id ph.temp_peer_ids_waiting_for_shard;
    }

pub put_shard_id : PeersHolder → Bytes → ℕ → PeersHolder
put_shard_id ph peer_id shard_id = elim (lookup peer_id ph.temp_peer_ids_waiting_for_shard) [
  | none ↦ ph
  | some known_connection ↦
      if is_some
        (get_peer_info_for_peer_id peer_id (get_list known_connection ph.conn_addr_to_peers_info))
      then store_shard_id ph peer_id shard_id known_connection
      else ph
]

-- `Get` copies the map; the slices in it stay shared, which the lists here do not show.
pub get : PeersHolder → Dict ℕ (List Bytes)
get ph = ph.peer_ids_per_shard

unfoldable pub contains_peer : PeersHolder → Bytes → Bool
contains_peer ph peer_id = is_some (lookup peer_id ph.peer_ids)

-- The slice expressions panic where `index` is no index of the slice.
pub remove_peer_from_map_at_index : Dict ℕ (List Bytes) → ℕ → ℕ → Option (Dict ℕ (List Bytes))
remove_peer_from_map_at_index m shard_id index =
    let peers = get_list shard_id m in
    let rest = remove_nth index peers in
    if ltb index (length peers)
    then some (if nat_beq (length rest) 0 then erase shard_id m else insert shard_id rest m)
    else none

-- The loop finds the first entry of the peer; its index is that of the entry to remove.
pub remove_first_info : Bytes → List PeerInfo → List PeerInfo
remove_first_info peer_id [] = []
remove_first_info peer_id (p ∷ infos) =
    if peer_id == p.pid then infos else p ∷ remove_first_info peer_id infos

pub remove_peer_info_at_connection_address :
    Dict Bytes (List PeerInfo) → Bytes → Bytes → Dict Bytes (List PeerInfo)
remove_peer_info_at_connection_address m peer_id conn_addr =
    let peers_info = get_list conn_addr m in
    if is_some (get_peer_info_for_peer_id peer_id peers_info)
    then insert conn_addr (remove_first_info peer_id peers_info) m
    else m

pub get_shard_and_index_for_peer : PeersHolder → Bytes → ℕ × ℕ × Bool
get_shard_and_index_for_peer ph peer_id = elim (lookup peer_id ph.peer_ids) [
  | none ↦ (0, 0, false)
  | some pid_data ↦ (pid_data.shard_id, pid_data.index, true)
]

pub remove : PeersHolder → Bytes → Option PeersHolder
remove ph peer_id = elim (lookup peer_id ph.peer_ids) [
  | none ↦ some ph
  | some pid_data ↦
      let (shard, index, _found) = get_shard_and_index_for_peer ph peer_id in
      elim (remove_peer_from_map_at_index ph.peer_ids_per_shard shard index) [
        | none ↦ none
        | some per_shard ↦ some (record ph {
          peer_ids_per_shard = per_shard;
          peer_ids = erase peer_id ph.peer_ids;
          conn_addr_to_peers_info =
              remove_peer_info_at_connection_address ph.conn_addr_to_peers_info peer_id
                pid_data.connection_address;
          temp_peer_ids_waiting_for_shard = erase peer_id ph.temp_peer_ids_waiting_for_shard;
        })
      ]
]

pub clear : PeersHolder → PeersHolder
clear ph = record ph {
  temp_peer_ids_waiting_for_shard = [];
  peer_ids_per_shard = [];
  peer_ids = [];
  conn_addr_to_peers_info = [];
}
