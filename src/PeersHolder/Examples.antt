-- ===== src/PeersHolder/Examples.antt =====
-- p2p/peersHolder/peersHolder.go: the theorems at concrete inputs, and runs of the code.
use drt_go_chain_communicati.Prelude.{
  ℕ, true, [], ◌∷◌, none, some, ◌≡◌, refl, Bytes, bytes_eq, nat_eq, codes, lookup, insert, erase,
  bytes_beq, length, get_elem?,
}
use drt_go_chain_communicati.Prelude.Text.{contains, has_prefix}
use drt_go_chain_communicati.Errors.{ok}
use drt_go_chain_communicati.PeersHolder.Maps.{get_list}
use drt_go_chain_communicati.PeersHolder.{
  PeersHolder, PeerIdData, new_peers_holder, new_loop, put_connection_address, put_shard_id,
  store_shard_id, set_shard_id, add_new_peer_info_to_maps, get_known_connection,
  get_peer_info_for_peer_id, remove, get,
}
use drt_go_chain_communicati.PeersHolder.Invariant.{IsValid}
use drt_go_chain_communicati.PeersHolder.Adding.{
  Reach, here, next, put_address, put_shard, new-Reach-IsValid, put_shard_id-put_connection_address,
  Stored,
}
use drt_go_chain_communicati.PeersHolder.Removal.{Removed, remove-Removed, remove-panics}

abbrev address : Bytes
address = codes "10.0.0.1"

abbrev full_address : Bytes
full_address = codes "/ip4/10.0.0.1"

abbrev first : Bytes
first = 1 ∷ []

abbrev last : Bytes
last = 2 ∷ []

made : PeersHolder
made = record {
  preferred_conn_addresses = address ∷ [];
  conn_addr_to_peers_info = (address, []) ∷ [];
  temp_peer_ids_waiting_for_shard = [];
  peer_ids_per_shard = [];
  peer_ids = [];
}

new_made : new_peers_holder (λ a. true) (address ∷ []) ≡ ok made
unfolding new_peers_holder new_loop insert made
new_made = refl

abbrev with_first : PeersHolder
with_first = put_shard_id (put_connection_address 99 made first full_address) first 1

abbrev with_both : PeersHolder
with_both = put_shard_id (put_connection_address 99 with_first last full_address) last 1

Reach-both : Reach 99 made with_both
Reach-both =
    next
      (next (next (next here (put_address first full_address)) (put_shard first 1))
        (put_address last full_address))
      (put_shard last 1)

new-Reach-IsValid_example : IsValid with_both
new-Reach-IsValid_example = new-Reach-IsValid (λ a. true) (address ∷ []) 99 new_made Reach-both

both-IsValid : IsValid with_both
both-IsValid = new-Reach-IsValid (λ a. true) (address ∷ []) 99 new_made Reach-both

made-IsValid : IsValid made
made-IsValid = new-Reach-IsValid (λ a. true) (address ∷ []) 99 new_made here

put_shard_id-put_connection_address_example : Stored made with_first first 1
unfolding made get_known_connection contains has_prefix get_peer_info_for_peer_id get_list lookup
    bytes_beq
put_shard_id-put_connection_address_example =
    put_shard_id-put_connection_address 99 made first full_address 1 made-IsValid (λ e. cc) refl

abbrev data_at : ℕ → PeerIdData
data_at i = record { connection_address = address; shard_id = 1; index = i }

first_data : lookup first with_both.peer_ids ≡ some (data_at 0)
unfolding made put_connection_address put_shard_id store_shard_id set_shard_id
    add_new_peer_info_to_maps get_known_connection get_peer_info_for_peer_id contains has_prefix
    get_list lookup insert erase bytes_beq
first_data = refl

last_data : lookup last with_both.peer_ids ≡ some (data_at 1)
unfolding made put_connection_address put_shard_id store_shard_id set_shard_id
    add_new_peer_info_to_maps get_known_connection get_peer_info_for_peer_id contains has_prefix
    get_list lookup insert erase bytes_beq
last_data = refl

last_is_last : 2 ≡ length (get_list 1 (get with_both))
unfolding made put_connection_address put_shard_id store_shard_id set_shard_id
    add_new_peer_info_to_maps get_known_connection get_peer_info_for_peer_id contains has_prefix
    get_list lookup insert erase bytes_beq get
last_is_last = refl

abbrev first_removed :
    (q : PeersHolder) × (remove with_both first ≡ some q) × Removed with_both q first (data_at 0)
first_removed = (remove-Removed with_both first (data_at 0) both-IsValid first_data).1

remove-Removed_example :
    (get_elem? (get_list 1 (get with_both)) 0 ≡ some first)
    × ((q : PeersHolder) × (remove with_both first ≡ some q)
        × Removed with_both q first (data_at 0))
remove-Removed_example = remove-Removed with_both first (data_at 0) both-IsValid first_data

remove-panics_example : remove first_removed.0 last ≡ none
remove-panics_example =
    remove-panics with_both first_removed.0 first last (data_at 0) (data_at 1) both-IsValid
      first_data last_data (λ e. cc) refl last_is_last first_removed.1
