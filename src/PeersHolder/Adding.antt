-- ===== src/PeersHolder/Adding.antt =====
-- p2p/peersHolder/peersHolder.go: PutConnectionAddress, PutShardID and Clear, over any history.
use drt_go_chain_communicati.Prelude.{
  ℕ, Bool, true, false, List, [], ◌∷◌, ◌++◌, some, ◌≡◌, ap, ◌≢◌, Bytes, bytes_eq, nat_eq, lookup,
  lookup-insert_self, lookup-insert_ne, arith,
}
use drt_go_chain_communicati.Errors.{ok}
use drt_go_chain_communicati.PeersHolder.Maps.{
  get_list, is_some, get_list-insert_self, get_list-insert_ne,
}
use drt_go_chain_communicati.PeersHolder.{
  PeersHolder, get, get_known_connection, get_peer_info_for_peer_id, add_new_peer_info_to_maps,
  put_connection_address, store_shard_id, put_shard_id, contains_peer, clear, new_peers_holder,
}
use drt_go_chain_communicati.PeersHolder.Invariant.{
  IsValid, add-Waits, put_shard_id_waiting, put_connection_address-IsValid, put_shard_id-IsValid,
  clear-IsValid, new_loop-IsValid,
}

-- One call of an operation other than `Remove`.
pub data Step (all_shard_id : ℕ) (ph : PeersHolder) : PeersHolder → Type 0 where
  put_address :
      (pid address : Bytes)
      → Step all_shard_id ph (put_connection_address all_shard_id ph pid address)
  put_shard : (pid : Bytes) (shard_id : ℕ) → Step all_shard_id ph (put_shard_id ph pid shard_id)
  clears : Step all_shard_id ph (clear ph)

pub data Reach (all_shard_id : ℕ) (ph : PeersHolder) : PeersHolder → Type 0 where
  here : Reach all_shard_id ph ph
  next :
      {q r : PeersHolder}
      → Reach all_shard_id ph q
      → Step all_shard_id q r
      → Reach all_shard_id ph r

Step-IsValid : {k : ℕ} {ph q : PeersHolder} → Step k ph q → IsValid ph → IsValid q
Step-IsValid {k} {ph} (put_address pid address) v =
    put_connection_address-IsValid k ph pid address v
Step-IsValid {ph} (put_shard pid shard_id) v = put_shard_id-IsValid ph pid shard_id v
Step-IsValid {ph} clears v = clear-IsValid ph

Reach-IsValid : {k : ℕ} {ph q : PeersHolder} → IsValid ph → Reach k ph q → IsValid q
Reach-IsValid v here = v
Reach-IsValid v (next r s) = Step-IsValid s (Reach-IsValid v r)

-- In a holder that NewPeersHolder made, after any calls of PutConnectionAddress, PutShardID and
-- Clear, the index stored with each peer is that of its entry in the slice of its shard, and each
-- peer that waits for a shard is listed at the connection that it waits under.
pub new-Reach-IsValid :
    (valid : Bytes → Bool) (addrs : List Bytes) (all_shard_id : ℕ) {ph q : PeersHolder}
    → new_peers_holder valid addrs ≡ ok ph
    → Reach all_shard_id ph q
    → IsValid q
unfolding new_peers_holder
new-Reach-IsValid valid addrs k made r = Reach-IsValid (new_loop-IsValid valid addrs [] [] made) r

module _ (all_shard_id : ℕ) (ph : PeersHolder) (pid address : Bytes) where
  abbrev known : Bytes
  known = get_known_connection ph.preferred_conn_addresses address

  added : PeersHolder
  added = add_new_peer_info_to_maps all_shard_id ph pid known

  put_connection_address_new :
      known ≢ []
      → is_some (get_peer_info_for_peer_id pid (get_list known ph.conn_addr_to_peers_info)) ≡ false
      → put_connection_address all_shard_id ph pid address ≡ added
  unfolding put_connection_address added
  put_connection_address_new n h = ground arith

  added_waiting : lookup pid added.temp_peer_ids_waiting_for_shard ≡ some known
  unfolding added add_new_peer_info_to_maps
  added_waiting = lookup-insert_self pid known ph.temp_peer_ids_waiting_for_shard

-- A peer stored with a shard: it is contained and stands at the end of its shard's slice; the other
-- peers and slices are as before.
pub record Stored (ph q : PeersHolder) (pid : Bytes) (shard_id : ℕ) : Type 0 where
  pub contained : contains_peer q pid ≡ true
  pub listed : get_list shard_id (get q) ≡ get_list shard_id (get ph) ++ pid ∷ []
  pub other_shards : (k : ℕ) → shard_id ≢ k → get_list k (get q) ≡ get_list k (get ph)
  pub other_peers : (p : Bytes) → pid ≢ p → contains_peer q p ≡ contains_peer ph p

store-Stored :
    (ph : PeersHolder) (pid addr : Bytes) (shard_id : ℕ)
    → Stored ph (store_shard_id ph pid shard_id addr) pid shard_id
unfolding store_shard_id get contains_peer
store-Stored ph pid addr shard_id = record {
  contained = rw (lookup-insert_self pid _ ph.peer_ids);
  listed = get_list-insert_self shard_id _ ph.peer_ids_per_shard;
  other_shards = λ k n. get_list-insert_ne shard_id k _ ph.peer_ids_per_shard n;
  other_peers = λ p n. ap is_some (lookup-insert_ne pid p _ ph.peer_ids n);
}

-- In a valid holder, PutConnectionAddress and then PutShardID, for a peer that is new on a
-- preferred connection, make it a preferred peer of that shard, at the end of its slice, and
-- change no other slice and which other peers are contained.
pub put_shard_id-put_connection_address :
    (all_shard_id : ℕ) (ph : PeersHolder) (pid address : Bytes) (shard_id : ℕ)
    → IsValid ph
    → get_known_connection ph.preferred_conn_addresses address ≢ []
    → is_some (
        get_peer_info_for_peer_id pid (
          get_list
            (get_known_connection ph.preferred_conn_addresses address)
            ph.conn_addr_to_peers_info))
      ≡ false
    → Stored ph
        (put_shard_id (put_connection_address all_shard_id ph pid address) pid shard_id)
        pid
        shard_id
unfolding added add_new_peer_info_to_maps get contains_peer
put_shard_id-put_connection_address k ph pid address shard_id v n h =
    rw (put_connection_address_new k ph pid address n h) (
      rw
        (put_shard_id_waiting (added k ph pid address) pid _ shard_id (add-Waits k ph pid _ v.waits)
          (added_waiting k ph pid address))
        (let s = store-Stored (added k ph pid address) pid (known k ph pid address) shard_id in
          record {
            contained = s.contained;
            listed = s.listed;
            other_shards = s.other_shards;
            other_peers = s.other_peers;
          }))

pub contains_peer-put_connection_address :
    (all_shard_id : ℕ) (ph : PeersHolder) (peer_id address p : Bytes)
    → contains_peer (put_connection_address all_shard_id ph peer_id address) p ≡ contains_peer ph p
unfolding contains_peer put_connection_address add_new_peer_info_to_maps
contains_peer-put_connection_address all_shard_id ph peer_id address p = ground arith
