-- ===== src/PeersHolder/Removal.antt =====
-- p2p/peersHolder/peersHolder.go: Remove.
use drt_go_chain_communicati.Prelude.{
  Option-cases, empty_of_length, ℕ, ◌+◌, ◌<◌, ◌≤◌, true, false, List, none, some, ◌≡◌, refl, ap,
  subst, ◌≢◌, inl, inr, ◌∙◌, Bytes, bytes_eq, nat_eq, Dict, lookup, insert, erase,
  lookup-erase_self, lookup-erase_ne, length, get_elem?, get_elem?-lt, remove_nth,
  length-remove_nth, lt→ltb, ltb, nat_beq, Bool-cases, arith,
}
use drt_go_chain_communicati.PeersHolder.Maps.{
  get_list, get_list-insert_self, get_list-insert_ne, get_list-erase_self, get_list-erase_ne,
}
use drt_go_chain_communicati.PeersHolder.{
  PeerIdData, PeersHolder, get, contains_peer, remove, remove_peer_from_map_at_index,
  get_shard_and_index_for_peer, remove_peer_info_at_connection_address,
}
use drt_go_chain_communicati.PeersHolder.Invariant.{IsValid, same_value}

-- With an index in range the entry goes, and no other slice changes.
pub remove_at_lem :
    (m : Dict ℕ (List Bytes)) (shard i : ℕ)
    → i < length (get_list shard m)
    → (m' : Dict ℕ (List Bytes)) × (remove_peer_from_map_at_index m shard i ≡ some m')
      × (get_list shard m' ≡ remove_nth i (get_list shard m))
      × ((k : ℕ) → shard ≢ k → get_list k m' ≡ get_list k m)
unfolding remove_peer_from_map_at_index
remove_at_lem m shard i h =
    let peers = get_list shard m in
    let rest = remove_nth i peers in
    elim (Bool-cases (nat_beq (length rest) 0)) [
      | inl gone ↦ (
        erase shard m,
        rw (lt→ltb _ _ h, gone),
        rw (empty_of_length rest (ground arith)) (get_list-erase_self shard m),
        λ k n. get_list-erase_ne shard k m n,
      )
      | inr some_left ↦ (
        insert shard rest m,
        rw (lt→ltb _ _ h, some_left),
        get_list-insert_self shard rest m,
        λ k n. get_list-insert_ne shard k rest m n,
      )
    ]

remove_at_out :
    (m : Dict ℕ (List Bytes)) (shard i : ℕ)
    → length (get_list shard m) ≤ i
    → remove_peer_from_map_at_index m shard i ≡ none
unfolding remove_peer_from_map_at_index
remove_at_out m shard i h =
    let out : ltb i (length (get_list shard m)) ≡ false = ground arith in rw out

-- A peer taken away: its entry leaves the slice of its shard, and the other peers and slices stay.
pub record Removed (ph q : PeersHolder) (pid : Bytes) (d : PeerIdData) : Type 0 where
  pub gone : contains_peer q pid ≡ false
  pub unlisted : get_list d.shard_id (get q) ≡ remove_nth d.index (get_list d.shard_id (get ph))
  pub other_shards : (k : ℕ) → d.shard_id ≢ k → get_list k (get q) ≡ get_list k (get ph)
  pub other_peers : (p : Bytes) → pid ≢ p → lookup p q.peer_ids ≡ lookup p ph.peer_ids

-- The holder after `Remove`, once the slices are cut.
removed : PeersHolder → Bytes → PeerIdData → Dict ℕ (List Bytes) → PeersHolder
removed ph pid d m = record ph {
  peer_ids_per_shard = m;
  peer_ids = erase pid ph.peer_ids;
  conn_addr_to_peers_info =
      remove_peer_info_at_connection_address ph.conn_addr_to_peers_info pid d.connection_address;
  temp_peer_ids_waiting_for_shard = erase pid ph.temp_peer_ids_waiting_for_shard;
}

shard_and_index :
    (ph : PeersHolder) (pid : Bytes) (d : PeerIdData)
    → lookup pid ph.peer_ids ≡ some d
    → get_shard_and_index_for_peer ph pid ≡ (d.shard_id, d.index, true)
unfolding get_shard_and_index_for_peer
shard_and_index ph pid d h = rw (h, get_shard_and_index_for_peer) refl

remove_known :
    (ph : PeersHolder) (pid : Bytes) (d : PeerIdData)
    → lookup pid ph.peer_ids ≡ some d
    → remove ph pid
      ≡ elim (remove_peer_from_map_at_index ph.peer_ids_per_shard d.shard_id d.index) [
        | none ↦ none
        | some m ↦ some (removed ph pid d m)
      ]
unfolding remove removed
remove_known ph pid d h = rw (h, remove) (rw (shard_and_index ph pid d h) refl)

remove_in_range :
    (ph : PeersHolder) (pid : Bytes) (d : PeerIdData)
    → lookup pid ph.peer_ids ≡ some d
    → d.index < length (get_list d.shard_id ph.peer_ids_per_shard)
    → (q : PeersHolder) × (remove ph pid ≡ some q) × Removed ph q pid d
unfolding removed get contains_peer
remove_in_range ph pid d h r =
    let (m, e, self, others) = remove_at_lem ph.peer_ids_per_shard d.shard_id d.index r in
    (
      removed ph pid d m,
      rw (remove_known ph pid d h, e) refl,
      record {
        gone = rw (lookup-erase_self pid ph.peer_ids) refl;
        unlisted = self;
        other_shards = others;
        other_peers = λ p n. lookup-erase_ne pid p ph.peer_ids n;
      },
    )

remove_out_of_range :
    (ph : PeersHolder) (pid : Bytes) (d : PeerIdData)
    → lookup pid ph.peer_ids ≡ some d
    → length (get_list d.shard_id ph.peer_ids_per_shard) ≤ d.index
    → remove ph pid ≡ none
remove_out_of_range ph pid d h r =
    rw (remove_known ph pid d h, remove_at_out ph.peer_ids_per_shard d.shard_id d.index r) refl

-- In a valid holder Remove of a peer that it contains does not panic; it takes the peer's own
-- entry out of the slice of its shard, and changes no other slice and no other peer.
pub remove-Removed :
    (ph : PeersHolder) (pid : Bytes) (d : PeerIdData)
    → IsValid ph
    → lookup pid ph.peer_ids ≡ some d
    → (get_elem? (get_list d.shard_id (get ph)) d.index ≡ some pid)
      × ((q : PeersHolder) × (remove ph pid ≡ some q) × Removed ph q pid d)
unfolding get
remove-Removed ph pid d v h =
    let e = v.indexed pid d h in (e, remove_in_range ph pid d h (get_elem?-lt _ d.index e))

-- The stored indices are not moved down: in a valid holder, once any other peer of the shard has been
-- removed, removing the peer at the end of the shard's slice panics.
pub remove-panics :
    (ph q : PeersHolder) (first last : Bytes) (d e : PeerIdData)
    → IsValid ph
    → lookup first ph.peer_ids ≡ some d
    → lookup last ph.peer_ids ≡ some e
    → first ≢ last
    → d.shard_id ≡ e.shard_id
    → e.index + 1 ≡ length (get_list e.shard_id (get ph))
    → remove ph first ≡ some q
    → remove q last ≡ none
unfolding get
remove-panics ph q first last d e v hd he n same end r =
    let removal = remove_in_range ph first d hd (get_elem?-lt _ d.index (v.indexed first d hd)) in
    let t : Removed ph q first d =
      subst (λ p. Removed ph p first d) (same_value removal.1 r) removal.2 in
    let kept : lookup last q.peer_ids ≡ some e = t.other_peers last n ∙ he in
    let short : length (get_list e.shard_id q.peer_ids_per_shard) ≤ e.index = omega (
      arith,
      ap length (rw same at t.unlisted),
      length-remove_nth d.index (get_list e.shard_id ph.peer_ids_per_shard)
          (rw same at (get_elem?-lt _ d.index (v.indexed first d hd))),
    ) in
    remove_out_of_range q last e kept short

pub remove-unknown :
    (ph : PeersHolder) (p : Bytes) → contains_peer ph p ≡ false → remove ph p ≡ some ph
unfolding contains_peer remove
remove-unknown ph p h = elim (Option-cases (lookup p ph.peer_ids)) [
  | inl absent ↦ rw (absent, remove) refl
  | inr (d, there) ↦ cc (rw there at h)
]

-- Remove in a valid holder, of a peer that it contains or not: afterwards it does not contain the peer,
-- and each other peer exactly if it did before.
pub remove-contains_peer :
    (ph : PeersHolder) (pid : Bytes)
    → IsValid ph
    → (q : PeersHolder) × (remove ph pid ≡ some q)
      × (contains_peer q pid ≡ false)
      × ((p : Bytes) → pid ≢ p → contains_peer q p ≡ contains_peer ph p)
unfolding contains_peer
remove-contains_peer ph pid v = elim (Option-cases (lookup pid ph.peer_ids)) [
  | inl absent ↦
      let unknown : contains_peer ph pid ≡ false = rw absent refl in
      (ph, remove-unknown ph pid unknown, unknown, λ p n. refl)
  | inr (d, there) ↦
      let (q, r, removed) = (remove-Removed ph pid d v there).1 in
      (q, r, removed.gone, λ p n. rw (removed.other_peers p n) refl)
]
