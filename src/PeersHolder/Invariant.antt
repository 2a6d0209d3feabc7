-- ===== src/PeersHolder/Invariant.antt =====
-- p2p/peersHolder/peersHolder.go: what the maps promise one another, kept by every operation that adds.
use drt_go_chain_communicati.Prelude.{
  ℕ, ◌-◌, Bool, true, List, [], ◌∷◌, ◌++◌, Option, none, some, ◌≡◌, refl, sym, subst, ◌⊎◌, inl, inr,
  ◌∙◌, Bytes, bytes_eq, nat_eq, eq_cases, ==_refl, Dict, lookup, insert, erase, lookup-insert_self,
  lookup-insert_ne, lookup-erase_self, lookup-erase_ne, length, length-append, get_elem?,
  get_elem?-append_end, get_elem?-append_left, Bool-cases, Option-cases, arith,
}
use drt_go_chain_communicati.Errors.{ok, err, invalid_value, ok_injective}
use drt_go_chain_communicati.PeersHolder.Maps.{
  get_list, is_some, get_list-insert_self, get_list-insert_ne,
}
use drt_go_chain_communicati.PeersHolder.{
  PeerInfo, PeerIdData, PeersHolder, get_known_connection, get_peer_info_for_peer_id,
  add_new_peer_info_to_maps, put_connection_address, set_shard_id, store_shard_id, put_shard_id,
  clear, new_loop,
}

abbrev pub HasInfo : Bytes → List PeerInfo → Type 0
HasInfo pid infos = is_some (get_peer_info_for_peer_id pid infos) ≡ true

-- The index stored with a peer is that of its entry in the slice of its shard.
abbrev pub Indexed : PeersHolder → Type 0
Indexed ph =
    (pid : Bytes) (d : PeerIdData)
    → lookup pid ph.peer_ids ≡ some d
    → get_elem? (get_list d.shard_id ph.peer_ids_per_shard) d.index ≡ some pid

-- A peer that waits for its shard is listed at the connection that it waits under.
abbrev pub Waits : PeersHolder → Type 0
Waits ph =
    (pid addr : Bytes)
    → lookup pid ph.temp_peer_ids_waiting_for_shard ≡ some addr
    → HasInfo pid (get_list addr ph.conn_addr_to_peers_info)

HasInfo-append : (pid : Bytes) (xs ys : List PeerInfo) → HasInfo pid xs → HasInfo pid (xs ++ ys)
unfolding get_peer_info_for_peer_id
HasInfo-append pid [] ys h = cc
HasInfo-append pid (x ∷ xs) ys h = ground (arith, HasInfo-append pid xs ys)

HasInfo-append_end :
    (pid : Bytes) (xs : List PeerInfo) (k : ℕ)
    → HasInfo pid (xs ++ record { pid = pid; shard_id = k } ∷ [])
unfolding get_peer_info_for_peer_id
HasInfo-append_end pid [] k = rw (==_refl pid)
HasInfo-append_end pid (x ∷ xs) k = ground (arith, HasInfo-append_end pid xs k)

HasInfo-set_shard_id :
    (pid q : Bytes) (k : ℕ) (xs : List PeerInfo)
    → HasInfo pid xs
    → HasInfo pid (set_shard_id q k xs)
unfolding get_peer_info_for_peer_id set_shard_id
HasInfo-set_shard_id pid q k [] h = h
HasInfo-set_shard_id pid q k (x ∷ xs) h = ground (arith, HasInfo-set_shard_id pid q k xs)

-- A slice that is replaced by one with the same peers and more.
pub HasInfo-insert :
    (q addr known : Bytes) (infos : List PeerInfo) (m : Dict Bytes (List PeerInfo))
    → (HasInfo q (get_list known m) → HasInfo q infos)
    → HasInfo q (get_list addr m)
    → HasInfo q (get_list addr (insert known infos m))
HasInfo-insert q addr known infos m grows h = elim (eq_cases known addr) [
  | inl same ↦ rw (← same, get_list-insert_self known infos m) (grows (rw same h))
  | inr differ ↦ rw (get_list-insert_ne known addr infos m differ) h
]

pub same_value {ℓ} : {A : Type ℓ} {a b : A} {o : Option A} → o ≡ some a → o ≡ some b → a ≡ b
same_value p q = cc

pub add-Waits :
    (all_shard_id : ℕ) (ph : PeersHolder) (pid known : Bytes)
    → Waits ph
    → Waits (add_new_peer_info_to_maps all_shard_id ph pid known)
unfolding add_new_peer_info_to_maps
add-Waits k ph pid known w q addr h = elim (eq_cases pid q) [
  | inl same ↦
      let there : lookup q (insert pid known ph.temp_peer_ids_waiting_for_shard) ≡ some known =
        rw (← same) (lookup-insert_self pid known ph.temp_peer_ids_waiting_for_shard) in
      rw (← same_value there h, ← same, get_list-insert_self) (HasInfo-append_end pid _ k)
  | inr differ ↦
      HasInfo-insert q addr known _ _ (HasInfo-append q _ _)
        (w q addr (sym (lookup-insert_ne pid q known _ differ) ∙ h))
]

put_connection_address_cases :
    (k : ℕ) (ph : PeersHolder) (pid address : Bytes)
    → (put_connection_address k ph pid address ≡ ph)
      ⊎ (put_connection_address k ph pid address
          ≡ add_new_peer_info_to_maps k ph pid
              (get_known_connection ph.preferred_conn_addresses address))
unfolding put_connection_address
put_connection_address_cases k ph pid address = ground arith

store-Waits :
    (ph : PeersHolder) (pid known : Bytes) (shard_id : ℕ)
    → Waits ph
    → Waits (store_shard_id ph pid shard_id known)
unfolding store_shard_id
store-Waits ph pid known shard_id w q addr h = elim (eq_cases pid q) [
  | inl same ↦
      let gone : lookup q (erase pid ph.temp_peer_ids_waiting_for_shard) ≡ none =
        rw (← same) (lookup-erase_self pid ph.temp_peer_ids_waiting_for_shard) in
      cc
  | inr differ ↦
      HasInfo-insert q addr known _ _ (HasInfo-set_shard_id q pid shard_id _)
        (w q addr (sym (lookup-erase_ne pid q _ differ) ∙ h))
]

-- A slice that grows at its end keeps every index.
index-insert :
    (shard k i : ℕ) (q pid : Bytes) (m : Dict ℕ (List Bytes))
    → get_elem? (get_list k m) i ≡ some q
    → get_elem? (get_list k (insert shard (get_list shard m ++ pid ∷ []) m)) i ≡ some q
index-insert shard k i q pid m h = elim (eq_cases shard k) [
  | inl same ↦
      rw (← same, get_list-insert_self shard (get_list shard m ++ pid ∷ []) m)
        (get_elem?-append_left (get_list shard m) (pid ∷ []) i (rw same h))
  | inr differ ↦ rw (get_list-insert_ne shard k (get_list shard m ++ pid ∷ []) m differ) h
]

last_index :
    (xs : List Bytes) (pid : Bytes)
    → get_elem? (xs ++ pid ∷ []) (length (xs ++ pid ∷ []) - 1) ≡ some pid
last_index xs pid =
    let e : length (xs ++ pid ∷ []) - 1 ≡ length xs = omega (arith, length-append xs (pid ∷ [])) in
    rw e (get_elem?-append_end xs pid)

store-Indexed :
    (ph : PeersHolder) (pid known : Bytes) (shard_id : ℕ)
    → Indexed ph
    → Indexed (store_shard_id ph pid shard_id known)
unfolding store_shard_id
store-Indexed ph pid known shard_id v q d h = elim (eq_cases pid q) [
  | inl same ↦
      let peers : List Bytes = get_list shard_id ph.peer_ids_per_shard ++ pid ∷ [] in
      let stored : PeerIdData = record {
        connection_address = known;
        shard_id = shard_id;
        index = length peers - 1;
      } in
      let there : lookup q (insert pid stored ph.peer_ids) ≡ some stored =
        rw (← same) (lookup-insert_self pid stored ph.peer_ids) in
      subst
        (λ d'.
          get_elem? (get_list d'.shard_id (insert shard_id peers ph.peer_ids_per_shard)) d'.index
          ≡ some q)
        (same_value there h)
        (rw (← same, get_list-insert_self shard_id peers ph.peer_ids_per_shard)
          (last_index (get_list shard_id ph.peer_ids_per_shard) pid))
  | inr differ ↦
      index-insert shard_id d.shard_id d.index q pid ph.peer_ids_per_shard
        (v q d (sym (lookup-insert_ne pid q _ _ differ) ∙ h))
]

pub record IsValid (ph : PeersHolder) : Type 0 where
  pub indexed : Indexed ph
  pub waits : Waits ph

pub put_shard_id_waiting :
    (ph : PeersHolder) (pid known : Bytes) (shard_id : ℕ)
    → Waits ph
    → lookup pid ph.temp_peer_ids_waiting_for_shard ≡ some known
    → put_shard_id ph pid shard_id ≡ store_shard_id ph pid shard_id known
unfolding put_shard_id
put_shard_id_waiting ph pid known shard_id w h = rw (h, put_shard_id) (rw (w pid known h) refl)

put_shard_id_not_waiting :
    (ph : PeersHolder) (pid : Bytes) (shard_id : ℕ)
    → lookup pid ph.temp_peer_ids_waiting_for_shard ≡ none
    → put_shard_id ph pid shard_id ≡ ph
unfolding put_shard_id
put_shard_id_not_waiting ph pid shard_id h = rw (h, put_shard_id) refl

pub put_connection_address-IsValid :
    (k : ℕ) (ph : PeersHolder) (pid address : Bytes)
    → IsValid ph
    → IsValid (put_connection_address k ph pid address)
put_connection_address-IsValid k ph pid address v =
    elim (put_connection_address_cases k ph pid address) [
      | inl same ↦ rw same v
      | inr added ↦ rw added (
          unfold add_new_peer_info_to_maps in
          record { indexed = v.indexed; waits = add-Waits k ph pid _ v.waits })
    ]

pub put_shard_id-IsValid :
    (ph : PeersHolder) (pid : Bytes) (shard_id : ℕ)
    → IsValid ph
    → IsValid (put_shard_id ph pid shard_id)
put_shard_id-IsValid ph pid shard_id v =
    elim (Option-cases (lookup pid ph.temp_peer_ids_waiting_for_shard)) [
      | inl absent ↦ rw (put_shard_id_not_waiting ph pid shard_id absent) v
      | inr (known, h) ↦ rw (put_shard_id_waiting ph pid known shard_id v.waits h) (record {
        indexed = store-Indexed ph pid known shard_id v.indexed;
        waits = store-Waits ph pid known shard_id v.waits;
      })
    ]

pub clear-IsValid : (ph : PeersHolder) → IsValid (clear ph)
unfolding clear lookup
clear-IsValid ph = record { indexed = λ pid d h. cc; waits = λ pid addr h. cc }

pub new_loop-IsValid :
    (valid : Bytes → Bool) (addrs preferred : List Bytes) (infos : Dict Bytes (List PeerInfo))
    {ph : PeersHolder}
    → new_loop valid addrs preferred infos ≡ ok ph
    → IsValid ph
unfolding new_loop lookup
new_loop-IsValid valid [] preferred infos h =
    subst IsValid (ok_injective h) (record { indexed = λ pid d e. cc; waits = λ pid addr e. cc })
new_loop-IsValid valid (a ∷ addrs) preferred infos h = elim (Bool-cases (valid a)) [
  | inl good ↦ new_loop-IsValid valid addrs (preferred ++ a ∷ []) (insert a [] infos) (rw good at h)
  | inr bad ↦ let h' : err invalid_value ≡ ok _ = rw bad at h in cc
]
