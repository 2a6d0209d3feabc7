-- ===== src/Sharding/Choice.antt =====
-- p2p/libp2p/networksharding/listsSharder.go: whom ComputeEvictionList may propose.
use mathlib.Core.List.{
  Mem, Memᴰ, Mem-prop, mem-append, mem-append_right, mem-map, mem-cons_self, mem-cons_of_mem,
}
use mathlib.Core.List.Perm
use mathlib.Core.Logic.{∥∥₁_elim}
use mathlib.Core.Logic.Or
use mathlib.Core.Bool.{Bool-set}
use mathlib.Core.HLevel.{×_prop}
use drt_go_chain_communicati.Prelude.{
  Bool, true, false, not, ◌||◌, List, [], ◌∷◌, ◌++◌, ◌≡◌, refl, Bytes, All, All-append, inl, inr,
  Bool-cases,
}
use drt_go_chain_communicati.Prelude.Int.{ℤ}
use drt_go_chain_communicati.Sharding.Sorting.{PeerDistance, SortLaws, evict}
use drt_go_chain_communicati.Sharding.Evict.{evict-Eviction}
use drt_go_chain_communicati.Sharding.{
  ListsSharder, PeersConnections, PeerLists, PeerType, unknown_peer, validator_peer, observer_peer,
  other_peer, is_seeder, add_by_type, split_peer, split_loop, split_peer_ids, evict_all, no_peers,
  compute_eviction_list,
}

All-Memᴰ {ℓ κ} : {A : Type ℓ} (P : A → Type κ) (xs : List A) {a : A} → All P xs → Memᴰ a xs → P a
All-Memᴰ P [] h m = elim m [ ]
All-Memᴰ P (x ∷ xs) h (Memᴰ.head e) = rw e h.0
All-Memᴰ P (x ∷ xs) h (Memᴰ.tail m) = All-Memᴰ P xs h.1 m

All-Mem {ℓ κ} :
    {A : Type ℓ} (P : A → Type κ) (prop : (a : A) → IsProp (P a)) (xs : List A) {a : A}
    → All P xs
    → Mem a xs
    → P a
All-Mem P prop xs {a} h m = ∥∥₁_elim m (prop a) (All-Memᴰ P xs h)

-- What holds of every entry of the six lists.
abbrev Each : (PeerDistance → Type 0) → PeerLists → Type 0
Each P l =
    All P l.intra_validators
    × All P l.intra_observers
    × All P l.cross_validators
    × All P l.cross_observers
    × All P l.seeder_peers
    × All P l.unknown_peers

add_by_type-Each :
    (P : PeerDistance → Type 0) (t : PeerType) (is_cross : Bool) (pd : PeerDistance) (l : PeerLists)
    → P pd
    → Each P l
    → Each P (add_by_type t is_cross pd l)
unfolding add_by_type
add_by_type-Each P validator_peer true pd l p e =
    (e.0, e.1, All-append P _ _ e.2 (p, tt), e.3, e.4, e.5)
add_by_type-Each P observer_peer true pd l p e =
    (e.0, e.1, e.2, All-append P _ _ e.3 (p, tt), e.4, e.5)
add_by_type-Each P validator_peer false pd l p e =
    (All-append P _ _ e.0 (p, tt), e.1, e.2, e.3, e.4, e.5)
add_by_type-Each P observer_peer false pd l p e =
    (e.0, All-append P _ _ e.1 (p, tt), e.2, e.3, e.4, e.5)
add_by_type-Each P unknown_peer is_cross pd l p e =
    (e.0, e.1, e.2, e.3, e.4, All-append P _ _ e.5 (p, tt))
add_by_type-Each P (other_peer n) is_cross pd l p e = e

module _ (pretty : Bytes → Bytes) (sort : List PeerDistance → List PeerDistance)
    (laws : SortLaws sort) where
  -- A peer that may be proposed: a seeder, or one that is not preferred.
  abbrev pub evictable : ListsSharder → Bytes → Bool
  evictable ls p = is_seeder pretty ls.seeders p || not (ls.preferred_peers_holder p)

  abbrev pub IsCandidate : ListsSharder → List Bytes → Bytes → Type 0
  IsCandidate ls peers p = Mem p peers × (evictable ls p ≡ true)

  IsCandidate-prop :
      (ls : ListsSharder) (peers : List Bytes) (p : Bytes) → IsProp (IsCandidate ls peers p)
  IsCandidate-prop ls peers p = ×_prop Mem-prop (Bool-set _ _)

  split_peer-Each :
      (ls : ListsSharder) (peers : List Bytes) (l : PeerLists) (p : Bytes)
      → Mem p peers
      → Each (λ d. IsCandidate ls peers d.id) l
      → Each (λ d. IsCandidate ls peers d.id) (split_peer pretty sort ls l p)
  unfolding split_peer
  split_peer-Each ls peers l p m e = elim (Bool-cases (is_seeder pretty ls.seeders p)) [
    | inl seeder ↦
        rw (seeder, split_peer)
          (e.0, e.1, e.2, e.3, All-append _ _ _ e.4 ((m, rw seeder refl), tt), e.5)
    | inr other ↦ elim (Bool-cases (ls.preferred_peers_holder p)) [
      | inl preferred ↦ rw (other, preferred, split_peer) e
      | inr free ↦
          rw (other, free, split_peer) (add_by_type-Each _ _ _ _ l (m, rw (other, free) refl) e)
    ]
  ]

  split_loop-Each :
      (ls : ListsSharder) (peers rest : List Bytes) (l : PeerLists)
      → ((p : Bytes) → Mem p rest → Mem p peers)
      → Each (λ d. IsCandidate ls peers d.id) l
      → Each (λ d. IsCandidate ls peers d.id) (split_loop pretty sort ls l rest)
  unfolding split_loop
  split_loop-Each ls peers [] l sub e = e
  split_loop-Each ls peers (p ∷ rest) l sub e =
      split_loop-Each ls peers rest (split_peer pretty sort ls l p)
        (λ q m. sub q (mem-cons_of_mem p m)) (split_peer-Each ls peers l p (sub p mem-cons_self) e)

  evict-IsCandidate :
      (ls : ListsSharder) (peers : List Bytes) (ds : List PeerDistance) (n : ℤ) (p : Bytes)
      → All (λ d. IsCandidate ls peers d.id) ds
      → Mem p (evict sort ds n)
      → IsCandidate ls peers p
  evict-IsCandidate ls peers ds n p h m =
      let v = evict-Eviction sort laws ds n in
      ∥∥₁_elim (mem-map.0 (rw v.proposed at m)) (IsCandidate-prop ls peers p) (λ (d, md, e).
        rw (← e) (
          All-Mem (λ (q : PeerDistance). IsCandidate ls peers q.id)
            (λ q. IsCandidate-prop ls peers q.id) ds h
            ((Perm.mem_iff v.split).0 (mem-append_right v.kept md))))

  either :
      (ls : ListsSharder) (peers xs ys : List Bytes) (p : Bytes)
      → (Mem p xs → IsCandidate ls peers p)
      → (Mem p ys → IsCandidate ls peers p)
      → Mem p (xs ++ ys)
      → IsCandidate ls peers p
  either ls peers xs ys p f g m = Or.elim (IsCandidate-prop ls peers p) (mem-append.0 m) f g

  evict_all-IsCandidate :
      (ls : ListsSharder) (peers : List Bytes) (n : PeersConnections) (l : PeerLists) (p : Bytes)
      → Each (λ d. IsCandidate ls peers d.id) l
      → Mem p (evict_all pretty sort n l)
      → IsCandidate ls peers p
  unfolding evict_all
  evict_all-IsCandidate ls peers n l p e =
      either ls peers _ _ p (evict-IsCandidate ls peers _ _ p e.0) (
        either ls peers _ _ p (evict-IsCandidate ls peers _ _ p e.2) (
          either ls peers _ _ p (evict-IsCandidate ls peers _ _ p e.1) (
            either ls peers _ _ p (evict-IsCandidate ls peers _ _ p e.3) (
              either ls peers _ _ p (evict-IsCandidate ls peers _ _ p e.4)
                (evict-IsCandidate ls peers _ _ p e.5)))))

  -- With a sort that permutes and sorts, ComputeEvictionList proposes only peers of the given
  -- list, and a preferred peer only if it is a seeder.
  pub compute_eviction_list-IsCandidate :
      (ls : ListsSharder) (pid_list : List Bytes) (p : Bytes)
      → Mem p (compute_eviction_list pretty sort ls pid_list)
      → IsCandidate ls pid_list p
  unfolding compute_eviction_list split_peer_ids
  compute_eviction_list-IsCandidate ls pid_list p =
      evict_all-IsCandidate ls pid_list _ _ p
        (split_loop-Each ls pid_list pid_list no_peers (λ q m. m) (tt, tt, tt, tt, tt, tt))
