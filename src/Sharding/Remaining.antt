-- ===== src/Sharding/Remaining.antt =====
-- p2p/libp2p/networksharding/listsSharder.go: the peers left when the proposed ones are closed.
use mathlib.Core.List.{Perm, Permᴰ}
use mathlib.Core.Logic.{∥∥₁_elim}
use native.Mathlib.Nat.{ℕ_set}
use drt_go_chain_communicati.Prelude.{
  ℕ, ◌+◌, ◌≤◌, Bool, true, false, not, ◌&&◌, List, [], ◌∷◌, ◌++◌, ◌≡◌, refl, ap, ◌∙◌, Bytes,
  bytes_eq, length, length-append, length-map, keep_if, ◌==◌, ==_refl, All, All-map, if◌then◌else◌,
  arith, Bool-cases, inl, inr,
}
use drt_go_chain_communicati.Prelude.Int.{pos}
use drt_go_chain_communicati.Sharding.Sorting.{PeerDistance, SortLaws, ids, evict}
use drt_go_chain_communicati.Sharding.Evict.{evict-Eviction, length-perm}
use drt_go_chain_communicati.Sharding.Capacity.{
  Fits, total, counted, is_known_type, evict_all_capacity,
}
use drt_go_chain_communicati.Sharding.{
  ListsSharder, PeersConnections, PeerLists, PeerType, unknown_peer, validator_peer, observer_peer,
  other_peer, has, is_seeder, add_by_type, split_peer, split_loop, split_peer_ids, num_kept,
  evict_all, no_peers, compute_eviction_list,
}

-- How many of the peers pass a test.
abbrev passing : (Bytes → Bool) → List PeerDistance → ℕ
passing q ds = length (keep_if (λ d. q d.id) ds)

passing-append :
    (q : Bytes → Bool) (ds es : List PeerDistance)
    → passing q (ds ++ es) ≡ passing q ds + passing q es
passing-append q [] es = omega arith
passing-append q (d ∷ ds) es = ground (arith, passing-append q ds es)

passing-le : (q : Bytes → Bool) (ds : List PeerDistance) → passing q ds ≤ length ds
passing-le q [] = omega arith
passing-le q (d ∷ ds) = ground (arith, passing-le q ds)

passing-none :
    (q : Bytes → Bool) (ds : List PeerDistance) → All (λ p. q p ≡ false) (ids ds) → passing q ds ≡ 0
passing-none q [] h = refl
passing-none q (d ∷ ds) h = rw (h.0) (passing-none q ds h.1)

passing-permᴰ :
    (q : Bytes → Bool) (ds es : List PeerDistance) → Permᴰ ds es → passing q ds ≡ passing q es
passing-permᴰ q _ _ Permᴰ.nil = refl
passing-permᴰ q _ _ (Permᴰ.cons {l₁ = ds} {l₂ = es} e p) = ground (arith, passing-permᴰ q ds es p)
passing-permᴰ q _ _ (Permᴰ.swap d e) = ground arith
passing-permᴰ q _ _ (Permᴰ.trans {l₁ = ds} {l₂ = es} {l₃ = fs} p r) =
    passing-permᴰ q ds es p ∙ passing-permᴰ q es fs r

passing-perm :
    (q : Bytes → Bool) (ds es : List PeerDistance) → Perm ds es → passing q ds ≡ passing q es
passing-perm q ds es p = ∥∥₁_elim p (ℕ_set _ _) (passing-permᴰ q ds es)

keep_if-both :
    (f g : Bytes → Bool) (ps : List Bytes) → keep_if f (keep_if g ps) ≡ keep_if (λ p. f p && g p) ps
keep_if-both f g [] = refl
keep_if-both f g (p ∷ ps) = elim (Bool-cases (g p)) [
  | inl h ↦ elim (Bool-cases (f p)) [
    | inl k ↦ rw (h, k, keep_if-both f g ps)
    | inr k ↦ rw (h, k, keep_if-both f g ps)
  ]
  | inr h ↦ elim (Bool-cases (f p)) [
    | inl k ↦ rw (h, k, keep_if-both f g ps)
    | inr k ↦ rw (h, k, keep_if-both f g ps)
  ]
]

-- The peers of the six lists that pass a test.
abbrev all_passing : (Bytes → Bool) → PeerLists → ℕ
all_passing q l =
    passing q l.intra_validators
    + passing q l.cross_validators
    + passing q l.intra_observers
    + passing q l.cross_observers
    + passing q l.seeder_peers
    + passing q l.unknown_peers

abbrev one_if : Bool → ℕ
one_if b = if b then 1 else 0

passing-end :
    (q : Bytes → Bool) (ds : List PeerDistance) (d : PeerDistance)
    → passing q (ds ++ d ∷ []) ≡ passing q ds + one_if (q d.id)
passing-end q ds d = ground (arith, passing-append q ds (d ∷ []))

all_passing-add_by_type :
    (q : Bytes → Bool) (t : PeerType) (is_cross : Bool) (pd : PeerDistance) (l : PeerLists)
    → all_passing q (add_by_type t is_cross pd l)
      ≡ all_passing q l + one_if (is_known_type t && q pd.id)
unfolding add_by_type
all_passing-add_by_type q validator_peer true pd l =
    omega (arith, passing-end q l.cross_validators pd)
all_passing-add_by_type q observer_peer true pd l =
    omega (arith, passing-end q l.cross_observers pd)
all_passing-add_by_type q validator_peer false pd l =
    omega (arith, passing-end q l.intra_validators pd)
all_passing-add_by_type q observer_peer false pd l =
    omega (arith, passing-end q l.intra_observers pd)
all_passing-add_by_type q unknown_peer is_cross pd l =
    omega (arith, passing-end q l.unknown_peers pd)
all_passing-add_by_type q (other_peer n) is_cross pd l = omega arith

All-append_left {ℓ} : {A : Type ℓ} (P : A → Type 0) (xs ys : List A) → All P (xs ++ ys) → All P xs
All-append_left P [] ys h = tt
All-append_left P (x ∷ xs) ys h = (h.0, All-append_left P xs ys h.1)

All-append_right {ℓ} : {A : Type ℓ} (P : A → Type 0) (xs ys : List A) → All P (xs ++ ys) → All P ys
All-append_right P [] ys h = h
All-append_right P (x ∷ xs) ys h = All-append_right P xs ys h.1

pub All-has : (xs : List Bytes) → All (λ q. has q xs ≡ true) xs
unfolding has
All-has [] = tt
All-has (x ∷ xs) = (
  rw (==_refl x) refl,
  All-map _ _ xs (λ q h. elim (Bool-cases (x == q)) [ inl e ↦ rw e refl | inr e ↦ rw e h ])
      (All-has xs),
)

module _ (pretty : Bytes → Bytes) (sort : List PeerDistance → List PeerDistance)
    (laws : SortLaws sort) where
  all_passing-split_peer :
      (q : Bytes → Bool) (ls : ListsSharder) (l : PeerLists) (p : Bytes)
      → all_passing q (split_peer pretty sort ls l p)
        ≡ all_passing q l + one_if (counted pretty sort laws ls p && q p)
  unfolding split_peer
  all_passing-split_peer q ls l p = elim (Bool-cases (is_seeder pretty ls.seeders p)) [
    | inl seeder ↦ rw (seeder, split_peer) (omega (arith, passing-end q l.seeder_peers))
    | inr other ↦ elim (Bool-cases (ls.preferred_peers_holder p)) [
      | inl preferred ↦ rw (other, preferred, split_peer) (omega arith)
      | inr free ↦ rw (other, free, split_peer) (all_passing-add_by_type q _ _ _ l)
    ]
  ]

  all_passing-split_loop :
      (q : Bytes → Bool) (ls : ListsSharder) (l : PeerLists) (peers : List Bytes)
      → all_passing q (split_loop pretty sort ls l peers)
        ≡ all_passing q l + length (keep_if (λ p. counted pretty sort laws ls p && q p) peers)
  unfolding split_loop
  all_passing-split_loop q ls l [] = omega arith
  all_passing-split_loop q ls l (p ∷ peers) = ground (
    arith,
    all_passing-split_peer q ls l p,
    all_passing-split_loop q ls (split_peer pretty sort ls l p) peers,
  )

  -- Of a list with `n` peers to keep, no more pass a test that the evicted peers fail than stay.
  passing-evict :
      (q : Bytes → Bool) (ds : List PeerDistance) (n : ℕ)
      → All (λ p. q p ≡ false) (evict sort ds (pos n))
      → passing q ds + length (evict sort ds (pos n)) ≤ length ds
  passing-evict q ds n none_passes =
      let v = evict-Eviction sort laws ds (pos n) in
      omega (
        arith,
        passing-perm q _ ds v.split,
        passing-append q v.kept v.dropped,
        passing-none q v.dropped (rw v.proposed at none_passes),
        passing-le q v.kept,
        length-perm _ ds v.split,
        length-append v.kept v.dropped,
        ap length v.proposed,
        length-map (λ (d : PeerDistance). d.id) v.dropped,
      )

  passing-evict_all :
      (q : Bytes → Bool) (n : PeersConnections) (l : PeerLists)
      → All (λ p. q p ≡ false) (evict_all pretty sort n l)
      → all_passing q l + length (evict_all pretty sort n l) ≤ total l
  unfolding evict_all
  passing-evict_all q n l h =
      let fails : Bytes → Type 0 = λ p. q p ≡ false in
      let h1 =
        All-append_right fails (evict sort l.intra_validators (pos n.intra_shard_validators)) _ h in
      let h2 =
        All-append_right fails (evict sort l.cross_validators (pos n.cross_shard_validators)) _
          h1 in
      let h3 =
        All-append_right fails (evict sort l.intra_observers (pos n.intra_shard_observers)) _ h2 in
      let h4 =
        All-append_right fails (evict sort l.cross_observers (pos n.cross_shard_observers)) _ h3 in
      let h5 = All-append_right fails (evict sort l.seeder_peers (pos n.seeders)) _ h4 in
      omega (
        arith,
        length-append {0},
        passing-evict q l.intra_validators n.intra_shard_validators (All-append_left fails _ _ h),
        passing-evict q l.cross_validators n.cross_shard_validators (All-append_left fails _ _ h1),
        passing-evict q l.intra_observers n.intra_shard_observers (All-append_left fails _ _ h2),
        passing-evict q l.cross_observers n.cross_shard_observers (All-append_left fails _ _ h3),
        passing-evict q l.seeder_peers n.seeders (All-append_left fails _ _ h4),
        passing-evict q l.unknown_peers n.unknown h5,
      )

  -- With a sort that permutes and sorts, and limits that add up to the target number of peers: of the
  -- given peers without those that ComputeEvictionList proposes, at most the target number are
  -- peers that count: the seeders, and the peers of a known type that are not preferred.
  pub compute_eviction_list-keep_if :
      (ls : ListsSharder) (pid_list : List Bytes)
      → Fits ls
      → let gone = compute_eviction_list pretty sort ls pid_list in
        (length (keep_if (counted pretty sort laws ls) (keep_if (λ p. not (has p gone)) pid_list))
          ≤ ls.max_peer_count)
  unfolding compute_eviction_list split_peer_ids
  compute_eviction_list-keep_if ls pid_list fits =
      let l = split_peer_ids pretty sort ls pid_list in
      let gone = evict_all pretty sort (num_kept pretty sort ls l) l in
      let q : Bytes → Bool = λ p. not (has p gone) in
      omega (
        arith,
        evict_all_capacity pretty sort laws ls l fits,
        passing-evict_all q (num_kept pretty sort ls l) l
            (All-map _ _ gone (λ p h. rw h refl) (All-has gone)),
        all_passing-split_loop q ls no_peers pid_list,
        ap length (keep_if-both (counted pretty sort laws ls) q pid_list),
      )
