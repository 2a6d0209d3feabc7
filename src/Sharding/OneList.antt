-- ===== src/Sharding/OneList.antt =====
-- p2p/libp2p/networksharding/oneListSharder.go: the sharder that treats all peers alike.
use drt_go_chain_communicati.Prelude.{
  ℕ, ◌-◌, List, [], ◌∷◌, ◌≡◌, refl, ap, ◌∙◌, Bytes, length, arith,
}
use drt_go_chain_communicati.Prelude.Int.{ℤ, pos, ltb_ℤ, ◌≤ℤ◌, pos_part}
use drt_go_chain_communicati.Errors.{Result, ok, ◌>>◌, fail_if, invalid_value}
use drt_go_chain_communicati.Sharding.Sorting.{PeerDistance, SortLaws, evict}
use drt_go_chain_communicati.Sharding.Evict.{Eviction, evict-Eviction}

abbrev pub min_allowed_connected_peers_one_sharder : ℤ
min_allowed_connected_peers_one_sharder = pos 3

pub record OneListSharder : Type 0 where
  pub self_peer_id : Bytes
  pub max_peer_count : ℤ
  pub compute_distance : Bytes → Bytes → ℕ

-- `compute_distance` is `computeDistanceByCountingBits`.
unfoldable pub new_one_list_sharder : (Bytes → Bytes → ℕ) → Bytes → ℤ → Result OneListSharder
new_one_list_sharder compute_distance self_peer_id max_peer_count = do
  fail_if (ltb_ℤ max_peer_count min_allowed_connected_peers_one_sharder) invalid_value
  ok (record {
    self_peer_id = self_peer_id;
    max_peer_count = max_peer_count;
    compute_distance = compute_distance;
  })

unfoldable pub convert_list : OneListSharder → List Bytes → List PeerDistance
convert_list ols [] = []
convert_list ols (p ∷ peers) =
    record { id = p; distance = ols.compute_distance p ols.self_peer_id } ∷ convert_list ols peers

length-convert_list :
    (ols : OneListSharder) (peers : List Bytes) → length (convert_list ols peers) ≡ length peers
unfolding convert_list
length-convert_list ols [] = refl
length-convert_list ols (p ∷ peers) = omega (arith, length-convert_list ols peers)

module _ (sort : List PeerDistance → List PeerDistance) (laws : SortLaws sort) where
  unfoldable pub compute_one_list : OneListSharder → List Bytes → List Bytes
  compute_one_list ols pid_list = evict sort (convert_list ols pid_list) ols.max_peer_count

  -- With a sort that permutes and sorts, a sharder that NewOneListSharder returned leaves, of any list
  -- of peers, the nearest ones, as many as its maximum, which is 3 or more, and proposes all others.
  pub compute_one_list-Eviction :
      (compute_distance : Bytes → Bytes → ℕ) (self_peer_id : Bytes) (max_peer_count : ℤ)
      (pid_list : List Bytes) {ols : OneListSharder}
      → new_one_list_sharder compute_distance self_peer_id max_peer_count ≡ ok ols
      → (pos 3 ≤ℤ ols.max_peer_count)
        × (length (compute_one_list ols pid_list) ≡ length pid_list - pos_part max_peer_count)
        × Eviction (convert_list ols pid_list) ols.max_peer_count (compute_one_list ols pid_list)
  unfolding new_one_list_sharder compute_one_list
  compute_one_list-Eviction compute_distance self_peer_id max_peer_count pid_list {ols} made =
      let v = evict-Eviction sort laws (convert_list ols pid_list) ols.max_peer_count in
      let same : ols.max_peer_count ≡ max_peer_count = ground arith in
      (ground arith, v.count ∙ omega (arith, length-convert_list ols pid_list, ap pos_part same), v)
