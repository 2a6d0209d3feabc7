-- ===== src/Sharding/Sorting.antt =====
-- p2p/libp2p/networksharding/sorting/peerDistances.go, and `evict` of listsSharder.go.
-- `sort.Sort` is an argument, since it may order peers at equal distances in any way; `SortLaws` has
-- what its documentation promises for `Less` below.
use mathlib.Core.List.{Perm}
use drt_go_chain_communicati.Prelude.{
  ℕ, Bool, false, List, [], ◌∷◌, ◌≡◌, map, Bytes, length, drop, All, if◌then◌else◌, ltb, leb,
}
use drt_go_chain_communicati.Prelude.Int.{ℤ, pos, ltb_ℤ, pos_part}

-- `Distance` is a `*big.Int` that the code makes from a count, so it is not negative.
pub record PeerDistance : Type 0 where
  pub id : Bytes
  pub distance : ℕ

-- `Less(i, j)` reads its arguments from the slice; these are the two entries.
unfoldable pub less : PeerDistance → PeerDistance → Bool
less a b = ltb a.distance b.distance

-- No later entry is less than an earlier one.
abbrev pub Sorted : List PeerDistance → Type 0
Sorted [] = Unit
Sorted (a ∷ as') = All (λ b. less b a ≡ false) as' × Sorted as'

pub record SortLaws (sort : List PeerDistance → List PeerDistance) : Type 0 where
  pub permutes : (ds : List PeerDistance) → Perm (sort ds) ds
  pub sorts : (ds : List PeerDistance) → Sorted (sort ds)

abbrev pub ids : List PeerDistance → List Bytes
ids = map λ d. d.id

module _ (sort : List PeerDistance → List PeerDistance) where
  unfoldable pub evict : List PeerDistance → ℤ → List Bytes
  evict distances num_keep =
      let keep = if ltb_ℤ num_keep (pos 0) then 0 else pos_part num_keep in
      if leb (length distances) keep then [] else ids (drop keep (sort distances))
