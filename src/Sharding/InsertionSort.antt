-- ===== src/Sharding/InsertionSort.antt =====
-- A stable sort for the tests of p2p/libp2p/networksharding/listsSharder.go, in the place of `sort.Sort`.
use mathlib.Core.List.Perm
use mathlib.Core.List.{Perm}
use drt_go_chain_communicati.Prelude.{
  false, List, [], ◌∷◌, ◌≡◌, All, All-map, if◌then◌else◌, leb, arith, Bool-cases, inl, inr,
}
use drt_go_chain_communicati.Sharding.Sorting.{PeerDistance, less, Sorted, SortLaws}

unfoldable pub put : PeerDistance → List PeerDistance → List PeerDistance
put d [] = d ∷ []
put d (e ∷ es) = let rest = put d es in if leb d.distance e.distance then d ∷ e ∷ es else e ∷ rest

unfoldable pub insertion_sort : List PeerDistance → List PeerDistance
unfolding put
insertion_sort [] = []
insertion_sort (d ∷ ds) = put d (insertion_sort ds)

put-perm : (d : PeerDistance) (es : List PeerDistance) → Perm (put d es) (d ∷ es)
unfolding put
put-perm d [] = Perm.refl (d ∷ [])
put-perm d (e ∷ es) = elim (Bool-cases (leb d.distance e.distance)) [
  | inl near ↦ rw near (Perm.refl (d ∷ e ∷ es))
  | inr far ↦ rw far (Perm.trans (Perm.cons e (put-perm d es)) (Perm.swap d e es))
]

put-All :
    (P : PeerDistance → Type 0) (d : PeerDistance) (es : List PeerDistance)
    → P d
    → All P es
    → All P (put d es)
unfolding put
put-All P d [] p h = (p, tt)
put-All P d (e ∷ es) p h = elim (Bool-cases (leb d.distance e.distance)) [
  | inl near ↦ rw near (p, h)
  | inr far ↦ rw far (h.0, put-All P d es p h.1)
]

put-Sorted : (d : PeerDistance) (es : List PeerDistance) → Sorted es → Sorted (put d es)
unfolding put less
put-Sorted d [] h = (tt, tt)
put-Sorted d (e ∷ es) h = elim (Bool-cases (leb d.distance e.distance)) [
  | inl near ↦ rw near (
    (
      ground arith,
      All-map (λ b. less b e ≡ false) (λ b. less b d ≡ false) es (λ b l. ground arith) h.0,
    ),
    h,
  )
  | inr far ↦ rw far (put-All (λ b. less b e ≡ false) d es (ground arith) h.0, put-Sorted d es h.1)
]

pub insertion_sort-perm : (ds : List PeerDistance) → Perm (insertion_sort ds) ds
unfolding insertion_sort
insertion_sort-perm [] = Perm.refl []
insertion_sort-perm (d ∷ ds) =
    Perm.trans (put-perm d (insertion_sort ds)) (Perm.cons d (insertion_sort-perm ds))

pub insertion_sort-Sorted : (ds : List PeerDistance) → Sorted (insertion_sort ds)
unfolding insertion_sort
insertion_sort-Sorted [] = tt
insertion_sort-Sorted (d ∷ ds) = put-Sorted d (insertion_sort ds) (insertion_sort-Sorted ds)

pub insertion_sort-SortLaws : SortLaws insertion_sort
insertion_sort-SortLaws = record { permutes = insertion_sort-perm; sorts = insertion_sort-Sorted }
