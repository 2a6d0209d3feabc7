-- ===== src/Sharding/Evict.antt =====
-- p2p/libp2p/networksharding/listsSharder.go: `evict` keeps the nearest peers.
use mathlib.Core.List.{Perm, Permᴰ, append-nil}
use mathlib.Core.Logic.{∥∥₁_elim}
use native.Mathlib.Nat.{ℕ_set}
use mathlib.Core.List.Perm
use drt_go_chain_communicati.Prelude.{
  ℕ, zero, suc, ◌-◌, ◌≤◌, false, List, [], ◌∷◌, ◌++◌, ◌≡◌, refl, ap, Bytes, length, length-drop,
  length-map, take, drop, take-append-drop, All, All-map, if◌then◌else◌, leb, arith, Bool-cases,
  inl, inr, ◌∙◌,
}
use drt_go_chain_communicati.Prelude.Int.{ℤ, pos, ltb_ℤ, pos_part}
use drt_go_chain_communicati.Sharding.Sorting.{PeerDistance, less, Sorted, SortLaws, ids, evict}

abbrev pub Nearer : List PeerDistance → List PeerDistance → Type 0
Nearer near far = All (λ a. All (λ b. a.distance ≤ b.distance) far) near

Nearer-nil : (ds : List PeerDistance) → Nearer ds []
Nearer-nil [] = tt
Nearer-nil (d ∷ ds) = (tt, Nearer-nil ds)

All-drop {ℓ κ} : {A : Type ℓ} (P : A → Type κ) (n : ℕ) (xs : List A) → All P xs → All P (drop n xs)
All-drop P zero xs h = h
All-drop P (suc n) [] h = h
All-drop P (suc n) (x ∷ xs) h = All-drop P n xs h.1

Sorted-Nearer : (n : ℕ) (ds : List PeerDistance) → Sorted ds → Nearer (take n ds) (drop n ds)
Sorted-Nearer zero ds h = tt
Sorted-Nearer (suc n) [] h = tt
Sorted-Nearer (suc n) (d ∷ ds) h =
    (All-map _ _ (drop n ds) not_less (All-drop _ n ds h.0), Sorted-Nearer n ds h.1)
  where
    not_less : (b : PeerDistance) → less b d ≡ false → d.distance ≤ b.distance
    not_less b e = unfold less in ground arith

length-permᴰ {ℓ} : {A : Type ℓ} (xs ys : List A) → Permᴰ xs ys → length xs ≡ length ys
length-permᴰ _ _ Permᴰ.nil = refl
length-permᴰ _ _ (Permᴰ.cons {l₁ = xs} {l₂ = ys} e p) = ap suc (length-permᴰ xs ys p)
length-permᴰ _ _ (Permᴰ.swap e d) = refl
length-permᴰ _ _ (Permᴰ.trans {l₁ = xs} {l₂ = ys} {l₃ = zs} p q) =
    length-permᴰ xs ys p ∙ length-permᴰ ys zs q

pub length-perm {ℓ} : {A : Type ℓ} (xs ys : List A) → Perm xs ys → length xs ≡ length ys
length-perm xs ys p = ∥∥₁_elim p (ℕ_set _ _) (length-permᴰ xs ys)

-- A list of peers split into kept ones and evicted ones.
pub record Eviction (distances : List PeerDistance) (num_keep : ℤ) (evicted : List Bytes)
    : Type 0 where
  pub kept : List PeerDistance
  pub dropped : List PeerDistance
  pub proposed : evicted ≡ ids dropped
  pub split : Perm (kept ++ dropped) distances
  pub nearer : Nearer kept dropped
  pub count : length evicted ≡ length distances - pos_part num_keep

module _ (sort : List PeerDistance → List PeerDistance) (laws : SortLaws sort) where
  -- With a sort that permutes and sorts, `evict` splits the peers into kept and evicted ones, such
  -- that no evicted peer is nearer than a kept one, and as many are evicted as there are beyond
  -- the number to keep, which counts as 0 when negative.
  pub evict-Eviction :
      (distances : List PeerDistance) (num_keep : ℤ)
      → Eviction distances num_keep (evict sort distances num_keep)
  unfolding evict
  evict-Eviction distances num_keep =
      let keep : ℕ = if ltb_ℤ num_keep (pos 0) then 0 else pos_part num_keep in
      let same : keep ≡ pos_part num_keep = ground arith in
      let sorted = sort distances in
      elim (Bool-cases (leb (length distances) keep)) [
        | inl few ↦ rw few (record {
          kept = distances;
          dropped = [];
          proposed = refl;
          split = rw (append-nil distances) (Perm.refl distances);
          nearer = Nearer-nil distances;
          count = ground arith;
        })
        | inr many ↦ rw many (record {
          kept = take keep sorted;
          dropped = drop keep sorted;
          proposed = refl;
          split = rw (take-append-drop keep sorted) (laws.permutes distances);
          nearer = Sorted-Nearer keep sorted (laws.sorts distances);
          count = omega (
            arith,
            same,
            length-map (λ (d : PeerDistance). d.id) (drop keep sorted),
            length-drop keep sorted,
            length-perm sorted distances (laws.permutes distances),
          );
        })
      ]
