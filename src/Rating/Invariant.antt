-- ===== src/Rating/Invariant.antt =====
-- p2p/rating/peersRatingHandler.go: what holds of the two caches between calls.
use drt_go_chain_communicati.Prelude.{
  Option, none, some, ◌≡◌, refl, ◌⊎◌, inl, inr, Bytes, bytes_eq, eq_cases,
}
use drt_go_chain_communicati.Prelude.Int.{ℤ, negsuc, ◌≤ℤ◌}
use drt_go_chain_communicati.Rating.Cache.{Cacher, CacherLaws, CacheValue, int32, other}
use drt_go_chain_communicati.Rating.{
  Ratings, default_rating, min_rating, max_rating, put_top, put_bad, remove_top, remove_bad,
}

abbrev pub TopRating : ℤ → Type 0
TopRating z = (default_rating ≤ℤ z) × (z ≤ℤ max_rating)

abbrev pub BadRating : ℤ → Type 0
BadRating z = (min_rating ≤ℤ z) × (z ≤ℤ negsuc 0)

abbrev pub Holds : (ℤ → Type 0) → Option CacheValue → Type 0
Holds P none = Unit
Holds P (some (int32 z)) = P z
Holds P (some other) = ⊥

-- What the caches may hold for one peer.
pub record IsRated (top bad : Option CacheValue) : Type 0 where
  pub top_in_range : Holds TopRating top
  pub bad_in_range : Holds BadRating bad
  pub one_tier : (top ≡ none) ⊎ (bad ≡ none)

module _ (c : Cacher) where
  -- Every stored rating is an int32 in the range of its tier, and no peer is in both tiers.
  abbrev pub WellRated : Ratings c → Type 0
  WellRated s = (pid : Bytes) → IsRated (c.get s.top_rated_cache pid) (c.get s.bad_rated_cache pid)

IsRated-drop_top : (t b : Option CacheValue) → IsRated t b → IsRated none b
IsRated-drop_top t b r = record {
  top_in_range = tt;
  bad_in_range = r.bad_in_range;
  one_tier = inl refl;
}

IsRated-drop_bad : (t b : Option CacheValue) → IsRated t b → IsRated t none
IsRated-drop_bad t b r = record {
  top_in_range = r.top_in_range;
  bad_in_range = tt;
  one_tier = inr refl;
}

module _ (c : Cacher) (laws : CacherLaws c) where
  -- The four writes keep the invariant: a put where the other tier does not have the peer, and any
  -- removal.
  pub put_top-WellRated :
      (s : Ratings c) (pid : Bytes) (z : ℤ)
      → WellRated c s
      → TopRating z
      → c.get s.bad_rated_cache pid ≡ none
      → WellRated c (put_top c s pid z)
  unfolding put_top
  put_top-WellRated s pid z w r e j = elim (eq_cases pid j) [
    | inl same ↦
        rw (← same, laws.get-put_self, e)
          (record { top_in_range = r; bad_in_range = tt; one_tier = inr refl })
    | inr differ ↦ elim (laws.get-put_ne s.top_rated_cache pid j (int32 z) 4 differ) [
      | inl kept ↦ rw kept (w j)
      | inr evicted ↦ rw evicted (IsRated-drop_top _ _ (w j))
    ]
  ]

  pub put_bad-WellRated :
      (s : Ratings c) (pid : Bytes) (z : ℤ)
      → WellRated c s
      → BadRating z
      → c.get s.top_rated_cache pid ≡ none
      → WellRated c (put_bad c s pid z)
  unfolding put_bad
  put_bad-WellRated s pid z w r e j = elim (eq_cases pid j) [
    | inl same ↦
        rw (← same, laws.get-put_self, e)
          (record { top_in_range = tt; bad_in_range = r; one_tier = inl refl })
    | inr differ ↦ elim (laws.get-put_ne s.bad_rated_cache pid j (int32 z) 4 differ) [
      | inl kept ↦ rw kept (w j)
      | inr evicted ↦ rw evicted (IsRated-drop_bad _ _ (w j))
    ]
  ]

  pub remove_top-WellRated :
      (s : Ratings c) (pid : Bytes) → WellRated c s → WellRated c (remove_top c s pid)
  unfolding remove_top
  remove_top-WellRated s pid w j = elim (eq_cases pid j) [
    | inl same ↦ rw (← same, laws.get-remove_self) (IsRated-drop_top _ _ (w pid))
    | inr differ ↦ rw (laws.get-remove_ne s.top_rated_cache pid j differ) (w j)
  ]

  pub remove_bad-WellRated :
      (s : Ratings c) (pid : Bytes) → WellRated c s → WellRated c (remove_bad c s pid)
  unfolding remove_bad
  remove_bad-WellRated s pid w j = elim (eq_cases pid j) [
    | inl same ↦ rw (← same, laws.get-remove_self) (IsRated-drop_bad _ _ (w pid))
    | inr differ ↦ rw (laws.get-remove_ne s.bad_rated_cache pid j differ) (w j)
  ]
