-- ===== src/Rating/Update.antt =====
-- p2p/rating/peersRatingHandler.go: IncreaseRating and DecreaseRating.
use drt_go_chain_communicati.Prelude.{
  Bool, true, false, Option, none, some, ◌≡◌, refl, ◌⊎◌, inl, inr, Bytes, arith, if◌then◌else◌,
}
use drt_go_chain_communicati.Prelude.Int.{ℤ, pos, negsuc, ◌≤ℤ◌, ◌+ℤ◌, ◌-ℤ◌, ltb_ℤ}
use drt_go_chain_communicati.Rating.Cache.{Cacher, CacherLaws, CacheValue, int32, other}
use drt_go_chain_communicati.Rating.{
  Ratings, top_rated_tier, bad_rated_tier, default_rating, min_rating, max_rating, increase_factor,
  decrease_factor, wrap_int32, compute_rating_tier, limit_rating, get_old_rating, put_top, put_bad,
  remove_top, remove_bad, move_peer_to_new_tier, update_rating_cacher, update_rating,
  increase_rating, decrease_rating,
}
use drt_go_chain_communicati.Rating.Invariant.{
  TopRating, BadRating, IsRated, WellRated, put_top-WellRated, put_bad-WellRated,
  remove_top-WellRated, remove_bad-WellRated,
}

-- A rating of either tier.
abbrev pub InRange : ℤ → Type 0
InRange z = (min_rating ≤ℤ z) × (z ≤ℤ max_rating)

-- In Go's int32 a small step from a rating in range does not wrap.
wrap_int32_small :
    (z f : ℤ)
    → InRange z
    → decrease_factor ≤ℤ f
    → f ≤ℤ increase_factor
    → wrap_int32 (z +ℤ f) ≡ z +ℤ f
unfolding ◌+ℤ◌ ◌-ℤ◌
wrap_int32_small z f r lo hi = ground arith

limit_rating-InRange : (z : ℤ) → InRange (limit_rating z)
unfolding limit_rating
limit_rating-InRange z = ground arith

top_tier : (z : ℤ) → TopRating z → compute_rating_tier z ≡ top_rated_tier
unfolding compute_rating_tier
top_tier z r = ground arith

bad_tier : (z : ℤ) → BadRating z → compute_rating_tier z ≡ bad_rated_tier
unfolding compute_rating_tier
bad_tier z r = ground arith

module _ (c : Cacher) where
  -- Where a peer's rating stands: nowhere, in the top tier, or in the bad tier.
  abbrev pub InTop : Ratings c → Bytes → ℤ → Type 0
  InTop s pid z =
      (c.get s.top_rated_cache pid ≡ some (int32 z))
      × (c.get s.bad_rated_cache pid ≡ none)
      × TopRating z

  abbrev pub InBad : Ratings c → Bytes → ℤ → Type 0
  InBad s pid z =
      (c.get s.top_rated_cache pid ≡ none)
      × (c.get s.bad_rated_cache pid ≡ some (int32 z))
      × BadRating z

  abbrev pub IsNew : Ratings c → Bytes → Type 0
  IsNew s pid = (c.get s.top_rated_cache pid ≡ none) × (c.get s.bad_rated_cache pid ≡ none)

  located :
      (s : Ratings c) (pid : Bytes) (t b : Option CacheValue)
      → c.get s.top_rated_cache pid ≡ t
      → c.get s.bad_rated_cache pid ≡ b
      → IsRated t b
      → IsNew s pid ⊎ ((z : ℤ) × InTop s pid z) ⊎ ((z : ℤ) × InBad s pid z)
  located s pid none none e d r = inl (e, d)
  located s pid (some (int32 z)) none e d r = inr (inl (z, (e, d, r.top_in_range)))
  located s pid (some other) b e d r = absurd r.top_in_range
  located s pid none (some (int32 z)) e d r = inr (inr (z, (e, d, r.bad_in_range)))
  located s pid t (some other) e d r = absurd r.bad_in_range
  located s pid (some (int32 y)) (some (int32 z)) e d r =
      absurd (elim r.one_tier [ inl x ↦ cc | inr x ↦ cc ])

  -- A peer that is not known, or is known in one tier with a rating of that tier.
  pub locate :
      (s : Ratings c) (pid : Bytes)
      → WellRated c s
      → IsNew s pid ⊎ ((z : ℤ) × InTop s pid z) ⊎ ((z : ℤ) × InBad s pid z)
  locate s pid w = located s pid _ _ refl refl (w pid)

  -- How a call writes a rating `v` that a peer did not have before.
  pub data Writes (s : Ratings c) (pid : Bytes) (v : ℤ) (s' : Ratings c) : Type 0 where
    within_top :
        c.get s.bad_rated_cache pid ≡ none
        → TopRating v
        → s' ≡ put_top c s pid v
        → Writes s pid v s'
    within_bad :
        c.get s.top_rated_cache pid ≡ none
        → BadRating v
        → s' ≡ put_bad c s pid v
        → Writes s pid v s'
    up : TopRating v → s' ≡ put_top c (remove_bad c s pid) pid v → Writes s pid v s'
    down : BadRating v → s' ≡ put_bad c (remove_top c s pid) pid v → Writes s pid v s'

  tier_split :
      (z : ℤ)
      → InRange z
      → ((compute_rating_tier z ≡ top_rated_tier) × TopRating z)
        ⊎ ((compute_rating_tier z ≡ bad_rated_tier) × BadRating z)
  unfolding compute_rating_tier
  tier_split (pos n) r = inl (ground arith, ground arith)
  tier_split (negsuc n) r = inr (ground arith, ground arith)

  update_rating_cacher-Writes :
      (s : Ratings c) (pid : Bytes) (old new : ℤ)
      → InRange new
      → InTop s pid old ⊎ InBad s pid old
      → Writes s pid new (update_rating_cacher c s pid old new)
  unfolding update_rating_cacher move_peer_to_new_tier
  update_rating_cacher-Writes s pid old new r (inl t) = elim (tier_split new r) [
    | inl (e, n) ↦ within_top t.1 n (rw (e, top_tier old t.2))
    | inr (e, n) ↦ down n (rw (e, top_tier old t.2))
  ]
  update_rating_cacher-Writes s pid old new r (inr t) = elim (tier_split new r) [
    | inl (e, n) ↦ up n (rw (e, bad_tier old t.2))
    | inr (e, n) ↦ within_bad t.0 n (rw (e, bad_tier old t.2))
  ]

  -- What `getOldRating` finds.
  old_new :
      (s : Ratings c) (pid : Bytes) → IsNew s pid → get_old_rating c s pid ≡ (default_rating, false)
  unfolding get_old_rating
  old_new s pid n = rw (n.0, n.1, get_old_rating)

  old_top :
      (s : Ratings c) (pid : Bytes) (z : ℤ) → InTop s pid z → get_old_rating c s pid ≡ (z, true)
  unfolding get_old_rating
  old_top s pid z t = rw (t.0, get_old_rating)

  old_bad :
      (s : Ratings c) (pid : Bytes) (z : ℤ) → InBad s pid z → get_old_rating c s pid ≡ (z, true)
  unfolding get_old_rating
  old_bad s pid z t = rw (t.0, t.1, get_old_rating)

  -- The rating that a call gives the peer: zero at first, and then the limited sum.
  abbrev pub next_rating : ℤ × Bool → ℤ → ℤ
  next_rating (old, true) f = limit_rating (wrap_int32 (old +ℤ f))
  next_rating (old, false) f = default_rating

  update_known :
      (s : Ratings c) (pid : Bytes) (z f : ℤ)
      → get_old_rating c s pid ≡ (z, true)
      → InTop s pid z ⊎ InBad s pid z
      → Writes s pid (next_rating (get_old_rating c s pid) f) (update_rating c s pid f)
  unfolding update_rating
  update_known s pid z f e t =
      rw (e, update_rating) (update_rating_cacher-Writes s pid z _ (limit_rating-InRange _) t)

  update_new :
      (s : Ratings c) (pid : Bytes) (f : ℤ)
      → get_old_rating c s pid ≡ (default_rating, false)
      → IsNew s pid
      → Writes s pid (next_rating (get_old_rating c s pid) f) (update_rating c s pid f)
  unfolding update_rating
  update_new s pid f e n = rw (e, update_rating) (within_top n.1 (omega arith) refl)

  pub update_rating-Writes :
      (s : Ratings c) (pid : Bytes) (f : ℤ)
      → WellRated c s
      → Writes s pid (next_rating (get_old_rating c s pid) f) (update_rating c s pid f)
  update_rating-Writes s pid f w = elim (locate s pid w) [
    | inl n ↦ update_new s pid f (old_new s pid n) n
    | inr (inl (z, t)) ↦ update_known s pid z f (old_top s pid z t) (inl t)
    | inr (inr (z, t)) ↦ update_known s pid z f (old_bad s pid z t) (inr t)
  ]

-- The step in integers, with no wrap.
abbrev pub stepped : ℤ × Bool → ℤ → ℤ
stepped (old, true) f =
    if ltb_ℤ max_rating (old +ℤ f)
    then max_rating
    else (if ltb_ℤ (old +ℤ f) min_rating then min_rating else old +ℤ f)
stepped (old, false) f = default_rating

next_rating-InRange :
    (z f : ℤ)
    → InRange z
    → decrease_factor ≤ℤ f
    → f ≤ℤ increase_factor
    → limit_rating (wrap_int32 (z +ℤ f)) ≡ stepped (z, true) f
unfolding limit_rating
next_rating-InRange z f r lo hi = rw (wrap_int32_small z f r lo hi) (ground arith)

module _ (c : Cacher) (laws : CacherLaws c) where
  Writes-WellRated :
      (s : Ratings c) (pid : Bytes) (v : ℤ) {s' : Ratings c}
      → WellRated c s
      → Writes c s pid v s'
      → WellRated c s'
  unfolding put_top put_bad remove_top remove_bad
  Writes-WellRated s pid v w (within_top n r e) = rw e (put_top-WellRated c laws s pid v w r n)
  Writes-WellRated s pid v w (within_bad n r e) = rw e (put_bad-WellRated c laws s pid v w r n)
  Writes-WellRated s pid v w (up r e) = rw e (
      put_top-WellRated c laws _ pid v (remove_bad-WellRated c laws s pid w) r
        (laws.get-remove_self s.bad_rated_cache pid))
  Writes-WellRated s pid v w (down r e) = rw e (
      put_bad-WellRated c laws _ pid v (remove_top-WellRated c laws s pid w) r
        (laws.get-remove_self s.top_rated_cache pid))

  Writes-get :
      (s : Ratings c) (pid : Bytes) (v : ℤ) {s' : Ratings c}
      → Writes c s pid v s'
      → get_old_rating c s' pid ≡ (v, true)
  unfolding put_top put_bad remove_top remove_bad get_old_rating
  Writes-get s pid v (within_top n r e) = rw (e, laws.get-put_self, get_old_rating)
  Writes-get s pid v (within_bad n r e) =
      old_bad c _ pid v (rw e n, rw e (laws.get-put_self s.bad_rated_cache pid (int32 v) 4), r)
  Writes-get s pid v (up r e) = rw (e, laws.get-put_self, get_old_rating)
  Writes-get s pid v (down r e) = old_bad c _ pid v (
    rw e (laws.get-remove_self s.top_rated_cache pid),
    rw e (laws.get-put_self s.bad_rated_cache pid (int32 v) 4),
    r,
  )

  update_rating-WellRated :
      (s : Ratings c) (pid : Bytes) (f : ℤ) → WellRated c s → WellRated c (update_rating c s pid f)
  update_rating-WellRated s pid f w = Writes-WellRated s pid _ w (update_rating-Writes c s pid f w)

  -- With caches that keep the laws of Cacher, IncreaseRating and DecreaseRating keep every stored
  -- rating in the range of its tier, and every peer in at most one tier, whatever the caches evict
  -- on the way.
  pub rating_calls-WellRated :
      (s : Ratings c) (pid : Bytes)
      → WellRated c s
      → WellRated c (increase_rating c s pid) × WellRated c (decrease_rating c s pid)
  unfolding increase_rating decrease_rating
  rating_calls-WellRated s pid w = (
    update_rating-WellRated s pid increase_factor w,
    update_rating-WellRated s pid decrease_factor w,
  )

  next_rating-stepped :
      (s : Ratings c) (pid : Bytes) (f : ℤ)
      → decrease_factor ≤ℤ f
      → f ≤ℤ increase_factor
      → WellRated c s
      → next_rating c (get_old_rating c s pid) f ≡ stepped (get_old_rating c s pid) f
  next_rating-stepped s pid f lo hi w = elim (locate c s pid w) [
    | inl n ↦ rw (old_new c s pid n) refl
    | inr (inl (z, t)) ↦
        rw (old_top c s pid z t) (next_rating-InRange z f (omega (arith, t.2.0, t.2.1)) lo hi)
    | inr (inr (z, t)) ↦
        rw (old_bad c s pid z t) (next_rating-InRange z f (omega (arith, t.2.0, t.2.1)) lo hi)
  ]

  -- With caches that keep the laws of Cacher, hold every rating in the range of its tier and every
  -- peer in at most one tier, IncreaseRating and DecreaseRating store the default rating 0 for a
  -- peer that no cache has, and otherwise move the stored rating by 2 up or by 1 down, stopping at
  -- 100 and at -100, whichever tiers it leaves and enters.
  pub rating_calls-get :
      (s : Ratings c) (pid : Bytes)
      → WellRated c s
      → (get_old_rating c (increase_rating c s pid) pid
          ≡ (stepped (get_old_rating c s pid) (pos 2), true))
        × (get_old_rating c (decrease_rating c s pid) pid
            ≡ (stepped (get_old_rating c s pid) (negsuc 0), true))
  unfolding increase_rating decrease_rating
  rating_calls-get s pid w = (
    rw (← next_rating-stepped s pid increase_factor (omega arith) (omega arith) w)
        (Writes-get s pid _ (update_rating-Writes c s pid increase_factor w)),
    rw (← next_rating-stepped s pid decrease_factor (omega arith) (omega arith) w)
        (Writes-get s pid _ (update_rating-Writes c s pid decrease_factor w)),
  )
