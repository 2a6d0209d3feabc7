-- ===== src/Rating/Selection.antt =====
-- p2p/rating/peersRatingHandler.go: GetTopRatedPeersFromList.
use mathlib.Core.List.{append_assoc, append-nil}
use drt_go_chain_communicati.Prelude.{
  Bool, true, false, not, ◌||◌, List, [], ◌∷◌, ◌++◌, Option, none, some, ◌≡◌, refl, sym, inl, inr,
  ◌∙◌, Bytes, arith, length, if◌then◌else◌, nat_beq, keep_if, Bool-cases,
}
use drt_go_chain_communicati.Prelude.Int.{ℤ, pos, ltb_ℤ}
use drt_go_chain_communicati.Rating.Cache.{Cacher, CacherLaws, CacheValue, is_some}
use drt_go_chain_communicati.Rating.{
  Ratings, default_rating, put_top, Split, split_peer, split_loop, split_peers_by_tiers,
  get_top_rated_peers_from_list, min_num_of_peers,
}
use drt_go_chain_communicati.Rating.Invariant.{IsRated, WellRated, put_top-WellRated}

is_some-none : (o : Option CacheValue) → is_some o ≡ false → o ≡ none
is_some-none none h = refl
is_some-none (some v) h = cc

one_tier_has : (t b : Option CacheValue) → IsRated t b → is_some t ≡ true → is_some b ≡ false
one_tier_has t none r h = refl
one_tier_has none (some v) r h = cc
one_tier_has (some u) (some v) r h = elim r.one_tier [ inl e ↦ cc | inr e ↦ cc ]

-- A list that grew in one round, and by `rest` in the later ones.
absorb_top :
    (is_bad : Bool) (t q rest r : List Bytes) (p : Bytes)
    → q ≡ (if is_bad then t else t ++ p ∷ [])
    → r ≡ q ++ rest
    → r ≡ t ++ (if not is_bad then p ∷ rest else rest)
absorb_top true t q rest r p e d = rw (← e) d
absorb_top false t q rest r p e d = d ∙ rw e (append_assoc t (p ∷ []) rest)

absorb_bad :
    (is_bad : Bool) (t q rest r : List Bytes) (p : Bytes)
    → q ≡ (if is_bad then t ++ p ∷ [] else t)
    → r ≡ q ++ rest
    → r ≡ t ++ (if is_bad then p ∷ rest else rest)
absorb_bad true t q rest r p e d = d ∙ rw e (append_assoc t (p ∷ []) rest)
absorb_bad false t q rest r p e d = rw (← e) d

module _ (c : Cacher) (laws : CacherLaws c) where
  split_peer-WellRated :
      (l : Split c) (peer : Bytes)
      → WellRated c l.ratings
      → WellRated c (split_peer c l peer).ratings
  unfolding split_peer
  split_peer-WellRated l peer w = elim (Bool-cases (c.has l.ratings.top_rated_cache peer)) [
    | inl in_top ↦ rw (in_top, split_peer) w
    | inr not_top ↦ elim (Bool-cases (c.has l.ratings.bad_rated_cache peer)) [
      | inl in_bad ↦ rw (not_top, in_bad, split_peer) w
      | inr not_bad ↦
          rw (not_top, not_bad, split_peer)
            (put_top-WellRated c laws l.ratings peer default_rating w (omega arith)
              (is_some-none _ (sym (laws.has-get l.ratings.bad_rated_cache peer) ∙ not_bad)))
    ]
  ]

  split_loop-WellRated :
      (l : Split c) (peers : List Bytes)
      → WellRated c l.ratings
      → WellRated c (split_loop c l peers).ratings
  unfolding split_loop
  split_loop-WellRated l [] w = w
  split_loop-WellRated l (peer ∷ peers) w =
      split_loop-WellRated (split_peer c l peer) peers (split_peer-WellRated l peer w)

  top_not_bad :
      (l : Split c) (peer : Bytes)
      → WellRated c l.ratings
      → c.has l.ratings.top_rated_cache peer ≡ true
      → c.has l.ratings.bad_rated_cache peer ≡ false
  top_not_bad l peer w h =
      laws.has-get l.ratings.bad_rated_cache peer
      ∙ one_tier_has _ _ (w peer) (sym (laws.has-get l.ratings.top_rated_cache peer) ∙ h)

  -- One round: the bad cache stays, and the peer goes to the list that the bad cache decides.
  split_peer_lem :
      (l : Split c) (bad : c.Store) (peer : Bytes)
      → WellRated c l.ratings
      → l.ratings.bad_rated_cache ≡ bad
      → let q = split_peer c l peer in
        let is_bad = c.has bad peer in
        (q.ratings.bad_rated_cache ≡ bad)
        × (q.top_rated ≡ (if is_bad then l.top_rated else l.top_rated ++ peer ∷ []))
        × (q.bad_rated ≡ (if is_bad then l.bad_rated ++ peer ∷ [] else l.bad_rated))
  unfolding split_peer put_top
  split_peer_lem l bad peer w e = rw (← e) (ground (arith, top_not_bad l peer w))

  -- The whole loop: the peers that the bad cache has, and the others, each in the order given.
  split_loop_lem :
      (l : Split c) (bad : c.Store) (peers : List Bytes)
      → WellRated c l.ratings
      → l.ratings.bad_rated_cache ≡ bad
      → let q = split_loop c l peers in
        (q.top_rated ≡ l.top_rated ++ keep_if (λ p. not (c.has bad p)) peers)
        × (q.bad_rated ≡ l.bad_rated ++ keep_if (c.has bad) peers)
  unfolding split_loop
  split_loop_lem l bad [] w e = (sym (append-nil l.top_rated), sym (append-nil l.bad_rated))
  split_loop_lem l bad (peer ∷ peers) w e =
      let (b, t, d) = split_peer_lem l bad peer w e in
      let (t', d') =
        split_loop_lem (split_peer c l peer) bad peers (split_peer-WellRated l peer w) b in
      (absorb_top (c.has bad peer) _ _ _ _ peer t t', absorb_bad (c.has bad peer) _ _ _ _ peer d d')

  -- With caches that keep the laws of Cacher, GetTopRatedPeersFromList keeps every stored rating
  -- in the range of its tier and every peer in at most one tier.
  pub get_top_rated-WellRated :
      (s : Ratings c) (peers : List Bytes) (expected : ℤ)
      → WellRated c s
      → WellRated c (get_top_rated_peers_from_list c s peers expected).0
  unfolding get_top_rated_peers_from_list split_peers_by_tiers
  get_top_rated-WellRated s peers expected w =
      elim (Bool-cases (ltb_ℤ expected min_num_of_peers || nat_beq (length peers) 0)) [
        | inl nothing ↦ rw (nothing, get_top_rated_peers_from_list) w
        | inr some_peers ↦
            rw (some_peers, get_top_rated_peers_from_list) (split_loop-WellRated _ peers w)
      ]

  -- With caches that keep the laws of Cacher, hold every rating in the range of its tier and every
  -- peer in at most one tier, GetTopRatedPeersFromList returns no peer if fewer than one is asked
  -- for or none is given; else, in the order given, those that the bad tier does not hold,
  -- followed by those that it holds if the former are fewer than asked for.
  pub get_top_rated_lem :
      (s : Ratings c) (peers : List Bytes) (expected : ℤ)
      → WellRated c s
      → let is_bad = c.has s.bad_rated_cache in
        let good = keep_if (λ p. not (is_bad p)) peers in
        (get_top_rated_peers_from_list c s peers expected).1 ≡ (
          if ltb_ℤ expected (pos 1) || nat_beq (length peers) 0
          then []
          else (if ltb_ℤ (pos (length good)) expected then good ++ keep_if is_bad peers else good))
  unfolding get_top_rated_peers_from_list split_peers_by_tiers
  get_top_rated_lem s peers expected w =
      let (t, d) =
        split_loop_lem (record { ratings = s; top_rated = []; bad_rated = [] }) s.bad_rated_cache
          peers w refl in
      elim (Bool-cases (ltb_ℤ expected min_num_of_peers || nat_beq (length peers) 0)) [
        | inl nothing ↦ rw (nothing, get_top_rated_peers_from_list) refl
        | inr some_peers ↦ rw (some_peers, get_top_rated_peers_from_list) (rw (t, d) refl)
      ]
