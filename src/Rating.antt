-- ===== src/Rating.antt =====
-- p2p/rating/peersRatingHandler.go: the ratings of peers, kept in two caches.
-- A cache is a `types.Cacher` of another repository: `Cacher` has its operations, and `CacherLaws`
-- what their documentation promises, evictions included. Methods return the new caches.
pub mod Cache
pub mod Invariant
pub mod Update
pub mod Selection
pub mod MapCache
mod Examples
use drt_go_chain_communicati.Prelude.{
  ℕ, Bool, true, false, List, [], ◌∷◌, ◌++◌, Option, none, some, Bytes, length, if◌then◌else◌, ltb,
  ◌==◌, ◌||◌, nat_beq,
}
use drt_go_chain_communicati.Prelude.Int.{ℤ, pos, negsuc, ◌+ℤ◌, ◌-ℤ◌, ltb_ℤ}
use drt_go_chain_communicati.Errors.{Result, ok, err, ◌>>=◌, not_nil, nil_cacher, nil_logger}
use Cache.{Cacher, CacheValue, int32, other}

pub data Tier : Type 0 where
  top_rated_tier bad_rated_tier : Tier

abbrev is_top_rated_tier : Tier → Bool
is_top_rated_tier top_rated_tier = true
is_top_rated_tier bad_rated_tier = false

abbrev tier_beq : Tier → Tier → Bool
tier_beq top_rated_tier t = is_top_rated_tier t
tier_beq bad_rated_tier t = if is_top_rated_tier t then false else true

abbrev pub default_rating : ℤ
default_rating = pos 0

abbrev pub min_rating : ℤ
min_rating = negsuc 99

abbrev pub max_rating : ℤ
max_rating = pos 100

abbrev pub increase_factor : ℤ
increase_factor = pos 2

abbrev pub decrease_factor : ℤ
decrease_factor = negsuc 0

abbrev pub min_num_of_peers : ℤ
min_num_of_peers = pos 1

abbrev pub int32_size : ℕ
int32_size = 4

-- The sum of two `int32` values wraps.
abbrev pub wrap_int32 : ℤ → ℤ
wrap_int32 z =
    if ltb_ℤ (pos 2147483647) z
    then z -ℤ pos 4294967296
    else (if ltb_ℤ z (negsuc 2147483647) then z +ℤ pos 4294967296 else z)

-- `v.(int32)` in its two-result form: zero where the value has another type.
abbrev pub as_int32 : CacheValue → ℤ
as_int32 (int32 z) = z
as_int32 other = pos 0

pub compute_rating_tier : ℤ → Tier
compute_rating_tier peer_rating =
    if ltb_ℤ peer_rating default_rating then bad_rated_tier else top_rated_tier

-- The two bounds of `updateRating`, in the order of the code.
pub limit_rating : ℤ → ℤ
limit_rating rating =
    let capped = if ltb_ℤ max_rating rating then max_rating else rating in
    if ltb_ℤ capped min_rating then min_rating else capped

module _ (c : Cacher) where
  open c use {Store, get, put, remove, has}

  pub record Ratings : Type 0 where
    pub top_rated_cache : Store
    pub bad_rated_cache : Store

  -- `checkHandlerArgs` and the struct; the logger is not kept.
  pub new_peers_rating_handler : Option Store → Option Store → Option (Unit {0}) → Result Ratings
  new_peers_rating_handler top_rated_cache bad_rated_cache logger = do
    top ← not_nil top_rated_cache nil_cacher
    bad ← not_nil bad_rated_cache nil_cacher
    _ ← not_nil logger nil_logger
    ok (record { top_rated_cache = top; bad_rated_cache = bad })

  pub get_old_rating : Ratings → Bytes → ℤ × Bool
  get_old_rating s pid = elim (get s.top_rated_cache pid) [
    | some v ↦ (as_int32 v, true)
    | none ↦ elim (get s.bad_rated_cache pid) [
      | some v ↦ (as_int32 v, true)
      | none ↦ (default_rating, false)
    ]
  ]

  pub put_top : Ratings → Bytes → ℤ → Ratings
  put_top s pid rating = record s {
    top_rated_cache = put s.top_rated_cache pid (int32 rating) int32_size;
  }

  pub put_bad : Ratings → Bytes → ℤ → Ratings
  put_bad s pid rating = record s {
    bad_rated_cache = put s.bad_rated_cache pid (int32 rating) int32_size;
  }

  pub remove_top : Ratings → Bytes → Ratings
  remove_top s pid = record s { top_rated_cache = remove s.top_rated_cache pid }

  pub remove_bad : Ratings → Bytes → Ratings
  remove_bad s pid = record s { bad_rated_cache = remove s.bad_rated_cache pid }

  pub move_peer_to_new_tier : Ratings → ℤ → Tier → Bytes → Ratings
  move_peer_to_new_tier s new_rating new_tier pid =
      if tier_beq new_tier top_rated_tier
      then put_top (remove_bad s pid) pid new_rating
      else put_bad (remove_top s pid) pid new_rating

  pub update_rating_cacher : Ratings → Bytes → ℤ → ℤ → Ratings
  update_rating_cacher s pid old_rating new_rating =
      let old_tier = compute_rating_tier old_rating in
      let new_tier = compute_rating_tier new_rating in
      if tier_beq new_tier old_tier
      then (if tier_beq new_tier top_rated_tier
          then put_top s pid new_rating
          else put_bad s pid new_rating)
      else move_peer_to_new_tier s new_rating new_tier pid

  pub update_rating : Ratings → Bytes → ℤ → Ratings
  update_rating s pid update_factor =
      let (old_rating, found) = get_old_rating s pid in
      if found
      then update_rating_cacher s pid old_rating
          (limit_rating (wrap_int32 (old_rating +ℤ update_factor)))
      else put_top s pid default_rating

  pub increase_rating : Ratings → Bytes → Ratings
  increase_rating s pid = update_rating s pid increase_factor

  pub decrease_rating : Ratings → Bytes → Ratings
  decrease_rating s pid = update_rating s pid decrease_factor

  -- The loop state of `splitPeersByTiers`: the caches and the two lists built so far.
  pub record Split : Type 0 where
    pub ratings : Ratings
    pub top_rated : List Bytes
    pub bad_rated : List Bytes

  -- One round of the loop: each list grows if its cache has the peer, and a peer that neither has
  -- is stored with the default rating.
  pub split_peer : Split → Bytes → Split
  split_peer l peer =
      let in_top = has l.ratings.top_rated_cache peer in
      let in_bad = has l.ratings.bad_rated_cache peer in
      let top' = if in_top then l.top_rated ++ peer ∷ [] else l.top_rated in
      let bad' = if in_bad then l.bad_rated ++ peer ∷ [] else l.bad_rated in
      if in_top || in_bad then record l { top_rated = top'; bad_rated = bad' } else record {
        ratings = put_top l.ratings peer default_rating;
        top_rated = top' ++ peer ∷ [];
        bad_rated = bad';
      }

  pub split_loop : Split → List Bytes → Split
  split_loop l [] = l
  split_loop l (peer ∷ peers) = split_loop (split_peer l peer) peers

  pub split_peers_by_tiers : Ratings → List Bytes → Split
  split_peers_by_tiers s peers =
      split_loop (record { ratings = s; top_rated = []; bad_rated = [] }) peers

  pub get_top_rated_peers_from_list : Ratings → List Bytes → ℤ → Ratings × List Bytes
  get_top_rated_peers_from_list s peers min_num_of_peers_expected =
      if ltb_ℤ min_num_of_peers_expected min_num_of_peers || nat_beq (length peers) 0
      then (s, [])
      else let l = split_peers_by_tiers s peers in
        (
          l.ratings,
          if ltb_ℤ (pos (length l.top_rated)) min_num_of_peers_expected
              then l.top_rated ++ l.bad_rated
              else l.top_rated,
        )
