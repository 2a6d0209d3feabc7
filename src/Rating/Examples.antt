-- ===== src/Rating/Examples.antt =====
-- p2p/rating/peersRatingHandler.go: the theorems at concrete inputs, and runs of the code.
use drt_go_chain_communicati.Prelude.{
  true, [], ◌∷◌, ◌≡◌, refl, inl, Bytes, codes, lookup, insert, erase, bytes_beq,
}
use drt_go_chain_communicati.Prelude.Int.{pos, negsuc, ◌+ℤ◌}
use drt_go_chain_communicati.Rating.MapCache.{map_cache, map_cache-CacherLaws}
use drt_go_chain_communicati.Rating.{
  Ratings, get_old_rating, put_top, put_bad, remove_top, remove_bad, increase_rating,
  decrease_rating, update_rating, update_rating_cacher, move_peer_to_new_tier, compute_rating_tier,
  limit_rating, get_top_rated_peers_from_list,
}
use drt_go_chain_communicati.Rating.Invariant.{WellRated}
use drt_go_chain_communicati.Rating.Update.{rating_calls-WellRated, rating_calls-get, stepped}
use drt_go_chain_communicati.Rating.Selection.{get_top_rated_lem}

abbrev empty : Ratings map_cache
empty = record { top_rated_cache = []; bad_rated_cache = [] }

empty-WellRated : WellRated map_cache empty
unfolding lookup
empty-WellRated pid = record { top_in_range = tt; bad_in_range = tt; one_tier = inl refl }

abbrev good : Bytes
good = codes "good"

abbrev bad : Bytes
bad = codes "bad"

-- One peer known for good, and one that has just failed twice.
rated : Ratings map_cache
rated =
    decrease_rating map_cache (decrease_rating map_cache (increase_rating map_cache empty good) bad)
      bad

rated-WellRated : WellRated map_cache rated
unfolding rated
rated-WellRated =
    let call = rating_calls-WellRated map_cache map_cache-CacherLaws in
    (call _ bad (call _ bad (call empty good empty-WellRated).0).1).1

rated-bad : get_old_rating map_cache rated bad ≡ (negsuc 0, true)
unfolding rated increase_rating decrease_rating update_rating get_old_rating put_top put_bad
    remove_top remove_bad update_rating_cacher move_peer_to_new_tier compute_rating_tier
    limit_rating lookup insert erase bytes_beq ◌+ℤ◌
rated-bad = refl

rating_calls-WellRated_example :
    WellRated map_cache (increase_rating map_cache rated bad)
    × WellRated map_cache (decrease_rating map_cache rated bad)
rating_calls-WellRated_example =
    rating_calls-WellRated map_cache map_cache-CacherLaws rated bad rated-WellRated

rating_calls-get_example :
    (get_old_rating map_cache (increase_rating map_cache rated bad) bad
      ≡ (stepped (get_old_rating map_cache rated bad) (pos 2), true))
    × (get_old_rating map_cache (decrease_rating map_cache rated bad) bad
        ≡ (stepped (get_old_rating map_cache rated bad) (negsuc 0), true))
rating_calls-get_example = rating_calls-get map_cache map_cache-CacherLaws rated bad rated-WellRated

get_top_rated_lem_example :
    (get_top_rated_peers_from_list map_cache rated (bad ∷ good ∷ []) (pos 2)).1 ≡ good ∷ bad ∷ []
unfolding rated increase_rating decrease_rating update_rating get_old_rating put_top put_bad
    remove_top remove_bad update_rating_cacher move_peer_to_new_tier compute_rating_tier
    limit_rating lookup insert erase bytes_beq ◌+ℤ◌
get_top_rated_lem_example =
    get_top_rated_lem map_cache map_cache-CacherLaws rated (bad ∷ good ∷ []) (pos 2) rated-WellRated
