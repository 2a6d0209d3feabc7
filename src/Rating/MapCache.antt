-- ===== src/Rating/MapCache.antt =====
-- An unbounded cache for the tests of p2p/rating/peersRatingHandler.go, in the place of `types.Cacher`.
use drt_go_chain_communicati.Prelude.{
  Bytes, bytes_eq, Dict, lookup, insert, erase, lookup-insert_self, lookup-insert_ne,
  lookup-erase_self, lookup-erase_ne, refl, inl,
}
use drt_go_chain_communicati.Rating.Cache.{Cacher, CacherLaws, CacheValue, is_some}

abbrev pub map_cache : Cacher
map_cache = record {
  Store = Dict Bytes CacheValue;
  get = λ s k. lookup k s;
  put = λ s k v n. insert k v s;
  remove = λ s k. erase k s;
  has = λ s k. is_some (lookup k s);
}

pub map_cache-CacherLaws : CacherLaws map_cache
map_cache-CacherLaws = record {
  get-put_self = λ s k v n. lookup-insert_self k v s;
  get-put_ne = λ s k j v n d. inl (lookup-insert_ne k j v s d);
  get-remove_self = λ s k. lookup-erase_self k s;
  get-remove_ne = λ s k j d. lookup-erase_ne k j s d;
  has-get = λ s k. refl;
}
