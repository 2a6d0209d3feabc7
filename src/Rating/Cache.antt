-- ===== src/Rating/Cache.antt =====
-- types.Cacher of drt-go-chain-storage, which is not part of this repository.
use drt_go_chain_communicati.Prelude.{
  ℕ, Bool, true, false, Option, none, some, ◌≡◌, ◌≢◌, ◌⊎◌, Bytes,
}
use drt_go_chain_communicati.Prelude.Int.{ℤ}

-- The `interface{}` that a cache holds: an int32, or a value of some other type.
pub data CacheValue : Type 0 where
  int32 : ℤ → CacheValue
  other : CacheValue

pub record Cacher : Type 1 where
  pub Store : Type 0
  pub get : Store → Bytes → Option CacheValue
  pub put : Store → Bytes → CacheValue → ℕ → Store
  pub remove : Store → Bytes → Store
  pub has : Store → Bytes → Bool

abbrev pub is_some {ℓ} : {A : Type ℓ} → Option A → Bool
is_some none = false
is_some (some a) = true

-- A cache is bounded: a write may evict any other key, and touches no other value.
pub record CacherLaws (c : Cacher) : Type 0 where
  pub get-put_self :
      (s : c.Store) (k : Bytes) (v : CacheValue) (n : ℕ) → c.get (c.put s k v n) k ≡ some v
  pub get-put_ne :
      (s : c.Store) (k j : Bytes) (v : CacheValue) (n : ℕ)
      → k ≢ j
      → (c.get (c.put s k v n) j ≡ c.get s j) ⊎ (c.get (c.put s k v n) j ≡ none)
  pub get-remove_self : (s : c.Store) (k : Bytes) → c.get (c.remove s k) k ≡ none
  pub get-remove_ne : (s : c.Store) (k j : Bytes) → k ≢ j → c.get (c.remove s k) j ≡ c.get s j
  pub has-get : (s : c.Store) (k : Bytes) → c.has s k ≡ is_some (c.get s k)
