-- ===== src/Metrics.antt =====
-- p2p/libp2p/metrics/connections.go and printConnectionsWatcher.go, and p2p/libp2p/mutexHolder.go: counters
-- of connections, the peers that are printed, and the locks by key.
-- The time cache and the cache of locks are other repositories' and are arguments.
mod Examples
use drt_go_chain_communicati.Prelude.{
  ℕ, zero, suc, ◌+◌, ◌%◌, ◌^◌, Bool, true, false, List, [], ◌∷◌, Option, none, some, Bytes, length,
  nat_beq, ltb, if◌then◌else◌,
}
use drt_go_chain_communicati.Errors.{
  Result, ok, err, ◌>>=◌, ◌>>◌, fail_if, not_nil, invalid_value, nil_logger,
}

-- The counters are `uint32` values, so an addition wraps.
pub record ConnectionsMetric : Type 0 where
  pub num_connections : ℕ
  pub num_disconnections : ℕ

pub new_connections_metric : ConnectionsMetric
new_connections_metric = record { num_connections = 0; num_disconnections = 0 }

pub connected : ConnectionsMetric → ConnectionsMetric
connected cm = record cm { num_connections = (cm.num_connections + 1) % 2 ^ 32 }

pub disconnected : ConnectionsMetric → ConnectionsMetric
disconnected cm = record cm { num_disconnections = (cm.num_disconnections + 1) % 2 ^ 32 }

pub reset_num_connections : ConnectionsMetric → ConnectionsMetric × ℕ
reset_num_connections cm = (record cm { num_connections = 0 }, cm.num_connections)

pub reset_num_disconnections : ConnectionsMetric → ConnectionsMetric × ℕ
reset_num_disconnections cm = (record cm { num_disconnections = 0 }, cm.num_disconnections)

-- `strings.Trim(s, " ")`: 32 is the space.
unfoldable pub trim_left : Bytes → Bytes
trim_left [] = []
trim_left (c ∷ cs) = let rest = trim_left cs in if nat_beq c 32 then rest else c ∷ cs

unfoldable pub trim_right : Bytes → Bytes
trim_right [] = []
trim_right (c ∷ cs) =
    let rest = trim_right cs in
    if nat_beq (length rest) 0 then (if nat_beq c 32 then [] else c ∷ []) else c ∷ rest

-- types.TimeCacher, with the time to live in nanoseconds.
pub record TimeCacher : Type 1 where
  pub Store : Type 0
  pub has : Store → Bytes → Bool
  pub upsert : Store → Bytes → ℕ → Store × Result (Unit {0})

abbrev pub min_time_to_live : ℕ
min_time_to_live = 1000000000

module _ (c : TimeCacher) where
  pub record PrintConnectionsWatcher : Type 0 where
    pub time_cacher : c.Store
    pub time_to_live : ℕ

  -- `ErrInvalidValueForTimeToLiveParam`, which stands apart from p2p/errors.go, is an argument.
  pub new_print_connections_watcher :
      Result (Unit {0}) → c.Store → ℕ → Option (Unit {0}) → Result PrintConnectionsWatcher
  new_print_connections_watcher invalid_time time_cacher time_to_live logger =
      (if ltb time_to_live min_time_to_live then invalid_time else ok tt) >>= λ u.
      not_nil logger nil_logger >>= λ log.
      ok (record { time_cacher = time_cacher; time_to_live = time_to_live })

  -- What is printed, if anything: the connection. `pretty` is `core.PeerID.Pretty`.
  pub new_known_connection :
      (Bytes → Bytes)
      → PrintConnectionsWatcher
      → Bytes
      → Bytes
      → PrintConnectionsWatcher × Option Bytes
  new_known_connection pretty pcw pid connection =
      let conn = trim_right (trim_left connection) in
      let known = c.has pcw.time_cacher (pretty pid) in
      let (store, result) = c.upsert pcw.time_cacher (pretty pid) pcw.time_to_live in
      if nat_beq (length conn) 0 then (pcw, none) else (
        record pcw { time_cacher = store },
        elim result [ err e ↦ none | ok u ↦ if known then none else some conn ],
      )

-- The cache of locks: a lock is a number, and a value that is no lock is `none` inside.
pub record LockCache : Type 1 where
  pub Store : Type 0
  pub get : Store → Bytes → Option (Option ℕ)
  pub put : Store → Bytes → ℕ → Store

module _ (c : LockCache) where
  pub record MutexHolder : Type 0 where
    pub mutexes : c.Store
    pub made : ℕ

  -- With the result of `lrucache.NewCache`.
  pub new_mutex_holder : Result c.Store → Result MutexHolder
  new_mutex_holder cache = cache >>= λ store. ok (record { mutexes = store; made = 0 })

  pub new_mutex : MutexHolder → Bytes → MutexHolder × ℕ
  new_mutex mh key =
      (record { mutexes = c.put mh.mutexes key mh.made; made = mh.made + 1 }, mh.made)

  pub get : MutexHolder → Bytes → MutexHolder × ℕ
  get mh key = elim (c.get mh.mutexes key) [
    | none ↦ new_mutex mh key
    | some value ↦ elim value [ none ↦ new_mutex mh key | some mutex ↦ (mh, mutex) ]
  ]
