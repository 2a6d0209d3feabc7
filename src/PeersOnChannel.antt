-- ===== src/PeersOnChannel.antt =====
-- p2p/libp2p/peersOnChannel.go: the peers of each topic, cached and refreshed.
-- Times and durations are integers of nanoseconds, within the range of `time.Duration`. A reading of
-- the clock and the fetch handler's answer are arguments of the call that asks for them. A slice
-- that the code stores is never nil, so a nil entry is a missing one.
pub mod Refresh
mod Examples
use drt_go_chain_communicati.Prelude.{
  ℕ, zero, suc, Bool, true, false, List, [], ◌∷◌, Option, none, some, Bytes, bytes_eq, Dict, lookup,
  insert, if◌then◌else◌,
}
use drt_go_chain_communicati.Prelude.Int.{ℤ, pos, negsuc, ltb_ℤ, ◌-ℤ◌}
use drt_go_chain_communicati.Errors.{
  Result, ok, err, ◌>>=◌, ◌>>◌, fail_if, not_nil, nil_fetch_peers_on_topic_handler,
  invalid_duration_provided, nil_logger,
}

pub record PeersOnChannel : Type 0 where
  pub peers : Dict Bytes (List Bytes)
  pub last_updated : Dict Bytes ℤ
  pub refresh_interval : ℤ
  pub ttl_interval : ℤ

abbrev is_zero : ℤ → Bool
is_zero (pos zero) = true
is_zero (pos (suc n)) = false
is_zero (negsuc n) = false

-- The fetch handler is an argument of the calls below; here only nil matters.
pub new_peers_on_channel : Option (Unit {0}) → ℤ → ℤ → Option (Unit {0}) → Result PeersOnChannel
new_peers_on_channel fetch_peers_handler refresh_interval ttl_interval logger = do
  handler ← not_nil fetch_peers_handler nil_fetch_peers_on_topic_handler
  fail_if (is_zero refresh_interval) invalid_duration_provided
  fail_if (is_zero ttl_interval) invalid_duration_provided
  log ← not_nil logger nil_logger
  ok (record {
    peers = [];
    last_updated = [];
    refresh_interval = refresh_interval;
    ttl_interval = ttl_interval;
  })

pub update_connected_peers_on_topic : ℤ → PeersOnChannel → Bytes → List Bytes → PeersOnChannel
update_connected_peers_on_topic now poc topic connected_peers = record poc {
  peers = insert topic connected_peers poc.peers;
  last_updated = insert topic now poc.last_updated;
}

-- The names that are only logged are left out.
pub refresh_peers_on_topic :
    (Bytes → List Bytes) → ℤ → PeersOnChannel → Bytes → PeersOnChannel × List Bytes
refresh_peers_on_topic fetch now poc topic =
    (update_connected_peers_on_topic now poc topic (fetch topic), fetch topic)

pub connected_peers_on_channel :
    (Bytes → List Bytes) → ℤ → PeersOnChannel → Bytes → PeersOnChannel × List Bytes
connected_peers_on_channel fetch now poc topic = elim (lookup topic poc.peers) [
  | none ↦ refresh_peers_on_topic fetch now poc topic
  | some peers ↦ (poc, peers)
]

-- `scan` has the reading of the clock for each topic of the range loop.
pub topics_to_be_refreshed : (Bytes → ℤ) → ℤ → Dict Bytes ℤ → List Bytes
topics_to_be_refreshed scan ttl [] = []
topics_to_be_refreshed scan ttl ((topic, last_refreshed) ∷ m) =
    let rest = topics_to_be_refreshed scan ttl m in
    if ltb_ℤ ttl (scan topic -ℤ last_refreshed) then topic ∷ rest else rest

pub refresh_topics :
    (Bytes → List Bytes) → (Bytes → ℤ) → PeersOnChannel → List Bytes → PeersOnChannel
refresh_topics fetch clock poc [] = poc
refresh_topics fetch clock poc (topic ∷ topics) =
    let (next, _peers) = refresh_peers_on_topic fetch (clock topic) poc topic in
    refresh_topics fetch clock next topics

-- One turn of the loop of `refreshPeersOnAllKnownTopics`.
pub refresh_peers_on_all_known_topics :
    (Bytes → List Bytes) → (Bytes → ℤ) → (Bytes → ℤ) → PeersOnChannel → PeersOnChannel
refresh_peers_on_all_known_topics fetch scan clock poc =
    refresh_topics fetch clock poc (topics_to_be_refreshed scan poc.ttl_interval poc.last_updated)
