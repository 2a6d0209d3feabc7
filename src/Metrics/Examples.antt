-- ===== src/Metrics/Examples.antt =====
-- p2p/libp2p/metrics/: runs of the code.
use drt_go_chain_communicati.Prelude.{
  List, [], ◌∷◌, none, some, false, ◌≡◌, refl, Bytes, bytes_eq, bytes_beq, ◌==◌, codes,
}
use drt_go_chain_communicati.Errors.{ok}
use drt_go_chain_communicati.Metrics.{
  connected, TimeCacher, PrintConnectionsWatcher, new_known_connection, trim_left, trim_right,
}

wraps :
    connected (record { num_connections = 4294967295; num_disconnections = 1 })
    ≡ record { num_connections = 0; num_disconnections = 1 }
unfolding connected
wraps = refl

abbrev cache : TimeCacher
cache = record {
  Store = List Bytes;
  has = λ s k. elim s [ [] ↦ false | j ∷ js ↦ j == k ];
  upsert = λ s k n. (k ∷ s, ok tt);
}

abbrev watcher : PrintConnectionsWatcher cache
watcher = record { time_cacher = []; time_to_live = 1000000000 }

printed_once :
    (new_known_connection cache
      (λ p. p)
      (new_known_connection cache (λ p. p) watcher (1 ∷ []) (codes " a b ")).0
      (1 ∷ [])
      (codes " a b ")).1
    ≡ none
unfolding new_known_connection trim_left trim_right bytes_beq
printed_once = refl

printed_trimmed :
    (new_known_connection cache (λ p. p) watcher (1 ∷ []) (codes " a b ")).1 ≡ some (codes "a b")
unfolding new_known_connection trim_left trim_right
printed_trimmed = refl
