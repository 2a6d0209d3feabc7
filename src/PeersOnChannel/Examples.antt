-- ===== src/PeersOnChannel/Examples.antt =====
-- p2p/libp2p/peersOnChannel.go: the theorem at a concrete input.
use drt_go_chain_communicati.Prelude.{
  List, [], ◌∷◌, some, ◌≡◌, Bytes, bytes_eq, bytes_beq, lookup, insert,
}
use drt_go_chain_communicati.Prelude.Int.{ℤ, pos, ◌-ℤ◌}
use drt_go_chain_communicati.PeersHolder.Maps.{is_some}
use drt_go_chain_communicati.PeersOnChannel.{
  PeersOnChannel, connected_peers_on_channel, refresh_peers_on_topic,
  update_connected_peers_on_topic, refresh_peers_on_all_known_topics,
}
use drt_go_chain_communicati.PeersOnChannel.Refresh.{reach_new, reach_call, refresh-Reach}

abbrev fetch_first : Bytes → List Bytes
fetch_first topic = (1 ∷ []) ∷ []

abbrev fetch_again : Bytes → List Bytes
fetch_again topic = (1 ∷ []) ∷ (2 ∷ []) ∷ []

abbrev at_time : ℤ → Bytes → ℤ
at_time now topic = now

abbrev empty : PeersOnChannel
empty = record { peers = []; last_updated = []; refresh_interval = pos 2; ttl_interval = pos 5 }

called : PeersOnChannel
called = (connected_peers_on_channel fetch_first (pos 10) empty (7 ∷ [])).0

-- The topic 7 was fetched at 10 and is refreshed at 16.
refresh-Reach_example :
    let after =
      refresh_peers_on_all_known_topics fetch_again (at_time (pos 16)) (at_time (pos 17)) called in
    (lookup (7 ∷ []) after.peers ≡ some ((1 ∷ []) ∷ (2 ∷ []) ∷ []))
    × (lookup (7 ∷ []) after.last_updated ≡ some (pos 17))
    × (is_some (lookup (7 ∷ []) after.peers) ≡ is_some (lookup (7 ∷ []) after.last_updated))
unfolding called connected_peers_on_channel refresh_peers_on_topic update_connected_peers_on_topic
    lookup insert bytes_beq ◌-ℤ◌
refresh-Reach_example =
    refresh-Reach fetch_again (at_time (pos 16)) (at_time (pos 17)) called
      (reach_call fetch_first (pos 10) (7 ∷ []) (reach_new (pos 2) (pos 5))) (7 ∷ [])
