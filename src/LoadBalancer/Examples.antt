-- ===== src/LoadBalancer/Examples.antt =====
-- p2p/libp2p/outgoingChannelLoadBalancer.go: the theorems at concrete inputs.
use drt_go_chain_communicati.Prelude.{
  ℕ, [], ◌∷◌, some, ◌≡◌, refl, Bytes, bytes_eq, lookup, insert, erase, bytes_beq,
}
use drt_go_chain_communicati.Errors.{ok}
use drt_go_chain_communicati.LoadBalancer.{
  LoadBalancer, default_send_channel, new_outgoing_channel_load_balancer, append_channel,
  add_channel, index_of, remove_channel,
}
use drt_go_chain_communicati.LoadBalancer.Serving.{
  Reach, start, next, adds, removes, Serves, Reach-Serves,
}

abbrev news : Bytes
news = 1 ∷ []

abbrev gossip : Bytes
gossip = 2 ∷ []

both : LoadBalancer
both = append_channel (append_channel new_outgoing_channel_load_balancer news) gossip

both_reached : Reach both
unfolding both add_channel append_channel new_outgoing_channel_load_balancer lookup insert bytes_beq
both_reached = next (next start (adds news refl)) (adds gossip refl)

without_news : LoadBalancer
without_news = record {
  chans = 0 ∷ 2 ∷ [];
  names = default_send_channel ∷ gossip ∷ [];
  names_chans = (default_send_channel, 0) ∷ (gossip, 2) ∷ [];
  next_chan = 3;
  closed = 1 ∷ [];
}

news_removed : remove_channel both news ≡ some (ok without_news)
unfolding both remove_channel append_channel index_of new_outgoing_channel_load_balancer
    without_news lookup insert erase bytes_beq
news_removed = refl

Reach-Serves_example : (ch : ℕ) × Serves without_news news ch
Reach-Serves_example = Reach-Serves news (next both_reached (removes news news_removed))
