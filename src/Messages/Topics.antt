-- ===== src/Messages/Topics.antt =====
-- p2p/libp2p/messagesHandler.go: the topics that are joined, and what Close returns.
-- What pubsub, a topic and a subscription answer are arguments; a topic and a subscription are known
-- by numbers, which their calls give.
use drt_go_chain_communicati.Prelude.{
  ℕ, Bool, true, false, List, [], ◌∷◌, Option, none, some, Bytes, bytes_eq, Dict, lookup, insert,
  erase,
}
use drt_go_chain_communicati.PeersHolder.Maps.{is_some}
use drt_go_chain_communicati.Errors.{Error, Result, ok, err}
use drt_go_chain_communicati.LoadBalancer.{LoadBalancer, add_channel}

pub record JoinedTopics : Type 0 where
  pub topics : Dict Bytes ℕ
  pub subscriptions : Dict Bytes ℕ
  pub outgoing_clb : LoadBalancer
  pub cancelled : List ℕ

-- The part of `CreateTopic` after the subscription.
pub subscribed : JoinedTopics → Bytes → Bool → ℕ → JoinedTopics × Result (Unit {0})
subscribed h name false subscr_request =
    (record h { subscriptions = insert name subscr_request h.subscriptions }, ok tt)
subscribed h name true subscr_request =
    let next = record h { subscriptions = insert name subscr_request h.subscriptions } in
    elim (add_channel h.outgoing_clb name) [
      | err e ↦ (next, err e)
      | ok clb ↦ (record next { outgoing_clb = clb }, ok tt)
    ]

-- With what Join of pubsub and Subscribe of the topic return.
pub create_topic :
    Result ℕ → Result ℕ → JoinedTopics → Bytes → Bool → JoinedTopics × Result (Unit {0})
create_topic join subscribe h name create_channel_for_topic = elim (lookup name h.topics) [
  | some found ↦ (h, ok tt)
  | none ↦ elim join [
    | err e ↦ (h, err e)
    | ok topic ↦
        let joined = record h { topics = insert name topic h.topics } in
        elim subscribe [
          | err e ↦ (joined, err e)
          | ok subscr_request ↦ subscribed joined name create_channel_for_topic subscr_request
        ]
  ]
]

pub has_topic : JoinedTopics → Bytes → Bool
has_topic h name = is_some (lookup name h.topics)

abbrev cancel : Option ℕ → List ℕ → List ℕ
cancel none cancelled = cancelled
cancel (some subscription) cancelled = subscription ∷ cancelled

abbrev last_of : Option Error → Option Error → Option Error
last_of found none = found
last_of found (some e) = some e

-- The loop over the topics, whose names and numbers come in the order in which Go's `range` happens
-- to give them, with what Close of a topic returns.
pub un_join_loop :
    (ℕ → Option Error)
    → Option Error
    → JoinedTopics
    → List (Bytes × ℕ)
    → JoinedTopics × Option Error
un_join_loop close_topic err_found h [] = (h, err_found)
un_join_loop close_topic err_found h ((name, topic) ∷ rest) =
    un_join_loop close_topic (last_of err_found (close_topic topic))
      (record h {
        cancelled = cancel (lookup name h.subscriptions) h.cancelled;
        topics = erase name h.topics;
      })
      rest

pub un_join_all_topics : (ℕ → Option Error) → JoinedTopics → JoinedTopics × Option Error
un_join_all_topics close_topic h = un_join_loop close_topic none h h.topics

-- Close, with what Close of the load balancer and of the debugger return.
pub close : Option Error → Option Error → Option Error
close err_oclb err_debugger = last_of (last_of none err_oclb) err_debugger
