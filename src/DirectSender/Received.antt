-- ===== src/DirectSender/Received.antt =====
-- p2p/libp2p/directSender.go: processReceivedDirectMessage.
use mathlib.Core.Path.{ap₂}
use drt_go_chain_communicati.Prelude.{
  ◌≤◌, true, ◌++◌, none, some, ◌≡◌, ◌≢◌, refl, Bytes, bytes_eq, length, Bool-cases, Option-cases,
  inl, inr, arith, if◌then◌else◌, ◌∙◌, sym,
}
use drt_go_chain_communicati.Errors.{Result, ok, err, already_seen_message}
use drt_go_chain_communicati.Message.{PbMessage}
use drt_go_chain_communicati.DirectSender.{
  Net, Handler, DirectSender, message_id, pre_check, check_and_set_seen_message, deliver,
  process_received_direct_message,
}

-- What an accepted message must be, apart from the code's order of tests.
pub record Permitted (m : PbMessage) (peer : Bytes) : Type 0 where
  pub topic : Bytes
  pub has_topic : m.topic ≡ some topic
  pub from_itself : m.from_peer ≡ peer
  pub no_key : m.key ≡ none
  pub short_seqno : length m.seqno ≤ 8

module _ (net : Net) where
  pre_check_lem :
      (h : Handler) (m : PbMessage) (peer : Bytes)
      → Permitted m peer
      → pre_check net (some h) (some m) peer ≡ ok (h, m)
  unfolding pre_check
  pre_check_lem h m peer p = ground (arith, bytes_eq.beq_iff m.from_peer peer)

  pre_check-Permitted :
      (h : Handler) (m : PbMessage) (peer : Bytes) (topic : Bytes)
      → m.topic ≡ some topic
      → {r : Handler × PbMessage} → pre_check net (some h) (some m) peer ≡ ok r
      → Permitted m peer
  unfolding pre_check
  pre_check-Permitted h m peer topic t e = record {
    topic = topic;
    has_topic = t;
    from_itself = ground (arith, bytes_eq.beq_iff m.from_peer peer);
    no_key = ground arith;
    short_seqno = ground arith;
  }

  pre_check_no_topic :
      (h : Handler) (m : PbMessage) (peer : Bytes) {r : Handler × PbMessage}
      → m.topic ≡ none
      → pre_check net (some h) (some m) peer ≢ ok r
  unfolding pre_check
  pre_check_no_topic h m peer t e = ground arith

  -- A message that passes the first tests is permitted.
  pub pre_check_ok-Permitted :
      (h : Handler) (m : PbMessage) (peer : Bytes) (r : Handler × PbMessage)
      → pre_check net (some h) (some m) peer ≡ ok r
      → Permitted m peer
  pre_check_ok-Permitted h m peer r q = elim (Option-cases m.topic) [
    | inl t ↦ absurd (pre_check_no_topic h m peer t q)
    | inr (topic, t) ↦ pre_check-Permitted h m peer topic t q
  ]

  -- A call for a message that passes the first tests.
  abbrev pub seen_or_delivered :
      DirectSender net → Handler → PbMessage → Bytes → DirectSender net × Result (Unit {0})
  seen_or_delivered ds h m peer =
      if net.has ds.seen_messages (message_id m) then (ds, err already_seen_message) else (
        record ds { seen_messages = net.add ds.seen_messages (message_id m) },
        deliver net h m peer,
      )

  -- What is done about a permitted message.
  pub process_received-Permitted :
      (ds : DirectSender net) (h : Handler) (m : PbMessage) (peer : Bytes)
      → ds.message_handler ≡ some h
      → Permitted m peer
      → process_received_direct_message net ds (some m) peer ≡ seen_or_delivered ds h m peer
  unfolding process_received_direct_message check_and_set_seen_message
  process_received-Permitted ds h m peer k p =
      let passed : pre_check net ds.message_handler (some m) peer ≡ ok (h, m) =
        rw k (pre_check_lem h m peer p) in
      elim (Bool-cases (net.has ds.seen_messages (message_id m))) [
        | inl seen ↦
            rw (passed, process_received_direct_message)
              (rw (seen, check_and_set_seen_message) refl)
        | inr new ↦
            rw (passed, process_received_direct_message) (rw (new, check_and_set_seen_message) refl)
      ]

  seen_after :
      (ds : DirectSender net) (h : Handler) (m : PbMessage) (peer : Bytes)
      → ((s : net.SeenMessages) (k : Bytes) → net.has (net.add s k) k ≡ true)
      → net.has (seen_or_delivered ds h m peer).0.seen_messages (message_id m) ≡ true
  seen_after ds h m peer law = elim (Bool-cases (net.has ds.seen_messages (message_id m))) [
    | inl seen ↦ rw seen seen
    | inr new ↦ rw new (law ds.seen_messages (message_id m))
  ]

  same_handler :
      (ds : DirectSender net) (h : Handler) (m : PbMessage) (peer : Bytes)
      → (seen_or_delivered ds h m peer).0.message_handler ≡ ds.message_handler
  same_handler ds h m peer = elim (Bool-cases (net.has ds.seen_messages (message_id m))) [
    | inl seen ↦ rw seen refl
    | inr new ↦ rw new refl
  ]

  -- With a cache of seen messages that has what was just added, and a handler registered: once a
  -- permitted message was processed, with whatever result, processing next a permitted message
  -- from the same peer with the same sequence number is refused as already seen, and changes
  -- nothing.
  pub process_received_twice :
      (ds : DirectSender net) (h : Handler) (m n : PbMessage) (peer : Bytes)
      → ((s : net.SeenMessages) (k : Bytes) → net.has (net.add s k) k ≡ true)
      → ds.message_handler ≡ some h
      → Permitted m peer
      → Permitted n peer
      → m.seqno ≡ n.seqno
      → let ds' = (process_received_direct_message net ds (some m) peer).0 in
        process_received_direct_message net ds' (some n) peer ≡ (ds', err already_seen_message)
  process_received_twice ds h m n peer law k p q e =
      let first = process_received-Permitted ds h m peer k p in
      let same_id : message_id m ≡ message_id n =
        unfold message_id in ap₂ ◌++◌ (p.from_itself ∙ sym q.from_itself) e in
      let seen : net.has (seen_or_delivered ds h m peer).0.seen_messages (message_id n) ≡ true =
        rw (← same_id) (seen_after ds h m peer law) in
      rw first (
        process_received-Permitted (seen_or_delivered ds h m peer).0 h n peer
          (same_handler ds h m peer ∙ k) q
        ∙ rw seen refl)
