-- ===== src/Websocket/Transceiver/RoundTrip.antt =====
-- websocket/transceiver/transceiver.go with websocket/payloadConverter.go: a message and its
-- acknowledgement, between two transceivers.
use drt_go_chain_communicati.Prelude.{
  ℕ, ◌+◌, ◌%◌, ◌^◌, Bool, true, false, not, ◌&&◌, [], Option, none, some, ◌≡◌, refl, sym, ap, ◌∙◌,
  Bytes, nat_eq, lookup, lookup-insert_self, lookup-erase_self, length, nat_beq, ==_refl, subst,
}
use drt_go_chain_communicati.Websocket.{
  WsMessage, Marshaller, done, extract_ws_message, construct_payload, ack_message, payload_message,
}
use drt_go_chain_communicati.Websocket.Transceiver.Acknowledge.{
  IsValid, acknowledged, handle_ack-waiting,
}
use drt_go_chain_communicati.Websocket.Transceiver.Reached.{
  Reach, Reach-IsValid, send_prepare-IsValid,
}
use drt_go_chain_communicati.Websocket.Transceiver.{
  Transceiver, is_closed, send_ack_if_needed, Received, process_message,
  verify_payload_and_send_ack_if_needed, prepare_chan_and_counter, send_prepare,
}

-- What the marshaller promises: encoding does not fail, gives some bytes for a message that has a
-- type, and decoding them gives the message back.
pub record MarshallerLaws (converter : Marshaller) : Type 0 where
  pub encodes :
      (m : WsMessage)
      → nat_beq m.message_type 0 ≡ false
      → (b : Bytes) × (converter.marshal m ≡ done b)
        × (nat_beq (length b) 0 ≡ false)
        × (converter.unmarshal b ≡ done m)

-- The message of a call of Send, and its acknowledgement.
abbrev pub sent_message : Transceiver → Bytes → Bytes → WsMessage
sent_message wt payload topic = record {
  with_acknowledge = true;
  counter = (wt.counter + 1) % 2 ^ 64;
  message_type = payload_message;
  payload = payload;
  topic = topic;
  version = wt.payload_version;
}

abbrev pub ack_of : ℕ → WsMessage
ack_of counter = record {
  with_acknowledge = false;
  counter = counter;
  message_type = ack_message;
  payload = [];
  topic = [];
  version = 0;
}

-- The receiver handled a message and answered with some bytes.
pub record Answered (o : Option Received) (wt : Transceiver) (m : WsMessage) (ack : Bytes)
    : Type 0 where
  pub returned : Received
  pub is_result : o ≡ some returned
  pub unchanged : returned.after ≡ wt
  pub handled : returned.processed ≡ some m
  pub answer : returned.ack ≡ some ack

verify_payload-message :
    (process : WsMessage → Bool) (wt : Transceiver) (b : Bytes) (m : WsMessage)
    → nat_beq (length b) 0 ≡ false
    → wt.payload_parser.unmarshal b ≡ done m
    → verify_payload_and_send_ack_if_needed process wt b ≡ process_message process wt m
unfolding verify_payload_and_send_ack_if_needed extract_ws_message
verify_payload-message process wt b m given q =
    rw (given, verify_payload_and_send_ack_if_needed) (rw (q, extract_ws_message) refl)

receive_sent :
    (process : WsMessage → Bool) (wt sender : Transceiver) (payload topic ack : Bytes)
    → (not (process (sent_message sender payload topic)) && wt.blocking_ack_on_error) ≡ false
    → wt.payload_parser.marshal (ack_of (sent_message sender payload topic).counter) ≡ done ack
    → process_message process wt (sent_message sender payload topic)
      ≡ some (record {
        after = wt;
        processed = some (sent_message sender payload topic);
        ack = some ack;
      })
unfolding process_message send_ack_if_needed construct_payload
receive_sent process wt sender payload topic ack passed q = rw passed (rw q refl)

receive_ack :
    (process : WsMessage → Bool) (wt : Transceiver) (counter ch : ℕ)
    → IsValid wt
    → lookup counter wt.map_ack ≡ some ch
    → process_message process wt (ack_of counter)
      ≡ some (record { after = acknowledged wt counter ch; processed = none; ack = none })
unfolding process_message
receive_ack process wt counter ch v h =
    rw (handle_ack-waiting wt counter ch v h, process_message) refl

sent :
    (wt : Transceiver) (payload topic : Bytes)
    → wt.with_acknowledge ≡ true
    → (send_prepare wt payload topic).2 ≡ wt.payload_parser.marshal (sent_message wt payload topic)
unfolding send_prepare prepare_chan_and_counter construct_payload
sent wt payload topic acks =
    ap
      (λ a. wt.payload_parser.marshal (record {
        with_acknowledge = a;
        counter = (wt.counter + 1) % 2 ^ 64;
        message_type = payload_message;
        payload = payload;
        topic = topic;
        version = wt.payload_version;
      }))
      acks

sent_waits :
    (wt : Transceiver) (payload topic : Bytes)
    → wt.with_acknowledge ≡ true
    → lookup ((wt.counter + 1) % 2 ^ 64) (send_prepare wt payload topic).0.map_ack
      ≡ some (send_prepare wt payload topic).1
unfolding send_prepare prepare_chan_and_counter
sent_waits wt payload topic acks =
    rw acks (lookup-insert_self ((wt.counter + 1) % 2 ^ 64) wt.made_channels wt.map_ack)

-- What a message sent with acknowledgement and its answer do to the sender and the receiver.
pub record Delivered (sender receiver : Transceiver) (process on_ack : WsMessage → Bool)
    (payload topic : Bytes) : Type 0 where
  pub bytes : Bytes
  pub ack : Bytes
  pub acked : Transceiver
  pub is_sent : (send_prepare sender payload topic).2 ≡ done bytes
  pub is_received :
      verify_payload_and_send_ack_if_needed process receiver bytes
      ≡ some (record {
        after = receiver;
        processed = some (sent_message sender payload topic);
        ack = some ack;
      })
  pub is_acked :
      verify_payload_and_send_ack_if_needed on_ack (send_prepare sender payload topic).0 ack
      ≡ some (record { after = acked; processed = none; ack = none })
  pub channel_is_closed :
      is_closed (send_prepare sender payload topic).1 acked.closed_channels ≡ true
  pub waits_no_more : lookup ((sender.counter + 1) % 2 ^ 64) acked.map_ack ≡ none

-- For a marshaller that keeps its laws, a sender with acknowledgements that was made new and has
-- sent and received since, and a receiver with the same marshaller whose handler accepts the message
-- or that does not hold back acknowledgements: the bytes of Send make the receiver's handler process
-- the message of Send and answer with bytes that, when the sender receives them, do not panic, close
-- the channel that this call of Send waits on and take its counter out of the map.
pub send-Delivered :
    (sender receiver : Transceiver) (process on_ack : WsMessage → Bool) (payload topic : Bytes)
    → MarshallerLaws sender.payload_parser
    → receiver.payload_parser ≡ sender.payload_parser
    → Reach sender
    → sender.with_acknowledge ≡ true
    → (not (process (sent_message sender payload topic)) && receiver.blocking_ack_on_error) ≡ false
    → Delivered sender receiver process on_ack payload topic
unfolding is_closed send_prepare prepare_chan_and_counter
send-Delivered sender receiver process on_ack payload topic laws same reached acks passed =
    let m = sent_message sender payload topic in
    let (b, e, g, d) = laws.encodes m refl in
    let (a, e', g', d') = laws.encodes (ack_of m.counter) refl in
    let (after, ch, _r) = send_prepare sender payload topic in
    let valid = send_prepare-IsValid sender payload topic (Reach-IsValid sender reached) in
    let decodes : receiver.payload_parser.unmarshal b ≡ done m =
      subst (λ c. c.unmarshal b ≡ done m) (sym same) d in
    let answers : receiver.payload_parser.marshal (ack_of m.counter) ≡ done a =
      subst (λ c. c.marshal (ack_of m.counter) ≡ done a) (sym same) e' in
    record {
      bytes = b;
      ack = a;
      acked = acknowledged after m.counter ch;
      is_sent = sent sender payload topic acks ∙ e;
      is_received =
          verify_payload-message process receiver b m g decodes
          ∙ receive_sent process receiver sender payload topic a passed answers;
      is_acked =
          verify_payload-message on_ack after a (ack_of m.counter) g' d'
          ∙ receive_ack on_ack after m.counter ch valid (sent_waits sender payload topic acks);
      channel_is_closed = rw (==_refl ch) refl;
      waits_no_more = lookup-erase_self m.counter after.map_ack;
    }
