-- ===== src/Websocket/Transceiver.antt =====
-- websocket/transceiver/transceiver.go: messages with acknowledgements over a connection.
-- A Go channel is a number, counted as channels are made; closing one puts it on a list. What the
-- payload handler, the connection and the `select` statements answer are arguments.
pub mod Acknowledge
pub mod Reached
pub mod RoundTrip
mod Examples
use drt_go_chain_communicati.Prelude.{
  ℕ, ◌+◌, ◌%◌, ◌^◌, Bool, true, false, not, ◌&&◌, List, [], ◌∷◌, Option, none, some, Bytes, nat_eq,
  ◌==◌, Dict, lookup, insert, erase, length, nat_beq, if◌then◌else◌,
}
use drt_go_chain_communicati.Websocket.{
  WsError, WsResult, failed, done, ◌>>=◌, fail_if, WsMessage, Marshaller, ack_message,
  payload_message, extract_ws_message, construct_payload, nil_logger, nil_payload_converter,
  nil_payload_processor, zero_value_retry_duration, zero_value_ack_timeout, ack_timeout,
  expected_ack_was_not_received_on_close,
}

-- ArgsTransceiver; `none` is a nil interface.
pub record ArgsTransceiver : Type 0 where
  pub payload_converter : Option Marshaller
  pub log : Option (Unit {0})
  pub retry_duration_in_sec : ℕ
  pub ack_timeout_in_sec : ℕ
  pub blocking_ack_on_error : Bool
  pub with_acknowledge : Bool
  pub payload_version : ℕ

pub record Transceiver : Type 0 where
  pub payload_parser : Marshaller
  pub map_ack : Dict ℕ ℕ
  pub counter : ℕ
  pub blocking_ack_on_error : Bool
  pub with_acknowledge : Bool
  pub payload_version : ℕ
  pub made_channels : ℕ
  pub closed_channels : List ℕ

pub check_args : ArgsTransceiver → WsResult Marshaller
check_args args = elim args.log [
  | none ↦ failed nil_logger
  | some log ↦ elim args.payload_converter [
    | none ↦ failed nil_payload_converter
    | some converter ↦
        fail_if (nat_beq args.retry_duration_in_sec 0) zero_value_retry_duration >>= λ u.
        fail_if (args.with_acknowledge && nat_beq args.ack_timeout_in_sec 0) zero_value_ack_timeout
        >>= λ v. done converter
  ]
]

pub new_transceiver : ArgsTransceiver → WsResult Transceiver
new_transceiver args = do
  converter ← check_args args
  done (record {
    payload_parser = converter;
    map_ack = [];
    counter = 0;
    blocking_ack_on_error = args.blocking_ack_on_error;
    with_acknowledge = args.with_acknowledge;
    payload_version = args.payload_version;
    made_channels = 0;
    closed_channels = [];
  })

unfoldable pub is_closed : ℕ → List ℕ → Bool
is_closed ch [] = false
is_closed ch (c ∷ closed) = if c == ch then true else is_closed ch closed

-- `close` of a channel that is closed already panics, which is `none`.
pub close_channel : ℕ → List ℕ → Option (List ℕ)
close_channel ch closed = if is_closed ch closed then none else some (ch ∷ closed)

pub handle_ack_message : Transceiver → ℕ → Option Transceiver
handle_ack_message wt counter = elim (lookup counter wt.map_ack) [
  | none ↦ some wt
  | some ch ↦ elim (close_channel ch wt.closed_channels) [
    | none ↦ none
    | some closed ↦
        some (record wt { closed_channels = closed; map_ack = erase counter wt.map_ack })
  ]
]

-- One turn of the loop of `sendAckIfNeeded`: the write, and after an error the `select`.
pub data Attempt : Type 0 where
  written timer_fired closing : Attempt

-- Whether the acknowledgement is written, over the turns of the loop; `none` where they do not end it.
pub write_ack_loop : List Attempt → Option Bool
write_ack_loop [] = none
write_ack_loop (written ∷ attempts) = some true
write_ack_loop (timer_fired ∷ attempts) = write_ack_loop attempts
write_ack_loop (closing ∷ attempts) = some false

-- The bytes of the acknowledgement that `sendAckIfNeeded` writes in its loop, if there are any.
pub send_ack_if_needed : Transceiver → WsMessage → Option Bytes
send_ack_if_needed wt ws_message =
    let ack = construct_payload wt.payload_parser (record {
      with_acknowledge = false;
      counter = ws_message.counter;
      message_type = ack_message;
      payload = [];
      topic = [];
      version = 0;
    }) in
    if ws_message.with_acknowledge
    then elim ack [ failed e ↦ none | done bytes ↦ some bytes ]
    else none

-- What a received message does: the state after it, the message that the handler processes, and the
-- acknowledgement to write.
pub record Received : Type 0 where
  pub after : Transceiver
  pub processed : Option WsMessage
  pub ack : Option Bytes

abbrev ignored : Transceiver → Received
ignored wt = record { after = wt; processed = none; ack = none }

-- `process` tells whether `ProcessPayload` succeeds; `none` is a panic.
pub process_message : (WsMessage → Bool) → Transceiver → WsMessage → Option Received
process_message process wt m =
    if nat_beq m.message_type ack_message
    then elim (handle_ack_message wt m.counter) [ none ↦ none | some after ↦ some (ignored after) ]
    else (if not (nat_beq m.message_type payload_message)
        then some (ignored wt)
        else (if not (process m) && wt.blocking_ack_on_error
            then some (record { after = wt; processed = some m; ack = none })
            else some (record { after = wt; processed = some m; ack = send_ack_if_needed wt m })))

pub verify_payload_and_send_ack_if_needed :
    (WsMessage → Bool) → Transceiver → Bytes → Option Received
verify_payload_and_send_ack_if_needed process wt payload =
    if nat_beq (length payload) 0
    then some (ignored wt)
    else elim (extract_ws_message wt.payload_parser payload) [
      | failed e ↦ some (ignored wt)
      | done m ↦ process_message process wt m
    ]

-- The counter is a `uint64`.
pub prepare_chan_and_counter : Transceiver → Transceiver × ℕ × ℕ
prepare_chan_and_counter wt =
    let local_counter = (wt.counter + 1) % 2 ^ 64 in
    let ch = wt.made_channels in
    (
      record wt {
        counter = local_counter;
        made_channels = ch + 1;
        map_ack = if wt.with_acknowledge then insert local_counter ch wt.map_ack else wt.map_ack;
      },
      ch,
      local_counter,
    )

-- The state after the first part of Send, its channel, and the bytes to write.
pub send_prepare : Transceiver → Bytes → Bytes → Transceiver × ℕ × WsResult Bytes
send_prepare wt payload topic =
    let (after, ch, local_counter) = prepare_chan_and_counter wt in
    (
      after,
      ch,
      construct_payload wt.payload_parser (record {
        with_acknowledge = wt.with_acknowledge;
        counter = local_counter;
        message_type = payload_message;
        payload = payload;
        topic = topic;
        version = wt.payload_version;
      }),
    )

-- What ends the wait: the channel is closed, the timer fires, or the transceiver closes.
pub data WaitEnd : Type 0 where
  channel_closed timer_ended closer_closed : WaitEnd

pub wait_for_ack : WaitEnd → Option WsError
wait_for_ack channel_closed = none
wait_for_ack timer_ended = some ack_timeout
wait_for_ack closer_closed = some expected_ack_was_not_received_on_close

-- `sendPayload`, with the result of `WriteMessage`.
pub send_payload : Transceiver → Option WsError → WaitEnd → Option WsError
send_payload wt (some err_send) wait_end = some err_send
send_payload wt none wait_end = if wt.with_acknowledge then wait_for_ack wait_end else none

pub send : Transceiver → Bytes → Bytes → Option WsError → WaitEnd → Transceiver × Option WsError
send wt payload topic write_result wait_end =
    let (after, ch, new_payload) = send_prepare wt payload topic in
    (
      after,
      elim new_payload [ failed e ↦ some e | done bytes ↦ send_payload wt write_result wait_end ],
    )

-- What ends Listen, by whether the closer is closed.
pub data Reading : Type 0 where
  message : Bytes → Reading
  read_error : Reading

-- Listen over the results of `ReadMessage`; `none` where it panics or they do not end it. The second
-- part is its result.
pub listen : (WsMessage → Bool) → Bool → Transceiver → List Reading → Option (Transceiver × Bool)
listen process closer_is_closed wt [] = none
listen process closer_is_closed wt (read_error ∷ readings) = some (wt, not closer_is_closed)
listen process closer_is_closed wt (message m ∷ readings) =
    elim (verify_payload_and_send_ack_if_needed process wt m) [
      | none ↦ none
      | some r ↦ listen process closer_is_closed r.after readings
    ]
