-- ===== src/Websocket/Transceiver/Reached.antt =====
-- websocket/transceiver/transceiver.go: the states that sending and receiving lead to.
use drt_go_chain_communicati.Prelude.{
  ℕ, ◌+◌, Bool, true, false, [], none, some, ◌≡◌, refl, sym, ap, ◌∙◌, Bytes, nat_eq, lookup, insert,
  length, nat_beq, Bool-cases, arith, subst, some_injective, inl, inr, if◌then◌else◌,
}
use drt_go_chain_communicati.Websocket.{
  WsMessage, WsResult-cases, done_injective, done, extract_ws_message,
}
use drt_go_chain_communicati.Websocket.Transceiver.Acknowledge.{
  IsValid, waits-IsValid, Returns, process_message-total,
}
use drt_go_chain_communicati.Websocket.Transceiver.{
  ArgsTransceiver, Transceiver, check_args, new_transceiver, is_closed, Received,
  verify_payload_and_send_ack_if_needed, prepare_chan_and_counter, send_prepare,
}

verify_payload-total :
    (process : WsMessage → Bool) (wt : Transceiver) (payload : Bytes)
    → IsValid wt
    → Returns (verify_payload_and_send_ack_if_needed process wt payload)
unfolding verify_payload_and_send_ack_if_needed
verify_payload-total process wt payload v = elim (Bool-cases (nat_beq (length payload) 0)) [
  | inl empty ↦ (
    record { after = wt; processed = none; ack = none },
    rw (empty, verify_payload_and_send_ack_if_needed) refl,
    v,
  )
  | inr given ↦ elim (WsResult-cases (extract_ws_message wt.payload_parser payload)) [
    | inl (e, q) ↦ (
      record { after = wt; processed = none; ack = none },
      rw (given, verify_payload_and_send_ack_if_needed) (rw q refl),
      v,
    )
    | inr (m, q) ↦
        let (r, p, w) = process_message-total process wt m v in
        (r, rw (given, verify_payload_and_send_ack_if_needed) (rw q p), w)
  ]
]

prepared-IsValid :
    (wt : Transceiver) (c : ℕ) (acks : Bool)
    → IsValid wt
    → IsValid (record wt {
      counter = c;
      made_channels = wt.made_channels + 1;
      map_ack = if acks then insert c wt.made_channels wt.map_ack else wt.map_ack;
    })
prepared-IsValid wt c true v = waits-IsValid wt c v
prepared-IsValid wt c false v = record {
  waiting_made = λ k ch h. omega (arith, v.waiting_made k ch h);
  waiting_open = v.waiting_open;
  closed_made = λ ch h. omega (arith, v.closed_made ch h);
  one_counter = v.one_counter;
}

pub send_prepare-IsValid :
    (wt : Transceiver) (payload topic : Bytes)
    → IsValid wt
    → IsValid (send_prepare wt payload topic).0
unfolding send_prepare prepare_chan_and_counter
send_prepare-IsValid wt payload topic v = prepared-IsValid wt _ wt.with_acknowledge v

fresh-IsValid : (wt : Transceiver) → wt.map_ack ≡ [] → wt.closed_channels ≡ [] → IsValid wt
unfolding lookup is_closed
fresh-IsValid wt m c = record {
  waiting_made = λ k ch h. cc (rw m at h);
  waiting_open = λ k ch h. cc (rw m at h);
  closed_made = λ ch h. cc (rw c at h);
  one_counter = λ j k ch h h'. cc (rw m at h);
}

-- The states that a new transceiver comes to by sending and receiving, whatever is received.
pub data Reach : Transceiver → Type 0 where
  reach_new :
      (args : ArgsTransceiver) {wt : Transceiver} → new_transceiver args ≡ done wt → Reach wt
  reach_send :
      {wt : Transceiver} (payload topic : Bytes)
      → Reach wt
      → Reach (send_prepare wt payload topic).0
  reach_receive :
      {wt : Transceiver} (process : WsMessage → Bool) (payload : Bytes) (r : Received)
      → Reach wt
      → verify_payload_and_send_ack_if_needed process wt payload ≡ some r
      → Reach r.after

pub Reach-IsValid : (wt : Transceiver) → Reach wt → IsValid wt
unfolding new_transceiver
Reach-IsValid wt (reach_new args h) = elim (WsResult-cases (check_args args)) [
  | inl (e, q) ↦ cc (rw (q, new_transceiver) at h)
  | inr (converter, q) ↦
      let made = rw (q, new_transceiver) at h in
      fresh-IsValid wt (ap (λ x. x.map_ack) (sym (done_injective made)))
        (ap (λ x. x.closed_channels) (sym (done_injective made)))
]
Reach-IsValid _ (reach_send {wt = wt} payload topic r) =
    send_prepare-IsValid wt payload topic (Reach-IsValid wt r)
Reach-IsValid _ (reach_receive {wt = wt} process payload r reached h) =
    let (r', p, w) = verify_payload-total process wt payload (Reach-IsValid wt reached) in
    subst (λ x. IsValid x.after) (some_injective (sym p ∙ h)) w
