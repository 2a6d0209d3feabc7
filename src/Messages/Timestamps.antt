-- ===== src/Messages/Timestamps.antt =====
-- p2p/libp2p/messagesHandler.go: validateMessageByTimestamp.
use drt_go_chain_communicati.Prelude.{◌≡◌, ◌↔◌, arith}
use drt_go_chain_communicati.Prelude.Int.{ℤ, pos, ◌+ℤ◌, ◌-ℤ◌, ◌≤ℤ◌}
use drt_go_chain_communicati.Errors.{ok}
use drt_go_chain_communicati.Message.{Message}
use drt_go_chain_communicati.Messages.{validate_message_by_timestamp}

-- A message is accepted exactly if its timestamp is at most 600 seconds behind the node's clock and at
-- most 20 seconds ahead of it, both ends included.
pub validate_message_by_timestamp_iff :
    (now : ℤ) (msg : Message)
    → (validate_message_by_timestamp now msg ≡ ok tt)
      ↔ ((now -ℤ pos 600 ≤ℤ msg.timestamp_field) × (msg.timestamp_field ≤ℤ now +ℤ pos 20))
unfolding validate_message_by_timestamp
validate_message_by_timestamp_iff now msg =
    (λ h. (ground arith, ground arith), λ (lo, hi). ground arith)
