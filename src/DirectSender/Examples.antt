-- ===== src/DirectSender/Examples.antt =====
-- p2p/libp2p/directSender.go: the theorems at concrete inputs.
use drt_go_chain_communicati.Prelude.{
  ◌+◌, ◌%◌, ◌^◌, Bool, true, false, List, [], ◌∷◌, ◌++◌, none, some, ◌≡◌, ◌≢◌, ◌↔◌, refl, Bytes,
  bytes_eq, bytes_beq, ◌==◌, ==_refl, length, if◌then◌else◌, arith,
}
use drt_go_chain_communicati.Prelude.Int.{pos}
use drt_go_chain_communicati.Errors.{ok, err, external, already_seen_message}
use drt_go_chain_communicati.Message.{PbMessage, new_message}
use drt_go_chain_communicati.DirectSender.{
  Net, Handler, DirectSender, Conn, pre_check, check_and_set_seen_message, message_id, deliver,
  verify_sig, next_sequence_number, create_message, check_sig, sign_message, with_sign_prefix,
  big_endian, process_received_direct_message,
}
use drt_go_chain_communicati.DirectSender.Received.{Permitted, process_received_twice}
use drt_go_chain_communicati.DirectSender.Delivered.{Delivered, process_received_iff}
use drt_go_chain_communicati.DirectSender.Sequence.{next_sequence_number_lem, value_of, after_calls}
use drt_go_chain_communicati.DirectSender.Signed.{Signs, create_message_lem}

abbrev seen_in : List Bytes → Bytes → Bool
seen_in [] k = false
seen_in (j ∷ js) k = let rest = seen_in js k in if j == k then true else rest

abbrev net : Net
net = record {
  SeenMessages = List Bytes;
  has = seen_in;
  add = λ s k. k ∷ s;
  unmarshal = λ b.
      some (record { version = 1; payload = b; timestamp = pos 5; pk = []; signature_on_pid = [] });
  id_from_bytes = λ b. some b;
  marshal_pb = λ m. ok (m.seqno ++ m.payload);
  sign_prefix = 9 ∷ [];
  sign = λ b. ok (0 ∷ b);
  verify = λ b peer s. if s == 0 ∷ b then ok tt else err (external 1);
}

abbrev handler : Handler
handler m peer = ok tt

abbrev sender : DirectSender net
sender = record { counter = 41; message_handler = some handler; seen_messages = [] }

abbrev conn : Conn
conn = record { local_peer = 1 ∷ []; remote_peer = 2 ∷ []; streams = [] }

abbrev message_with : Bytes → PbMessage
message_with payload = record {
  from_peer = 1 ∷ [];
  payload = payload;
  seqno = 3 ∷ [];
  topic = some (4 ∷ []);
  signature = [];
  key = none;
  unrecognized = [];
}

permitted : (payload : Bytes) → Permitted (message_with payload) (1 ∷ [])
permitted payload = record {
  topic = 4 ∷ [];
  has_topic = refl;
  from_itself = refl;
  no_key = refl;
  short_seqno = omega arith;
}

-- A signed message, of which the signer checks the sequence number and the payload.
abbrev signed_message : PbMessage
signed_message = record (message_with (5 ∷ [])) { signature = 0 ∷ 9 ∷ 3 ∷ 5 ∷ [] }

process_received_iff_example :
    (process_received_direct_message net sender (some signed_message) (1 ∷ [])
      ≡ (record sender { seen_messages = (1 ∷ 3 ∷ []) ∷ [] }, ok tt))
    ↔ Delivered net sender handler signed_message (1 ∷ [])
process_received_iff_example = process_received_iff net sender handler signed_message (1 ∷ []) refl

process_received_twice_example :
    let ds' = (process_received_direct_message net sender (some (message_with [])) (1 ∷ [])).0 in
    process_received_direct_message net ds' (some (message_with (5 ∷ []))) (1 ∷ [])
    ≡ (ds', err already_seen_message)
process_received_twice_example =
    process_received_twice net sender handler (message_with []) (message_with (5 ∷ [])) (1 ∷ [])
      (λ s k. rw (==_refl k)) refl (permitted []) (permitted (5 ∷ [])) refl

next_sequence_number_lem_example :
    let s = (next_sequence_number net sender).1 in
    (length s ≡ 8)
    × (value_of 0 s ≡ (41 + 1) % 2 ^ 64)
    × ((next_sequence_number net (after_calls net 5 sender)).1 ≢ s)
next_sequence_number_lem_example =
    next_sequence_number_lem net sender 5 (omega arith) (omega arith) (omega arith)

accepts_own : Signs net (1 ∷ [])
accepts_own b s e = let same : 0 ∷ b ≡ s = cc in rw (← same, ==_refl (0 ∷ b))

abbrev created : PbMessage
created = record {
  from_peer = 1 ∷ [];
  payload = 7 ∷ [];
  seqno = 0 ∷ 0 ∷ 0 ∷ 0 ∷ 0 ∷ 0 ∷ 0 ∷ 42 ∷ [];
  topic = some (4 ∷ []);
  signature = 0 ∷ 9 ∷ 0 ∷ 0 ∷ 0 ∷ 0 ∷ 0 ∷ 0 ∷ 0 ∷ 42 ∷ 7 ∷ [];
  key = none;
  unrecognized = [];
}

created_sent : (create_message net sender (4 ∷ []) (7 ∷ []) conn).1 ≡ ok created
unfolding create_message next_sequence_number sign_message with_sign_prefix big_endian
created_sent = refl

create_message_lem_example :
    (created.payload ≡ 7 ∷ [])
    × (created.topic ≡ some (4 ∷ []))
    × Permitted created (1 ∷ [])
    × (check_sig net created ≡ ok tt)
create_message_lem_example =
    create_message_lem net sender (4 ∷ []) (7 ∷ []) conn created accepts_own created_sent

delivered :
    process_received_direct_message net sender (some signed_message) (1 ∷ [])
    ≡ (record sender { seen_messages = (1 ∷ 3 ∷ []) ∷ [] }, ok tt)
unfolding process_received_direct_message pre_check check_and_set_seen_message message_id deliver
    check_sig verify_sig with_sign_prefix new_message bytes_beq
delivered = refl
