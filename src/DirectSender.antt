-- ===== src/DirectSender.antt =====
-- p2p/libp2p/directSender.go: direct messages, sent and received.
-- `Net` has what the code takes from other packages: the time cache of seen messages, the protobuf
-- encodings and the signer. A method returns the new state; the registered handler is a function, and
-- its result is the result of the call that reaches it.
pub mod Received
pub mod Delivered
pub mod Sequence
pub mod Signed
mod Examples
use drt_go_chain_communicati.Prelude.{
  ℕ, zero, suc, ◌+◌, ◌/◌, ◌%◌, ◌^◌, Bool, true, false, not, ◌&&◌, List, [], ◌∷◌, ◌++◌, Option, none,
  some, Bytes, bytes_eq, ◌==◌, length, ltb, leb, if◌then◌else◌, nat_beq,
}
use drt_go_chain_communicati.Errors.{
  nil_host, nil_context, nil_p2_p_signer, nil_marshaller, nil_logger, Error, Result, ok, err, ◌>>=◌,
  ◌>>◌, fail_if, not_nil, nil_direct_send_message_handler, nil_message, nil_topic, invalid_value,
  already_seen_message, message_too_large, peer_not_directly_connected, nil_host, nil_context,
  nil_p2_p_signer, nil_marshaller, nil_logger,
}
use drt_go_chain_communicati.Message.{PbMessage, TopicMessage, Message, direct, new_message}

pub record Net : Type 1 where
  pub SeenMessages : Type 0
  pub has : SeenMessages → Bytes → Bool
  pub add : SeenMessages → Bytes → SeenMessages
  pub unmarshal : Bytes → Option TopicMessage
  pub id_from_bytes : Bytes → Option Bytes
  pub marshal_pb : PbMessage → Result Bytes
  pub sign_prefix : Bytes
  pub sign : Bytes → Result Bytes
  pub verify : Bytes → Bytes → Bytes → Result (Unit {0})

abbrev pub sequence_number_size : ℕ
sequence_number_size = 8

abbrev pub Handler : Type 0
Handler = Message → Bytes → Result (Unit {0})

-- `(1 << 21) - messageHeader` of messagesHandler.go.
abbrev pub max_send_buff_size : ℕ
max_send_buff_size = 2031616

-- `binary.BigEndian.PutUint64` is the case of 8 bytes.
unfoldable pub big_endian : ℕ → ℕ → Bytes
big_endian zero v = []
big_endian (suc n) v = big_endian n (v / 256) ++ (v % 256) ∷ []

-- `msg.GetFrom()` and `msg.GetSeqno()`, joined.
pub message_id : PbMessage → Bytes
message_id m = m.from_peer ++ m.seqno

-- A stream and a connection of the host, as far as the sender reads them.
pub record Stream : Type 0 where
  pub is_direct_send : Bool
  pub is_outbound : Bool
  pub stream_id : ℕ

pub record Conn : Type 0 where
  pub local_peer : Bytes
  pub remote_peer : Bytes
  pub streams : List Stream

-- The loop of `getConnection` over the connections, from the best found so far.
pub best_conn : ℕ → Option Conn → List Conn → Option Conn
best_conn l_streams conn [] = conn
best_conn l_streams conn (c ∷ conns) =
    let count = length c.streams in
    let better = leb l_streams count in
    best_conn (if better then count else l_streams) (if better then some c else conn) conns

pub get_connection : List Conn → Result Conn
get_connection conns = not_nil (best_conn 0 none conns) peer_not_directly_connected

-- The first outbound stream of the direct-send protocol.
pub find_stream : List Stream → Option Stream
find_stream [] = none
find_stream (s ∷ streams) =
    if s.is_direct_send && s.is_outbound then some s else find_stream streams

-- `NewStream` of the host is an argument.
pub get_or_create_stream : (Bytes → Result Stream) → Conn → Result Stream
get_or_create_stream new_stream conn = elim (find_stream conn.streams) [
  | some s ↦ ok s
  | none ↦ new_stream conn.remote_peer
]

pub choose_stream : List Conn → (Bytes → Result Stream) → Result (Conn × Stream)
choose_stream conns new_stream = do
  conn ← get_connection conns
  stream ← get_or_create_stream new_stream conn
  ok (conn, stream)

module _ (net : Net) where
  open net use {
    SeenMessages, has, add, unmarshal, id_from_bytes, marshal_pb, sign_prefix, sign, verify,
  }

  pub record DirectSender : Type 0 where
    pub counter : ℕ  -- uint64
    pub message_handler : Option Handler
    pub seen_messages : SeenMessages

  -- The time in nanoseconds, the new time cache, the mutex holder of `NewMutexHolder(maxMutexes)` and
  -- the five arguments, of which only their being nil matters here.
  pub new_direct_sender :
      ℕ
      → SeenMessages
      → Result (Unit {0})
      → Option (Unit {0})
      → Option (Unit {0})
      → Option (Unit {0})
      → Option (Unit {0})
      → Option (Unit {0})
      → Result DirectSender
  new_direct_sender unix_nano seen_messages mutex_holder h ctx signer marshaller logger = do
    _ ← not_nil h nil_host
    _ ← not_nil ctx nil_context
    _ ← not_nil signer nil_p2_p_signer
    _ ← not_nil marshaller nil_marshaller
    _ ← not_nil logger nil_logger
    mutex_holder
    ok (record {
      counter = unix_nano % 2 ^ 64;
      message_handler = none;
      seen_messages = seen_messages;
    })

  pub register_direct_message_processor :
      DirectSender → Option Handler → DirectSender × Result (Unit {0})
  register_direct_message_processor ds none = (ds, err nil_direct_send_message_handler)
  register_direct_message_processor ds (some h) = (record ds { message_handler = some h }, ok tt)

  pub check_and_set_seen_message : DirectSender → PbMessage → DirectSender × Bool
  check_and_set_seen_message ds msg =
      if has ds.seen_messages (message_id msg)
      then (ds, true)
      else (record ds { seen_messages = add ds.seen_messages (message_id msg) }, false)

  pub with_sign_prefix : Bytes → Bytes
  with_sign_prefix bytes = sign_prefix ++ bytes

  -- The message that is signed.
  abbrev pub unsigned : PbMessage → PbMessage
  unsigned m = record m { signature = []; key = none }

  -- The part of `checkSig` for a message that has a signature.
  pub verify_sig : PbMessage → Result (Unit {0})
  verify_sig message = do
    buff ← marshal_pb (unsigned message)
    verify (with_sign_prefix buff) message.from_peer message.signature

  pub check_sig : PbMessage → Result (Unit {0})
  check_sig message = if nat_beq (length message.signature) 0 then ok tt else verify_sig message

  -- The tests that come before the message is looked up among the seen ones.
  pub pre_check : Option Handler → Option PbMessage → Bytes → Result (Handler × PbMessage)
  pre_check handler message from_connected_peer = do
    h ← not_nil handler nil_direct_send_message_handler
    m ← not_nil message nil_message
    _ ← not_nil m.topic nil_topic
    fail_if (not (m.from_peer == from_connected_peer)) invalid_value
    fail_if (elim m.key [ none ↦ false | some k ↦ true ]) invalid_value
    fail_if (ltb sequence_number_size (length m.seqno)) invalid_value
    ok (h, m)

  -- What follows for a message that was not seen before.
  pub deliver : Handler → PbMessage → Bytes → Result (Unit {0})
  deliver handler m from_connected_peer = do
    check_sig m
    msg ← new_message (some unmarshal) id_from_bytes (some m) direct
    handler msg from_connected_peer

  pub process_received_direct_message :
      DirectSender → Option PbMessage → Bytes → DirectSender × Result (Unit {0})
  process_received_direct_message ds message from_connected_peer =
      elim (pre_check ds.message_handler message from_connected_peer) [
        | err e ↦ (ds, err e)
        | ok (handler, m) ↦
            let (ds', seen) = check_and_set_seen_message ds m in
            (ds', if seen then err already_seen_message else deliver handler m from_connected_peer)
      ]

  -- The counter is atomic, so calls that race are calls one after the other.
  pub next_sequence_number : DirectSender → DirectSender × Bytes
  next_sequence_number ds =
      let new_val = (ds.counter + 1) % 2 ^ 64 in
      (record ds { counter = new_val }, big_endian sequence_number_size new_val)

  -- The part of `createMessage` that signs.
  pub sign_message : PbMessage → Result PbMessage
  sign_message mes = do
    bytes ← marshal_pb mes
    signature ← sign (with_sign_prefix bytes)
    ok (record mes { signature = signature })

  pub create_message : DirectSender → Bytes → Bytes → Conn → DirectSender × Result PbMessage
  create_message ds topic buff conn =
      let (ds', seqno) = next_sequence_number ds in
      let mes : PbMessage = record {
        from_peer = conn.local_peer;
        payload = buff;
        seqno = seqno;
        topic = some topic;
        signature = [];
        key = none;
        unrecognized = [];
      } in
      (ds', sign_message mes)

  -- `Send` up to the write: the connection, the stream and the message that is written to it.
  pub send :
      DirectSender
      → List Conn
      → (Bytes → Result Stream)
      → Bytes
      → Bytes
      → DirectSender × Result (Stream × PbMessage)
  send ds conns new_stream topic buff =
      if leb max_send_buff_size (length buff)
      then (ds, err message_too_large)
      else elim (choose_stream conns new_stream) [
        | err e ↦ (ds, err e)
        | ok (conn, stream) ↦
            let (ds', message) = create_message ds topic buff conn in
            (ds', message >>= λ m. ok (stream, m))
      ]
