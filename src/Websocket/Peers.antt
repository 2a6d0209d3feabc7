-- ===== src/Websocket/Peers.antt =====
-- websocket/server/transceiversAndConnHolder.go, websocket/server/server.go and
-- websocket/client/client.go: the two ends that send and close.
-- The map points to the transceivers, so what Send does to one of them stays in the map. A Go map is
-- visited in any order; here it is that of its entries.
use drt_go_chain_communicati.Prelude.{
  ℕ, Bool, not, ◌&&◌, [], ◌∷◌, Option, none, some, Bytes, bytes_eq, Dict, insert, erase, length,
  nat_beq, if◌then◌else◌,
}
use drt_go_chain_communicati.Websocket.{
  WsError, WsResult, failed, done, ◌>>=◌, fail_if, Marshaller, nil_logger, nil_payload_converter,
  empty_url, zero_value_retry_duration, no_clients_connected,
}
use drt_go_chain_communicati.Websocket.Transceiver.{
  ArgsTransceiver, Transceiver, WaitEnd, new_transceiver, send,
}
use drt_go_chain_communicati.Websocket.Connection.{WsConnClient, write_message, is_open, close}

pub record TupleTransceiverAndConn : Type 0 where
  pub transceiver : Transceiver
  pub conn : WsConnClient

abbrev pub TransceiversAndConnHolder : Type 0
TransceiversAndConnHolder = Dict Bytes TupleTransceiverAndConn

pub add_transceiver_and_conn :
    TransceiversAndConnHolder → Transceiver → WsConnClient → TransceiversAndConnHolder
add_transceiver_and_conn th transceiver conn =
    insert conn.client_id (record { transceiver = transceiver; conn = conn }) th

pub remove : TransceiversAndConnHolder → Bytes → TransceiversAndConnHolder
remove th id = erase id th

-- ArgsWebSocketServer and ArgsWebSocketClient, which have the same fields.
pub record ArgsHost : Type 0 where
  pub retry_duration_in_seconds : ℕ
  pub ack_timeout_in_seconds : ℕ
  pub blocking_ack_on_error : Bool
  pub with_acknowledge : Bool
  pub drop_messages_if_no_connection : Bool
  pub url : Bytes
  pub payload_converter : Option Marshaller
  pub log : Option (Unit {0})
  pub payload_version : ℕ

-- `checkArgs` of the server, and the same one of the client.
pub check_args : ArgsHost → WsResult Marshaller
check_args args = elim args.log [
  | none ↦ failed nil_logger
  | some log ↦ elim args.payload_converter [
    | none ↦ failed nil_payload_converter
    | some converter ↦ fail_if (nat_beq (length args.url) 0) empty_url >>= λ u.
        fail_if (nat_beq args.retry_duration_in_seconds 0) zero_value_retry_duration >>= λ v.
        done converter
  ]
]

-- The arguments of the transceiver that the client and each connection of the server get.
abbrev transceiver_args : ArgsHost → ArgsTransceiver
transceiver_args args = record {
  payload_converter = args.payload_converter;
  log = args.log;
  retry_duration_in_sec = args.retry_duration_in_seconds;
  ack_timeout_in_sec = args.ack_timeout_in_seconds;
  blocking_ack_on_error = args.blocking_ack_on_error;
  with_acknowledge = args.with_acknowledge;
  payload_version = args.payload_version;
}

pub record Server : Type 0 where
  pub args : ArgsHost
  pub transceivers_and_conn : TransceiversAndConnHolder

pub new_websocket_server : ArgsHost → WsResult Server
new_websocket_server args = do
  converter ← check_args args
  done (record { args = args; transceivers_and_conn = [] })

-- `connectionHandler` up to the blocking Listen; what it logs is left out.
pub connection_handler : Server → WsConnClient → Server
connection_handler s connection = elim (new_transceiver (transceiver_args s.args)) [
  | failed e ↦ s
  | done transceiver ↦ record s {
    transceivers_and_conn = add_transceiver_and_conn s.transceivers_and_conn transceiver connection;
  }
]

-- The end of `connectionHandler`, when Listen has returned.
pub connection_ended : Server → WsConnClient → Server
connection_ended s connection = record s {
  transceivers_and_conn = remove s.transceivers_and_conn connection.client_id;
}

-- Send of each transceiver, with what the underlying connection and the wait answer.
pub send_to_all :
    (ℕ → Option WsError)
    → (Bytes → WaitEnd)
    → Bytes
    → Bytes
    → TransceiversAndConnHolder
    → TransceiversAndConnHolder
send_to_all write wait_end payload topic [] = []
send_to_all write wait_end payload topic ((id, tuple) ∷ rest) =
    let (after, _err) =
      send tuple.transceiver payload topic (write_message tuple.conn write) (wait_end id) in
    (id, record tuple { transceiver = after }) ∷ send_to_all write wait_end payload topic rest

pub server_send :
    (ℕ → Option WsError) → (Bytes → WaitEnd) → Server → Bytes → Bytes → Server × Option WsError
server_send write wait_end s payload topic =
    if nat_beq (length s.transceivers_and_conn) 0 && not s.args.drop_messages_if_no_connection
    then (s, some no_clients_connected)
    else (
      record s {
        transceivers_and_conn = send_to_all write wait_end payload topic s.transceivers_and_conn;
      },
      none,
    )

-- `if err != nil { lastError = err }`.
abbrev last_of : Option WsError → Option WsError → Option WsError
last_of last_error none = last_error
last_of last_error (some e) = some e

-- The loop of Close, with what Close of each transceiver and of each connection returns.
pub close_all :
    (Bytes → Option WsError)
    → (ℕ → Option WsError)
    → Option WsError
    → TransceiversAndConnHolder
    → TransceiversAndConnHolder × Option WsError
close_all close_transceiver close_conn last_error [] = ([], last_error)
close_all close_transceiver close_conn last_error ((id, tuple) ∷ th) =
    let (conn, err) = close tuple.conn close_conn in
    let (rest, last) =
      close_all close_transceiver close_conn
        (last_of (last_of last_error (close_transceiver id)) err) th in
    ((id, record tuple { conn = conn }) ∷ rest, last)

pub server_close :
    Option WsError
    → (Bytes → Option WsError)
    → (ℕ → Option WsError)
    → Server
    → Server × Option WsError
server_close shutdown close_transceiver close_conn s =
    let (th, last) =
      close_all close_transceiver close_conn (last_of none shutdown) s.transceivers_and_conn in
    (record s { transceivers_and_conn = th }, last)

pub record Client : Type 0 where
  pub ws_conn : WsConnClient
  pub transceiver : Transceiver
  pub drop_messages_if_no_connection : Bool

-- Send of the client, with what the underlying connection and the wait answer.
pub client_send : (ℕ → Option WsError) → WaitEnd → Client → Bytes → Bytes → Client × Option WsError
client_send write wait_end c payload topic =
    let (after, e) = send c.transceiver payload topic (write_message c.ws_conn write) wait_end in
    if c.drop_messages_if_no_connection && not (is_open c.ws_conn)
    then (c, none)
    else (record c { transceiver = after }, e)

-- Close of the client, with what Close of the transceiver and of the connection return.
pub client_close : Option WsError → (ℕ → Option WsError) → Client → Client × Option WsError
client_close close_transceiver close_conn c =
    let (conn, e) = close c.ws_conn close_conn in
    (record c { ws_conn = conn }, last_of (last_of none close_transceiver) e)
