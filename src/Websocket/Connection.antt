-- ===== src/Websocket/Connection.antt =====
-- websocket/connection/wsConnClient.go: the wrapper over a connection of gorilla's websocket.
-- An underlying connection is a number, and `none` is nil; what its methods return is an argument.
use drt_go_chain_communicati.Prelude.{ℕ, Bool, true, false, [], Option, none, some, Bytes}
use drt_go_chain_communicati.Websocket.{
  WsError, WsResult, failed, done, connection_already_open, connection_not_open,
}

pub record WsConnClient : Type 0 where
  pub conn : Option ℕ
  pub client_id : Bytes

pub new_ws_conn_client : WsConnClient
new_ws_conn_client = record { conn = none; client_id = [] }

-- `fmt.Sprintf("%p", wsc)` is an argument.
pub new_ws_conn_client_with_conn : ℕ → Bytes → WsConnClient
new_ws_conn_client_with_conn conn pointer_text = record {
  conn = some conn;
  client_id = pointer_text;
}

-- With the result of `Dial`, which gives a nil connection with an error.
pub open_connection : WsConnClient → WsResult ℕ → WsConnClient × Option WsError
open_connection wsc dialed = elim wsc.conn [
  | some conn ↦ (wsc, some connection_already_open)
  | none ↦ elim dialed [
    | failed e ↦ (wsc, some e)
    | done conn ↦ (record wsc { conn = some conn }, none)
  ]
]

pub get_conn : WsConnClient → WsResult ℕ
get_conn wsc = elim wsc.conn [ none ↦ failed connection_not_open | some conn ↦ done conn ]

-- With what the underlying connection reads.
pub read_message : WsConnClient → (ℕ → WsResult Bytes) → WsResult Bytes
read_message wsc read = elim (get_conn wsc) [ failed e ↦ failed e | done conn ↦ read conn ]

-- With the result of the underlying write.
pub write_message : WsConnClient → (ℕ → Option WsError) → Option WsError
write_message wsc write = elim wsc.conn [ none ↦ some connection_not_open | some conn ↦ write conn ]

pub is_open : WsConnClient → Bool
is_open wsc = elim wsc.conn [ none ↦ false | some conn ↦ true ]

-- With the result of the underlying Close; that of the close message is only logged.
pub close : WsConnClient → (ℕ → Option WsError) → WsConnClient × Option WsError
close wsc close_conn = elim wsc.conn [
  | none ↦ (wsc, some connection_not_open)
  | some conn ↦ elim (close_conn conn) [
    | some e ↦ (wsc, some e)
    | none ↦ (record wsc { conn = none }, none)
  ]
]
