-- ===== src/Fsm/Stream.antt =====
-- The events of the TCP sockets.
pub mod Kept
pub mod Bodies
use ruli.Common.{
  ℕ, suc, ◌-◌, ◌==◌, if◌then◌else◌, Run, done, abort, check, read, ltb, leb, length, drop,
}
use ruli.Common.{◌>>=◌, ◌>>◌, Option, some, none, List, [], ◌∷◌, ◌++◌, true, false, not, ◌&&◌}
use ruli.Limits.{tcp_header, msg_low, msg_header}
use ruli.Util.{pack2}
use ruli.Msg.{Header, parse_header}
use ruli.Res.{
  Query, Resolver, System, Event, code_ok, code_timeout, code_malloc, tcp_want_send,
  tcp_want_recv_body, is_status, ask, put, put_server, sock_send, sock_recv, sock_has_connected,
  allocate, sock_ok, would_block, send_fail, recv_fail, connect_fail, closed, Outcome, oop_continue,
  SockResult, Server,
}
use ruli.Res.Servers.{get_curr_tcp_socket, find_query_by_id, find_server_by_sd, same_sd}
use ruli.Fsm.Tcp.{
  done_write_tcp, want_read_tcp_head, done_read_tcp_head, want_read_tcp_body, done_read_tcp_body,
}
use ruli.Fsm.Connect.{
  is_void, is_ok, is_null, switch_else_schedule_finish, want_connect_tcp, queries_tcp_connect2write,
  queries_connect_next,
}
use ruli.Fsm.Datagrams.{is_write, find_status, check_answer_flags, finish_with, continue}

-- The query tries the next server by TCP, or it finishes with a time-out.
unfoldable pub tcp_read_timeout : System → ℕ → Resolver → Run Resolver
tcp_read_timeout sys i r = do
  (switched, r') ← switch_else_schedule_finish i code_timeout r
  elim switched [ true ↦ want_connect_tcp sys i r' | false ↦ done r' ]

unfoldable pub tcp_read_head_timeout : System → ℕ → Resolver → Run Resolver
tcp_read_head_timeout sys i r = do r' ← done_read_tcp_head i r; tcp_read_timeout sys i r'

unfoldable pub tcp_read_body_timeout : System → ℕ → Resolver → Run Resolver
tcp_read_body_timeout sys i r = do r' ← done_read_tcp_body i r; tcp_read_timeout sys i r'

unfoldable pub tcp_connect : System → ℕ → Event → Resolver → Run Resolver
tcp_connect sys tcp_sd event r = do
  check (is_write event)
  let asked = ask (sock_has_connected tcp_sd) r
  if sys.has_connected asked.calls
      then (do check (ltb 0 (length asked.query_list)); queries_tcp_connect2write tcp_sd asked)
      else queries_connect_next sys tcp_sd asked

-- What follows the call to send the query.
unfoldable pub after_send : System → ℕ → ℕ → SockResult → Resolver → Run Resolver
after_send sys tcp_sd i would_block r = done r
after_send sys tcp_sd i send_fail r = queries_connect_next sys tcp_sd r
after_send sys tcp_sd i sock_ok r = do
  written ← done_write_tcp i r
  want_read_tcp_head sys i written
after_send sys tcp_sd i recv_fail r = abort
after_send sys tcp_sd i connect_fail r = abort
after_send sys tcp_sd i closed r = abort

-- The query at index `i` is sent on the socket, whichever server it uses.
unfoldable pub send_tcp : System → ℕ → ℕ → Resolver → Run Resolver
send_tcp sys tcp_sd i r = do
  qry ← read r.query_list i
  let sent = ask (sock_send tcp_sd qry.query_buf) r
  after_send sys tcp_sd i (sys.send sent.calls) sent

unfoldable pub tcp_write : System → ℕ → Event → Resolver → Run Resolver
tcp_write sys tcp_sd event r = do
  check (is_write event)
  check (ltb 0 (length r.query_list))
  elim (find_status tcp_want_send 0 r.query_list) [
    | none ↦ abort
    | some i ↦ send_tcp sys tcp_sd i r
  ]

-- The buffer for an answer of `msg_len` bytes, of which `head` is there already.
unfoldable pub save_head : System → ℕ → Header → ℕ → List ℕ → Resolver → Run (Resolver × Outcome)
save_head sys i msg_hdr msg_len head r = do
  qry ← read r.query_list i
  check (is_null qry.answer_buf)
  check (is_void qry.answer_code)
  let asked = ask (allocate msg_len) r
  let saved = record qry {
    answer_buf = some head;
    answer_buf_size = msg_len;
    answer_header = msg_hdr;
  }
  if sys.malloc asked.calls
      then (do
        check (length head == msg_header)
        continue (want_read_tcp_body sys i (put i saved asked)))
      else finish_with sys i code_malloc asked

-- The query that the answer is for waits no more for a header.
unfoldable pub head_of_query :
    System → ℕ → Header → ℕ → List ℕ → Resolver → Run (Resolver × Outcome)
head_of_query sys i msg_hdr msg_len head r = do
  r' ← done_read_tcp_head i r
  qry ← read r'.query_list i
  let code = check_answer_flags msg_hdr.flags qry.q_options
  if not (is_ok code) then finish_with sys i code r' else save_head sys i msg_hdr msg_len head r'

-- The whole header: the length of the message, and the header of the message itself.
unfoldable pub whole_head : System → ℕ → List ℕ → Resolver → Run (Resolver × Outcome)
whole_head sys tcp_sd buf r = do
  msg_len ← pack2 buf 0
  if ltb msg_len msg_low then continue (queries_connect_next sys tcp_sd r) else do
    parsed ← parse_header (drop 2 buf) (length buf - 2)
    elim parsed [
      | none ↦ abort
      | some msg_hdr ↦ elim (find_query_by_id r.query_list msg_hdr.id) [
        | none ↦ continue (queries_connect_next sys tcp_sd r)
        | some i ↦ head_of_query sys i msg_hdr msg_len (drop 2 buf) r
      ]
    ]

-- What follows the call to receive more of the header of the server at index `s`; `buf` is what there is of it then.
unfoldable pub after_head :
    System → ℕ → ℕ → Server → List ℕ → SockResult → Resolver → Run (Resolver × Outcome)
after_head sys tcp_sd s server buf would_block r = done (r, oop_continue)
after_head sys tcp_sd s server buf closed r = continue (queries_connect_next sys tcp_sd r)
after_head sys tcp_sd s server buf recv_fail r = continue (queries_connect_next sys tcp_sd r)
after_head sys tcp_sd s server buf sock_ok r =
    let received = put_server s (record server { tcp_head = some buf }) r in
    if ltb (length buf) tcp_header
    then done (received, oop_continue)
    else whole_head sys tcp_sd buf received
after_head sys tcp_sd s server buf send_fail r = abort
after_head sys tcp_sd s server buf connect_fail r = abort

-- The bytes received behind the part `head` of the header.
unfoldable pub more_head : System → ℕ → ℕ → List ℕ → Resolver → Run (Resolver × Outcome)
more_head sys tcp_sd s head r = do
  server ← read r.server_list s
  check (ltb (length head) tcp_header)
  let asked = ask (sock_recv tcp_sd (tcp_header - length head)) r
  let received = sys.recv asked.calls
  after_head sys tcp_sd s server (head ++ received.1) received.0 asked

unfoldable pub recv_tcp_head : System → ℕ → Resolver → Run (Resolver × Outcome)
recv_tcp_head sys tcp_sd r = elim (find_server_by_sd r.server_list tcp_sd) [
  | none ↦ abort
  | some s ↦ (do
    server ← read r.server_list s
    elim (server.tcp_head) [ none ↦ abort | some head ↦ more_head sys tcp_sd s head r ])
]

-- The bytes received behind the part of the answer that is there.
unfoldable pub more_body : System → ℕ → List ℕ → Resolver → Run (Resolver × Outcome)
more_body sys i buf r = do
  qry ← read r.query_list i
  let received = put i (record qry { answer_buf = some buf }) r
  if length buf == qry.answer_buf_size
      then (do
        r' ← done_read_tcp_body i received
        left ← read r'.query_list i
        check (is_void left.answer_code)
        finish_with sys i code_ok r')
      else done (received, oop_continue)

-- What follows the call to receive at most `left` more bytes.
unfoldable pub after_body :
    System → ℕ → ℕ → ℕ → List ℕ → List ℕ → SockResult → Resolver → Run (Resolver × Outcome)
after_body sys tcp_sd i left answer_buf bytes would_block r = done (r, oop_continue)
after_body sys tcp_sd i left answer_buf bytes recv_fail r =
    continue (queries_connect_next sys tcp_sd r)
after_body sys tcp_sd i left answer_buf bytes sock_ok r = do
  check (leb (length bytes) left)
  more_body sys i (answer_buf ++ bytes) r
after_body sys tcp_sd i left answer_buf bytes send_fail r = abort
after_body sys tcp_sd i left answer_buf bytes connect_fail r = abort
after_body sys tcp_sd i left answer_buf bytes closed r = abort

unfoldable pub body_of_answer : System → ℕ → ℕ → List ℕ → Resolver → Run (Resolver × Outcome)
body_of_answer sys tcp_sd i answer_buf r = do
  qry ← read r.query_list i
  check (leb msg_low qry.answer_buf_size)
  check (leb msg_header (length answer_buf))
  check (ltb (length answer_buf) qry.answer_buf_size)
  let left = qry.answer_buf_size - length answer_buf
  let asked = ask (sock_recv tcp_sd left) r
  let received = sys.recv asked.calls
  after_body sys tcp_sd i left answer_buf received.1 received.0 asked

unfoldable pub recv_tcp_body : System → ℕ → ℕ → Resolver → Run (Resolver × Outcome)
recv_tcp_body sys tcp_sd i r = do
  qry ← read r.query_list i
  sd ← get_curr_tcp_socket r qry
  check (same_sd sd (some tcp_sd))
  elim (qry.answer_buf) [
    | none ↦ abort
    | some answer_buf ↦ body_of_answer sys tcp_sd i answer_buf r
  ]

-- The index of the first query that waits on this socket for the body of an answer, in a list that begins with index `i`.
unfoldable pub find_body : ℕ → Resolver → ℕ → List Query → Run (Option ℕ)
find_body tcp_sd r i [] = done none
find_body tcp_sd r i (qry ∷ queries) = do
  sd ← get_curr_tcp_socket r qry
  let found = same_sd sd (some tcp_sd) && is_status qry.status tcp_want_recv_body
  elim found [ true ↦ done (some i) | false ↦ find_body tcp_sd r (suc i) queries ]

unfoldable pub tcp_read : System → ℕ → Event → Resolver → Run (Resolver × Outcome)
tcp_read sys tcp_sd event r = do
  check (not (is_write event))
  check (ltb 0 (length r.query_list))
  waiting ← find_body tcp_sd r 0 r.query_list
  elim waiting [ some i ↦ recv_tcp_body sys tcp_sd i r | none ↦ recv_tcp_head sys tcp_sd r ]
