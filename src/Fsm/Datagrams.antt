-- ===== src/Fsm/Datagrams.antt =====
-- The end of a query, and the events of the UDP sockets.
pub mod Kept
pub mod Received
pub mod Steps
pub mod Flags
mod Tests
use ruli.Common.{
  ℕ, suc, ◌*◌, ◌^◌, ◌==◌, if◌then◌else◌, Run, done, abort, check, read, ltb, leb, length, ◌>>=◌,
}
use ruli.Common.{
  ◌>>◌, Option, some, none, List, [], ◌∷◌, Bool, true, false, not, ◌&&◌, bit_and, drop,
}
use ruli.Limits.{datagram_high}
use ruli.Msg.{Header, parse_header, opcode_query}
use ruli.Addr.Compare.{has_option}
use ruli.Res.{
  Query, Resolver, System, Status, Event, oop_read, oop_write, AnswerCode, code_ok, code_timeout,
  code_malloc, code_send, code_answer_opcode, code_answer_flag_qr, code_answer_flag_rd,
  code_answer_flag_ra, code_answer_flag_z, code_answer_trunc, void, udp_want_send, udp_want_recv,
  is_status, ask, put, udp_of, sock_sendto, sock_recvfrom, allocate, sock_ok, would_block,
  send_fail, recv_fail, connect_fail, closed, Outcome, oop_continue, SockResult,
}
use ruli.Res.Servers.{
  get_curr_serv_addr, get_curr_serv_port, get_curr_tcp_socket, find_query_by_id, same_sd,
}
use ruli.Res.Submit.{fsm_query_done}
use ruli.Fsm.Udp.{want_write_udp, done_write_udp, want_read_udp, done_read_udp}
use ruli.Fsm.Tcp.{want_write_tcp}
use ruli.Fsm.Connect.{is_void, is_ok, is_null, switch_else_schedule_finish, want_connect_tcp}

-- RULI_MSG_MASK_…
abbrev pub mask_qr : ℕ
mask_qr = 1 * 2 ^ 15

abbrev pub mask_opcode : ℕ
mask_opcode = 7 * 2 ^ 11

abbrev pub mask_tc : ℕ
mask_tc = 1 * 2 ^ 9

abbrev pub mask_rd : ℕ
mask_rd = 1 * 2 ^ 8

abbrev pub mask_ra : ℕ
mask_ra = 1 * 2 ^ 7

abbrev pub mask_z : ℕ
mask_z = 1 * 2 ^ 4

-- `flags & mask`, as a condition.
abbrev pub has_flag : ℕ → ℕ → Bool
has_flag flags mask = not (bit_and flags mask == 0)

-- RULI_RES_OPT_NEED_RA is the option of weight 2 ^ 1.
unfoldable pub check_answer_flags : ℕ → ℕ → AnswerCode
check_answer_flags flags options =
    if not (has_flag flags mask_qr)
    then code_answer_flag_qr
    else if not (bit_and flags mask_opcode == opcode_query)
    then code_answer_opcode
    else if not (has_flag flags mask_rd)
    then code_answer_flag_rd
    else if has_option options 1 && not (has_flag flags mask_ra)
    then code_answer_flag_ra
    else if has_flag flags mask_z
    then code_answer_flag_z
    else code_ok

-- `answer_msg_len <= answer_buf_size`; without a buffer both are -1.
abbrev pub fits_answer : Query → Bool
fits_answer qry = elim (qry.answer_buf) [
  | none ↦ true
  | some bytes ↦ leb (length bytes) qry.answer_buf_size
]

-- A truncated answer is none.
abbrev pub truncated : Query → Query
truncated qry =
    if is_ok qry.answer_code && has_flag qry.answer_header.flags mask_tc
    then record qry { answer_code = code_answer_trunc }
    else qry

-- `query_done`
unfoldable pub finish_query : System → ℕ → Resolver → Run (Resolver × Outcome)
finish_query sys i r = do
  qry ← read r.query_list i
  check (is_status qry.status void)
  check (not (is_void qry.answer_code))
  check (fits_answer qry)
  fsm_query_done sys i (put i (truncated qry) r)

-- `qry->answer_code = code; return query_done(qry);`
unfoldable pub finish_with : System → ℕ → AnswerCode → Resolver → Run (Resolver × Outcome)
finish_with sys i code r = do
  qry ← read r.query_list i
  finish_query sys i (put i (record qry { answer_code = code }) r)

abbrev pub continue : Run Resolver → Run (Resolver × Outcome)
continue m = m >>= λ r. done (r, oop_continue)

-- The query tries the next server by UDP, or it finishes with `code`.
unfoldable pub switch_udp : ℕ → AnswerCode → Resolver → Run Resolver
switch_udp i code r = do
  r' ← done_write_udp i r
  (switched, r'') ← switch_else_schedule_finish i code r'
  elim switched [ true ↦ want_write_udp i r'' | false ↦ done r'' ]

unfoldable pub udp_read_timeout : ℕ → Resolver → Run Resolver
udp_read_timeout i r = do
  r' ← done_read_udp i r
  (switched, r'') ← switch_else_schedule_finish i code_timeout r'
  elim switched [ true ↦ want_write_udp i r'' | false ↦ done r'' ]

-- The index of the first query with this status, among those behind the first `i`.
unfoldable pub find_status : Status → ℕ → List Query → Option ℕ
find_status status i [] = none
find_status status i (qry ∷ queries) =
    if is_status qry.status status then some i else find_status status (suc i) queries

abbrev pub is_write : Event → Bool
is_write oop_read = false
is_write oop_write = true

-- What follows the call to send the query.
unfoldable pub after_sendto : System → ℕ → SockResult → Resolver → Run Resolver
after_sendto sys i would_block r = done r
after_sendto sys i send_fail r = switch_udp i code_send r
after_sendto sys i sock_ok r = do written ← done_write_udp i r; want_read_udp sys i written
after_sendto sys i recv_fail r = abort
after_sendto sys i connect_fail r = abort
after_sendto sys i closed r = abort

-- `ruli_qry_udp_buf` and `ruli_qry_udp_msg_len`: the message without the two bytes of the TCP prefix.
abbrev pub udp_buf : Query → List ℕ
udp_buf qry = drop 2 qry.query_buf

-- The query at index `i` is sent to its server.
unfoldable pub send_udp : System → ℕ → ℕ → Resolver → Run Resolver
send_udp sys udp_sd i r = do
  qry ← read r.query_list i
  addr ← get_curr_serv_addr r qry
  port ← get_curr_serv_port r qry
  let sent = ask (sock_sendto udp_sd addr port (udp_buf qry)) r
  after_sendto sys i (sys.sendto sent.calls) sent

unfoldable pub udp_write : System → ℕ → Event → Resolver → Run Resolver
udp_write sys udp_sd event r = do
  check (is_write event)
  check (ltb 0 (length r.query_list))
  elim (find_status udp_want_send 0 r.query_list) [
    | none ↦ abort
    | some i ↦ send_udp sys udp_sd i r
  ]

unfoldable pub start_tcp_query : System → ℕ → Resolver → Run Resolver
start_tcp_query sys i r = do
  qry ← read r.query_list i
  tcp_sd ← get_curr_tcp_socket r qry
  elim tcp_sd [ none ↦ want_connect_tcp sys i r | some sd ↦ want_write_tcp i r ]

-- The answer is saved for the client, in a buffer of its length.
unfoldable pub save_answer : System → ℕ → Header → List ℕ → Resolver → Run (Resolver × Outcome)
save_answer sys i msg_hdr bytes r = do
  qry ← read r.query_list i
  check (is_null qry.answer_buf)
  check (is_void qry.answer_code)
  let asked = ask (allocate (length bytes)) r
  let saved = record qry {
    answer_buf = some bytes;
    answer_buf_size = length bytes;
    answer_header = msg_hdr;
  }
  if sys.malloc asked.calls
      then finish_with sys i code_ok (put i saved asked)
      else finish_with sys i code_malloc asked

-- What follows when the query at index `i` waits no more for the message with this header.
unfoldable pub take_answer : System → ℕ → Header → List ℕ → Resolver → Run (Resolver × Outcome)
take_answer sys i msg_hdr bytes r = do
  qry ← read r.query_list i
  let code = check_answer_flags msg_hdr.flags qry.q_options
  if not (is_ok code)
      then finish_with sys i code r
      else if has_flag msg_hdr.flags mask_tc
      then continue (start_tcp_query sys i r)
      else save_answer sys i msg_hdr bytes r

unfoldable pub udp_answer : System → ℕ → ℕ → Header → List ℕ → Resolver → Run (Resolver × Outcome)
udp_answer sys udp_sd i msg_hdr bytes r = do
  qry ← read r.query_list i
  if not (is_status qry.status udp_want_recv) then done (r, oop_continue) else do
    addr ← get_curr_serv_addr r qry
    check (same_sd (some udp_sd) (udp_of addr.family r).sd)
    r' ← done_read_udp i r
    take_answer sys i msg_hdr bytes r'

-- A message that is too long, has no header or answers no query is ignored.
unfoldable pub udp_message : System → ℕ → List ℕ → Resolver → Run (Resolver × Outcome)
udp_message sys udp_sd bytes r =
    if ltb datagram_high (length bytes) then done (r, oop_continue) else do
      parsed ← parse_header bytes (length bytes)
      elim parsed [
        | none ↦ done (r, oop_continue)
        | some msg_hdr ↦ elim (find_query_by_id r.query_list msg_hdr.id) [
          | none ↦ done (r, oop_continue)
          | some i ↦ udp_answer sys udp_sd i msg_hdr bytes r
        ]
      ]

-- What follows the call to receive a message.
unfoldable pub after_recvfrom :
    System → ℕ → SockResult → List ℕ → Resolver → Run (Resolver × Outcome)
after_recvfrom sys udp_sd would_block bytes r = done (r, oop_continue)
after_recvfrom sys udp_sd recv_fail bytes r = done (r, oop_continue)
after_recvfrom sys udp_sd sock_ok bytes r = udp_message sys udp_sd bytes r
after_recvfrom sys udp_sd send_fail bytes r = abort
after_recvfrom sys udp_sd connect_fail bytes r = abort
after_recvfrom sys udp_sd closed bytes r = abort

-- UDP_READ_BUFSZ
abbrev pub udp_read_bufsz : ℕ
udp_read_bufsz = 2048

unfoldable pub udp_read : System → ℕ → Event → Resolver → Run (Resolver × Outcome)
udp_read sys udp_sd event r = do
  check (not (is_write event))
  check (leb datagram_high udp_read_bufsz)
  let asked = ask (sock_recvfrom udp_sd udp_read_bufsz) r
  let received = sys.recvfrom asked.calls
  after_recvfrom sys udp_sd received.0 received.1 asked
