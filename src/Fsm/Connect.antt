-- ===== src/Fsm/Connect.antt =====
-- The next server, and the connection to it.
pub mod Kept
pub mod Loops
pub mod Ended
use ruli.Common.{
  leb, ◌&&◌, ℕ, zero, suc, ◌*◌, if◌then◌else◌, Run, done, abort, no_fuel, check, read, ltb,
}
use ruli.Common.{length, ◌>>=◌, ◌>>◌, Option, some, none, List, [], ◌∷◌, Bool, true, false, not}
use ruli.Addr.Compare.{Addr}
use ruli.Res.{
  Query, Resolver, System, Status, AnswerCode, code_void, code_ok, code_connect, void,
  tcp_want_connect, tcp_want_send, tcp_want_recv_head, tcp_want_recv_body, number, is_status, ask,
  put, put_server, query_done_now, create_tcp, sock_connect, sock_close, allocate, sock_ok,
  would_block, send_fail, recv_fail, connect_fail, closed, udp_want_send, udp_want_recv, SockResult,
}
use ruli.Res.Servers.{
  get_curr_server, get_curr_server_index, get_curr_serv_addr, get_curr_serv_port, switch_server,
  same_sd,
}
use ruli.Fsm.Tcp.{
  want_write_tcp, want_connection, done_connect_tcp, done_write_tcp, done_read_tcp_head,
  done_read_tcp_body,
}

abbrev pub is_void : AnswerCode → Bool
is_void code = elim code [ code_void ↦ true | _ ↦ false ]

abbrev pub is_ok : AnswerCode → Bool
is_ok code = elim code [ code_ok ↦ true | _ ↦ false ]

abbrev pub is_null {ℓ} : {A : Type ℓ} → Option A → Bool
is_null none = true
is_null (some a) = false

-- `RULI_QRY_TCP_STAT_MIN <= status <= RULI_QRY_TCP_STAT_MAX`
abbrev pub tcp_status : Status → Bool
tcp_status status =
    leb (number tcp_want_connect) (number status) && leb (number status) (number tcp_want_recv_body)

-- The query finishes with `code`, when the event source calls `query_done_now`.
pub schedule_finish : ℕ → AnswerCode → Query → Resolver → Run Resolver
schedule_finish i code qry r = do
  check (is_null qry.answer_buf)
  check (is_void qry.answer_code)
  done (ask (query_done_now i) (put i (record qry { answer_code = code }) r))

-- `true` is the result 0: the query uses another server now.
unfoldable pub switch_else_schedule_finish : ℕ → AnswerCode → Resolver → Run (Bool × Resolver)
unfolding schedule_finish
switch_else_schedule_finish i code r = do
  qry ← read r.query_list i
  check (is_status qry.status void)
  check (not (is_void code))
  check (not (is_ok code))
  (switched, qry') ← switch_server r qry
  let r' = put i qry' r
  if switched
      then done (true, r')
      else do finished ← schedule_finish i code qry' r'; done (false, finished)

-- `queries_tcp_connect2write`, for one query.
unfoldable pub connect2write : ℕ → ℕ → Resolver → Run Resolver
connect2write tcp_sd i r = do
  qry ← read r.query_list i
  if is_status qry.status tcp_want_connect
      then (do
        server ← get_curr_server r qry
        check (not (is_null server.tcp_sd))
        if same_sd server.tcp_sd (some tcp_sd)
            then (do r' ← done_connect_tcp i r; want_write_tcp i r')
            else done r)
      else done r

-- `n` queries, from index `i` on.
unfoldable pub connect2write_loop : ℕ → ℕ → ℕ → Resolver → Run Resolver
connect2write_loop tcp_sd zero i r = done r
connect2write_loop tcp_sd (suc n) i r = do
  r' ← connect2write tcp_sd i r
  connect2write_loop tcp_sd n (suc i) r'

unfoldable pub queries_tcp_connect2write : ℕ → Resolver → Run Resolver
queries_tcp_connect2write tcp_sd r = connect2write_loop tcp_sd (length r.query_list) 0 r

-- What follows the call to connect, whose result is the argument before the state.
unfoldable pub after_connect : ℕ → ℕ → SockResult → Resolver → Run (Bool × Resolver)
after_connect i tcp_sd sock_ok r = do
  writing ← want_write_tcp i r
  connected ← queries_tcp_connect2write tcp_sd writing
  done (false, connected)
after_connect i tcp_sd would_block r = do waiting ← want_connection i r; done (false, waiting)
after_connect i tcp_sd send_fail r = switch_else_schedule_finish i code_connect r
after_connect i tcp_sd recv_fail r = switch_else_schedule_finish i code_connect r
after_connect i tcp_sd connect_fail r = switch_else_schedule_finish i code_connect r
after_connect i tcp_sd closed r = switch_else_schedule_finish i code_connect r

-- The call to connect in a round of the loop of `query_want_connect_tcp`; the result says whether there is another round.
unfoldable pub try_connect : System → ℕ → Addr → ℕ → ℕ → Resolver → Run (Bool × Resolver)
try_connect sys i addr port tcp_sd r =
    let connecting = ask (sock_connect (some tcp_sd) addr port) r in
    after_connect i tcp_sd (sys.connect connecting.calls) connecting

-- What follows the creation of the socket, whose result is `tcp_sd`.
unfoldable pub with_socket : System → ℕ → Addr → ℕ → Option ℕ → Resolver → Run (Bool × Resolver)
with_socket sys i addr port none r = switch_else_schedule_finish i code_connect r
with_socket sys i addr port (some tcp_sd) r = try_connect sys i addr port tcp_sd r

unfoldable pub connect_round : System → ℕ → Resolver → Run (Bool × Resolver)
connect_round sys i r = do
  qry ← read r.query_list i
  addr ← get_curr_serv_addr r qry
  port ← get_curr_serv_port r qry
  server ← get_curr_server r qry
  check (is_status qry.status void)
  if not (is_null server.tcp_sd)
      then (do writing ← want_write_tcp i r; done (false, writing))
      else (do
        let asked = ask (create_tcp addr.family) r
        let tcp_sd = sys.tcp_socket asked.calls
        let created = put_server qry.curr_server (record server { tcp_sd = tcp_sd }) asked
        with_socket sys i addr port tcp_sd created)

unfoldable pub connect_loop : System → ℕ → ℕ → Resolver → Run Resolver
connect_loop sys zero i r = no_fuel
connect_loop sys (suc f) i r = do
  (again, r') ← connect_round sys i r
  elim again [ true ↦ connect_loop sys f i r' | false ↦ done r' ]

-- A query switches at most once to each server for each of its tries.
abbrev pub rounds : Resolver → Query → ℕ
rounds r qry = suc (length r.ns_list * suc qry.remaining_retries)

unfoldable pub want_connect_tcp : System → ℕ → Resolver → Run Resolver
want_connect_tcp sys i r = do qry ← read r.query_list i; connect_loop sys (rounds r qry) i r

-- The indices of the queries in TCP mode on the socket, in a list that begins with index `i`.
unfoldable pub affected_queries : ℕ → Resolver → ℕ → List Query → Run (List ℕ)
affected_queries failed_tcp_sd r i [] = done []
affected_queries failed_tcp_sd r i (qry ∷ queries) = do
  rest ← affected_queries failed_tcp_sd r (suc i) queries
  if tcp_status qry.status
      then (do
        server ← get_curr_server r qry
        if same_sd server.tcp_sd (some failed_tcp_sd) then done (i ∷ rest) else done rest)
      else done rest

-- The socket of the first affected query that has one is closed; the result is the index of its server.
unfoldable pub close_failed : System → List ℕ → Resolver → Run (Option ℕ × Resolver)
close_failed sys [] r = done (none, r)
close_failed sys (i ∷ affected) r = do
  qry ← read r.query_list i
  s ← get_curr_server_index r qry
  server ← get_curr_server r qry
  elim (server.tcp_sd) [
    | none ↦ close_failed sys affected r
    | some sd ↦ (do
      let closing = ask (sock_close sd) r
      check (sys.close_ok closing.calls)
      done (some s, put_server s (record server { tcp_sd = none }) closing))
  ]

-- `switch (qry->status)`, which takes the query out of TCP mode.
unfoldable pub leave_tcp_status : Status → ℕ → Resolver → Run Resolver
leave_tcp_status void i r = abort
leave_tcp_status udp_want_send i r = abort
leave_tcp_status udp_want_recv i r = abort
leave_tcp_status tcp_want_connect i r = done_connect_tcp i r
leave_tcp_status tcp_want_send i r = done_write_tcp i r
leave_tcp_status tcp_want_recv_head i r = done_read_tcp_head i r
leave_tcp_status tcp_want_recv_body i r = done_read_tcp_body i r

unfoldable pub leave_tcp : ℕ → Resolver → Run Resolver
leave_tcp i r = do qry ← read r.query_list i; leave_tcp_status qry.status i r

-- The loop that switches the affected queries.
unfoldable pub connect_next_loop : System → Option ℕ → List ℕ → Resolver → Run Resolver
connect_next_loop sys failed_server [] r = done r
connect_next_loop sys failed_server (i ∷ affected) r = do
  qry ← read r.query_list i
  s ← get_curr_server_index r qry
  left ← leave_tcp i r
  check (same_sd failed_server (some s))
  (switched, r') ← switch_else_schedule_finish i code_connect left
  connected ← elim switched [ true ↦ want_connect_tcp sys i r' | false ↦ done r' ]
  connect_next_loop sys failed_server affected connected

unfoldable pub queries_connect_next : System → ℕ → Resolver → Run Resolver
queries_connect_next sys failed_tcp_sd r = do
  check (ltb 0 (length r.query_list))
  let asked = ask (allocate (length r.query_list)) r
  check (sys.malloc asked.calls)
  affected ← affected_queries failed_tcp_sd asked 0 asked.query_list
  check (ltb 0 (length affected))
  (failed_server, closed_one) ← close_failed sys affected asked
  connect_next_loop sys failed_server affected closed_one
