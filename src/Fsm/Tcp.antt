-- ===== src/Fsm/Tcp.antt =====
-- A query waits for the TCP socket of its server, and waits for it no more.
pub mod Kept
use ruli.Common.{
  ℕ, suc, ◌-◌, ◌==◌, if◌then◌else◌, Run, done, check, read, ltb, length, ◌>>=◌, ◌>>◌, Option, some,
  none, [], List, Bool, false,
}
use ruli.Limits.{tcp_header}
use ruli.Res.{
  ask_if_none, Resolver, System, Event, Sink, void, tcp_want_connect, tcp_want_send,
  tcp_want_recv_head, tcp_want_recv_body, is_status, ask, on_fd, cancel_fd, cancel_time, oop_read,
  oop_write, on_tcp_connect, on_tcp_write, on_tcp_read, on_tcp_read_head_timeout,
  on_tcp_read_body_timeout, put_server, query_switch_status,
}
use ruli.Res.Servers.{get_curr_server}
use ruli.Fsm.Udp.{schedule_timeout}

-- `if (!waiting) oop_src->on_fd(…)`, and `if (!waiting) oop_src->cancel_fd(…)`.
abbrev pub monitor : ℕ → Option ℕ → Event → Sink → Resolver → Resolver
monitor waiting sd event sink r = ask_if_none waiting (on_fd sd event sink) r

abbrev pub ignore : ℕ → Option ℕ → Event → Resolver → Resolver
ignore waiting sd event r = ask_if_none waiting (cancel_fd sd event) r

unfoldable pub want_write_tcp : ℕ → Resolver → Run Resolver
want_write_tcp i r = do
  qry ← read r.query_list i
  server ← get_curr_server r qry
  check (is_status qry.status void)
  let asked = monitor server.tcp_writers server.tcp_sd oop_write on_tcp_write r
  let writing = record server { tcp_writers = suc server.tcp_writers }
  done (query_switch_status i qry tcp_want_send (put_server qry.curr_server writing asked))

unfoldable pub done_write_tcp : ℕ → Resolver → Run Resolver
done_write_tcp i r = do
  qry ← read r.query_list i
  server ← get_curr_server r qry
  check (is_status qry.status tcp_want_send)
  check (ltb 0 server.tcp_writers)
  let writing = record server { tcp_writers = server.tcp_writers - 1 }
  let asked =
      ignore writing.tcp_writers server.tcp_sd oop_write (put_server qry.curr_server writing r)
  done (query_switch_status i qry void asked)

unfoldable pub want_read_tcp_head : System → ℕ → Resolver → Run Resolver
want_read_tcp_head sys i r = do
  qry ← read r.query_list i
  server ← get_curr_server r qry
  check (is_status qry.status void)
  let asked = monitor server.tcp_readers server.tcp_sd oop_read on_tcp_read r
  let reading = record server { tcp_readers = suc server.tcp_readers; tcp_head = some [] }
  let counted = put_server qry.curr_server reading asked
  (waiting, scheduled) ← schedule_timeout sys i qry on_tcp_read_head_timeout counted
  done (query_switch_status i waiting tcp_want_recv_head scheduled)

unfoldable pub done_read_tcp_head : ℕ → Resolver → Run Resolver
done_read_tcp_head i r = do
  qry ← read r.query_list i
  server ← get_curr_server r qry
  check (is_status qry.status tcp_want_recv_head)
  check (ltb 0 server.tcp_readers)
  let in_time = ask (cancel_time qry.tv on_tcp_read_head_timeout i) r
  let reading = record server { tcp_readers = server.tcp_readers - 1 }
  let asked =
      ignore reading.tcp_readers server.tcp_sd oop_read (put_server qry.curr_server reading in_time)
  done (query_switch_status i qry void asked)

-- `server->tcp_head_len == RULI_LIMIT_TCP_HEADER`
abbrev pub is_full_head : Option (List ℕ) → Bool
is_full_head none = false
is_full_head (some head) = length head == tcp_header

unfoldable pub want_read_tcp_body : System → ℕ → Resolver → Run Resolver
want_read_tcp_body sys i r = do
  qry ← read r.query_list i
  server ← get_curr_server r qry
  check (is_status qry.status void)
  check (is_full_head server.tcp_head)
  let asked = monitor server.tcp_readers server.tcp_sd oop_read on_tcp_read r
  let reading = record server { tcp_readers = suc server.tcp_readers }
  let counted = put_server qry.curr_server reading asked
  (waiting, scheduled) ← schedule_timeout sys i qry on_tcp_read_body_timeout counted
  done (query_switch_status i waiting tcp_want_recv_body scheduled)

unfoldable pub done_read_tcp_body : ℕ → Resolver → Run Resolver
done_read_tcp_body i r = do
  qry ← read r.query_list i
  server ← get_curr_server r qry
  check (is_status qry.status tcp_want_recv_body)
  check (ltb 0 server.tcp_readers)
  let in_time = ask (cancel_time qry.tv on_tcp_read_body_timeout i) r
  let reading = record server { tcp_readers = server.tcp_readers - 1 }
  let asked =
      ignore reading.tcp_readers server.tcp_sd oop_read (put_server qry.curr_server reading in_time)
  done (query_switch_status i qry void asked)

-- The query waits for the connection, where the call to connect would block.
unfoldable pub want_connection : ℕ → Resolver → Run Resolver
want_connection i r = do
  qry ← read r.query_list i
  server ← get_curr_server r qry
  let asked = monitor server.tcp_connecters server.tcp_sd oop_write on_tcp_connect r
  let connecting = record server { tcp_connecters = suc server.tcp_connecters }
  done (query_switch_status i qry tcp_want_connect (put_server qry.curr_server connecting asked))

unfoldable pub done_connect_tcp : ℕ → Resolver → Run Resolver
done_connect_tcp i r = do
  qry ← read r.query_list i
  server ← get_curr_server r qry
  check (is_status qry.status tcp_want_connect)
  check (ltb 0 server.tcp_connecters)
  let connecting = record server { tcp_connecters = server.tcp_connecters - 1 }
  let asked =
      ignore connecting.tcp_connecters server.tcp_sd oop_write
        (put_server qry.curr_server connecting r)
  done (query_switch_status i qry void asked)
