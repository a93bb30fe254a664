-- ===== src/Res/Delete.antt =====
-- A query leaves its status, and is deleted.
pub mod Dropped
pub mod Kept
use ruli.Common.{ℕ, ◌==◌, if◌then◌else◌, Run, done, check, read, length, ◌>>=◌, ◌>>◌}
use ruli.RuliList.{ruli_list_drop, at}
use ruli.Res.{
  Resolver, Status, void, udp_want_send, udp_want_recv, tcp_want_connect, tcp_want_send,
  tcp_want_recv_head, tcp_want_recv_body, is_status, put,
}
use ruli.Fsm.Udp.{done_write_udp, done_read_udp}
use ruli.Fsm.Tcp.{done_connect_tcp, done_read_tcp_head, done_read_tcp_body}

-- `switch (qry->status)`
unfoldable pub leave_status : Status → ℕ → Resolver → Run Resolver
leave_status void i r = done r
leave_status udp_want_send i r = done_write_udp i r
leave_status udp_want_recv i r = done_read_udp i r
leave_status tcp_want_connect i r = done_connect_tcp i r
leave_status tcp_want_send i r = done_read_udp i r
leave_status tcp_want_recv_head i r = done_read_tcp_head i r
leave_status tcp_want_recv_body i r = done_read_tcp_body i r

unfoldable pub query_status_done : ℕ → Resolver → Run Resolver
query_status_done i r = do
  qry ← read r.query_list i
  r' ← leave_status qry.status i r
  left ← read r'.query_list i
  check (is_status left.status void)
  done r'

-- The query that has taken the place of the deleted one gets its index.
unfoldable pub reindex : ℕ → Resolver → Run Resolver
reindex q_ind r = if q_ind == length r.query_list then done r else do
  qry ← read r.query_list q_ind
  done (put q_ind (record qry { resolver_index = q_ind }) r)

-- The buffer of the answer is released with the query.
unfoldable pub query_delete : ℕ → Resolver → Run Resolver
query_delete i r = do
  qry ← read r.query_list i
  r' ← query_status_done i r
  queries ← ruli_list_drop (at r'.query_list (length r'.query_list)) qry.resolver_index
  reindex qry.resolver_index (record r' { query_list = queries.items })
