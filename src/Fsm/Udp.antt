-- ===== src/Fsm/Udp.antt =====
-- A query waits for a UDP socket, and waits for it no more.
pub mod Kept
use ruli.Common.{
  ℕ, suc, ◌+◌, ◌-◌, ◌==◌, if◌then◌else◌, Run, done, abort, none, some, check, read, ltb, ◌>>=◌,
  ◌>>◌,
}
use ruli.Res.{
  ask_if_none, Query, Resolver, System, Timer, void, udp_want_send, udp_want_recv, is_status, ask,
  on_fd, cancel_fd, on_time, cancel_time, oop_read, oop_write, on_udp_write, on_udp_read,
  on_udp_read_timeout, udp_of, put_udp, query_switch_status,
}
use ruli.Res.Servers.{get_curr_serv_addr}

unfoldable pub want_write_udp : ℕ → Resolver → Run Resolver
want_write_udp i r = do
  qry ← read r.query_list i
  addr ← get_curr_serv_addr r qry
  check (is_status qry.status void)
  let udp = udp_of addr.family r
  let asked = ask_if_none udp.writers (on_fd udp.sd oop_write on_udp_write) r
  let counted = put_udp addr.family (record udp { writers = suc udp.writers }) asked
  done (query_switch_status i qry udp_want_send counted)

unfoldable pub done_write_udp : ℕ → Resolver → Run Resolver
done_write_udp i r = do
  qry ← read r.query_list i
  addr ← get_curr_serv_addr r qry
  check (is_status qry.status udp_want_send)
  let udp = udp_of addr.family r
  check (ltb 0 udp.writers)
  let writers = udp.writers - 1
  let counted = put_udp addr.family (record udp { writers = writers }) r
  let asked = ask_if_none writers (cancel_fd udp.sd oop_write) counted
  done (query_switch_status i qry void asked)

-- The time is kept in the query, and the event source is told. `assert(!result)` is on the result of `gettimeofday`.
abbrev pub schedule_timeout : System → ℕ → Query → Timer → Resolver → Run (Query × Resolver)
schedule_timeout sys i qry timer r = elim (sys.now r.calls) [
  | none ↦ abort
  | some now ↦
      let tv : ℕ × ℕ = (now.0 + r.res_timeout, now.1) in
      done (record qry { tv = tv }, ask (on_time tv timer i) r)
]

unfoldable pub want_read_udp : System → ℕ → Resolver → Run Resolver
want_read_udp sys i r = do
  qry ← read r.query_list i
  addr ← get_curr_serv_addr r qry
  check (is_status qry.status void)
  let udp = udp_of addr.family r
  let asked = ask_if_none udp.readers (on_fd udp.sd oop_read on_udp_read) r
  let counted = put_udp addr.family (record udp { readers = suc udp.readers }) asked
  (waiting, scheduled) ← schedule_timeout sys i qry on_udp_read_timeout counted
  done (query_switch_status i waiting udp_want_recv scheduled)

unfoldable pub done_read_udp : ℕ → Resolver → Run Resolver
done_read_udp i r = do
  qry ← read r.query_list i
  addr ← get_curr_serv_addr r qry
  check (is_status qry.status udp_want_recv)
  let udp = udp_of addr.family r
  check (ltb 0 udp.readers)
  let readers = udp.readers - 1
  let counted = put_udp addr.family (record udp { readers = readers }) r
  let in_time = ask (cancel_time qry.tv on_udp_read_timeout i) counted
  let asked = ask_if_none readers (cancel_fd udp.sd oop_read) in_time
  done (query_switch_status i qry void asked)
