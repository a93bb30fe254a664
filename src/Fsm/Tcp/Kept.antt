-- ===== src/Fsm/Tcp/Kept.antt =====
-- The operations of Fsm.Tcp leave a sound state sound.
use ruli.Common.{
  get_elem?-set_same, some, Keeps-found, [], ℕ, suc, ◌+◌, ◌-◌, ◌≡◌, refl, one, ltb→lt, arith, Keeps,
  Keeps-read, Keeps-check, ltb, get_elem?,
}
use ruli.Res.{
  void, tcp_want_connect, tcp_want_send, tcp_want_recv_head, tcp_want_recv_body, Resolver, Server,
  Status, is_status, System, Query, on_tcp_read_head_timeout, on_tcp_read_body_timeout, oop_read,
  on_tcp_read, put_server,
}
use ruli.Fsm.Udp.Kept.{Keeps-timeout}
use ruli.Fsm.Counters.{IsSound, Purpose, connecting, writing, reading, tcp_count, tcp_waits}
use ruli.Fsm.Counters.Streams.{is_status_sound, Keeps-server, tcp-IsSound}
use ruli.Fsm.Tcp.{
  want_write_tcp, done_write_tcp, want_read_tcp_head, done_read_tcp_head, want_read_tcp_body,
  done_read_tcp_body, done_connect_tcp, is_full_head, want_connection, monitor,
}

-- The counters of a server before and after one of them is changed with the status of a query.
changed :
    (server server' : Server) (status status' : Status)
    → (server'.tcp_connecters + one (tcp_waits connecting status)
        ≡ server.tcp_connecters + one (tcp_waits connecting status'))
    → (server'.tcp_writers + one (tcp_waits writing status)
        ≡ server.tcp_writers + one (tcp_waits writing status'))
    → (server'.tcp_readers + one (tcp_waits reading status)
        ≡ server.tcp_readers + one (tcp_waits reading status'))
    → (p : Purpose)
    → tcp_count p server' + one (tcp_waits p status)
      ≡ tcp_count p server + one (tcp_waits p status')
changed server server' status status' c w r connecting = c
changed server server' status status' c w r writing = w
changed server server' status status' c w r reading = r

pub want_write_tcp-IsSound : (i : ℕ) (r : Resolver) → IsSound r → Keeps IsSound (want_write_tcp i r)
unfolding want_write_tcp
want_write_tcp-IsSound i r sound = Keeps-read IsSound r.query_list i _ (λ qry found.
    Keeps-server IsSound r qry _ (λ server at.
      Keeps-check IsSound (is_status qry.status void) _ (λ at_status.
        let e = is_status_sound qry.status void at_status in
        tcp-IsSound i server (record server { tcp_writers = suc server.tcp_writers }) qry _ r _
          found at sound (refl, refl, refl, refl, refl, refl) (rw e refl, refl) (refl, refl)
          (changed server _ qry.status tcp_want_send (rw e refl) (rw e (omega arith))
            (rw e refl)))))

pub done_write_tcp-IsSound : (i : ℕ) (r : Resolver) → IsSound r → Keeps IsSound (done_write_tcp i r)
unfolding done_write_tcp
done_write_tcp-IsSound i r sound = Keeps-read IsSound r.query_list i _ (λ qry found.
    Keeps-server IsSound r qry _ (λ server at.
      Keeps-check IsSound (is_status qry.status tcp_want_send) _ (λ at_status.
        Keeps-check IsSound (ltb 0 server.tcp_writers) _ (λ positive.
          let e = is_status_sound qry.status tcp_want_send at_status in
          tcp-IsSound i server (record server { tcp_writers = server.tcp_writers - 1 }) qry _ r _
            found at sound (refl, refl, refl, refl, refl, refl) (rw e refl, refl) (refl, refl)
            (changed server _ qry.status void (rw e refl)
              (rw e (omega (arith, ltb→lt 0 server.tcp_writers positive))) (rw e refl))))))

pub want_read_tcp_head-IsSound :
    (sys : System) (i : ℕ) (r : Resolver) → IsSound r → Keeps IsSound (want_read_tcp_head sys i r)
unfolding want_read_tcp_head
want_read_tcp_head-IsSound sys i r sound = Keeps-read IsSound r.query_list i _ (λ qry found.
    Keeps-server IsSound r qry _ (λ server at.
      Keeps-check IsSound (is_status qry.status void) _ (λ at_status.
        let e = is_status_sound qry.status void at_status in
        let reading = record server { tcp_readers = suc server.tcp_readers; tcp_head = some [] } in
        let asked = monitor server.tcp_readers server.tcp_sd oop_read on_tcp_read r in
        Keeps-timeout sys i qry on_tcp_read_head_timeout (put_server qry.curr_server reading asked)
          _
          (λ tv.
            tcp-IsSound i server reading qry _ r _ found at sound
              (refl, refl, refl, refl, refl, refl) (rw e refl, refl) (refl, refl)
              (changed server _ qry.status tcp_want_recv_head (rw e refl) (rw e refl)
                (rw e (omega arith)))))))

pub done_read_tcp_head-IsSound :
    (i : ℕ) (r : Resolver) → IsSound r → Keeps IsSound (done_read_tcp_head i r)
unfolding done_read_tcp_head
done_read_tcp_head-IsSound i r sound = Keeps-read IsSound r.query_list i _ (λ qry found.
    Keeps-server IsSound r qry _ (λ server at.
      Keeps-check IsSound (is_status qry.status tcp_want_recv_head) _ (λ at_status.
        Keeps-check IsSound (ltb 0 server.tcp_readers) _ (λ positive.
          let e = is_status_sound qry.status tcp_want_recv_head at_status in
          tcp-IsSound i server (record server { tcp_readers = server.tcp_readers - 1 }) qry _ r _
            found at sound (refl, refl, refl, refl, refl, refl) (rw e refl, refl) (refl, refl)
            (changed server _ qry.status void (rw e refl) (rw e refl)
              (rw e (omega (arith, ltb→lt 0 server.tcp_readers positive))))))))

pub want_read_tcp_body-IsSound :
    (sys : System) (i : ℕ) (r : Resolver) → IsSound r → Keeps IsSound (want_read_tcp_body sys i r)
unfolding want_read_tcp_body
want_read_tcp_body-IsSound sys i r sound = Keeps-read IsSound r.query_list i _ (λ qry found.
    Keeps-server IsSound r qry _ (λ server at.
      Keeps-check IsSound (is_status qry.status void) _ (λ at_status.
        Keeps-check IsSound (is_full_head server.tcp_head) _ (λ full.
          let e = is_status_sound qry.status void at_status in
          let reading = record server { tcp_readers = suc server.tcp_readers } in
          let asked = monitor server.tcp_readers server.tcp_sd oop_read on_tcp_read r in
          Keeps-timeout sys i qry on_tcp_read_body_timeout
            (put_server qry.curr_server reading asked) _
            (λ tv.
              tcp-IsSound i server reading qry _ r _ found at sound
                (refl, refl, refl, refl, refl, refl) (rw e refl, refl) (refl, refl)
                (changed server _ qry.status tcp_want_recv_body (rw e refl) (rw e refl)
                  (rw e (omega arith))))))))

pub done_read_tcp_body-IsSound :
    (i : ℕ) (r : Resolver) → IsSound r → Keeps IsSound (done_read_tcp_body i r)
unfolding done_read_tcp_body
done_read_tcp_body-IsSound i r sound = Keeps-read IsSound r.query_list i _ (λ qry found.
    Keeps-server IsSound r qry _ (λ server at.
      Keeps-check IsSound (is_status qry.status tcp_want_recv_body) _ (λ at_status.
        Keeps-check IsSound (ltb 0 server.tcp_readers) _ (λ positive.
          let e = is_status_sound qry.status tcp_want_recv_body at_status in
          tcp-IsSound i server (record server { tcp_readers = server.tcp_readers - 1 }) qry _ r _
            found at sound (refl, refl, refl, refl, refl, refl) (rw e refl, refl) (refl, refl)
            (changed server _ qry.status void (rw e refl) (rw e refl)
              (rw e (omega (arith, ltb→lt 0 server.tcp_readers positive))))))))

pub done_connect_tcp-IsSound :
    (i : ℕ) (r : Resolver) → IsSound r → Keeps IsSound (done_connect_tcp i r)
unfolding done_connect_tcp
done_connect_tcp-IsSound i r sound = Keeps-read IsSound r.query_list i _ (λ qry found.
    Keeps-server IsSound r qry _ (λ server at.
      Keeps-check IsSound (is_status qry.status tcp_want_connect) _ (λ at_status.
        Keeps-check IsSound (ltb 0 server.tcp_connecters) _ (λ positive.
          let e = is_status_sound qry.status tcp_want_connect at_status in
          tcp-IsSound i server (record server { tcp_connecters = server.tcp_connecters - 1 }) qry _
            r _ found at sound (refl, refl, refl, refl, refl, refl) (rw e refl, refl) (refl, refl)
            (changed server _ qry.status void
              (rw e (omega (arith, ltb→lt 0 server.tcp_connecters positive))) (rw e refl)
              (rw e refl))))))

pub want_connection-IsSound :
    (i : ℕ) (qry : Query) (r : Resolver)
    → get_elem? r.query_list i ≡ some qry
    → qry.status ≡ void
    → IsSound r
    → Keeps IsSound (want_connection i r)
unfolding want_connection
want_connection-IsSound i qry r found e sound = Keeps-found IsSound r.query_list i qry _ found (
    Keeps-server IsSound r qry _ (λ server at.
      tcp-IsSound i server (record server { tcp_connecters = suc server.tcp_connecters }) qry _ r _
        found at sound (refl, refl, refl, refl, refl, refl) (rw e refl, refl) (refl, refl)
        (changed server _ qry.status tcp_want_connect (rw e (omega arith)) (rw e refl)
          (rw e refl))))

-- The query at index `i` waits for nothing.
abbrev pub IsVoid : ℕ → Resolver → Type 0
IsVoid i r = (qry : Query) × (get_elem? r.query_list i ≡ some qry) × (qry.status ≡ void)

pub done_read_tcp_head-IsVoid : (i : ℕ) (r : Resolver) → Keeps (IsVoid i) (done_read_tcp_head i r)
unfolding done_read_tcp_head
done_read_tcp_head-IsVoid i r = Keeps-read (IsVoid i) r.query_list i _ (λ qry found.
    Keeps-server (IsVoid i) r qry _ (λ server at.
      Keeps-check (IsVoid i) (is_status qry.status tcp_want_recv_head) _ (λ at_status.
        Keeps-check (IsVoid i) (ltb 0 server.tcp_readers) _ (λ positive. (
          record qry { status = void },
          get_elem?-set_same r.query_list i qry (record qry { status = void }) found,
          refl,
        )))))
