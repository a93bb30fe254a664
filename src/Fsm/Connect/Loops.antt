-- ===== src/Fsm/Connect/Loops.antt =====
-- The loops over the servers and the queries leave a sound state sound.
use ruli.Common.{
  Keeps-bool, Keeps-option, ℕ, zero, suc, ◌≡◌, refl, not, Bool, Option, some, none, List, [], ◌∷◌,
  length, get_elem?, Keeps, Keeps-read, Keeps-check, Keeps-any, Keeps-if, Keeps->>=, ltb,
}
use ruli.Addr.Compare.{Addr}
use ruli.Res.{
  void, Query, Resolver, Status, is_status, System, ask, SockResult, sock_ok, would_block,
  send_fail, recv_fail, connect_fail, closed, code_connect, create_tcp, sock_connect, sock_close,
  allocate, tcp_want_connect, tcp_want_send, tcp_want_recv_head, tcp_want_recv_body, udp_want_send,
  udp_want_recv,
}
use ruli.Res.Servers.{get_curr_serv_addr, get_curr_serv_port, get_curr_server_index, same_sd}
use ruli.Fsm.Counters.{IsSound}
use ruli.Fsm.Counters.Streams.{is_status_sound, Keeps-server, Keeps-index}
use ruli.Fsm.Counters.Puts.{ask-IsSound, put_server-IsSound}
use ruli.Fsm.Tcp.{want_write_tcp, done_connect_tcp, want_connection}
use ruli.Fsm.Tcp.Kept.{
  want_write_tcp-IsSound, want_connection-IsSound, done_connect_tcp-IsSound, done_write_tcp-IsSound,
  done_read_tcp_head-IsSound, done_read_tcp_body-IsSound,
}
use ruli.Fsm.Connect.{
  leave_tcp_status, after_connect, with_socket, is_null, switch_else_schedule_finish, connect2write,
  connect2write_loop, queries_tcp_connect2write, try_connect, connect_round, connect_loop, rounds,
  want_connect_tcp, affected_queries, close_failed, leave_tcp, connect_next_loop,
  queries_connect_next,
}
use ruli.Fsm.Connect.Kept.{switch_else_schedule_finish-Keeps}

abbrev Kept : Bool × Resolver → Type 0
Kept result = IsSound result.1

pub connect2write-IsSound :
    (tcp_sd i : ℕ) (r : Resolver) → IsSound r → Keeps IsSound (connect2write tcp_sd i r)
unfolding connect2write
connect2write-IsSound tcp_sd i r sound = Keeps-read IsSound r.query_list i _ (λ qry found.
    Keeps-if IsSound (is_status qry.status tcp_want_connect) _ _
      (λ connects. Keeps-server IsSound r qry _ (λ server at.
        Keeps-check IsSound (not (is_null server.tcp_sd)) _ (λ is_open.
          Keeps-if IsSound (same_sd server.tcp_sd (some tcp_sd)) _ _
            (λ same.
              Keeps->>= IsSound IsSound (done_connect_tcp i r) _
                (done_connect_tcp-IsSound i r sound) (λ r' s'. want_write_tcp-IsSound i r' s'))
            (λ other. sound))))
      (λ otherwise. sound))

connect2write_loop-IsSound :
    (tcp_sd n i : ℕ) (r : Resolver) → IsSound r → Keeps IsSound (connect2write_loop tcp_sd n i r)
unfolding connect2write_loop
connect2write_loop-IsSound tcp_sd zero i r sound = sound
connect2write_loop-IsSound tcp_sd (suc n) i r sound =
    Keeps->>= IsSound IsSound (connect2write tcp_sd i r) _ (connect2write-IsSound tcp_sd i r sound)
      (λ r' s'. connect2write_loop-IsSound tcp_sd n (suc i) r' s')

pub queries_tcp_connect2write-IsSound :
    (tcp_sd : ℕ) (r : Resolver) → IsSound r → Keeps IsSound (queries_tcp_connect2write tcp_sd r)
unfolding queries_tcp_connect2write
queries_tcp_connect2write-IsSound tcp_sd r sound =
    connect2write_loop-IsSound tcp_sd (length r.query_list) 0 r sound

after_connect-IsSound :
    (i tcp_sd : ℕ) (result : SockResult) (qry : Query) (r : Resolver)
    → get_elem? r.query_list i ≡ some qry
    → qry.status ≡ void
    → IsSound r
    → Keeps Kept (after_connect i tcp_sd result r)
unfolding after_connect
after_connect-IsSound i tcp_sd sock_ok qry r found idle sound =
    Keeps->>= IsSound Kept (want_write_tcp i r) _ (want_write_tcp-IsSound i r sound) (λ r' s'.
      Keeps->>= IsSound Kept (queries_tcp_connect2write tcp_sd r') _
        (queries_tcp_connect2write-IsSound tcp_sd r' s') (λ r'' s''. s''))
after_connect-IsSound i tcp_sd would_block qry r found idle sound =
    Keeps->>= IsSound Kept (want_connection i r) _
      (want_connection-IsSound i qry r found idle sound) (λ r' s'. s')
after_connect-IsSound i tcp_sd send_fail qry r found idle sound =
    switch_else_schedule_finish-Keeps i code_connect r sound
after_connect-IsSound i tcp_sd recv_fail qry r found idle sound =
    switch_else_schedule_finish-Keeps i code_connect r sound
after_connect-IsSound i tcp_sd connect_fail qry r found idle sound =
    switch_else_schedule_finish-Keeps i code_connect r sound
after_connect-IsSound i tcp_sd closed qry r found idle sound =
    switch_else_schedule_finish-Keeps i code_connect r sound

try_connect-IsSound :
    (sys : System) (i : ℕ) (addr : Addr) (port tcp_sd : ℕ) (qry : Query) (r : Resolver)
    → get_elem? r.query_list i ≡ some qry
    → qry.status ≡ void
    → IsSound r
    → Keeps Kept (try_connect sys i addr port tcp_sd r)
unfolding try_connect
try_connect-IsSound sys i addr port tcp_sd qry r found idle sound =
    let connecting = ask (sock_connect (some tcp_sd) addr port) r in
    after_connect-IsSound i tcp_sd (sys.connect connecting.calls) qry connecting found idle
      (ask-IsSound (sock_connect (some tcp_sd) addr port) r sound)

with_socket-IsSound :
    (sys : System) (i : ℕ) (addr : Addr) (port : ℕ) (tcp_sd : Option ℕ) (qry : Query) (r : Resolver)
    → get_elem? r.query_list i ≡ some qry
    → qry.status ≡ void
    → IsSound r
    → Keeps Kept (with_socket sys i addr port tcp_sd r)
unfolding with_socket
with_socket-IsSound sys i addr port none qry r found idle sound =
    switch_else_schedule_finish-Keeps i code_connect r sound
with_socket-IsSound sys i addr port (some tcp_sd) qry r found idle sound =
    try_connect-IsSound sys i addr port tcp_sd qry r found idle sound

connect_round-IsSound :
    (sys : System) (i : ℕ) (r : Resolver) → IsSound r → Keeps Kept (connect_round sys i r)
unfolding connect_round
connect_round-IsSound sys i r sound = Keeps-read Kept r.query_list i _ (λ qry found.
    Keeps-any Kept (get_curr_serv_addr r qry) _ (λ addr.
      Keeps-any Kept (get_curr_serv_port r qry) _ (λ port. Keeps-server Kept r qry _ (λ server at.
        Keeps-check Kept (is_status qry.status void) _ (λ at_void.
          Keeps-if Kept (not (is_null server.tcp_sd)) _ _
            (λ is_open.
              Keeps->>= IsSound Kept (want_write_tcp i r) _ (want_write_tcp-IsSound i r sound)
                (λ r' s'. s'))
            (λ is_closed.
              let tcp_sd = sys.tcp_socket (ask (create_tcp addr.family) r).calls in
              let created =
                put_server-IsSound qry.curr_server server (record server { tcp_sd = tcp_sd })
                  (ask (create_tcp addr.family) r) at refl refl refl
                  (ask-IsSound (create_tcp addr.family) r sound) in
              with_socket-IsSound sys i addr port tcp_sd qry _ found
                (is_status_sound qry.status void at_void) created))))))

connect_loop-IsSound :
    (sys : System) (f i : ℕ) (r : Resolver) → IsSound r → Keeps IsSound (connect_loop sys f i r)
unfolding connect_loop
connect_loop-IsSound sys zero i r sound = tt
connect_loop-IsSound sys (suc f) i r sound =
    Keeps->>= Kept IsSound (connect_round sys i r) _ (connect_round-IsSound sys i r sound)
      (λ (again, r') s'. Keeps-bool IsSound again _ _ (connect_loop-IsSound sys f i r' s') s')

pub want_connect_tcp-IsSound :
    (sys : System) (i : ℕ) (r : Resolver) → IsSound r → Keeps IsSound (want_connect_tcp sys i r)
unfolding want_connect_tcp
want_connect_tcp-IsSound sys i r sound =
    Keeps-read IsSound r.query_list i _
      (λ qry found. connect_loop-IsSound sys (rounds r qry) i r sound)

abbrev Closed : Option ℕ × Resolver → Type 0
Closed result = IsSound result.1

close_failed-IsSound :
    (sys : System) (affected : List ℕ) (r : Resolver)
    → IsSound r
    → Keeps Closed (close_failed sys affected r)
unfolding close_failed
close_failed-IsSound sys [] r sound = sound
close_failed-IsSound sys (i ∷ affected) r sound = Keeps-read Closed r.query_list i _ (λ qry found.
    Keeps-index Closed r qry _ (λ in_range. Keeps-server Closed r qry _ (λ server at.
      Keeps-option Closed server.tcp_sd _ _ (λ e. close_failed-IsSound sys affected r sound)
        (λ sd e. Keeps-check Closed (sys.close_ok (ask (sock_close sd) r).calls) _ (λ is_closed.
          put_server-IsSound qry.curr_server server (record server { tcp_sd = none })
            (ask (sock_close sd) r) at refl refl refl (ask-IsSound (sock_close sd) r sound))))))

leave_tcp_status-IsSound :
    (status : Status) (i : ℕ) (r : Resolver)
    → IsSound r
    → Keeps IsSound (leave_tcp_status status i r)
unfolding leave_tcp_status
leave_tcp_status-IsSound void i r sound = tt
leave_tcp_status-IsSound udp_want_send i r sound = tt
leave_tcp_status-IsSound udp_want_recv i r sound = tt
leave_tcp_status-IsSound tcp_want_connect i r sound = done_connect_tcp-IsSound i r sound
leave_tcp_status-IsSound tcp_want_send i r sound = done_write_tcp-IsSound i r sound
leave_tcp_status-IsSound tcp_want_recv_head i r sound = done_read_tcp_head-IsSound i r sound
leave_tcp_status-IsSound tcp_want_recv_body i r sound = done_read_tcp_body-IsSound i r sound

leave_tcp-IsSound : (i : ℕ) (r : Resolver) → IsSound r → Keeps IsSound (leave_tcp i r)
unfolding leave_tcp
leave_tcp-IsSound i r sound =
    Keeps-read IsSound r.query_list i _ (λ qry found. leave_tcp_status-IsSound qry.status i r sound)

connect_next_loop-IsSound :
    (sys : System) (failed_server : Option ℕ) (affected : List ℕ) (r : Resolver)
    → IsSound r
    → Keeps IsSound (connect_next_loop sys failed_server affected r)
unfolding connect_next_loop
connect_next_loop-IsSound sys failed_server [] r sound = sound
connect_next_loop-IsSound sys failed_server (i ∷ affected) r sound =
    Keeps-read IsSound r.query_list i _ (λ qry found.
      Keeps-any IsSound (get_curr_server_index r qry) _ (λ s.
        Keeps->>= IsSound IsSound (leave_tcp i r) _ (leave_tcp-IsSound i r sound)
          (λ left left_sound. Keeps-check IsSound (same_sd failed_server (some s)) _ (λ same.
            Keeps->>= Kept IsSound (switch_else_schedule_finish i code_connect left) _
              (switch_else_schedule_finish-Keeps i code_connect left left_sound)
              (λ (switched, r') s'.
                Keeps->>= IsSound IsSound _ _
                  (Keeps-bool IsSound switched _ _ (want_connect_tcp-IsSound sys i r' s') s')
                  (λ r'' s''. connect_next_loop-IsSound sys failed_server affected r'' s''))))))

pub queries_connect_next-IsSound :
    (sys : System) (failed_tcp_sd : ℕ) (r : Resolver)
    → IsSound r
    → Keeps IsSound (queries_connect_next sys failed_tcp_sd r)
unfolding queries_connect_next
queries_connect_next-IsSound sys failed_tcp_sd r sound =
    let asked = ask (allocate (length r.query_list)) r in
    Keeps-check IsSound (ltb 0 (length r.query_list)) _ (λ some_query.
      Keeps-check IsSound (sys.malloc asked.calls) _ (λ has_room.
        Keeps-any IsSound (affected_queries failed_tcp_sd asked 0 asked.query_list) _ (λ affected.
          Keeps-check IsSound (ltb 0 (length affected)) _ (λ some_affected.
            Keeps->>= Closed IsSound (close_failed sys affected asked) _
              (close_failed-IsSound sys affected asked
                (ask-IsSound (allocate (length r.query_list)) r sound))
              (λ (failed_server, r') s'.
                connect_next_loop-IsSound sys failed_server affected r' s')))))
