-- ===== src/Fsm/Connect/Ended.antt =====
-- The loop of `query_want_connect_tcp` ends.
use ruli.Common.{
  ℕ, zero, suc, ◌+◌, ◌*◌, ◌<◌, ◌≡◌, refl, ◌>>=◌, read, not, Bool, true, false, Option, some, none,
  inl,
}
use ruli.Common.{
  inr, length, get_elem?, arith, ltb, ltb→lt, Run, no_fuel, Ends, Stops, Ends->>=, Ends-read,
  Ends-last, Ends-check, Ends-if, Ends-bool, not-no_fuel, get_elem?-set_same,
}
use ruli.Addr.Compare.{Addr}
use ruli.Res.{
  Query, Server, Resolver, System, AnswerCode, void, is_status, SockResult, sock_ok, would_block,
  send_fail, recv_fail, connect_fail, closed, code_connect, ask, put, put_server, create_tcp,
  sock_connect, tcp_want_connect,
}
use ruli.Res.Servers.{
  get_curr_server, get_curr_server_index, get_curr_serv_addr, get_curr_serv_port, same_sd,
}
use ruli.Res.Servers.Rounds.{switches_left, before_first, switch_cases, moved}
use ruli.Fsm.Tcp.{want_write_tcp, want_connection, done_connect_tcp}
use ruli.Fsm.Connect.{
  is_void, is_ok, is_null, schedule_finish, switch_else_schedule_finish, connect2write,
  connect2write_loop, queries_tcp_connect2write, after_connect, try_connect, with_socket,
  connect_round, connect_loop, rounds, want_connect_tcp,
}

abbrev Any {ℓ} : {A : Type ℓ} → A → Type 0
Any a = Unit

Ends-server :
    {B : Type 0} (Q : B → Type 0) (r : Resolver) (qry : Query) (f : Server → Run B)
    → ((server : Server) → Ends Q (f server))
    → Ends Q (get_curr_server r qry >>= f)
unfolding get_curr_server get_curr_server_index
Ends-server Q r qry f k =
    Ends->>= Any Q (get_curr_server r qry) f
      (Ends->>= Any Any (get_curr_server_index r qry) _
        (Ends-check Any (ltb qry.curr_server (length r.server_list)) _ (λ e. tt))
        (λ s u. Ends-last Any r.server_list s (λ server. tt)))
      (λ server u. k server)

want_write_tcp-Stops : (i : ℕ) (r : Resolver) → Stops (want_write_tcp i r)
unfolding want_write_tcp
want_write_tcp-Stops i r = Ends-read Any r.query_list i _ (λ qry found.
    Ends-server Any r qry _ (λ server. Ends-check Any (is_status qry.status void) _ (λ e. tt)))

want_connection-Stops : (i : ℕ) (r : Resolver) → Stops (want_connection i r)
unfolding want_connection
want_connection-Stops i r =
    Ends-read Any r.query_list i _ (λ qry found. Ends-server Any r qry _ (λ server. tt))

done_connect_tcp-Stops : (i : ℕ) (r : Resolver) → Stops (done_connect_tcp i r)
unfolding done_connect_tcp
done_connect_tcp-Stops i r = Ends-read Any r.query_list i _ (λ qry found.
    Ends-server Any r qry _ (λ server.
      Ends-check Any (is_status qry.status tcp_want_connect) _
        (λ e. Ends-check Any (ltb 0 server.tcp_connecters) _ (λ e'. tt))))

connect2write-Stops : (tcp_sd i : ℕ) (r : Resolver) → Stops (connect2write tcp_sd i r)
unfolding connect2write
connect2write-Stops tcp_sd i r = Ends-read Any r.query_list i _ (λ qry found.
    Ends-if Any (is_status qry.status tcp_want_connect) _ _
      (λ connects. Ends-server Any r qry _ (λ server.
        Ends-check Any (not (is_null server.tcp_sd)) _ (λ is_open.
          Ends-if Any (same_sd server.tcp_sd (some tcp_sd)) _ _
            (λ same.
              Ends->>= Any Any (done_connect_tcp i r) _ (done_connect_tcp-Stops i r)
                (λ r' u. want_write_tcp-Stops i r'))
            (λ other. tt))))
      (λ otherwise. tt))

connect2write_loop-Stops : (tcp_sd n i : ℕ) (r : Resolver) → Stops (connect2write_loop tcp_sd n i r)
unfolding connect2write_loop
connect2write_loop-Stops tcp_sd zero i r = tt
connect2write_loop-Stops tcp_sd (suc n) i r =
    Ends->>= Any Any (connect2write tcp_sd i r) _ (connect2write-Stops tcp_sd i r)
      (λ r' u. connect2write_loop-Stops tcp_sd n (suc i) r')

-- If there is another round, the query can be switched once less.
abbrev IsNext : ℕ → Query → ℕ → Bool × Resolver → Type 0
IsNext i qry n result =
    result.0 ≡ true
    → (qry' : Query) × (get_elem? result.1.query_list i ≡ some qry')
      × (length result.1.ns_list ≡ n)
      × (qry'.first_server ≡ qry.first_server)
      × (suc (switches_left n qry') ≡ switches_left n qry)

last_round : {A : Type 0} → false ≡ true → A
last_round e = absurd cc

schedule_finish-Stops :
    (i : ℕ) (code : AnswerCode) (qry : Query) (r : Resolver) → Stops (schedule_finish i code qry r)
unfolding schedule_finish
schedule_finish-Stops i code qry r =
    Ends-check Any (is_null qry.answer_buf) _
      (λ e. Ends-check Any (is_void qry.answer_code) _ (λ e'. tt))

switch_else_schedule_finish-IsNext :
    (i : ℕ) (code : AnswerCode) (qry : Query) (r : Resolver)
    → get_elem? r.query_list i ≡ some qry
    → qry.first_server < length r.ns_list
    → qry.curr_server < length r.ns_list
    → Ends (IsNext i qry (length r.ns_list)) (switch_else_schedule_finish i code r)
unfolding switch_else_schedule_finish
switch_else_schedule_finish-IsNext i code qry r found first curr =
    let Q = IsNext i qry (length r.ns_list) in
    rw (found, read)
      (Ends-check Q (is_status qry.status void) _ (λ e. Ends-check Q (not (is_void code)) _ (λ e'.
        Ends-check Q (not (is_ok code)) _ (λ e''. elim (switch_cases r qry first curr) [
          | inl (none_left, e) ↦
              rw (e, ◌>>=◌)
                (Ends->>= Any Q (schedule_finish i code (moved r qry) (put i (moved r qry) r)) _
                  (schedule_finish-Stops i code (moved r qry) (put i (moved r qry) r))
                  (λ r' u. last_round))
          | inr (qry', e, (left, same_first, next)) ↦
              rw (e, ◌>>=◌)
                (λ again.
                  (qry', get_elem?-set_same r.query_list i qry qry' found, refl, same_first, left))
        ]))))

after_connect-IsNext :
    (i tcp_sd : ℕ) (result : SockResult) (qry : Query) (r : Resolver)
    → get_elem? r.query_list i ≡ some qry
    → qry.first_server < length r.ns_list
    → qry.curr_server < length r.ns_list
    → Ends (IsNext i qry (length r.ns_list)) (after_connect i tcp_sd result r)
unfolding after_connect queries_tcp_connect2write
after_connect-IsNext i tcp_sd sock_ok qry r found first curr =
    let Q = IsNext i qry (length r.ns_list) in
    Ends->>= Any Q (want_write_tcp i r) _ (want_write_tcp-Stops i r) (λ r' u.
      Ends->>= Any Q (queries_tcp_connect2write tcp_sd r') _
        (connect2write_loop-Stops tcp_sd (length r'.query_list) 0 r') (λ r'' u'. last_round))
after_connect-IsNext i tcp_sd would_block qry r found first curr =
    Ends->>= Any (IsNext i qry (length r.ns_list)) (want_connection i r) _
      (want_connection-Stops i r) (λ r' u. last_round)
after_connect-IsNext i tcp_sd send_fail qry r found first curr =
    switch_else_schedule_finish-IsNext i code_connect qry r found first curr
after_connect-IsNext i tcp_sd recv_fail qry r found first curr =
    switch_else_schedule_finish-IsNext i code_connect qry r found first curr
after_connect-IsNext i tcp_sd connect_fail qry r found first curr =
    switch_else_schedule_finish-IsNext i code_connect qry r found first curr
after_connect-IsNext i tcp_sd closed qry r found first curr =
    switch_else_schedule_finish-IsNext i code_connect qry r found first curr

with_socket-IsNext :
    (sys : System) (i : ℕ) (addr : Addr) (port : ℕ) (tcp_sd : Option ℕ) (qry : Query) (r : Resolver)
    → get_elem? r.query_list i ≡ some qry
    → qry.first_server < length r.ns_list
    → qry.curr_server < length r.ns_list
    → Ends (IsNext i qry (length r.ns_list)) (with_socket sys i addr port tcp_sd r)
unfolding with_socket try_connect
with_socket-IsNext sys i addr port none qry r found first curr =
    switch_else_schedule_finish-IsNext i code_connect qry r found first curr
with_socket-IsNext sys i addr port (some tcp_sd) qry r found first curr =
    let connecting = ask (sock_connect (some tcp_sd) addr port) r in
    after_connect-IsNext i tcp_sd (sys.connect connecting.calls) qry connecting found first curr

-- The current server of the query is there.
abbrev IsWithin : Resolver → Query → Addr → Type 0
IsWithin r qry addr = qry.curr_server < length r.ns_list

get_curr_serv_addr-IsWithin :
    (r : Resolver) (qry : Query) → Ends (IsWithin r qry) (get_curr_serv_addr r qry)
unfolding get_curr_serv_addr
get_curr_serv_addr-IsWithin r qry = Ends-check (IsWithin r qry) (ltb 0 (length r.ns_list)) _ (λ e.
    Ends-check (IsWithin r qry) (ltb qry.curr_server (length r.ns_list)) _ (λ e'.
      Ends-last (IsWithin r qry) r.ns_list qry.curr_server
        (λ addr. ltb→lt qry.curr_server (length r.ns_list) e')))

connect_round-IsNext :
    (sys : System) (i : ℕ) (qry : Query) (r : Resolver)
    → get_elem? r.query_list i ≡ some qry
    → qry.first_server < length r.ns_list
    → Ends (IsNext i qry (length r.ns_list)) (connect_round sys i r)
unfolding connect_round get_curr_serv_port
connect_round-IsNext sys i qry r found first =
    let Q = IsNext i qry (length r.ns_list) in
    rw (found, read)
      (Ends->>= (IsWithin r qry) Q (get_curr_serv_addr r qry) _ (get_curr_serv_addr-IsWithin r qry)
        (λ addr curr.
          Ends->>= Any Q (get_curr_serv_port r qry) _ (Ends-server Any r qry _ (λ server. tt))
            (λ port u. Ends-server Q r qry _ (λ server.
              Ends-check Q (is_status qry.status void) _ (λ e.
                Ends-if Q (not (is_null server.tcp_sd)) _ _
                  (λ is_open.
                    Ends->>= Any Q (want_write_tcp i r) _ (want_write_tcp-Stops i r)
                      (λ r' u'. last_round))
                  (λ is_closed.
                    let asked = ask (create_tcp addr.family) r in
                    let tcp_sd = sys.tcp_socket asked.calls in
                    with_socket-IsNext sys i addr port tcp_sd qry
                      (put_server qry.curr_server (record server { tcp_sd = tcp_sd }) asked) found
                      first curr))))))

connect_loop-Stops :
    (sys : System) (f i : ℕ) (qry : Query) (r : Resolver)
    → get_elem? r.query_list i ≡ some qry
    → qry.first_server < length r.ns_list
    → switches_left (length r.ns_list) qry < f
    → Stops (connect_loop sys f i r)
unfolding connect_loop
connect_loop-Stops sys zero i qry r found first enough = absurd (omega (arith, enough))
connect_loop-Stops sys (suc f) i qry r found first enough =
    Ends->>= (IsNext i qry (length r.ns_list)) Any (connect_round sys i r) _
      (connect_round-IsNext sys i qry r found first)
      (λ (again, r') next.
        Ends-bool Any again _ _
          (λ e.
            let (qry', found', same, same_first, left) = next e in
            connect_loop-Stops sys f i qry' r' found' (rw (same, same_first) first)
              (rw (same) (omega (arith, left, enough))))
          (λ e. tt))

before_first_bounds : (n f c : ℕ) → f < n → before_first n f c < n
before_first_bounds n f c first = ground (arith, first)

rounds_enough :
    (r : Resolver) (qry : Query)
    → qry.first_server < length r.ns_list
    → switches_left (length r.ns_list) qry < rounds r qry
rounds_enough r qry first =
    let n = length r.ns_list in
    let one_more : n * suc qry.remaining_retries ≡ qry.remaining_retries * n + n = omega arith in
    omega (arith, one_more, before_first_bounds n qry.first_server qry.curr_server first)

-- If the first server of the query is there, then the loop of `query_want_connect_tcp` ends, whatever
-- the system tells it: the rounds that the model gives it, one more than the number of the servers
-- times one more than the retries that remain, are enough.
pub want_connect_tcp-ends :
    (sys : System) (i : ℕ) (qry : Query) (r : Resolver)
    → get_elem? r.query_list i ≡ some qry
    → qry.first_server < length r.ns_list
    → ¬ (want_connect_tcp sys i r ≡ no_fuel)
unfolding want_connect_tcp
want_connect_tcp-ends sys i qry r found first =
    rw (found, read)
      (not-no_fuel (connect_loop sys (rounds r qry) i r)
        (connect_loop-Stops sys (rounds r qry) i qry r found first (rounds_enough r qry first)))
