-- ===== src/Fsm/Reach/Tests.antt =====
-- A resolver with two servers, and one query that is submitted, sent, timed out or answered.
use ruli.Common.{
  ℕ, ◌≡◌, ◌≢◌, refl, no_fuel, arith, true, false, some, none, [], ◌∷◌, get_or, Run, done, List,
  abort, ◌++◌,
}
use ruli.Util.{unpack2, pack2}
use ruli.Msg.{parse_header, Header, msg_build, build_options}
use ruli.Addr.Prefix.{inet}
use ruli.Addr.Compare.{Addr}
use ruli.Res.{
  Query, Resolver, System, void, oop_write, oop_read, oop_continue, sock_ok, code_void,
  connect_fail,
}
use ruli.Res.Servers.{
  find_query_by_id, find_query, get_curr_tcp_socket, get_next_server, get_curr_serv_addr,
  get_curr_server, get_curr_server_index, get_curr_serv_port,
}
use ruli.Res.Submit.{
  query_submit, start_query, get_udp_socket, build_query, res_ok, res_socket, submitted_query,
}
use ruli.Res.Submit.Failed.{query_submit-leaves}
use ruli.Fsm.Counters.{IsSound}
use ruli.Fsm.Udp.{want_write_udp, done_write_udp, want_read_udp, done_read_udp}
use ruli.Fsm.Tcp.{want_write_tcp}
use ruli.Fsm.Connect.{
  want_connect_tcp, connect_loop, connect_round, with_socket, try_connect, after_connect,
  queries_tcp_connect2write, connect2write_loop, connect2write,
}
use ruli.Fsm.Connect.Ended.{want_connect_tcp-ends}
use ruli.Res.Delete.{query_delete}
use ruli.Res.Delete.Kept.{query_delete_aborts}
use ruli.Fsm.Datagrams.{
  udp_read, after_recvfrom, udp_message, udp_answer, take_answer, check_answer_flags,
  start_tcp_query, udp_write, udp_read_timeout, send_udp, after_sendto, find_status,
}
use ruli.Fsm.Reach.{
  res_new, Reachable, start, next, submitted, udp_written, udp_received, Reachable-IsSound,
}
use ruli.Fsm.Reach.Totals.{udp_write_total, udp_read_timeout_total}

abbrev server_addr : ℕ → Addr
server_addr n = record {
  family = inet;
  addr = 192 ∷ 0 ∷ 2 ∷ n ∷ [];
  has_src = false;
  src_family = inet;
  src = [];
}

abbrev no_header : Header
no_header = record {
  id = 0;
  flags = 0;
  rcode = 0;
  qdcount = 0;
  ancount = 0;
  nscount = 0;
  arcount = 0;
}

-- A header with the identifier 0, the flags QR, TC and RD, and one question.
abbrev truncated_answer : List ℕ
truncated_answer = 0 ∷ 0 ∷ 0x83 ∷ 0 ∷ 0 ∷ 1 ∷ 0 ∷ 0 ∷ 0 ∷ 0 ∷ 0 ∷ 0 ∷ []

-- The sockets work, and a truncated answer is received.
abbrev lucky : System
lucky = record {
  now = λ calls. some (1000, 0);
  udp_socket = λ calls. some 5;
  tcp_socket = λ calls. some 6;
  connect = λ calls. sock_ok;
  sendto = λ calls. sock_ok;
  send = λ calls. sock_ok;
  recvfrom = λ calls. (sock_ok, truncated_answer);
  recv = λ calls. (sock_ok, []);
  has_connected = λ calls. true;
  malloc = λ calls. true;
  room = λ calls. true;
  close_ok = λ calls. true;
}

-- A query for the name `a.`, of class 1 and type 1.
abbrev asked_query : Query
asked_query = record {
  resolver_index = 0;
  query_id = 0;
  status = void;
  first_server = 0;
  curr_server = 0;
  remaining_retries = 0;
  query_buf = [];
  tv = (0, 0);
  search_index = 0;
  full_dname = [];
  q_domain = 1 ∷ 97 ∷ 0 ∷ [];
  q_class = 1;
  q_type = 1;
  q_options = 0;
  answer_buf = none;
  answer_buf_size = 0;
  answer_code = code_void;
  answer_header = no_header;
}

abbrev first_state : Resolver
unfolding res_new
first_state = res_new (server_addr 1 ∷ server_addr 2 ∷ []) none 2 10

abbrev first_of : Run Resolver → Resolver → Resolver
first_of m otherwise = elim m [ done r ↦ r | _ ↦ otherwise ]

abbrev state_of {ℓ} : {A : Type ℓ} → Run (A × Resolver) → Resolver → Resolver
state_of m otherwise = elim m [ done result ↦ result.1 | _ ↦ otherwise ]

abbrev state_of_0 {ℓ} : {A : Type ℓ} → Run (Resolver × A) → Resolver → Resolver
state_of_0 m otherwise = elim m [ done result ↦ result.0 | _ ↦ otherwise ]

submitted_state : Resolver
unfolding first_state res_new query_submit start_query get_udp_socket build_query msg_build
    build_options unpack2 want_write_udp get_next_server get_curr_serv_addr
submitted_state = state_of (query_submit lucky asked_query first_state) first_state

submitted_once : query_submit lucky asked_query first_state ≡ done (res_ok, submitted_state)
unfolding submitted_state first_state res_new query_submit start_query get_udp_socket build_query
    msg_build build_options unpack2 want_write_udp get_next_server get_curr_serv_addr
submitted_once = refl

submitted_reached : Reachable lucky submitted_state
unfolding first_state
submitted_reached =
    next first_state submitted_state
      (start (server_addr 1 ∷ server_addr 2 ∷ []) none 2 10 (omega arith))
      (submitted asked_query first_state submitted_state res_ok submitted_once)

Reachable-IsSound_example : IsSound submitted_state
Reachable-IsSound_example = Reachable-IsSound lucky submitted_state submitted_reached

abbrev the_query : Resolver → Query
the_query r = get_or r.query_list 0 asked_query

some-not-none {ℓ} : {A : Type ℓ} (a : A) → some a ≢ none
some-not-none a e = cc

udp_write_total_example :
    (r' : Resolver) × (udp_write lucky 5 oop_write submitted_state ≡ done r') × Reachable lucky r'
unfolding submitted_state first_state res_new query_submit start_query get_udp_socket build_query
    msg_build build_options unpack2 want_write_udp get_next_server get_curr_serv_addr
udp_write_total_example =
    udp_write_total lucky 5 0 (the_query submitted_state) submitted_state (λ calls. refl)
      (λ calls. some-not-none (1000, 0)) submitted_reached refl refl

written_state : Resolver
unfolding udp_write send_udp find_status get_curr_serv_port get_curr_server get_curr_server_index
    after_sendto done_write_udp want_read_udp submitted_state first_state res_new query_submit
    start_query get_udp_socket build_query msg_build build_options unpack2 want_write_udp
    get_next_server get_curr_serv_addr
written_state = first_of (udp_write lucky 5 oop_write submitted_state) submitted_state

written_once : udp_write lucky 5 oop_write submitted_state ≡ done written_state
unfolding written_state udp_write send_udp find_status get_curr_serv_port get_curr_server
    get_curr_server_index after_sendto done_write_udp want_read_udp submitted_state first_state
    res_new query_submit start_query get_udp_socket build_query msg_build build_options unpack2
    want_write_udp get_next_server get_curr_serv_addr
written_once = refl

written_reached : Reachable lucky written_state
written_reached =
    next submitted_state written_state submitted_reached
      (udp_written 5 oop_write submitted_state written_state written_once)

udp_read_timeout_total_example :
    (r' : Resolver) × (udp_read_timeout 0 written_state ≡ done r') × Reachable lucky r'
unfolding written_state udp_write send_udp find_status get_curr_serv_port get_curr_server
    get_curr_server_index after_sendto done_write_udp want_read_udp submitted_state first_state
    res_new query_submit start_query get_udp_socket build_query msg_build build_options unpack2
    want_write_udp get_next_server get_curr_serv_addr
udp_read_timeout_total_example =
    udp_read_timeout_total lucky 0 (the_query written_state) written_state written_reached refl refl

answered_state : Resolver
unfolding udp_read after_recvfrom udp_message parse_header pack2 find_query_by_id find_query
    udp_answer done_read_udp take_answer check_answer_flags start_tcp_query get_curr_tcp_socket
    want_connect_tcp connect_loop connect_round with_socket try_connect after_connect want_write_tcp
    queries_tcp_connect2write connect2write_loop connect2write written_state udp_write send_udp
    find_status get_curr_serv_port get_curr_server get_curr_server_index after_sendto done_write_udp
    want_read_udp submitted_state first_state res_new query_submit start_query get_udp_socket
    build_query msg_build build_options unpack2 want_write_udp get_next_server get_curr_serv_addr
answered_state = state_of_0 (udp_read lucky 5 oop_read written_state) written_state

answered_once : udp_read lucky 5 oop_read written_state ≡ done (answered_state, oop_continue)
unfolding answered_state udp_read after_recvfrom udp_message parse_header pack2 find_query_by_id
    find_query udp_answer done_read_udp take_answer check_answer_flags start_tcp_query
    get_curr_tcp_socket want_connect_tcp connect_loop connect_round with_socket try_connect
    after_connect want_write_tcp queries_tcp_connect2write connect2write_loop connect2write
    written_state udp_write send_udp find_status get_curr_serv_port get_curr_server
    get_curr_server_index after_sendto done_write_udp want_read_udp submitted_state first_state
    res_new query_submit start_query get_udp_socket build_query msg_build build_options unpack2
    want_write_udp get_next_server get_curr_serv_addr
answered_once = refl

answered_reached : Reachable lucky answered_state
answered_reached =
    next written_state answered_state written_reached
      (udp_received 5 oop_read written_state answered_state oop_continue answered_once)

-- The query waits to be sent over TCP.
query_delete_aborts_example : query_delete 0 answered_state ≡ abort
unfolding answered_state udp_read after_recvfrom udp_message parse_header pack2 find_query_by_id
    find_query udp_answer done_read_udp take_answer check_answer_flags start_tcp_query
    get_curr_tcp_socket want_connect_tcp connect_loop connect_round with_socket try_connect
    after_connect want_write_tcp queries_tcp_connect2write connect2write_loop connect2write
    written_state udp_write send_udp find_status get_curr_serv_port get_curr_server
    get_curr_server_index after_sendto done_write_udp want_read_udp submitted_state first_state
    res_new query_submit start_query get_udp_socket build_query msg_build build_options unpack2
    want_write_udp get_next_server get_curr_serv_addr
query_delete_aborts_example =
    query_delete_aborts 0 (the_query answered_state) answered_state
      (Reachable-IsSound lucky answered_state answered_reached) refl refl

-- No server can be connected to.
abbrev refused : System
refused = record lucky { connect = λ calls. connect_fail }

abbrev idle_state : Resolver
unfolding first_state res_new
idle_state = record first_state { query_list = asked_query ∷ [] }

want_connect_tcp-ends_example : ¬ (want_connect_tcp refused 0 idle_state ≡ no_fuel)
unfolding first_state res_new idle_state
want_connect_tcp-ends_example =
    want_connect_tcp-ends refused 0 asked_query idle_state refl (omega arith)

-- No socket can be created.
abbrev socketless : System
socketless = record lucky { udp_socket = λ calls. none }

query_submit-leaves_example :
    (r' : Resolver) × (query_submit socketless asked_query first_state ≡ done (res_socket, r'))
    × (r'.query_list
        ≡ first_state.query_list
          ++ (submitted_query first_state first_state.next_server asked_query ∷ []))
    × IsSound r'
unfolding first_state res_new
query_submit-leaves_example =
    query_submit-leaves socketless asked_query (server_addr 1) first_state
      (Reachable-IsSound socketless first_state
        (start (server_addr 1 ∷ server_addr 2 ∷ []) none 2 10 (omega arith)))
      (omega arith) refl refl refl (λ calls. refl)
