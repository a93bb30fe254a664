-- ===== src/Res.antt =====
-- src/ruli_res.c: the state of the resolver, its queries and its servers.
--
-- A pointer to a query is its index in `query_list`, and one to a server its index in `server_list`. A descriptor of -1
-- is `none`. What the code asks of the system and of the event source is put in front of the list `calls`, and what it is
-- told is a function of that list, a field of `System`.
pub mod Servers
pub mod Submit
pub mod Delete
use ruli.Common.{
  ℕ, zero, suc, ◌+◌, Bool, Option, none, some, List, [], ◌∷◌, ◌==◌, length, set, if◌then◌else◌,
}
use ruli.Msg.{Header}
use ruli.Addr.Prefix.{Family, inet, inet6}
use ruli.Addr.Compare.{Addr}

-- RULI_QRY_STAT_…
pub data Status : Type 0 where
  void udp_want_send udp_want_recv tcp_want_connect : Status
  tcp_want_send tcp_want_recv_head tcp_want_recv_body : Status

abbrev pub number : Status → ℕ
number void = 0
number udp_want_send = 1
number udp_want_recv = 2
number tcp_want_connect = 3
number tcp_want_send = 4
number tcp_want_recv_head = 5
number tcp_want_recv_body = 6

abbrev pub is_status : Status → Status → Bool
is_status a b = number a == number b

-- RULI_CODE_…
pub data AnswerCode : Type 0 where
  code_void code_ok code_timeout code_malloc code_send code_connect : AnswerCode
  code_launch_search_list code_concat_search_list : AnswerCode
  code_answer_opcode code_answer_flag_qr code_answer_flag_rd : AnswerCode
  code_answer_flag_ra code_answer_flag_z code_answer_trunc : AnswerCode

-- `ruli_res_query_t`. `query_buf` is the stored part of the buffer, with the two bytes of the TCP prefix in front;
-- `answer_buf` is the received part of a buffer of `answer_buf_size` bytes, so its length is `answer_msg_len`. Without
-- a buffer the two lengths are -1. `search_index` is the number of suffixes tried, one more than in the code.
pub record Query : Type 0 where
  pub resolver_index : ℕ
  pub query_id : ℕ
  pub status : Status
  pub first_server : ℕ
  pub curr_server : ℕ
  pub remaining_retries : ℕ
  pub query_buf : List ℕ
  pub tv : ℕ × ℕ
  pub search_index : ℕ
  pub full_dname : List ℕ
  pub q_domain : List ℕ
  pub q_class : ℕ
  pub q_type : ℕ
  pub q_options : ℕ
  pub answer_buf : Option (List ℕ)
  pub answer_buf_size : ℕ
  pub answer_code : AnswerCode
  pub answer_header : Header

-- `ruli_server_t`. `tcp_head` is the received part of the header; `none` is a `tcp_head_len` of -1.
pub record Server : Type 0 where
  pub tcp_sd : Option ℕ
  pub tcp_connecters : ℕ
  pub tcp_writers : ℕ
  pub tcp_readers : ℕ
  pub port : ℕ
  pub tcp_head : Option (List ℕ)

-- The UDP socket of an address family: `udp_sd`, `udp_writers` and `udp_readers`, or their `udp6_` twins.
pub record Udp : Type 0 where
  pub sd : Option ℕ
  pub writers : ℕ
  pub readers : ℕ

pub data Event : Type 0 where
  oop_read oop_write : Event

-- The handlers of the descriptors, and those of the time-outs.
pub data Sink : Type 0 where
  on_udp_write on_udp_read on_tcp_connect on_tcp_write on_tcp_read : Sink

pub data Timer : Type 0 where
  on_udp_read_timeout on_tcp_read_head_timeout on_tcp_read_body_timeout : Timer

-- A call to the event source, to the sockets or to the system.
pub data Call : Type 0 where
  on_fd : Option ℕ → Event → Sink → Call
  cancel_fd : Option ℕ → Event → Call
  on_time cancel_time : ℕ × ℕ → Timer → ℕ → Call
  query_done_now : ℕ → Call
  create_udp create_tcp : Family → Call
  sock_connect : Option ℕ → Addr → ℕ → Call
  sock_sendto : ℕ → Addr → ℕ → List ℕ → Call
  sock_send : ℕ → List ℕ → Call
  sock_recvfrom sock_recv : ℕ → ℕ → Call
  sock_has_connected : ℕ → Call
  sock_close : ℕ → Call
  allocate : ℕ → Call

-- `ruli_res_t`.
pub record Resolver : Type 0 where
  pub server_list : List Server
  pub query_list : List Query
  pub udp : Udp
  pub udp6 : Udp
  pub next_server : ℕ
  pub next_query_id : ℕ
  pub search_list : Option (List (List ℕ))
  pub ns_list : List Addr
  pub res_retry : ℕ
  pub res_timeout : ℕ
  pub calls : List Call

-- RULI_SOCK_…
pub data SockResult : Type 0 where
  sock_ok would_block send_fail recv_fail connect_fail closed : SockResult

-- What is told in return, where the calls before are known: the results of `ruli_sock_…`, whether `ruli_malloc` has
-- memory, whether `ruli_list_push` has a free slot or memory for one, whether `close` succeeds, and the time, in seconds
-- and microseconds, that `gettimeofday` stores, or `none` if it fails.
pub record System : Type 0 where
  pub now : List Call → Option (ℕ × ℕ)
  pub udp_socket : List Call → Option ℕ
  pub tcp_socket : List Call → Option ℕ
  pub connect : List Call → SockResult
  pub sendto : List Call → SockResult
  pub send : List Call → SockResult
  pub recvfrom : List Call → SockResult × List ℕ
  pub recv : List Call → SockResult × List ℕ
  pub has_connected : List Call → Bool
  pub malloc : List Call → Bool
  pub room : List Call → Bool
  pub close_ok : List Call → Bool

-- What the event source is told: OOP_CONTINUE, or the result of the callback of the client of the query.
pub data Outcome : Type 0 where
  oop_continue : Outcome
  answered : ℕ → Outcome

abbrev pub ask : Call → Resolver → Resolver
ask c r = record r { calls = c ∷ r.calls }

abbrev pub put : ℕ → Query → Resolver → Resolver
put i qry r = record r { query_list = set r.query_list i qry }

abbrev pub put_server : ℕ → Server → Resolver → Resolver
put_server s server r = record r { server_list = set r.server_list s server }

-- `query_switch_status`
abbrev pub query_switch_status : ℕ → Query → Status → Resolver → Resolver
query_switch_status i qry status r = put i (record qry { status = status }) r

abbrev pub udp_of : Family → Resolver → Udp
udp_of inet r = r.udp
udp_of inet6 r = r.udp6

abbrev pub put_udp : Family → Udp → Resolver → Resolver
put_udp family udp r = record r {
  udp = elim family [ inet ↦ udp | inet6 ↦ r.udp ];
  udp6 = elim family [ inet ↦ r.udp6 | inet6 ↦ udp ];
}

-- A call to the event source that is made only if `waiting`, the number of the queries that wait, is 0.
abbrev pub ask_if_none : ℕ → Call → Resolver → Resolver
ask_if_none waiting c r = record r { calls = if waiting == 0 then c ∷ r.calls else r.calls }
