-- ===== src/Fsm/Counters.antt =====
-- The counters of the sockets, and the queries that wait for each of them.
pub mod Moves
pub mod Datagrams
pub mod Streams
pub mod Puts
use ruli.Common.{
  ℕ, suc, ◌+◌, ◌<◌, ◌≡◌, ◌==◌, Bool, true, false, not, ◌&&◌, ◌||◌, Option, some, none, List, length,
  get_elem?, get_or, one, count,
}
use ruli.Addr.Prefix.{Family}
use ruli.Addr.Compare.{Addr, family_equal}
use ruli.Res.{
  Query, Resolver, Server, Udp, Status, AnswerCode, code_void, void, udp_want_send, udp_want_recv,
  tcp_want_connect, tcp_want_send, tcp_want_recv_head, tcp_want_recv_body, is_status, udp_of,
}

-- The counters of a UDP socket, and those of the TCP socket of a server.
pub data Direction : Type 0 where
  sending receiving : Direction

pub data Purpose : Type 0 where
  connecting writing reading : Purpose

pub data Counter : Type 0 where
  datagrams : Direction → Family → Counter
  streams : Purpose → ℕ → Counter

abbrev pub udp_count : Direction → Udp → ℕ
udp_count sending udp = udp.writers
udp_count receiving udp = udp.readers

abbrev pub tcp_count : Purpose → Server → ℕ
tcp_count connecting server = server.tcp_connecters
tcp_count writing server = server.tcp_writers
tcp_count reading server = server.tcp_readers

-- The counters behind the last server are 0.
abbrev pub no_server : Server
no_server = record {
  tcp_sd = none;
  tcp_connecters = 0;
  tcp_writers = 0;
  tcp_readers = 0;
  port = 0;
  tcp_head = none;
}

abbrev pub counter : Counter → Resolver → ℕ
counter (datagrams d f) r = udp_count d (udp_of f r)
counter (streams p s) r = tcp_count p (get_or r.server_list s no_server)

abbrev pub udp_waits : Direction → Status → Bool
udp_waits sending status = is_status status udp_want_send
udp_waits receiving status = is_status status udp_want_recv

abbrev pub tcp_waits : Purpose → Status → Bool
tcp_waits connecting status = is_status status tcp_want_connect
tcp_waits writing status = is_status status tcp_want_send
tcp_waits reading status =
    is_status status tcp_want_recv_head || is_status status tcp_want_recv_body

abbrev pub at_family : List Addr → Family → ℕ → Bool
at_family ns_list family s = elim (get_elem? ns_list s) [
  | none ↦ false
  | some addr ↦ family_equal addr.family family
]

abbrev pub waits : List Addr → Counter → Query → Bool
waits ns_list (datagrams d f) qry = at_family ns_list f qry.curr_server && udp_waits d qry.status
waits ns_list (streams p s) qry = (qry.curr_server == s) && tcp_waits p qry.status

-- Every counter is the number of the queries that wait for its socket.
abbrev pub IsCounted : Resolver → Type 0
IsCounted r = (c : Counter) → counter c r ≡ count (waits r.ns_list c) r.query_list

-- A query that waits for a UDP socket has no answer yet.
abbrev pub IsFresh : Query → Type 0
IsFresh qry = (qry.answer_buf ≡ none) × (qry.answer_code ≡ code_void)

abbrev pub waits_udp : Status → Bool
waits_udp status = is_status status udp_want_send || is_status status udp_want_recv

-- A query knows its place in the list, it uses a server that there is, and it has no answer while it waits for a UDP socket.
abbrev pub IsPlaced : ℕ → ℕ → Query → Type 0
IsPlaced servers i qry =
    (qry.resolver_index ≡ i)
    × (qry.curr_server < servers)
    × (waits_udp qry.status ≡ true → IsFresh qry)

abbrev pub IsSound : Resolver → Type 0
IsSound r =
    IsCounted r
    × (length r.server_list ≡ length r.ns_list)
    × (r.next_server < length r.ns_list)
    × ((i : ℕ) (qry : Query)
        → get_elem? r.query_list i ≡ some qry
        → IsPlaced (length r.ns_list) i qry)

-- The query at index `i` waits for nothing, and has no answer.
abbrev pub IsIdle : ℕ → Resolver → Type 0
IsIdle i r =
    (qry : Query) × (get_elem? r.query_list i ≡ some qry) × (qry.status ≡ void) × IsFresh qry
