-- ===== src/Fsm/Reach.antt =====
-- The resolver as a step relation: a new resolver, the calls of the client and the events.
pub mod Totals
mod Tests
use ruli.Common.{
  suc, ℕ, ◌≡◌, refl, zero, ◌<◌, Option, none, List, [], length, get_or, replicate, length-replicate,
  done, Keeps-done,
}
use ruli.Addr.Compare.{Addr}
use ruli.Addr.Prefix.{inet, inet6}
use ruli.Res.{Query, Resolver, Server, Udp, System, Event, Outcome}
use ruli.Res.Submit.{res_ok, res_socket, res_msg_build, ResResult, query_submit}
use ruli.Res.Submit.Kept.{Handled, IsStarted, Started}
use ruli.Res.Submit.Added.{query_submit-Started}
use ruli.Res.Delete.{query_delete}
use ruli.Res.Delete.Kept.{query_delete-IsSound}
use ruli.Fsm.Counters.{
  Counter, datagrams, streams, counter, IsSound, Purpose, connecting, writing, reading, sending,
  receiving, tcp_count, no_server,
}
use ruli.Fsm.Datagrams.{finish_query, udp_read_timeout, udp_write, udp_read}
use ruli.Fsm.Datagrams.Steps.{udp_read_timeout-Keeps, udp_write-Keeps}
use ruli.Fsm.Datagrams.Received.{finish_query-IsSound, udp_read-IsSound}
use ruli.Fsm.Stream.{tcp_read_head_timeout, tcp_read_body_timeout, tcp_connect, tcp_write, tcp_read}
use ruli.Fsm.Stream.Kept.{
  tcp_read_head_timeout-IsSound, tcp_read_body_timeout-IsSound, tcp_connect-IsSound,
  tcp_write-IsSound,
}
use ruli.Fsm.Stream.Bodies.{tcp_read-IsSound}

-- A server and a UDP socket as `ruli_res_new` sets them up.
abbrev pub new_server : Server
new_server = record {
  tcp_sd = none;
  tcp_connecters = 0;
  tcp_writers = 0;
  tcp_readers = 0;
  port = 53;
  tcp_head = none;
}

abbrev pub new_udp : Udp
new_udp = record { sd = none; writers = 0; readers = 0 }

-- `ruli_res_new` for the two lists that the configuration gives, where there is memory.
pub res_new : List Addr → Option (List (List ℕ)) → (res_retry res_timeout : ℕ) → Resolver
res_new ns_list search_list res_retry res_timeout = record {
  server_list = replicate (length ns_list) new_server;
  query_list = [];
  udp = new_udp;
  udp6 = new_udp;
  next_server = 0;
  next_query_id = 0;
  search_list = search_list;
  ns_list = ns_list;
  res_retry = res_retry;
  res_timeout = res_timeout;
  calls = [];
}

-- A call of the client or an event, which ends in the second state.
pub data Step (sys : System) : Resolver → Resolver → Type 0 where
  submitted :
      (qry : Query) (r r' : Resolver) (result : ResResult)
      → query_submit sys qry r ≡ done (result, r')
      → Step sys r r'
  deleted : (i : ℕ) (r r' : Resolver) → query_delete i r ≡ done r' → Step sys r r'
  finished :
      (i : ℕ) (r r' : Resolver) (o : Outcome) → finish_query sys i r ≡ done (r', o) → Step sys r r'
  udp_timed_out : (i : ℕ) (r r' : Resolver) → udp_read_timeout i r ≡ done r' → Step sys r r'
  udp_written :
      (udp_sd : ℕ) (event : Event) (r r' : Resolver)
      → udp_write sys udp_sd event r ≡ done r'
      → Step sys r r'
  udp_received :
      (udp_sd : ℕ) (event : Event) (r r' : Resolver) (o : Outcome)
      → udp_read sys udp_sd event r ≡ done (r', o)
      → Step sys r r'
  head_timed_out :
      (i : ℕ) (r r' : Resolver) → tcp_read_head_timeout sys i r ≡ done r' → Step sys r r'
  body_timed_out :
      (i : ℕ) (r r' : Resolver) → tcp_read_body_timeout sys i r ≡ done r' → Step sys r r'
  tcp_connected :
      (tcp_sd : ℕ) (event : Event) (r r' : Resolver)
      → tcp_connect sys tcp_sd event r ≡ done r'
      → Step sys r r'
  tcp_written :
      (tcp_sd : ℕ) (event : Event) (r r' : Resolver)
      → tcp_write sys tcp_sd event r ≡ done r'
      → Step sys r r'
  tcp_received :
      (tcp_sd : ℕ) (event : Event) (r r' : Resolver) (o : Outcome)
      → tcp_read sys tcp_sd event r ≡ done (r', o)
      → Step sys r r'

pub data Reachable (sys : System) : Resolver → Type 0 where
  start :
      (ns_list : List Addr) (search_list : Option (List (List ℕ))) (res_retry res_timeout : ℕ)
      → 0 < length ns_list
      → Reachable sys (res_new ns_list search_list res_retry res_timeout)
  next : (r r' : Resolver) → Reachable sys r → Step sys r r' → Reachable sys r'

no_waiting : (p : Purpose) (n s : ℕ) → tcp_count p (get_or (replicate n new_server) s no_server) ≡ 0
no_waiting connecting zero s = refl
no_waiting connecting (suc n) zero = refl
no_waiting connecting (suc n) (suc s) = no_waiting connecting n s
no_waiting writing zero s = refl
no_waiting writing (suc n) zero = refl
no_waiting writing (suc n) (suc s) = no_waiting writing n s
no_waiting reading zero s = refl
no_waiting reading (suc n) zero = refl
no_waiting reading (suc n) (suc s) = no_waiting reading n s

none_waits :
    (ns_list : List Addr) (search_list : Option (List (List ℕ))) (res_retry res_timeout : ℕ)
    (c : Counter)
    → counter c (res_new ns_list search_list res_retry res_timeout) ≡ 0
unfolding res_new
none_waits ns_list search_list res_retry res_timeout (datagrams sending inet) = refl
none_waits ns_list search_list res_retry res_timeout (datagrams receiving inet) = refl
none_waits ns_list search_list res_retry res_timeout (datagrams sending inet6) = refl
none_waits ns_list search_list res_retry res_timeout (datagrams receiving inet6) = refl
none_waits ns_list search_list res_retry res_timeout (streams p s) = no_waiting p (length ns_list) s

pub res_new-IsSound :
    (ns_list : List Addr) (search_list : Option (List (List ℕ))) (res_retry res_timeout : ℕ)
    → 0 < length ns_list
    → IsSound (res_new ns_list search_list res_retry res_timeout)
unfolding res_new
res_new-IsSound ns_list search_list res_retry res_timeout some_server = (
  none_waits ns_list search_list res_retry res_timeout,
  length-replicate (length ns_list) new_server,
  some_server,
  λ i qry found. cc,
)

started-IsSound : (i : ℕ) (result : ResResult) (r : Resolver) → IsStarted i result r → IsSound r
started-IsSound i res_ok r started = started
started-IsSound i res_socket r started = started.0
started-IsSound i res_msg_build r started = started.0

-- Every call and every event that returns leaves a sound state sound.
pub Step-IsSound : (sys : System) (r r' : Resolver) → Step sys r r' → IsSound r → IsSound r'
Step-IsSound sys r r' (submitted qry _ _ result e) sound =
    started-IsSound (length r.query_list) result r' (
      Keeps-done (Started (length r.query_list)) (query_submit sys qry r) (result, r')
        (query_submit-Started sys qry r sound) e)
Step-IsSound sys r r' (deleted i _ _ e) sound =
    Keeps-done IsSound (query_delete i r) r' (query_delete-IsSound i r sound) e
Step-IsSound sys r r' (finished i _ _ o e) sound =
    Keeps-done Handled (finish_query sys i r) (r', o)
      (finish_query-IsSound sys i r (λ qry found idle. sound)) e
Step-IsSound sys r r' (udp_timed_out i _ _ e) sound =
    Keeps-done IsSound (udp_read_timeout i r) r' (udp_read_timeout-Keeps i r sound) e
Step-IsSound sys r r' (udp_written udp_sd event _ _ e) sound =
    Keeps-done IsSound (udp_write sys udp_sd event r) r' (udp_write-Keeps sys udp_sd event r sound)
      e
Step-IsSound sys r r' (udp_received udp_sd event _ _ o e) sound =
    Keeps-done Handled (udp_read sys udp_sd event r) (r', o)
      (udp_read-IsSound sys udp_sd event r sound) e
Step-IsSound sys r r' (head_timed_out i _ _ e) sound =
    Keeps-done IsSound (tcp_read_head_timeout sys i r) r'
      (tcp_read_head_timeout-IsSound sys i r sound) e
Step-IsSound sys r r' (body_timed_out i _ _ e) sound =
    Keeps-done IsSound (tcp_read_body_timeout sys i r) r'
      (tcp_read_body_timeout-IsSound sys i r sound) e
Step-IsSound sys r r' (tcp_connected tcp_sd event _ _ e) sound =
    Keeps-done IsSound (tcp_connect sys tcp_sd event r) r'
      (tcp_connect-IsSound sys tcp_sd event r sound) e
Step-IsSound sys r r' (tcp_written tcp_sd event _ _ e) sound =
    Keeps-done IsSound (tcp_write sys tcp_sd event r) r'
      (tcp_write-IsSound sys tcp_sd event r sound) e
Step-IsSound sys r r' (tcp_received tcp_sd event _ _ o e) sound =
    Keeps-done Handled (tcp_read sys tcp_sd event r) (r', o)
      (tcp_read-IsSound sys tcp_sd event r sound) e

-- In every state that a new resolver with at least one name server reaches by calls and events that
-- return (queries are submitted, deleted and finished, time-outs expire, UDP and TCP sockets connect,
-- are written and are read): the writers and readers of each UDP socket and the connecters, writers
-- and readers of each server are the numbers of the queries that wait for them, each query knows its
-- index and uses a server that there is, and a query that waits for a UDP socket has no answer yet.
pub Reachable-IsSound : (sys : System) (r : Resolver) → Reachable sys r → IsSound r
Reachable-IsSound sys _ (start ns_list search_list res_retry res_timeout some_server) =
    res_new-IsSound ns_list search_list res_retry res_timeout some_server
Reachable-IsSound sys r' (next r _ before step) =
    Step-IsSound sys r r' step (Reachable-IsSound sys r before)
