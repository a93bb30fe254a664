-- ===== src/Fsm/Counters/Streams.antt =====
-- The counters of a TCP socket and the queries that wait for it.
use ruli.Common.{
  ◌<◌, ltb→lt, ℕ, ◌+◌, ◌≡◌, refl, if◌then◌else◌, Option-cases, ==_refl, sym, ap, ◌∙◌, ◌==◌, ◌&&◌,
  Bool, true, false, some, List, length, set, get_elem?, get_or, one, get_or-set_same, get_or-set,
  get_elem?→get_or, length-set, Bool-cases, inl, inr, arith, ==_iff, Keeps, Run, read, check, ltb,
  ◌>>=◌, ◌>>◌,
}
use ruli.Addr.Prefix.{inet, inet6}
use ruli.Res.{
  number, void, udp_want_send, udp_want_recv, tcp_want_connect, tcp_want_send, tcp_want_recv_head,
  tcp_want_recv_body, Query, Resolver, Server, Status, is_status,
}
use ruli.Res.Servers.{get_curr_server, get_curr_server_index}
use ruli.Fsm.Counters.{
  at_family, waits_udp, Counter, datagrams, streams, counter, waits, IsSound, Direction, sending,
  receiving, Purpose, tcp_count, udp_waits, tcp_waits, no_server,
}
use ruli.Fsm.Counters.Moves.{IsMove-IsSound}

-- The status of a number.
named : ℕ → Status
named n =
    if n == 0
    then void
    else if n == 1
    then udp_want_send
    else if n == 2
    then udp_want_recv
    else if n == 3
    then tcp_want_connect
    else if n == 4
    then tcp_want_send
    else if n == 5
    then tcp_want_recv_head
    else tcp_want_recv_body

named-number : (a : Status) → named (number a) ≡ a
unfolding named
named-number void = refl
named-number udp_want_send = refl
named-number udp_want_recv = refl
named-number tcp_want_connect = refl
named-number tcp_want_send = refl
named-number tcp_want_recv_head = refl
named-number tcp_want_recv_body = refl

pub is_status_sound : (a b : Status) → is_status a b ≡ true → a ≡ b
is_status_sound a b h =
    sym (named-number a) ∙ ap named ((==_iff (number a) (number b)).0 h) ∙ named-number b

pub Keeps-server {ℓ} :
    {B : Type ℓ} (Q : B → Type 0) (r : Resolver) (qry : Query) (f : Server → Run B)
    → ((server : Server)
        → get_elem? r.server_list qry.curr_server ≡ some server
        → Keeps Q (f server))
    → Keeps Q (get_curr_server r qry >>= f)
unfolding get_curr_server get_curr_server_index
Keeps-server Q r qry f k = elim (Bool-cases (ltb qry.curr_server (length r.server_list))) [
  | inr e ↦ rw (e, check, ◌>>=◌, ◌>>◌) tt
  | inl e ↦ elim (Option-cases (get_elem? r.server_list qry.curr_server)) [
    | inl at ↦ rw (e, at, check, ◌>>=◌, ◌>>◌, read) tt
    | inr (server, at) ↦ rw (e, at, check, ◌>>=◌, ◌>>◌, read) (k server at)
  ]
]

pub Keeps-index {ℓ} :
    {B : Type ℓ} (Q : B → Type 0) (r : Resolver) (qry : Query) (f : ℕ → Run B)
    → (qry.curr_server < length r.server_list → Keeps Q (f qry.curr_server))
    → Keeps Q (get_curr_server_index r qry >>= f)
unfolding get_curr_server_index
Keeps-index Q r qry f k = elim (Bool-cases (ltb qry.curr_server (length r.server_list))) [
  | inr e ↦ rw (e, check, ◌>>=◌, ◌>>◌) tt
  | inl e ↦ rw (e, check, ◌>>=◌, ◌>>◌) (k (ltb→lt qry.curr_server (length r.server_list) e))
]

datagrams_unused :
    (status : Status) (d : Direction) → waits_udp status ≡ false → udp_waits d status ≡ false
datagrams_unused status sending h = ground (arith, h)
datagrams_unused status receiving h = ground (arith, h)

pub and_false : (b : Bool) → (b && false) ≡ false
and_false true = refl
and_false false = refl

-- The counters of a server change with a query that waits for its socket.
streams_moved :
    (p : Purpose) (n : ℕ) (server server' : Server) (qry qry' : Query) (servers : List Server)
    → get_elem? servers qry.curr_server ≡ some server
    → tcp_count p server' + one (tcp_waits p qry.status)
      ≡ tcp_count p server + one (tcp_waits p qry'.status)
    → tcp_count p (get_or (set servers qry.curr_server server') n no_server)
        + one ((qry.curr_server == n) && tcp_waits p qry.status)
      ≡ tcp_count p (get_or servers n no_server)
        + one ((qry.curr_server == n) && tcp_waits p qry'.status)
streams_moved p n server server' qry qry' servers at moved =
    elim (Bool-cases (qry.curr_server == n)) [
      | inl e ↦
          let at_n = sym ((==_iff qry.curr_server n).0 e) in
          let after = get_or-set_same servers qry.curr_server server server' no_server at in
          let before = get_elem?→get_or servers qry.curr_server server no_server at in
          rw (at_n, ==_refl qry.curr_server, after, before) moved
      | inr e ↦ rw (e, get_or-set servers qry.curr_server n server' no_server e) refl
    ]

tcp_moved :
    (server server' : Server) (qry qry' : Query) (r r' : Resolver)
    → get_elem? r.server_list qry.curr_server ≡ some server
    → (r'.udp ≡ r.udp)
    → (r'.udp6 ≡ r.udp6)
    → (r'.server_list ≡ set r.server_list qry.curr_server server')
    → (qry'.curr_server ≡ qry.curr_server)
    → (waits_udp qry.status ≡ false)
    → (waits_udp qry'.status ≡ false)
    → ((p : Purpose)
        → tcp_count p server' + one (tcp_waits p qry.status)
          ≡ tcp_count p server + one (tcp_waits p qry'.status))
    → (c : Counter)
    → counter c r' + one (waits r.ns_list c qry) ≡ counter c r + one (waits r.ns_list c qry')
tcp_moved server server' qry qry' r r' at sd sd6 servers uses unused unused' moved
      (datagrams d inet) =
    rw
      (
        sd,
        datagrams_unused qry.status d unused,
        datagrams_unused qry'.status d unused',
        and_false (at_family r.ns_list inet qry.curr_server),
        and_false (at_family r.ns_list inet qry'.curr_server),
      )
      refl
tcp_moved server server' qry qry' r r' at sd sd6 servers uses unused unused' moved
      (datagrams d inet6) =
    rw
      (
        sd6,
        datagrams_unused qry.status d unused,
        datagrams_unused qry'.status d unused',
        and_false (at_family r.ns_list inet6 qry.curr_server),
        and_false (at_family r.ns_list inet6 qry'.curr_server),
      )
      refl
tcp_moved server server' qry qry' r r' at sd sd6 servers uses unused unused' moved (streams p n) =
    rw (servers, uses) (streams_moved p n server server' qry qry' r.server_list at (moved p))

-- A call that changes the status of a query in TCP mode, and the counters of its server with it.
pub tcp-IsSound :
    (i : ℕ) (server server' : Server) (qry qry' : Query) (r r' : Resolver)
    → get_elem? r.query_list i ≡ some qry
    → get_elem? r.server_list qry.curr_server ≡ some server
    → IsSound r
    → (r'.query_list ≡ set r.query_list i qry')
      × (r'.ns_list ≡ r.ns_list)
      × (r'.server_list ≡ set r.server_list qry.curr_server server')
      × (r'.next_server ≡ r.next_server)
      × (r'.udp ≡ r.udp)
      × (r'.udp6 ≡ r.udp6)
    → (waits_udp qry.status ≡ false) × (waits_udp qry'.status ≡ false)
    → (qry'.curr_server ≡ qry.curr_server) × (qry'.resolver_index ≡ qry.resolver_index)
    → ((p : Purpose)
        → tcp_count p server' + one (tcp_waits p qry.status)
          ≡ tcp_count p server + one (tcp_waits p qry'.status))
    → IsSound r'
tcp-IsSound i server server' qry qry' r r' found at sound same (unused, unused') (uses, index)
      moved =
    let (queries, names, servers, next, sd, sd6) = same in
    let (place, range, old_fresh) = sound.3 i qry found in
    IsMove-IsSound i qry qry' r r' found
      (
        queries,
        names,
        ap length servers ∙ length-set r.server_list qry.curr_server server',
        next,
        λ c. tcp_moved server server' qry qry' r r' at sd sd6 servers uses unused unused' moved c,
      )
      (index ∙ place, rw (uses) range, λ waiting. cc) sound
