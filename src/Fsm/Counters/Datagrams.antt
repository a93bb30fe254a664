-- ===== src/Fsm/Counters/Datagrams.antt =====
-- The counters of a UDP socket and the queries that wait for it.
use ruli.Common.{ℕ, suc, ◌+◌, ◌-◌, ◌<◌, ◌≡◌, refl, [], ◌>>=◌, ◌>>◌, check, ap, true, false, some}
use ruli.Common.{
  List, length, set, get_elem?, get_or, one, count_positive, arith, done, lt→ltb,
  get_elem?-eq-get_or, read, ltb, ◌∙◌, ltb→lt,
}
use ruli.Addr.Prefix.{Family, inet, inet6}
use ruli.Addr.Compare.{Addr, family_equal}
use ruli.Res.{
  number, tcp_want_connect, tcp_want_send, tcp_want_recv_head, tcp_want_recv_body, Query, Resolver,
  Udp, Status, void, udp_want_send, udp_want_recv, udp_of, put_udp,
}
use ruli.Res.Servers.{get_curr_serv_addr}
use ruli.Fsm.Counters.{
  waits_udp, Counter, datagrams, streams, counter, waits, IsSound, IsFresh, Direction, sending,
  receiving, Purpose, connecting, writing, reading, udp_count, udp_waits, tcp_waits, at_family,
}
use ruli.Fsm.Counters.Moves.{IsMove-IsSound}

abbrev no_addr : Addr
no_addr = record { family = inet; addr = []; has_src = false; src_family = inet; src = [] }

pub get_curr_serv_addr_total :
    (r : Resolver) (qry : Query)
    → qry.curr_server < length r.ns_list
    → (addr : Addr) × (get_curr_serv_addr r qry ≡ done addr)
      × (get_elem? r.ns_list qry.curr_server ≡ some addr)
unfolding get_curr_serv_addr
get_curr_serv_addr_total r qry h =
    let addr = get_or r.ns_list qry.curr_server no_addr in
    let at = get_elem?-eq-get_or r.ns_list qry.curr_server no_addr h in
    let some_there = lt→ltb 0 (length r.ns_list) (omega arith) in
    let in_range = lt→ltb qry.curr_server (length r.ns_list) h in
    (addr, rw (some_there, in_range, at, read, check, ◌>>=◌, ◌>>◌) refl, at)

-- What the counters of each family make of a query whose server has the family `f`.
at_family-eq :
    (f g : Family) (addr : Addr) (ns_list : List Addr) (s t : ℕ)
    → get_elem? ns_list s ≡ some addr
    → addr.family ≡ f
    → t ≡ s
    → at_family ns_list g t ≡ family_equal f g
at_family-eq f g addr ns_list s t at family same = rw (same, at_family, at, family) refl

-- The counters of one UDP socket change with the query that waits for it.
udp_moved :
    (f : Family) (udp : Udp) (addr : Addr) (qry qry' : Query) (r r' : Resolver)
    → get_elem? r.ns_list qry.curr_server ≡ some addr
    → addr.family ≡ f
    → qry'.curr_server ≡ qry.curr_server
    → (r'.udp ≡ (put_udp f udp r).udp)
    → (r'.udp6 ≡ (put_udp f udp r).udp6)
    → (r'.server_list ≡ r.server_list)
    → ((d : Direction)
        → udp_count d udp + one (udp_waits d qry.status)
          ≡ udp_count d (udp_of f r) + one (udp_waits d qry'.status))
    → ((p : Purpose) → (tcp_waits p qry.status ≡ false) × (tcp_waits p qry'.status ≡ false))
    → (c : Counter)
    → counter c r' + one (waits r.ns_list c qry) ≡ counter c r + one (waits r.ns_list c qry')
udp_moved inet udp addr qry qry' r r' at family same e e' s moved other (datagrams d inet) =
    rw
      (
        e,
        at_family-eq inet inet addr r.ns_list qry.curr_server qry.curr_server at family refl,
        at_family-eq inet inet addr r.ns_list qry.curr_server qry'.curr_server at family same,
      )
      (moved d)
udp_moved inet udp addr qry qry' r r' at family same e e' s moved other (datagrams d inet6) =
    rw
      (
        e',
        at_family-eq inet inet6 addr r.ns_list qry.curr_server qry.curr_server at family refl,
        at_family-eq inet inet6 addr r.ns_list qry.curr_server qry'.curr_server at family same,
      )
      refl
udp_moved inet6 udp addr qry qry' r r' at family same e e' s moved other (datagrams d inet) =
    rw
      (
        e,
        at_family-eq inet6 inet addr r.ns_list qry.curr_server qry.curr_server at family refl,
        at_family-eq inet6 inet addr r.ns_list qry.curr_server qry'.curr_server at family same,
      )
      refl
udp_moved inet6 udp addr qry qry' r r' at family same e e' s moved other (datagrams d inet6) =
    rw
      (
        e',
        at_family-eq inet6 inet6 addr r.ns_list qry.curr_server qry.curr_server at family refl,
        at_family-eq inet6 inet6 addr r.ns_list qry.curr_server qry'.curr_server at family same,
      )
      (moved d)
udp_moved f udp addr qry qry' r r' at family same e e' s moved other (streams p n) =
    rw (s, same, (other p).0, (other p).1) refl

-- No counter of a TCP socket counts a query whose status is before the first of TCP mode.
streams_unused : (status : Status) (p : Purpose) → number status < 3 → tcp_waits p status ≡ false
streams_unused void connecting h = refl
streams_unused void writing h = refl
streams_unused void reading h = refl
streams_unused udp_want_send connecting h = refl
streams_unused udp_want_send writing h = refl
streams_unused udp_want_send reading h = refl
streams_unused udp_want_recv connecting h = refl
streams_unused udp_want_recv writing h = refl
streams_unused udp_want_recv reading h = refl
streams_unused tcp_want_connect p h = absurd (omega arith)
streams_unused tcp_want_send p h = absurd (omega arith)
streams_unused tcp_want_recv_head p h = absurd (omega arith)
streams_unused tcp_want_recv_body p h = absurd (omega arith)

-- A call that changes the status of a query that uses UDP, and the counters of one UDP socket with it.
pub udp-IsSound :
    (i : ℕ) (udp : Udp) (addr : Addr) (qry qry' : Query) (r r' : Resolver)
    → get_elem? r.query_list i ≡ some qry
    → get_elem? r.ns_list qry.curr_server ≡ some addr
    → IsSound r
    → (r'.query_list ≡ set r.query_list i qry')
      × (r'.ns_list ≡ r.ns_list)
      × (r'.server_list ≡ r.server_list)
      × (r'.next_server ≡ r.next_server)
      × (r'.udp ≡ (put_udp addr.family udp r).udp)
      × (r'.udp6 ≡ (put_udp addr.family udp r).udp6)
    → (number qry.status < 3) × (number qry'.status < 3)
    → (qry'.curr_server ≡ qry.curr_server) × (qry'.resolver_index ≡ qry.resolver_index)
    → (waits_udp qry'.status ≡ true → IsFresh qry')
    → ((d : Direction)
        → udp_count d udp + one (udp_waits d qry.status)
          ≡ udp_count d (udp_of addr.family r) + one (udp_waits d qry'.status))
    → IsSound r'
udp-IsSound i udp addr qry qry' r r' found at sound same (low, low') (server, index) fresh moved =
    let (queries, names, servers, next, sd, sd6) = same in
    let (place, uses, old_fresh) = sound.3 i qry found in
    IsMove-IsSound i qry qry' r r' found
      (
        queries,
        names,
        ap length servers,
        next,
        udp_moved addr.family udp addr qry qry' r r' at refl server sd sd6 servers moved
            (λ p. (streams_unused qry.status p low, streams_unused qry'.status p low')),
      )
      (index ∙ place, rw (server) uses, fresh) sound

family_equal_refl : (f : Family) → family_equal f f ≡ true
family_equal_refl inet = refl
family_equal_refl inet6 = refl

-- A counter that a query waits for is not 0.
pub udp_positive :
    (d : Direction) (i : ℕ) (addr : Addr) (qry : Query) (r : Resolver)
    → get_elem? r.query_list i ≡ some qry
    → get_elem? r.ns_list qry.curr_server ≡ some addr
    → IsSound r
    → udp_waits d qry.status ≡ true
    → ltb 0 (udp_count d (udp_of addr.family r)) ≡ true
udp_positive d i addr qry r found at sound waiting =
    let c = datagrams d addr.family in
    let counted = sound.0 c in
    let here =
      at_family-eq addr.family addr.family addr r.ns_list qry.curr_server qry.curr_server at refl
        refl
      ∙ family_equal_refl addr.family in
    let positive =
      count_positive (waits r.ns_list c) r.query_list i qry found (rw (here) waiting) in
    lt→ltb 0 (udp_count d (udp_of addr.family r)) (omega (arith, counted, positive))

-- The counters of a socket before and after one more query waits for it, and one less.
pub enters_sending :
    (udp : Udp) (status : Status) (d : Direction)
    → status ≡ void
    → udp_count d (record udp { writers = suc udp.writers }) + one (udp_waits d status)
      ≡ udp_count d udp + one (udp_waits d udp_want_send)
enters_sending udp status sending e = rw e (omega arith)
enters_sending udp status receiving e = rw e refl

pub enters_receiving :
    (udp : Udp) (status : Status) (d : Direction)
    → status ≡ void
    → udp_count d (record udp { readers = suc udp.readers }) + one (udp_waits d status)
      ≡ udp_count d udp + one (udp_waits d udp_want_recv)
enters_receiving udp status sending e = rw e refl
enters_receiving udp status receiving e = rw e (omega arith)

pub leaves_sending :
    (udp : Udp) (status : Status) (d : Direction)
    → status ≡ udp_want_send
    → ltb 0 udp.writers ≡ true
    → udp_count d (record udp { writers = udp.writers - 1 }) + one (udp_waits d status)
      ≡ udp_count d udp + one (udp_waits d void)
leaves_sending udp status sending e h = rw e (omega (arith, ltb→lt 0 udp.writers h))
leaves_sending udp status receiving e h = rw e refl

pub leaves_receiving :
    (udp : Udp) (status : Status) (d : Direction)
    → status ≡ udp_want_recv
    → ltb 0 udp.readers ≡ true
    → udp_count d (record udp { readers = udp.readers - 1 }) + one (udp_waits d status)
      ≡ udp_count d udp + one (udp_waits d void)
leaves_receiving udp status sending e h = rw e refl
leaves_receiving udp status receiving e h = rw e (omega (arith, ltb→lt 0 udp.readers h))
