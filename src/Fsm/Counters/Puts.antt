-- ===== src/Fsm/Counters/Puts.antt =====
-- Stores that change no counter leave the state sound.
use ruli.Common.{ℕ, ◌+◌, ◌<◌, ◌≡◌, refl, sym, ap, ◌∙◌, ◌==◌, true, false, some}
use ruli.Common.{
  length, get_elem?, one, get_or-set_same, get_or-set, get_elem?→get_or, length-set, Bool-cases,
  inl, inr, ==_iff, get_or,
}
use ruli.Addr.Prefix.{inet, inet6, Family}
use ruli.Res.{Udp, udp_of, put_udp, void, Query, Resolver, Server, Call, ask, put, put_server}
use ruli.Fsm.Counters.{
  udp_count, waits_udp, Counter, datagrams, streams, counter, waits, IsSound, IsFresh, Direction,
  sending, receiving, Purpose, connecting, writing, reading, tcp_count, udp_waits, tcp_waits,
  no_server, at_family,
}
use ruli.Fsm.Counters.Moves.{IsMove-IsSound}
use ruli.Fsm.Counters.Streams.{and_false}

udp_waits_void : (d : Direction) → udp_waits d void ≡ false
udp_waits_void sending = refl
udp_waits_void receiving = refl

tcp_waits_void : (p : Purpose) → tcp_waits p void ≡ false
tcp_waits_void connecting = refl
tcp_waits_void writing = refl
tcp_waits_void reading = refl

-- A query without a status waits for no socket.
pub waits_void :
    (r : Resolver) (qry : Query) (c : Counter) → qry.status ≡ void → waits r.ns_list c qry ≡ false
waits_void r qry (datagrams d f) e =
    rw (e, udp_waits_void d) (and_false (at_family r.ns_list f qry.curr_server))
waits_void r qry (streams p n) e = rw (e, tcp_waits_void p) (and_false (qry.curr_server == n))

counter-put :
    (i : ℕ) (qry : Query) (r : Resolver) (c : Counter) → counter c (put i qry r) ≡ counter c r
counter-put i qry r (datagrams d inet) = refl
counter-put i qry r (datagrams d inet6) = refl
counter-put i qry r (streams p n) = refl

-- A query that waits for nothing may change, and its server too.
pub put_void-IsSound :
    (i : ℕ) (qry qry' : Query) (r : Resolver)
    → get_elem? r.query_list i ≡ some qry
    → qry.status ≡ void
    → qry'.status ≡ void
    → qry'.resolver_index ≡ qry.resolver_index
    → qry'.curr_server < length r.ns_list
    → IsSound r
    → IsSound (put i qry' r)
put_void-IsSound i qry qry' r found e e' index uses sound =
    IsMove-IsSound i qry qry' r (put i qry' r) found
      (
        refl,
        refl,
        refl,
        refl,
        λ c. rw (counter-put i qry' r c, waits_void r qry c e, waits_void r qry' c e') refl,
      )
      (index ∙ (sound.3 i qry found).0, uses, λ waiting. let w = rw (e') at waiting in cc) sound

pub waits_same :
    (r : Resolver) (qry qry' : Query) (c : Counter)
    → qry'.status ≡ qry.status
    → qry'.curr_server ≡ qry.curr_server
    → waits r.ns_list c qry ≡ waits r.ns_list c qry'
waits_same r qry qry' (datagrams d f) e e' = rw (e, e') refl
waits_same r qry qry' (streams p n) e e' = rw (e, e') refl

-- A query in TCP mode may change, if it keeps its status and its server.
pub put_same-IsSound :
    (i : ℕ) (qry qry' : Query) (r : Resolver)
    → get_elem? r.query_list i ≡ some qry
    → qry'.status ≡ qry.status
    → qry'.curr_server ≡ qry.curr_server
    → qry'.resolver_index ≡ qry.resolver_index
    → (waits_udp qry.status ≡ true → IsFresh qry')
    → IsSound r
    → IsSound (put i qry' r)
put_same-IsSound i qry qry' r found same uses index fresh sound =
    let (place, range, old_fresh) = sound.3 i qry found in
    IsMove-IsSound i qry qry' r (put i qry' r) found
      (
        refl,
        refl,
        refl,
        refl,
        λ c.
            rw (counter-put i qry' r c)
              (ap (λ w. counter c r + one w) (waits_same r qry qry' c same uses)),
      )
      (index ∙ place, rw (uses) range, λ waiting. fresh (sym (ap waits_udp same) ∙ waiting)) sound

pub counter-same :
    (r r' : Resolver) (c : Counter)
    → r'.udp ≡ r.udp
    → r'.udp6 ≡ r.udp6
    → r'.server_list ≡ r.server_list
    → counter c r' ≡ counter c r
counter-same r r' (datagrams d inet) e e' s = ap (udp_count d) e
counter-same r r' (datagrams d inet6) e e' s = ap (udp_count d) e'
counter-same r r' (streams p n) e e' s = ap (λ servers. tcp_count p (get_or servers n no_server)) s

-- The same queries and counters.
pub same-IsSound :
    (r r' : Resolver)
    → (r'.query_list ≡ r.query_list)
      × (r'.ns_list ≡ r.ns_list)
      × (r'.next_server ≡ r.next_server)
      × (length r'.server_list ≡ length r.server_list)
      × ((c : Counter) → counter c r' ≡ counter c r)
    → IsSound r
    → IsSound r'
same-IsSound r r' (queries, names, next, servers, counters) (counted, sized, in_range, placed) = (
  λ c. simp (queries, names, counters c) (counted c),
  simp (names, servers) sized,
  simp (names, next) in_range,
  λ i qry found. simp names (placed i qry (sym (ap (λ qs. get_elem? qs i) queries) ∙ found)),
)

counter-ask : (a : Call) (r : Resolver) (c : Counter) → counter c (ask a r) ≡ counter c r
counter-ask a r (datagrams d inet) = refl
counter-ask a r (datagrams d inet6) = refl
counter-ask a r (streams p n) = refl

pub ask-IsSound : (a : Call) (r : Resolver) → IsSound r → IsSound (ask a r)
ask-IsSound a r sound = same-IsSound r (ask a r) (refl, refl, refl, refl, counter-ask a r) sound

-- A server may change, if its counters stay.
put_server-counter :
    (s : ℕ) (server server' : Server) (r : Resolver)
    → get_elem? r.server_list s ≡ some server
    → ((p : Purpose) → tcp_count p server' ≡ tcp_count p server)
    → (c : Counter) → counter c (put_server s server' r) ≡ counter c r
put_server-counter s server server' r at same (datagrams d inet) = refl
put_server-counter s server server' r at same (datagrams d inet6) = refl
put_server-counter s server server' r at same (streams p n) = elim (Bool-cases (s == n)) [
  | inl e ↦
      let at_n = sym ((==_iff s n).0 e) in
      let after = get_or-set_same r.server_list s server server' no_server at in
      let before = get_elem?→get_or r.server_list s server no_server at in
      rw (at_n, after, before) (same p)
  | inr e ↦ rw (get_or-set r.server_list s n server' no_server e) refl
]

counts :
    (server server' : Server)
    → (server'.tcp_connecters ≡ server.tcp_connecters)
    → (server'.tcp_writers ≡ server.tcp_writers)
    → (server'.tcp_readers ≡ server.tcp_readers)
    → (p : Purpose) → tcp_count p server' ≡ tcp_count p server
counts server server' c w t connecting = c
counts server server' c w t writing = w
counts server server' c w t reading = t

pub put_server-IsSound :
    (s : ℕ) (server server' : Server) (r : Resolver)
    → get_elem? r.server_list s ≡ some server
    → (server'.tcp_connecters ≡ server.tcp_connecters)
    → (server'.tcp_writers ≡ server.tcp_writers)
    → (server'.tcp_readers ≡ server.tcp_readers)
    → IsSound r
    → IsSound (put_server s server' r)
put_server-IsSound s server server' r at c w t sound =
    same-IsSound r (put_server s server' r)
      (
        refl,
        refl,
        refl,
        length-set r.server_list s server',
        put_server-counter s server server' r at (λ p. counts server server' c w t p),
      )
      sound

put_udp-counter :
    (f : Family) (udp : Udp) (r : Resolver) (c : Counter)
    → (udp.writers ≡ (udp_of f r).writers)
    → (udp.readers ≡ (udp_of f r).readers)
    → counter c (put_udp f udp r) ≡ counter c r
put_udp-counter inet udp r (datagrams sending inet) w t = w
put_udp-counter inet udp r (datagrams receiving inet) w t = t
put_udp-counter inet udp r (datagrams d inet6) w t = refl
put_udp-counter inet6 udp r (datagrams d inet) w t = refl
put_udp-counter inet6 udp r (datagrams sending inet6) w t = w
put_udp-counter inet6 udp r (datagrams receiving inet6) w t = t
put_udp-counter f udp r (streams p n) w t = refl

-- A UDP socket may get a descriptor.
pub put_udp-IsSound :
    (f : Family) (udp : Udp) (r : Resolver)
    → (udp.writers ≡ (udp_of f r).writers)
    → (udp.readers ≡ (udp_of f r).readers)
    → IsSound r
    → IsSound (put_udp f udp r)
put_udp-IsSound f udp r w t sound =
    same-IsSound r (put_udp f udp r) (refl, refl, refl, refl, λ c. put_udp-counter f udp r c w t)
      sound
