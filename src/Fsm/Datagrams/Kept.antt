-- ===== src/Fsm/Datagrams/Kept.antt =====
-- The events of the UDP sockets on a sound state: writing returns if the clock does not fail, and the time-out always.
use ruli.Common.{ℕ, zero, suc, ◌+◌, ◌<◌, ◌≡◌, refl, ap, ◌∙◌, ==_refl, Bool, true, false, some}
use ruli.Common.{
  none, List, [], ◌∷◌, length, get_elem?, lt→ltb, ◌≢◌, arith, done, read, check, ltb, ◌>>=◌,
}
use ruli.Common.{
  ◌>>◌, Returns, Returns->>=, Returns-read, Returns-check, Returns-eq, Returns-bool,
  get_elem?-eq-get_or, get_elem?_bounds, Bool-cases, inl, inr, get_or, Run,
}
use ruli.Res.{
  Call, number, Query, Resolver, Status, is_status, System, AnswerCode, code_send, code_timeout,
  ask, SockResult, sock_ok, would_block, send_fail, recv_fail, connect_fail, closed, sock_sendto,
  udp_want_send, udp_want_recv, oop_write,
}
use ruli.Res.Servers.{
  get_curr_serv_addr, get_curr_serv_port, get_curr_server, get_curr_server_index,
}
use ruli.Fsm.Counters.{IsSound, no_server}
use ruli.Fsm.Counters.Datagrams.{get_curr_serv_addr_total}
use ruli.Fsm.Counters.Streams.{is_status_sound}
use ruli.Fsm.Counters.Puts.{ask-IsSound}
use ruli.Fsm.Udp.{want_write_udp, done_write_udp, done_read_udp}
use ruli.Fsm.Udp.Kept.{
  IsSoundIdle, want_write_udp-IsSound, want_read_udp-IsSound, done_write_udp-IsSound,
  done_read_udp-IsSound,
}
use ruli.Fsm.Connect.{switch_else_schedule_finish, is_void, is_ok}
use ruli.Fsm.Connect.Kept.{IsSwitchedTo, switch_else_schedule_finish-IsSound}
use ruli.Fsm.Datagrams.{
  switch_udp, udp_read_timeout, find_status, after_sendto, send_udp, udp_write, udp_buf,
}

some_eq : (a b : ℕ) → some a ≡ some b → a ≡ b
some_eq a b e = cc

-- `find_status` finds a query with the status, if there is one, and the first of them.
pub find_status_sound :
    (status : Status) (i k : ℕ) (queries : List Query)
    → find_status status i queries ≡ some k
    → (j : ℕ) × (qry : Query) × (k ≡ i + j)
      × (get_elem? queries j ≡ some qry)
      × (qry.status ≡ status)
unfolding find_status
find_status_sound status i k [] e = cc
find_status_sound status i k (qry ∷ queries) e = elim (Bool-cases (is_status qry.status status)) [
  | inl same ↦
      let e' = rw (same) at e in
      (0, qry, omega (arith, some_eq i k e'), refl, is_status_sound qry.status status same)
  | inr differs ↦
      let e' = rw (differs) at e in
      let (j, q, at, found, has) = find_status_sound status (suc i) k queries e' in
      (suc j, q, omega (arith, at), found, has)
]

-- A query with the status that is not the first one stands behind it.
behind :
    (status : Status) (j : ℕ) (q : Query) (queries : List Query) (qry : Query)
    → get_elem? (q ∷ queries) j ≡ some qry
    → qry.status ≡ status
    → is_status q.status status ≡ false
    → (j' : ℕ) × (get_elem? queries j' ≡ some qry)
behind status zero q queries qry found has differs =
    let same : q.status ≡ status =
      ap (λ o. elim o [ none ↦ status | some x ↦ x.status ]) found ∙ has in
    let differs' = rw (same) at differs in let e = ==_refl (number status) in cc
behind status (suc j) q queries qry found has differs = (j, found)

pub find_status_complete :
    (status : Status) (i j : ℕ) (queries : List Query) (qry : Query)
    → get_elem? queries j ≡ some qry
    → qry.status ≡ status
    → (k : ℕ) × (find_status status i queries ≡ some k)
unfolding find_status
find_status_complete status i j [] qry found has = cc
find_status_complete status i j (q ∷ queries) qry found has =
    elim (Bool-cases (is_status q.status status)) [
      | inl same ↦ (i, rw (same) refl)
      | inr differs ↦
          let (j', found') = behind status j q queries qry found has differs in
          let (k, e) = find_status_complete status (suc i) j' queries qry found' has in
          (k, rw (differs) e)
    ]

-- The UDP operations that try the next server.
abbrev pub switched_udp : ℕ → AnswerCode → Resolver → Run Resolver
switched_udp i code r = do
  (switched, r') ← switch_else_schedule_finish i code r
  elim switched [ true ↦ want_write_udp i r' | false ↦ done r' ]

pub switched_udp-IsSound :
    (i : ℕ) (code : AnswerCode) (r : Resolver)
    → is_void code ≡ false
    → is_ok code ≡ false
    → IsSoundIdle i r
    → Returns IsSound (switched_udp i code r)
switched_udp-IsSound i code r not_void not_ok (sound, idle) =
    Returns->>= (IsSwitchedTo i) IsSound (switch_else_schedule_finish i code r) _
      (switch_else_schedule_finish-IsSound i code r not_void not_ok sound idle)
      (λ (switched, r') (sound', idle').
        Returns-bool IsSound switched _ _ (λ e. want_write_udp-IsSound i r' sound' (idle' e))
          (λ e. sound'))

pub udp_read_timeout-IsSound :
    (i : ℕ) (qry : Query) (r : Resolver)
    → IsSound r
    → get_elem? r.query_list i ≡ some qry
    → qry.status ≡ udp_want_recv
    → Returns IsSound (udp_read_timeout i r)
unfolding udp_read_timeout
udp_read_timeout-IsSound i qry r sound found receiving =
    Returns->>= (IsSoundIdle i) IsSound (done_read_udp i r) _
      (done_read_udp-IsSound i qry r sound found receiving)
      (λ r' idle. switched_udp-IsSound i code_timeout r' refl refl idle)

switch_udp-IsSound :
    (i : ℕ) (qry : Query) (r : Resolver)
    → IsSound r
    → get_elem? r.query_list i ≡ some qry
    → qry.status ≡ udp_want_send
    → Returns IsSound (switch_udp i code_send r)
unfolding switch_udp
switch_udp-IsSound i qry r sound found sending =
    Returns->>= (IsSoundIdle i) IsSound (done_write_udp i r) _
      (done_write_udp-IsSound i qry r sound found sending)
      (λ r' idle. switched_udp-IsSound i code_send r' refl refl idle)

-- The documented results of `ruli_sock_sendto`.
abbrev pub is_sent : SockResult → Bool
is_sent result = elim result [ sock_ok ↦ true | would_block ↦ true | send_fail ↦ true | _ ↦ false ]

after_sendto-IsSound :
    (sys : System) (i : ℕ) (result : SockResult) (qry : Query) (r : Resolver)
    → is_sent result ≡ true
    → ((calls : List Call) → sys.now calls ≢ none)
    → IsSound r
    → get_elem? r.query_list i ≡ some qry
    → qry.status ≡ udp_want_send
    → Returns IsSound (after_sendto sys i result r)
unfolding after_sendto
after_sendto-IsSound sys i would_block qry r documented clock sound found sending = sound
after_sendto-IsSound sys i send_fail qry r documented clock sound found sending =
    switch_udp-IsSound i qry r sound found sending
after_sendto-IsSound sys i sock_ok qry r documented clock sound found sending =
    Returns->>= (IsSoundIdle i) IsSound (done_write_udp i r) _
      (done_write_udp-IsSound i qry r sound found sending)
      (λ r' (sound', idle'). want_read_udp-IsSound sys i r' clock sound' idle')
after_sendto-IsSound sys i recv_fail qry r documented clock sound found sending = cc
after_sendto-IsSound sys i connect_fail qry r documented clock sound found sending = cc
after_sendto-IsSound sys i closed qry r documented clock sound found sending = cc

get_curr_serv_port_total :
    (r : Resolver) (qry : Query)
    → qry.curr_server < length r.server_list
    → (port : ℕ) × (get_curr_serv_port r qry ≡ done port)
unfolding get_curr_serv_port get_curr_server get_curr_server_index
get_curr_serv_port_total r qry range =
    let at = get_elem?-eq-get_or r.server_list qry.curr_server no_server range in
    let in_range = lt→ltb qry.curr_server (length r.server_list) range in
    (
      (get_or r.server_list qry.curr_server no_server).port,
      rw (in_range, at, read, check, ◌>>=◌, ◌>>◌) refl,
    )

send_udp-IsSound :
    (sys : System) (udp_sd i : ℕ) (qry : Query) (r : Resolver)
    → ((calls : List Call) → is_sent (sys.sendto calls) ≡ true)
    → ((calls : List Call) → sys.now calls ≢ none)
    → IsSound r
    → get_elem? r.query_list i ≡ some qry
    → qry.status ≡ udp_want_send
    → Returns IsSound (send_udp sys udp_sd i r)
unfolding send_udp
send_udp-IsSound sys udp_sd i qry r documented clock sound found sending =
    let range = (sound.3 i qry found).1 in
    let (addr, e, at) = get_curr_serv_addr_total r qry range in
    let (port, e') = get_curr_serv_port_total r qry (rw (sound.1) range) in
    let sent = ask (sock_sendto udp_sd addr port (udp_buf qry)) r in
    Returns-read IsSound r.query_list i qry _ found (
      Returns-eq IsSound (get_curr_serv_addr r qry) addr _ e (
        Returns-eq IsSound (get_curr_serv_port r qry) port _ e' (
          after_sendto-IsSound sys i (sys.sendto sent.calls) qry sent (documented sent.calls) clock
            (ask-IsSound (sock_sendto udp_sd addr port (udp_buf qry)) r sound) found sending)))

-- The event that a UDP socket can be written to returns, if a query waits for that and the clock does not fail.
pub udp_write-IsSound :
    (sys : System) (udp_sd j : ℕ) (qry : Query) (r : Resolver)
    → ((calls : List Call) → is_sent (sys.sendto calls) ≡ true)
    → ((calls : List Call) → sys.now calls ≢ none)
    → IsSound r
    → get_elem? r.query_list j ≡ some qry
    → qry.status ≡ udp_want_send
    → Returns IsSound (udp_write sys udp_sd oop_write r)
unfolding udp_write
udp_write-IsSound sys udp_sd j qry r documented clock sound found sending =
    let (k, e) = find_status_complete udp_want_send 0 j r.query_list qry found sending in
    let (m, q, at, found', sending') = find_status_sound udp_want_send 0 k r.query_list e in
    let bound = get_elem?_bounds r.query_list j qry found in
    let here : k ≡ m = omega (arith, at) in
    Returns-check IsSound (ltb 0 (length r.query_list)) _
      (lt→ltb 0 (length r.query_list) (omega (arith, bound)))
      (rw (e, here) (send_udp-IsSound sys udp_sd m q r documented clock sound found' sending'))
