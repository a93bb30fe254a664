-- ===== src/Fsm/Datagrams/Steps.antt =====
-- The UDP events without a condition on the queries, if they return.
use ruli.Common.{
  ℕ, refl, ◌∷◌, length, Keeps, Keeps-read, Keeps-check, Keeps-any, Keeps-option, Keeps->>=, ltb,
  Returns-Keeps,
}
use ruli.Res.{
  Resolver, System, code_send, code_timeout, ask, SockResult, sock_ok, would_block, send_fail,
  recv_fail, connect_fail, closed, sock_sendto, udp_want_send, Event,
}
use ruli.Res.Servers.{get_curr_serv_addr, get_curr_serv_port}
use ruli.Fsm.Counters.{IsSound}
use ruli.Fsm.Counters.Puts.{ask-IsSound}
use ruli.Fsm.Udp.{done_write_udp, done_read_udp}
use ruli.Fsm.Udp.Kept.{IsSoundIdle, want_read_udp-Keeps, done_write_udp-Keeps, done_read_udp-Keeps}
use ruli.Fsm.Datagrams.{
  switch_udp, udp_read_timeout, find_status, is_write, after_sendto, send_udp, udp_write, udp_buf,
}
use ruli.Fsm.Datagrams.Kept.{switched_udp-IsSound, switched_udp}

pub udp_read_timeout-Keeps :
    (i : ℕ) (r : Resolver) → IsSound r → Keeps IsSound (udp_read_timeout i r)
unfolding udp_read_timeout
udp_read_timeout-Keeps i r sound =
    Keeps->>= (IsSoundIdle i) IsSound (done_read_udp i r) _ (done_read_udp-Keeps i r sound)
      (λ r' idle.
        Returns-Keeps IsSound (switched_udp i code_timeout r')
          (switched_udp-IsSound i code_timeout r' refl refl idle))

switch_udp-Keeps : (i : ℕ) (r : Resolver) → IsSound r → Keeps IsSound (switch_udp i code_send r)
unfolding switch_udp
switch_udp-Keeps i r sound =
    Keeps->>= (IsSoundIdle i) IsSound (done_write_udp i r) _ (done_write_udp-Keeps i r sound)
      (λ r' idle.
        Returns-Keeps IsSound (switched_udp i code_send r')
          (switched_udp-IsSound i code_send r' refl refl idle))

after_sendto-Keeps :
    (sys : System) (i : ℕ) (result : SockResult) (r : Resolver)
    → IsSound r
    → Keeps IsSound (after_sendto sys i result r)
unfolding after_sendto
after_sendto-Keeps sys i would_block r sound = sound
after_sendto-Keeps sys i send_fail r sound = switch_udp-Keeps i r sound
after_sendto-Keeps sys i sock_ok r sound =
    Keeps->>= (IsSoundIdle i) IsSound (done_write_udp i r) _ (done_write_udp-Keeps i r sound)
      (λ r' (sound', idle'). want_read_udp-Keeps sys i r' sound' idle')
after_sendto-Keeps sys i recv_fail r sound = tt
after_sendto-Keeps sys i connect_fail r sound = tt
after_sendto-Keeps sys i closed r sound = tt

pub udp_write-Keeps :
    (sys : System) (udp_sd : ℕ) (event : Event) (r : Resolver)
    → IsSound r
    → Keeps IsSound (udp_write sys udp_sd event r)
unfolding udp_write send_udp
udp_write-Keeps sys udp_sd event r sound = Keeps-check IsSound (is_write event) _ (λ writes.
    Keeps-check IsSound (ltb 0 (length r.query_list)) _ (λ some_query.
      Keeps-option IsSound (find_status udp_want_send 0 r.query_list) _ _ (λ e. tt)
        (λ i e. Keeps-read IsSound r.query_list i _ (λ qry found.
          Keeps-any IsSound (get_curr_serv_addr r qry) _ (λ addr.
            Keeps-any IsSound (get_curr_serv_port r qry) _ (λ port.
              let c = sock_sendto udp_sd addr port (udp_buf qry) in
              after_sendto-Keeps sys i (sys.sendto (c ∷ r.calls)) (ask c r)
                (ask-IsSound c r sound)))))))
