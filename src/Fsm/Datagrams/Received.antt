-- ===== src/Fsm/Datagrams/Received.antt =====
-- The end of a query and the messages of the UDP sockets leave a sound state sound.
use ruli.Common.{
  ℕ, ◌<◌, ◌≡◌, refl, sym, ap, ◌∙◌, ◌&&◌, not, Bool, true, false, some, none, List, length,
  get_elem?, Keeps, Keeps-read, Keeps-found, Keeps-check, Keeps-any, Keeps-if, Keeps-option,
  Keeps->>=, Run, ltb, Returns-Keeps, get_elem?-set_same, Bool-cases, inl, inr,
}
use ruli.Limits.{datagram_high}
use ruli.Msg.{Header, parse_header}
use ruli.Res.{
  void, Query, Resolver, Status, is_status, System, AnswerCode, code_ok, code_malloc, put, ask,
  SockResult, sock_ok, would_block, send_fail, recv_fail, connect_fail, closed, sock_recvfrom,
  udp_want_recv, Event, allocate, udp_of,
}
use ruli.Res.Servers.{get_curr_serv_addr, get_curr_tcp_socket, find_query_by_id, same_sd}
use ruli.Res.Submit.Kept.{Handled, fsm_query_done-IsSound}
use ruli.Fsm.Counters.{IsSound}
use ruli.Fsm.Counters.Streams.{is_status_sound}
use ruli.Fsm.Counters.Puts.{ask-IsSound, put_void-IsSound}
use ruli.Fsm.Udp.{done_read_udp}
use ruli.Fsm.Udp.Kept.{IsSoundIdle, done_read_udp-IsSound}
use ruli.Fsm.Tcp.Kept.{want_write_tcp-IsSound}
use ruli.Fsm.Connect.{is_void, is_ok, is_null}
use ruli.Fsm.Connect.Loops.{want_connect_tcp-IsSound}
use ruli.Fsm.Datagrams.{
  fits_answer, truncated, finish_query, finish_with, continue, start_tcp_query, save_answer,
  take_answer, udp_answer, udp_message, after_recvfrom, udp_read, udp_read_bufsz,
  check_answer_flags, is_write, mask_tc, has_flag,
}

-- A truncated answer changes the code alone.
truncated_same :
    (qry : Query)
    → ((truncated qry).status ≡ qry.status)
      × ((truncated qry).resolver_index ≡ qry.resolver_index)
      × ((truncated qry).curr_server ≡ qry.curr_server)
truncated_same qry =
    elim (Bool-cases (is_ok qry.answer_code && has_flag qry.answer_header.flags mask_tc)) [
      | inl e ↦ rw (e) (refl, refl, refl)
      | inr e ↦ rw (e) (refl, refl, refl)
    ]

pub finish_query-IsSound :
    (sys : System) (i : ℕ) (r : Resolver)
    → ((qry : Query) → get_elem? r.query_list i ≡ some qry → qry.status ≡ void → IsSound r)
    → Keeps Handled (finish_query sys i r)
unfolding finish_query
finish_query-IsSound sys i r if_void = Keeps-read Handled r.query_list i _ (λ qry found.
    Keeps-check Handled (is_status qry.status void) _ (λ at_void.
      Keeps-check Handled (not (is_void qry.answer_code)) _ (λ has_code.
        Keeps-check Handled (fits_answer qry) _ (λ fits.
          let idle = is_status_sound qry.status void at_void in
          let sound = if_void qry found idle in
          let (status, index, server) = truncated_same qry in
          let in_range : (truncated qry).curr_server < length r.ns_list =
            rw (server) (sound.3 i qry found).1 in
          fsm_query_done-IsSound sys i (truncated qry) (put i (truncated qry) r)
            (get_elem?-set_same r.query_list i qry (truncated qry) found) (status ∙ idle)
            (put_void-IsSound i qry (truncated qry) r found idle (status ∙ idle) index in_range
              sound)))))

-- The query may have been changed before, if it keeps its status and its server.
finish_put-IsSound :
    (sys : System) (i : ℕ) (qry qry' : Query) (r : Resolver)
    → get_elem? r.query_list i ≡ some qry
    → qry'.status ≡ qry.status
    → qry'.resolver_index ≡ qry.resolver_index
    → qry'.curr_server ≡ qry.curr_server
    → IsSound r
    → Keeps Handled (finish_query sys i (put i qry' r))
finish_put-IsSound sys i qry qry' r found status index server sound =
    finish_query-IsSound sys i (put i qry' r) (λ q found' at_void.
      let same = sym (get_elem?-set_same r.query_list i qry qry' found) ∙ found' in
      let idle = ap (λ o. elim o [ none ↦ void | some x ↦ x.status ]) same ∙ at_void in
      let in_range : qry'.curr_server < length r.ns_list = rw (server) (sound.3 i qry found).1 in
      put_void-IsSound i qry qry' r found (sym status ∙ idle) idle index in_range sound)

pub finish_with-IsSound :
    (sys : System) (i : ℕ) (code : AnswerCode) (r : Resolver)
    → IsSound r
    → Keeps Handled (finish_with sys i code r)
unfolding finish_with
finish_with-IsSound sys i code r sound = Keeps-read Handled r.query_list i _ (λ qry found.
    finish_put-IsSound sys i qry (record qry { answer_code = code }) r found refl refl refl sound)

pub continue-IsSound : (m : Run Resolver) → Keeps IsSound m → Keeps Handled (continue m)
continue-IsSound m kept = Keeps->>= IsSound Handled m _ kept (λ r sound. sound)

start_tcp_query-IsSound :
    (sys : System) (i : ℕ) (r : Resolver) → IsSound r → Keeps IsSound (start_tcp_query sys i r)
unfolding start_tcp_query
start_tcp_query-IsSound sys i r sound = Keeps-read IsSound r.query_list i _ (λ qry found.
    Keeps-any IsSound (get_curr_tcp_socket r qry) _ (λ tcp_sd.
      Keeps-option IsSound tcp_sd _ _ (λ e. want_connect_tcp-IsSound sys i r sound)
        (λ sd e. want_write_tcp-IsSound i r sound)))

save_answer-IsSound :
    (sys : System) (i : ℕ) (msg_hdr : Header) (bytes : List ℕ) (r : Resolver)
    → IsSoundIdle i r
    → Keeps Handled (save_answer sys i msg_hdr bytes r)
unfolding save_answer
save_answer-IsSound sys i msg_hdr bytes r (sound, (qry, found, idle, fresh)) =
    let saved = record qry {
      answer_buf = some bytes;
      answer_buf_size = length bytes;
      answer_header = msg_hdr;
    } in
    let asked = ask (allocate (length bytes)) r in
    let asked_sound = ask-IsSound (allocate (length bytes)) r sound in
    Keeps-found Handled r.query_list i qry _ found (
      Keeps-check Handled (is_null qry.answer_buf) _ (λ no_answer.
        Keeps-check Handled (is_void qry.answer_code) _ (λ no_code.
          Keeps-if Handled (sys.malloc asked.calls) _ _
            (λ has_room. finish_with-IsSound sys i code_ok (put i saved asked) (
              put_void-IsSound i qry saved asked found idle idle refl (sound.3 i qry found).1
                asked_sound))
            (λ has_none. finish_with-IsSound sys i code_malloc asked asked_sound))))

take_answer-IsSound :
    (sys : System) (i : ℕ) (msg_hdr : Header) (bytes : List ℕ) (r : Resolver)
    → IsSoundIdle i r
    → Keeps Handled (take_answer sys i msg_hdr bytes r)
unfolding take_answer
take_answer-IsSound sys i msg_hdr bytes r (sound, idle) =
    Keeps-read Handled r.query_list i _ (λ qry found.
      let code = check_answer_flags msg_hdr.flags qry.q_options in
      Keeps-if Handled (not (is_ok code)) _ _ (λ bad. finish_with-IsSound sys i code r sound)
        (λ good.
          Keeps-if Handled (has_flag msg_hdr.flags mask_tc) _ _
            (λ cut_short.
              continue-IsSound (start_tcp_query sys i r) (start_tcp_query-IsSound sys i r sound))
            (λ whole. save_answer-IsSound sys i msg_hdr bytes r (sound, idle))))

not-false : (b : Bool) → not b ≡ false → b ≡ true
not-false true e = refl
not-false false e = cc

receiving :
    (status : Status) → not (is_status status udp_want_recv) ≡ false → status ≡ udp_want_recv
receiving status e =
    is_status_sound status udp_want_recv (not-false (is_status status udp_want_recv) e)

udp_answer-IsSound :
    (sys : System) (udp_sd i : ℕ) (msg_hdr : Header) (bytes : List ℕ) (r : Resolver)
    → IsSound r
    → Keeps Handled (udp_answer sys udp_sd i msg_hdr bytes r)
unfolding udp_answer
udp_answer-IsSound sys udp_sd i msg_hdr bytes r sound =
    Keeps-read Handled r.query_list i _ (λ qry found.
      Keeps-if Handled (not (is_status qry.status udp_want_recv)) _ _ (λ ignored. sound)
        (λ receives. Keeps-any Handled (get_curr_serv_addr r qry) _ (λ addr.
          Keeps-check Handled (same_sd (some udp_sd) (udp_of addr.family r).sd) _ (λ same.
            Keeps->>= (IsSoundIdle i) Handled (done_read_udp i r) _
              (Returns-Keeps (IsSoundIdle i) (done_read_udp i r)
                (done_read_udp-IsSound i qry r sound found (receiving qry.status receives)))
              (λ r' idle. take_answer-IsSound sys i msg_hdr bytes r' idle)))))

pub udp_message-IsSound :
    (sys : System) (udp_sd : ℕ) (bytes : List ℕ) (r : Resolver)
    → IsSound r
    → Keeps Handled (udp_message sys udp_sd bytes r)
unfolding udp_message
udp_message-IsSound sys udp_sd bytes r sound =
    Keeps-if Handled (ltb datagram_high (length bytes)) _ _ (λ too_long. sound)
      (λ fits. Keeps-any Handled (parse_header bytes (length bytes)) _ (λ parsed.
        Keeps-option Handled parsed _ _ (λ e. sound)
          (λ msg_hdr e.
            Keeps-option Handled (find_query_by_id r.query_list msg_hdr.id) _ _ (λ e'. sound)
              (λ i e'. udp_answer-IsSound sys udp_sd i msg_hdr bytes r sound))))

after_recvfrom-IsSound :
    (sys : System) (udp_sd : ℕ) (result : SockResult) (bytes : List ℕ) (r : Resolver)
    → IsSound r
    → Keeps Handled (after_recvfrom sys udp_sd result bytes r)
unfolding after_recvfrom
after_recvfrom-IsSound sys udp_sd would_block bytes r sound = sound
after_recvfrom-IsSound sys udp_sd recv_fail bytes r sound = sound
after_recvfrom-IsSound sys udp_sd sock_ok bytes r sound =
    udp_message-IsSound sys udp_sd bytes r sound
after_recvfrom-IsSound sys udp_sd send_fail bytes r sound = tt
after_recvfrom-IsSound sys udp_sd connect_fail bytes r sound = tt
after_recvfrom-IsSound sys udp_sd closed bytes r sound = tt

pub udp_read-IsSound :
    (sys : System) (udp_sd : ℕ) (event : Event) (r : Resolver)
    → IsSound r
    → Keeps Handled (udp_read sys udp_sd event r)
unfolding udp_read
udp_read-IsSound sys udp_sd event r sound =
    let asked = ask (sock_recvfrom udp_sd udp_read_bufsz) r in
    let received = sys.recvfrom asked.calls in
    Keeps-check Handled (not (is_write event)) _ (λ reads.
      after_recvfrom-IsSound sys udp_sd received.0 received.1 asked
        (ask-IsSound (sock_recvfrom udp_sd udp_read_bufsz) r sound))
