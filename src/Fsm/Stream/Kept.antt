-- ===== src/Fsm/Stream/Kept.antt =====
-- The events of the TCP sockets leave a sound state sound.
use ruli.Common.{
  ℕ, ◌-◌, ◌≡◌, refl, ◌==◌, not, some, List, ◌∷◌, ◌++◌, length, get_elem?, drop, Keeps, Keeps-read,
  Keeps-found, Keeps-check, Keeps-any, Keeps-if, Keeps-bool, Keeps-option, Keeps->>=, Keeps-both,
  ltb,
}
use ruli.Limits.{tcp_header, msg_low, msg_header}
use ruli.Util.{pack2}
use ruli.Msg.{Header, parse_header}
use ruli.Res.{
  Resolver, Server, System, code_malloc, code_timeout, put, ask, put_server, SockResult, sock_ok,
  would_block, send_fail, recv_fail, connect_fail, closed, sock_send, sock_recv, sock_has_connected,
  tcp_want_send, Event, allocate,
}
use ruli.Res.Servers.{find_query_by_id, find_server_by_sd}
use ruli.Res.Submit.Kept.{Handled}
use ruli.Fsm.Counters.{IsSound}
use ruli.Fsm.Counters.Puts.{ask-IsSound, put_void-IsSound, put_server-IsSound}
use ruli.Fsm.Tcp.{done_write_tcp, done_read_tcp_head, done_read_tcp_body, want_read_tcp_body}
use ruli.Fsm.Tcp.Kept.{
  IsVoid, done_write_tcp-IsSound, want_read_tcp_head-IsSound, done_read_tcp_head-IsSound,
  done_read_tcp_head-IsVoid, want_read_tcp_body-IsSound, done_read_tcp_body-IsSound,
}
use ruli.Fsm.Connect.{is_void, is_ok, is_null, switch_else_schedule_finish, queries_connect_next}
use ruli.Fsm.Connect.Kept.{switch_else_schedule_finish-Keeps}
use ruli.Fsm.Connect.Loops.{
  want_connect_tcp-IsSound, queries_tcp_connect2write-IsSound, queries_connect_next-IsSound,
}
use ruli.Fsm.Datagrams.{is_write, find_status, check_answer_flags}
use ruli.Fsm.Datagrams.Received.{finish_with-IsSound, continue-IsSound}
use ruli.Fsm.Stream.{
  tcp_read_timeout, tcp_read_head_timeout, tcp_read_body_timeout, tcp_connect, after_send, send_tcp,
  tcp_write, save_head, head_of_query, whole_head, after_head, more_head, recv_tcp_head,
}

tcp_read_timeout-IsSound :
    (sys : System) (i : ℕ) (r : Resolver) → IsSound r → Keeps IsSound (tcp_read_timeout sys i r)
unfolding tcp_read_timeout
tcp_read_timeout-IsSound sys i r sound =
    Keeps->>= (λ result. IsSound result.1) IsSound (switch_else_schedule_finish i code_timeout r) _
      (switch_else_schedule_finish-Keeps i code_timeout r sound)
      (λ (switched, r') s'.
        Keeps-bool IsSound switched _ _ (want_connect_tcp-IsSound sys i r' s') s')

pub tcp_read_head_timeout-IsSound :
    (sys : System) (i : ℕ) (r : Resolver)
    → IsSound r
    → Keeps IsSound (tcp_read_head_timeout sys i r)
unfolding tcp_read_head_timeout
tcp_read_head_timeout-IsSound sys i r sound =
    Keeps->>= IsSound IsSound (done_read_tcp_head i r) _ (done_read_tcp_head-IsSound i r sound)
      (λ r' s'. tcp_read_timeout-IsSound sys i r' s')

pub tcp_read_body_timeout-IsSound :
    (sys : System) (i : ℕ) (r : Resolver)
    → IsSound r
    → Keeps IsSound (tcp_read_body_timeout sys i r)
unfolding tcp_read_body_timeout
tcp_read_body_timeout-IsSound sys i r sound =
    Keeps->>= IsSound IsSound (done_read_tcp_body i r) _ (done_read_tcp_body-IsSound i r sound)
      (λ r' s'. tcp_read_timeout-IsSound sys i r' s')

pub tcp_connect-IsSound :
    (sys : System) (tcp_sd : ℕ) (event : Event) (r : Resolver)
    → IsSound r
    → Keeps IsSound (tcp_connect sys tcp_sd event r)
unfolding tcp_connect
tcp_connect-IsSound sys tcp_sd event r sound =
    let asked = ask (sock_has_connected tcp_sd) r in
    let asked_sound = ask-IsSound (sock_has_connected tcp_sd) r sound in
    Keeps-check IsSound (is_write event) _ (λ writes.
      Keeps-if IsSound (sys.has_connected asked.calls) _ _
        (λ connected.
          Keeps-check IsSound (ltb 0 (length asked.query_list)) _
            (λ some_query. queries_tcp_connect2write-IsSound tcp_sd asked asked_sound))
        (λ failed. queries_connect_next-IsSound sys tcp_sd asked asked_sound))

after_send-IsSound :
    (sys : System) (tcp_sd i : ℕ) (result : SockResult) (r : Resolver)
    → IsSound r
    → Keeps IsSound (after_send sys tcp_sd i result r)
unfolding after_send
after_send-IsSound sys tcp_sd i would_block r sound = sound
after_send-IsSound sys tcp_sd i send_fail r sound = queries_connect_next-IsSound sys tcp_sd r sound
after_send-IsSound sys tcp_sd i sock_ok r sound =
    Keeps->>= IsSound IsSound (done_write_tcp i r) _ (done_write_tcp-IsSound i r sound)
      (λ r' s'. want_read_tcp_head-IsSound sys i r' s')
after_send-IsSound sys tcp_sd i recv_fail r sound = tt
after_send-IsSound sys tcp_sd i connect_fail r sound = tt
after_send-IsSound sys tcp_sd i closed r sound = tt

pub tcp_write-IsSound :
    (sys : System) (tcp_sd : ℕ) (event : Event) (r : Resolver)
    → IsSound r
    → Keeps IsSound (tcp_write sys tcp_sd event r)
unfolding tcp_write send_tcp
tcp_write-IsSound sys tcp_sd event r sound = Keeps-check IsSound (is_write event) _ (λ writes.
    Keeps-check IsSound (ltb 0 (length r.query_list)) _ (λ some_query.
      Keeps-option IsSound (find_status tcp_want_send 0 r.query_list) _ _ (λ e. tt)
        (λ i e. Keeps-read IsSound r.query_list i _ (λ qry found.
          after_send-IsSound sys tcp_sd i (sys.send (sock_send tcp_sd qry.query_buf ∷ r.calls))
            (ask (sock_send tcp_sd qry.query_buf) r)
            (ask-IsSound (sock_send tcp_sd qry.query_buf) r sound)))))

save_head-IsSound :
    (sys : System) (i : ℕ) (msg_hdr : Header) (msg_len : ℕ) (head : List ℕ) (r : Resolver)
    → IsSound r × IsVoid i r
    → Keeps Handled (save_head sys i msg_hdr msg_len head r)
unfolding save_head
save_head-IsSound sys i msg_hdr msg_len head r (sound, (qry, found, idle)) =
    let asked = ask (allocate msg_len) r in
    let asked_sound = ask-IsSound (allocate msg_len) r sound in
    let saved = record qry {
      answer_buf = some head;
      answer_buf_size = msg_len;
      answer_header = msg_hdr;
    } in
    Keeps-found Handled r.query_list i qry _ found (
      Keeps-check Handled (is_null qry.answer_buf) _ (λ no_answer.
        Keeps-check Handled (is_void qry.answer_code) _ (λ no_code.
          Keeps-if Handled (sys.malloc asked.calls) _ _
            (λ has_room. Keeps-check Handled (length head == msg_header) _ (λ whole.
              continue-IsSound (want_read_tcp_body sys i (put i saved asked)) (
                want_read_tcp_body-IsSound sys i (put i saved asked) (
                  put_void-IsSound i qry saved asked found idle idle refl (sound.3 i qry found).1
                    asked_sound))))
            (λ has_none. finish_with-IsSound sys i code_malloc asked asked_sound))))

head_of_query-IsSound :
    (sys : System) (i : ℕ) (msg_hdr : Header) (msg_len : ℕ) (head : List ℕ) (r : Resolver)
    → IsSound r
    → Keeps Handled (head_of_query sys i msg_hdr msg_len head r)
unfolding head_of_query
head_of_query-IsSound sys i msg_hdr msg_len head r sound =
    let Left : Resolver → Type 0 = λ r'. IsSound r' × IsVoid i r' in
    Keeps->>= Left Handled (done_read_tcp_head i r) _
      (Keeps-both IsSound (IsVoid i) (done_read_tcp_head i r) (done_read_tcp_head-IsSound i r sound)
        (done_read_tcp_head-IsVoid i r))
      (λ r' (sound', idle'). Keeps-read Handled r'.query_list i _ (λ qry found.
        let code = check_answer_flags msg_hdr.flags qry.q_options in
        Keeps-if Handled (not (is_ok code)) _ _ (λ bad. finish_with-IsSound sys i code r' sound')
          (λ good. save_head-IsSound sys i msg_hdr msg_len head r' (sound', idle'))))

whole_head-IsSound :
    (sys : System) (tcp_sd : ℕ) (buf : List ℕ) (r : Resolver)
    → IsSound r
    → Keeps Handled (whole_head sys tcp_sd buf r)
unfolding whole_head
whole_head-IsSound sys tcp_sd buf r sound =
    let drops =
      continue-IsSound (queries_connect_next sys tcp_sd r)
        (queries_connect_next-IsSound sys tcp_sd r sound) in
    Keeps-any Handled (pack2 buf 0) _ (λ msg_len.
      Keeps-if Handled (ltb msg_len msg_low) _ _ (λ too_short. drops)
        (λ long. Keeps-any Handled (parse_header (drop 2 buf) (length buf - 2)) _ (λ parsed.
          Keeps-option Handled parsed _ _ (λ e. tt)
            (λ msg_hdr e.
              Keeps-option Handled (find_query_by_id r.query_list msg_hdr.id) _ _ (λ e'. drops)
                (λ i e'. head_of_query-IsSound sys i msg_hdr msg_len (drop 2 buf) r sound)))))

after_head-IsSound :
    (sys : System) (tcp_sd s : ℕ) (server : Server) (buf : List ℕ) (result : SockResult)
    (r : Resolver)
    → get_elem? r.server_list s ≡ some server
    → IsSound r
    → Keeps Handled (after_head sys tcp_sd s server buf result r)
unfolding after_head
after_head-IsSound sys tcp_sd s server buf would_block r at sound = sound
after_head-IsSound sys tcp_sd s server buf closed r at sound =
    continue-IsSound (queries_connect_next sys tcp_sd r)
      (queries_connect_next-IsSound sys tcp_sd r sound)
after_head-IsSound sys tcp_sd s server buf recv_fail r at sound =
    continue-IsSound (queries_connect_next sys tcp_sd r)
      (queries_connect_next-IsSound sys tcp_sd r sound)
after_head-IsSound sys tcp_sd s server buf sock_ok r at sound =
    let received = record server { tcp_head = some buf } in
    let received_sound = put_server-IsSound s server received r at refl refl refl sound in
    Keeps-if Handled (ltb (length buf) tcp_header) _ _ (λ more. received_sound)
      (λ whole. whole_head-IsSound sys tcp_sd buf (put_server s received r) received_sound)
after_head-IsSound sys tcp_sd s server buf send_fail r at sound = tt
after_head-IsSound sys tcp_sd s server buf connect_fail r at sound = tt

pub recv_tcp_head-IsSound :
    (sys : System) (tcp_sd : ℕ) (r : Resolver)
    → IsSound r
    → Keeps Handled (recv_tcp_head sys tcp_sd r)
unfolding recv_tcp_head more_head
recv_tcp_head-IsSound sys tcp_sd r sound =
    Keeps-option Handled (find_server_by_sd r.server_list tcp_sd) _ _ (λ e. tt)
      (λ s e. Keeps-read Handled r.server_list s _ (λ server at.
        Keeps-option Handled server.tcp_head _ _ (λ e'. tt)
          (λ head e'. Keeps-read Handled r.server_list s _ (λ server' at'.
            Keeps-check Handled (ltb (length head) tcp_header) _ (λ part.
              let c = sock_recv tcp_sd (tcp_header - length head) in
              let received = sys.recv (c ∷ r.calls) in
              after_head-IsSound sys tcp_sd s server' (head ++ received.1) received.0 (ask c r) at'
                (ask-IsSound c r sound))))))
