-- ===== src/Fsm/Stream/Bodies.antt =====
-- The body of an answer, received over TCP, leaves a sound state sound.
use ruli.Common.{
  Keeps-choice, Keeps-weaken, ℕ, suc, ◌+◌, ◌-◌, ◌≡◌, refl, ap, ◌∙◌, ◌==◌, ◌&&◌, not, Bool, true,
  false, Option, some, List, [], ◌∷◌, ◌++◌, length, get_elem?, leb, arith, Keeps, Keeps-read,
  Keeps-found, Keeps-check, Keeps-any, Keeps-if, Keeps-option, Keeps->>=, ltb,
}
use ruli.Limits.{msg_low, msg_header}
use ruli.Res.{
  Query, Resolver, is_status, System, code_ok, put, ask, SockResult, sock_ok, would_block,
  send_fail, recv_fail, connect_fail, closed, sock_recv, tcp_want_recv_body, Event,
}
use ruli.Res.Servers.{get_curr_tcp_socket, same_sd}
use ruli.Res.Submit.Kept.{Handled}
use ruli.Fsm.Counters.{IsSound}
use ruli.Fsm.Counters.Streams.{is_status_sound}
use ruli.Fsm.Counters.Puts.{ask-IsSound, put_same-IsSound}
use ruli.Fsm.Tcp.{done_read_tcp_body}
use ruli.Fsm.Tcp.Kept.{done_read_tcp_body-IsSound}
use ruli.Fsm.Connect.{is_void, queries_connect_next}
use ruli.Fsm.Connect.Loops.{queries_connect_next-IsSound}
use ruli.Fsm.Datagrams.{is_write}
use ruli.Fsm.Datagrams.Received.{finish_with-IsSound, continue-IsSound}
use ruli.Fsm.Stream.{more_body, after_body, body_of_answer, recv_tcp_body, find_body, tcp_read}
use ruli.Fsm.Stream.Kept.{recv_tcp_head-IsSound}

-- The query at index `i` waits for the body of an answer.
abbrev IsReceiving : ℕ → Resolver → Type 0
IsReceiving i r =
    (qry : Query) × (get_elem? r.query_list i ≡ some qry) × (qry.status ≡ tcp_want_recv_body)

more_body-IsSound :
    (sys : System) (i : ℕ) (buf : List ℕ) (r : Resolver)
    → IsSound r
    → IsReceiving i r
    → Keeps Handled (more_body sys i buf r)
unfolding more_body
more_body-IsSound sys i buf r sound (qry, found, receiving) =
    let received = record qry { answer_buf = some buf } in
    let received_sound =
      put_same-IsSound i qry received r found refl refl refl
        (λ waiting. let w = rw (receiving) at waiting in cc) sound in
    Keeps-found Handled r.query_list i qry _ found (
      Keeps-if Handled (length buf == qry.answer_buf_size) _ _
        (λ whole.
          Keeps->>= IsSound Handled (done_read_tcp_body i (put i received r)) _
            (done_read_tcp_body-IsSound i (put i received r) received_sound)
            (λ r' s'. Keeps-read Handled r'.query_list i _ (λ left found'.
              Keeps-check Handled (is_void left.answer_code) _
                (λ no_code. finish_with-IsSound sys i code_ok r' s'))))
        (λ more. received_sound))

after_body-IsSound :
    (sys : System) (tcp_sd i left : ℕ) (answer_buf bytes : List ℕ) (result : SockResult)
    (r : Resolver)
    → IsSound r
    → IsReceiving i r
    → Keeps Handled (after_body sys tcp_sd i left answer_buf bytes result r)
unfolding after_body
after_body-IsSound sys tcp_sd i left answer_buf bytes would_block r sound receiving = sound
after_body-IsSound sys tcp_sd i left answer_buf bytes recv_fail r sound receiving =
    continue-IsSound (queries_connect_next sys tcp_sd r)
      (queries_connect_next-IsSound sys tcp_sd r sound)
after_body-IsSound sys tcp_sd i left answer_buf bytes sock_ok r sound receiving =
    Keeps-check Handled (leb (length bytes) left) _
      (λ fits. more_body-IsSound sys i (answer_buf ++ bytes) r sound receiving)
after_body-IsSound sys tcp_sd i left answer_buf bytes send_fail r sound receiving = tt
after_body-IsSound sys tcp_sd i left answer_buf bytes connect_fail r sound receiving = tt
after_body-IsSound sys tcp_sd i left answer_buf bytes closed r sound receiving = tt

recv_tcp_body-IsSound :
    (sys : System) (tcp_sd i : ℕ) (r : Resolver)
    → IsSound r
    → IsReceiving i r
    → Keeps Handled (recv_tcp_body sys tcp_sd i r)
unfolding recv_tcp_body body_of_answer
recv_tcp_body-IsSound sys tcp_sd i r sound receiving =
    Keeps-read Handled r.query_list i _ (λ qry found.
      Keeps-any Handled (get_curr_tcp_socket r qry) _ (λ sd.
        Keeps-check Handled (same_sd sd (some tcp_sd)) _ (λ same.
          Keeps-option Handled qry.answer_buf _ _ (λ e. tt)
            (λ answer_buf e. Keeps-read Handled r.query_list i _ (λ q found'.
              let left = q.answer_buf_size - length answer_buf in
              let c = sock_recv tcp_sd left in
              let received = sys.recv (c ∷ r.calls) in
              Keeps-check Handled (leb msg_low q.answer_buf_size) _ (λ long.
                Keeps-check Handled (leb msg_header (length answer_buf)) _ (λ has_head.
                  Keeps-check Handled (ltb (length answer_buf) q.answer_buf_size) _ (λ unfinished.
                    after_body-IsSound sys tcp_sd i left answer_buf received.1 received.0 (ask c r)
                      (ask-IsSound c r sound) receiving))))))))

-- A query found by `find_body` waits for the body of an answer.
abbrev IsBodyAt : ℕ → List Query → Option ℕ → Type 0
IsBodyAt i queries found =
    (k : ℕ)
    → found ≡ some k
    → (j : ℕ) × (qry : Query) × (k ≡ i + j)
      × (get_elem? queries j ≡ some qry)
      × (qry.status ≡ tcp_want_recv_body)

first : (i k : ℕ) → some i ≡ some k → k ≡ i + 0
first i k e = let same : i ≡ k = cc in omega (arith, same)

second_true : (a b : Bool) → (a && b) ≡ true → b ≡ true
second_true true b e = e
second_true false b e = cc

find_body-IsBodyAt :
    (tcp_sd i : ℕ) (r : Resolver) (queries : List Query)
    → Keeps (IsBodyAt i queries) (find_body tcp_sd r i queries)
unfolding find_body
find_body-IsBodyAt tcp_sd i r [] = λ k e. cc
find_body-IsBodyAt tcp_sd i r (qry ∷ queries) =
    Keeps-any (IsBodyAt i (qry ∷ queries)) (get_curr_tcp_socket r qry) _ (λ sd.
      let here = IsBodyAt i (qry ∷ queries) in
      Keeps-choice here (same_sd sd (some tcp_sd) && is_status qry.status tcp_want_recv_body) _ _
        (λ e k e'. (
          0,
          qry,
          first i k e',
          refl,
          is_status_sound qry.status tcp_want_recv_body
              (second_true (same_sd sd (some tcp_sd)) _ e),
        ))
        (λ e.
          Keeps-weaken (IsBodyAt (suc i) queries) here (find_body tcp_sd r (suc i) queries)
            (find_body-IsBodyAt tcp_sd (suc i) r queries)
            (λ result later k e'.
              let (j, q, at, found, receiving) = later k e' in
              (suc j, q, omega (arith, at), found, receiving))))

pub tcp_read-IsSound :
    (sys : System) (tcp_sd : ℕ) (event : Event) (r : Resolver)
    → IsSound r
    → Keeps Handled (tcp_read sys tcp_sd event r)
unfolding tcp_read
tcp_read-IsSound sys tcp_sd event r sound = Keeps-check Handled (not (is_write event)) _ (λ reads.
    Keeps-check Handled (ltb 0 (length r.query_list)) _ (λ some_query.
      Keeps->>= (IsBodyAt 0 r.query_list) Handled (find_body tcp_sd r 0 r.query_list) _
        (find_body-IsBodyAt tcp_sd 0 r r.query_list)
        (λ waiting at.
          Keeps-option Handled waiting _ _ (λ e. recv_tcp_head-IsSound sys tcp_sd r sound)
            (λ i e.
              let (j, qry, same, found, receiving) = at i e in
              let here : i ≡ j = omega (arith, same) in
              recv_tcp_body-IsSound sys tcp_sd i r sound
                (qry, ap (get_elem? r.query_list) here ∙ found, receiving)))))
