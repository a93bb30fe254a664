-- ===== src/Fsm/Connect/Kept.antt =====
-- The next server and the connection to it, on a sound state.
use ruli.Common.{
  ℕ, ◌<◌, ◌≡◌, refl, ◌∙◌, not, Bool, true, false, some, none, length, get_elem?, arith, Keeps,
  Keeps-read, Keeps-check, Keeps-if, Keeps->>=, Returns, Returns-Keeps, Returns->>=, Returns-read,
  Returns-check, Returns-if, get_elem?-set_same,
}
use ruli.Res.{void, Query, Resolver, is_status, AnswerCode, code_void, put, ask, query_done_now}
use ruli.Res.Servers.{switch_server}
use ruli.Res.Servers.Choice.{IsSwitched, switch_server-IsSwitched}
use ruli.Fsm.Counters.{IsSound, IsIdle}
use ruli.Fsm.Counters.Streams.{is_status_sound}
use ruli.Fsm.Counters.Puts.{put_void-IsSound, ask-IsSound}
use ruli.Fsm.Connect.{is_void, is_ok, is_null, schedule_finish, switch_else_schedule_finish}

-- The number of servers is not 0.
some_server : (r : Resolver) → IsSound r → 0 < length r.ns_list
some_server r sound = omega (arith, sound.2)

-- The state is sound, and the query waits for nothing if it has another server.
abbrev pub IsSwitchedTo : ℕ → Bool × Resolver → Type 0
IsSwitchedTo i result = IsSound result.1 × (result.0 ≡ true → IsIdle i result.1)

-- A query that waits for nothing is put back, and its end is scheduled.
finished-IsSound :
    (i : ℕ) (code : AnswerCode) (qry qry' : Query) (r : Resolver)
    → get_elem? r.query_list i ≡ some qry
    → qry'.status ≡ void
    → qry'.resolver_index ≡ qry.resolver_index
    → qry'.curr_server < length r.ns_list
    → IsSound (put i qry' r)
    → IsSound (ask (query_done_now i) (put i (record qry' { answer_code = code }) (put i qry' r)))
finished-IsSound i code qry qry' r found idle index range sound =
    let found' = get_elem?-set_same r.query_list i qry qry' found in
    let done' = record qry' { answer_code = code } in
    ask-IsSound (query_done_now i) (put i done' (put i qry' r))
      (put_void-IsSound i qry' done' (put i qry' r) found' idle idle refl range sound)

schedule_finish-IsSound :
    (i : ℕ) (code : AnswerCode) (qry qry' : Query) (r : Resolver)
    → get_elem? r.query_list i ≡ some qry
    → qry'.status ≡ void
    → qry'.resolver_index ≡ qry.resolver_index
    → qry'.curr_server < length r.ns_list
    → qry'.answer_buf ≡ none
    → qry'.answer_code ≡ code_void
    → IsSound (put i qry' r)
    → Returns IsSound (schedule_finish i code qry' (put i qry' r))
unfolding schedule_finish
schedule_finish-IsSound i code qry qry' r found idle index range no_answer no_code sound =
    Returns-check IsSound (is_null qry'.answer_buf) _ (rw (no_answer) refl) (
      Returns-check IsSound (is_void qry'.answer_code) _ (rw (no_code) refl)
        (finished-IsSound i code qry qry' r found idle index range sound))

schedule_finish-Keeps :
    (i : ℕ) (code : AnswerCode) (qry qry' : Query) (r : Resolver)
    → get_elem? r.query_list i ≡ some qry
    → qry'.status ≡ void
    → qry'.resolver_index ≡ qry.resolver_index
    → qry'.curr_server < length r.ns_list
    → IsSound (put i qry' r)
    → Keeps IsSound (schedule_finish i code qry' (put i qry' r))
unfolding schedule_finish
schedule_finish-Keeps i code qry qry' r found idle index range sound =
    Keeps-check IsSound (is_null qry'.answer_buf) _ (λ no_answer.
      Keeps-check IsSound (is_void qry'.answer_code) _
        (λ no_code. finished-IsSound i code qry qry' r found idle index range sound))

pub switch_else_schedule_finish-IsSound :
    (i : ℕ) (code : AnswerCode) (r : Resolver)
    → is_void code ≡ false
    → is_ok code ≡ false
    → IsSound r
    → IsIdle i r
    → Returns (IsSwitchedTo i) (switch_else_schedule_finish i code r)
unfolding switch_else_schedule_finish
switch_else_schedule_finish-IsSound i code r not_void not_ok sound
      (qry, found, idle, (no_answer, no_code)) =
    let switched_sound : (qry' : Query)
        → qry'.curr_server < length r.ns_list
        → qry'.status ≡ qry.status
        → qry'.resolver_index ≡ qry.resolver_index
        → IsSound (put i qry' r) =
      λ qry' range status index.
        put_void-IsSound i qry qry' r found idle (status ∙ idle) index range sound in
    Returns-read (IsSwitchedTo i) r.query_list i qry _ found (
      Returns-check (IsSwitchedTo i) (is_status qry.status void) _ (rw (idle) refl) (
        Returns-check (IsSwitchedTo i) (not (is_void code)) _ (rw (not_void) refl) (
          Returns-check (IsSwitchedTo i) (not (is_ok code)) _ (rw (not_ok) refl) (
            Returns->>= (IsSwitched r qry) (IsSwitchedTo i) (switch_server r qry) _
              (switch_server-IsSwitched r qry (some_server r sound))
              (λ (switched, qry') (range, status, index, answer, answer_code).
                Returns-if (IsSwitchedTo i) switched _ _
                  (λ e. (
                    switched_sound qry' range status index,
                    λ t. (
                      qry',
                      get_elem?-set_same r.query_list i qry qry' found,
                      status ∙ idle,
                      (answer ∙ no_answer, answer_code ∙ no_code),
                    ),
                  ))
                  (λ e.
                    Returns->>= IsSound (IsSwitchedTo i)
                      (schedule_finish i code qry' (put i qry' r)) _
                      (schedule_finish-IsSound i code qry qry' r found (status ∙ idle) index range
                        (answer ∙ no_answer) (answer_code ∙ no_code)
                        (switched_sound qry' range status index))
                      (λ finished sound'. (sound', λ f. cc))))))))

-- The same for a query that may have an answer buffer, if the call returns.
pub switch_else_schedule_finish-Keeps :
    (i : ℕ) (code : AnswerCode) (r : Resolver)
    → IsSound r
    → Keeps (λ result. IsSound result.1) (switch_else_schedule_finish i code r)
unfolding switch_else_schedule_finish
switch_else_schedule_finish-Keeps i code r sound =
    let Kept : Bool × Resolver → Type 0 = λ result. IsSound result.1 in
    Keeps-read Kept r.query_list i _ (λ qry found.
      Keeps-check Kept (is_status qry.status void) _ (λ at_void.
        Keeps-check Kept (not (is_void code)) _ (λ not_void.
          Keeps-check Kept (not (is_ok code)) _ (λ not_ok.
            Keeps->>= (IsSwitched r qry) Kept (switch_server r qry) _
              (Returns-Keeps (IsSwitched r qry) (switch_server r qry)
                (switch_server-IsSwitched r qry (some_server r sound)))
              (λ (switched, qry') (range, status, index, answer, answer_code).
                let idle = status ∙ is_status_sound qry.status void at_void in
                let put_sound =
                  put_void-IsSound i qry qry' r found (is_status_sound qry.status void at_void) idle
                    index range sound in
                Keeps-if Kept switched _ _ (λ e. put_sound)
                  (λ e.
                    Keeps->>= IsSound Kept (schedule_finish i code qry' (put i qry' r)) _
                      (schedule_finish-Keeps i code qry qry' r found idle index range put_sound)
                      (λ finished sound'. sound')))))))
