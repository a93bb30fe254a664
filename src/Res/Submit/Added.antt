-- ===== src/Res/Submit/Added.antt =====
-- The submission of a query leaves a sound state sound.
use ruli.Common.{
  ℕ, suc, ◌%◌, ◌^◌, ◌<◌, ◌≡◌, refl, sym, ap, ◌∙◌, some, [], ◌∷◌, ◌++◌, length, get_elem?, one, leb,
  inl, inr, arith, count-append, Keeps, Keeps-check, Keeps->>=, ltb, get_elem?-snoc_cases,
  get_elem?-snoc_last, ltb→lt,
}
use ruli.Limits.{dname_encoded}
use ruli.Res.{void, Query, Resolver, System}
use ruli.Res.Servers.{get_next_server}
use ruli.Fsm.Counters.{waits, IsSound}
use ruli.Fsm.Counters.Puts.{waits_void, counter-same, same-IsSound}
use ruli.Fsm.Udp.Kept.{IsSoundIdle}
use ruli.Res.Submit.{query_submit, submitted_query}
use ruli.Res.Submit.Kept.{Started, start_query-Started}

abbrev pub add_query : Query → Resolver → Resolver
add_query qry r = record r { query_list = r.query_list ++ (qry ∷ []) }

-- A query that waits for nothing may be added.
add_query-IsSound :
    (qry : Query) (r : Resolver)
    → qry.status ≡ void
    → qry.resolver_index ≡ length r.query_list
    → qry.curr_server < length r.ns_list
    → IsSound r
    → IsSound (add_query qry r)
add_query-IsSound qry r idle index range (counted, sized, next, placed) = (
  λ c. omega (
    arith,
    counter-same r (add_query qry r) c refl refl refl,
    counted c,
    count-append (waits r.ns_list c) r.query_list (qry ∷ []),
    ap one (waits_void r qry c idle),
  ),
  sized,
  next,
  λ i q found. elim (get_elem?-snoc_cases r.query_list i qry q found) [
    | inr before ↦ placed i q before
    | inl (last, same) ↦
        rw (last, sym same) (index, range, λ waiting. let w = rw (idle) at waiting in cc)
  ],
)

-- The server given to the query is there, and the list of queries is as before.
abbrev IsGiven : Resolver → ℕ × Resolver → Type 0
IsGiven r result =
    IsSound result.1 × (result.1.query_list ≡ r.query_list) × (result.0 < length result.1.ns_list)

get_next_server-IsGiven : (r : Resolver) → IsSound r → Keeps (IsGiven r) (get_next_server r)
unfolding get_next_server
get_next_server-IsGiven r (counted, sized, next, placed) =
    let servers = length r.ns_list in
    let next_server = suc r.next_server % servers in
    Keeps-check (IsGiven r) (ltb 0 servers) _ (λ some_server.
      Keeps-check (IsGiven r) (ltb next_server servers) _ (λ in_range. (
        (
          λ c. counter-same r (record r { next_server = next_server }) c refl refl refl ∙ counted c,
          sized,
          ltb→lt next_server servers in_range,
          placed,
        ),
        refl,
        next,
      )))

pub query_submit-Started :
    (sys : System) (qry : Query) (r : Resolver)
    → IsSound r
    → Keeps (Started (length r.query_list)) (query_submit sys qry r)
unfolding query_submit
query_submit-Started sys qry r sound =
    let i = length r.query_list in
    let numbered = record r { next_query_id = suc r.next_query_id % 2 ^ 16 } in
    let numbered_sound =
      same-IsSound r numbered
        (refl, refl, refl, refl, λ c. counter-same r numbered c refl refl refl) sound in
    Keeps-check (Started i) (leb (length qry.q_domain) dname_encoded) _ (λ fits.
      Keeps-check (Started i) (sys.room r.calls) _ (λ has_room.
        Keeps->>= (IsGiven numbered) (Started i) (get_next_server numbered) _
          (get_next_server-IsGiven numbered numbered_sound)
          (λ (first_server, r') (s', same, in_range).
            let new = submitted_query r first_server qry in
            let last : get_elem? (r'.query_list ++ (new ∷ [])) i ≡ some new =
              ap (λ n. get_elem? (r'.query_list ++ (new ∷ [])) n) (sym (ap length same))
              ∙ get_elem?-snoc_last r'.query_list new in
            let ready : IsSoundIdle i (add_query new r') = (
              add_query-IsSound new r' refl (sym (ap length same)) in_range s',
              (new, last, refl, (refl, refl)),
            ) in
            start_query-Started sys i (add_query new r') ready)))
