-- ===== src/Fsm/Counters/Moves.antt =====
-- A call that changes one query and the counters it waits for leaves the state sound.
use ruli.Common.{
  ℕ, ◌+◌, ◌≡◌, sym, ap, some, length, set, get_elem?, one, count-set, inl, inr, arith,
  get_elem?-set_cases, ◌∙◌,
}
use ruli.Res.{Query, Resolver}
use ruli.Fsm.Counters.{Counter, counter, waits, IsCounted, IsPlaced, IsSound}

-- `qry'` has taken the place of `qry`, and the counters have changed with it.
abbrev pub IsMove : ℕ → Query → Query → Resolver → Resolver → Type 0
IsMove i qry qry' r r' =
    (r'.query_list ≡ set r.query_list i qry')
    × (r'.ns_list ≡ r.ns_list)
    × (length r'.server_list ≡ length r.server_list)
    × (r'.next_server ≡ r.next_server)
    × ((c : Counter)
        → counter c r' + one (waits r.ns_list c qry) ≡ counter c r + one (waits r.ns_list c qry'))

pub IsMove-IsCounted :
    (i : ℕ) (qry qry' : Query) (r r' : Resolver)
    → get_elem? r.query_list i ≡ some qry
    → IsMove i qry qry' r r'
    → IsCounted r
    → IsCounted r'
IsMove-IsCounted i qry qry' r r' found (queries, names, servers, next, counted) sound c =
    simp (queries, names)
      (omega
        (arith, counted c, sound c, count-set (waits r.ns_list c) r.query_list i qry qry' found))

pub IsMove-IsSound :
    (i : ℕ) (qry qry' : Query) (r r' : Resolver)
    → get_elem? r.query_list i ≡ some qry
    → IsMove i qry qry' r r'
    → IsPlaced (length r.ns_list) i qry'
    → IsSound r
    → IsSound r'
IsMove-IsSound i qry qry' r r' found move placed (counted, sized, next, all_placed) =
    let (queries, names, servers, same_next, moved) = move in
    (
      IsMove-IsCounted i qry qry' r r' found move counted,
      simp (names, servers) sized,
      simp (names, same_next) next,
      λ j q at_j.
          elim (get_elem?-set_cases r.query_list i j qry' q
            (sym (ap (λ qs. get_elem? qs j) queries) ∙ at_j)) [
              | inl (e, e') ↦ simp (names, e, sym e') placed
              | inr before ↦ simp names (all_placed j q before)
            ],
    )
