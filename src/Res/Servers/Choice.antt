-- ===== src/Res/Servers/Choice.antt =====
-- The order in which the servers are tried.
use ruli.Common.{
  suc, ◌%◌, ◌<◌, ◌≡◌, refl, ◌==◌, Bool, length, ltb, lt→ltb, arith, Returns, Returns-check,
  Returns-if,
}
use ruli.Res.{Query, Resolver}
use ruli.Res.Servers.{switch_server}

-- What `switch_server` leaves as it is, and that there is a server of the new number.
abbrev pub IsSwitched : Resolver → Query → Bool × Query → Type 0
IsSwitched r qry result =
    (result.1.curr_server < length r.ns_list)
    × (result.1.status ≡ qry.status)
    × (result.1.resolver_index ≡ qry.resolver_index)
    × (result.1.answer_buf ≡ qry.answer_buf)
    × (result.1.answer_code ≡ qry.answer_code)

pub switch_server-IsSwitched :
    (r : Resolver) (qry : Query)
    → 0 < length r.ns_list
    → Returns (IsSwitched r qry) (switch_server r qry)
unfolding switch_server
switch_server-IsSwitched r qry some_server =
    let servers = length r.ns_list in
    let curr_server = suc qry.curr_server % servers in
    let in_range : curr_server < servers = omega arith in
    Returns-check (IsSwitched r qry) (ltb 0 servers) _ (lt→ltb 0 servers some_server) (
      Returns-check (IsSwitched r qry) (ltb curr_server servers) _
        (lt→ltb curr_server servers in_range)
        (Returns-if (IsSwitched r qry) (curr_server == qry.first_server) _ _
          (λ back.
            Returns-if (IsSwitched r qry) (ltb qry.remaining_retries 1) _ _
              (λ e. (in_range, refl, refl, refl, refl)) (λ e. (in_range, refl, refl, refl, refl)))
          (λ on. (in_range, refl, refl, refl, refl))))
