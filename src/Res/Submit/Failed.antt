-- ===== src/Res/Submit/Failed.antt =====
-- The submission of a query that fails.
use ruli.Common.{
  ℕ, suc, ◌%◌, ◌^◌, ◌<◌, ◌≤◌, ◌≡◌, refl, true, some, none, [], ◌∷◌, ◌++◌, length, get_elem?, arith,
  lt→ltb, le→leb, List, done, check, read, ◌>>=◌, ◌>>◌, Keeps-done, ◌∙◌, get_elem?-snoc_last,
}
use native.Mathlib.Nat.{mod-lt}
use ruli.Limits.{dname_encoded}
use ruli.Addr.Prefix.{Family, inet, inet6}
use ruli.Addr.Compare.{Addr}
use ruli.Res.{Query, Resolver, System, Call, udp_of, ask, create_udp}
use ruli.Res.Servers.{get_next_server, get_curr_serv_addr}
use ruli.Fsm.Counters.{IsSound}
use ruli.Res.Submit.{query_submit, submitted_query, start_query, get_udp_socket, res_socket}
use ruli.Res.Submit.Kept.{Started}
use ruli.Res.Submit.Added.{query_submit-Started}

start_fails :
    (sys : System) (i : ℕ) (qry : Query) (addr : Addr) (r : Resolver)
    → get_elem? r.query_list i ≡ some qry
    → qry.curr_server < length r.ns_list
    → get_elem? r.ns_list qry.curr_server ≡ some addr
    → (udp_of addr.family r).sd ≡ none
    → ((calls : List Call) → sys.udp_socket calls ≡ none)
    → start_query sys i r ≡ done (res_socket, ask (create_udp addr.family) r)
unfolding get_curr_serv_addr start_query get_udp_socket
start_fails sys i qry addr r found curr at unopened refused =
    let some_server = lt→ltb 0 (length r.ns_list) (omega (arith, curr)) in
    let in_range = lt→ltb qry.curr_server (length r.ns_list) curr in
    rw
      (
        found,
        read,
        ◌>>=◌,
        ◌>>◌,
        some_server,
        in_range,
        check,
        at,
        unopened,
        refused (ask (create_udp addr.family) r).calls,
      )
      refl

-- The resolver with the query that is to be started.
abbrev with_query : Query → Resolver → Resolver
with_query qry r = record r {
  next_query_id = suc r.next_query_id % 2 ^ 16;
  next_server = suc r.next_server % length r.ns_list;
  query_list = r.query_list ++ (submitted_query r r.next_server qry ∷ []);
}

same_socket :
    (f : Family) (qry : Query) (r : Resolver) → (udp_of f (with_query qry r)).sd ≡ (udp_of f r).sd
same_socket inet qry r = refl
same_socket inet6 qry r = refl

submit_starts :
    (sys : System) (qry : Query) (r : Resolver)
    → r.next_server < length r.ns_list
    → length qry.q_domain ≤ dname_encoded
    → sys.room r.calls ≡ true
    → query_submit sys qry r ≡ start_query sys (length r.query_list) (with_query qry r)
unfolding query_submit get_next_server
submit_starts sys qry r next fits has_room =
    let n = length r.ns_list in
    let some_server = lt→ltb 0 n (omega (arith, next)) in
    let next_in_range =
      lt→ltb (suc r.next_server % n) n (mod-lt (suc r.next_server) (omega (arith, next))) in
    rw
      (
        le→leb (length qry.q_domain) dname_encoded fits,
        has_room,
        some_server,
        next_in_range,
        check,
        ◌>>=◌,
        ◌>>◌,
      )
      refl

submit_fails :
    (sys : System) (qry : Query) (addr : Addr) (r : Resolver)
    → r.next_server < length r.ns_list
    → length qry.q_domain ≤ dname_encoded
    → sys.room r.calls ≡ true
    → get_elem? r.ns_list r.next_server ≡ some addr
    → (udp_of addr.family r).sd ≡ none
    → ((calls : List Call) → sys.udp_socket calls ≡ none)
    → query_submit sys qry r ≡ done (res_socket, ask (create_udp addr.family) (with_query qry r))
submit_fails sys qry addr r next fits has_room at unopened refused =
    let new = submitted_query r r.next_server qry in
    submit_starts sys qry r next fits has_room
    ∙ start_fails sys (length r.query_list) new addr (with_query qry r)
        (get_elem?-snoc_last r.query_list new) next at (same_socket addr.family qry r ∙ unopened)
        refused

-- If the UDP socket for the server of a query is not open and cannot be created, in a sound state with
-- memory for a query more, and with a name of at most 255 bytes, then `ruli_res_query_submit` fails
-- with RULI_RES_SOCKET, and the query stays behind the others in the list of the resolver, which is
-- sound.
pub query_submit-leaves :
    (sys : System) (qry : Query) (addr : Addr) (r : Resolver)
    → IsSound r
    → length qry.q_domain ≤ dname_encoded
    → sys.room r.calls ≡ true
    → get_elem? r.ns_list r.next_server ≡ some addr
    → (udp_of addr.family r).sd ≡ none
    → ((calls : List Call) → sys.udp_socket calls ≡ none)
    → (r' : Resolver) × (query_submit sys qry r ≡ done (res_socket, r'))
      × (r'.query_list ≡ r.query_list ++ (submitted_query r r.next_server qry ∷ []))
      × IsSound r'
query_submit-leaves sys qry addr r sound fits has_room at unopened refused =
    let left = ask (create_udp addr.family) (with_query qry r) in
    let e = submit_fails sys qry addr r sound.2 fits has_room at unopened refused in
    let started : Started (length r.query_list) (res_socket, left) =
      Keeps-done (Started (length r.query_list)) (query_submit sys qry r) (res_socket, left)
        (query_submit-Started sys qry r sound) e in
    (left, e, refl, started.0)
