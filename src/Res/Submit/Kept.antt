-- ===== src/Res/Submit/Kept.antt =====
-- The start of a query leaves a sound state sound.
use ruli.Common.{
  ℕ, ◌<◌, ◌≡◌, refl, sym, ap, ◌∙◌, ◌==◌, Option, some, none, List, ◌∷◌, ◌++◌, length, get_elem?,
  leb, Keeps, Keeps-found, Keeps-check, Keeps-any, Keeps-if, Keeps->>=, Keeps-option, read,
  Returns-Keeps, get_elem?-set_same,
}
use ruli.Limits.{msg_high, dname_encoded}
use ruli.Util.{unpack2}
use ruli.Msg.{msg_build}
use ruli.Txt.Compare.{dname_concat}
use ruli.Addr.Prefix.{Family, inet, inet6}
use ruli.Res.{
  Call, void, Query, Resolver, System, Outcome, code_void, code_launch_search_list,
  code_concat_search_list, put, ask, create_udp, udp_of,
}
use ruli.Res.Servers.{get_curr_serv_addr}
use ruli.Fsm.Counters.{IsSound, IsIdle}
use ruli.Fsm.Counters.Puts.{put_void-IsSound, ask-IsSound, put_udp-IsSound}
use ruli.Fsm.Udp.{want_write_udp}
use ruli.Fsm.Udp.Kept.{want_write_udp-IsSound, IsSoundIdle}
use ruli.Res.Submit.{
  ResResult, res_ok, res_socket, res_msg_build, get_udp_socket, build_query, start_query,
  next_search_suffix, uses_search_list, check_answer, after_restart, restart, fsm_query_done,
}

-- The state is sound, and if the query did not start, it waits for nothing.
abbrev pub IsStarted : ℕ → ResResult → Resolver → Type 0
IsStarted i res_ok r = IsSound r
IsStarted i res_socket r = IsSoundIdle i r
IsStarted i res_msg_build r = IsSoundIdle i r

abbrev pub Started : ℕ → ResResult × Resolver → Type 0
Started i result = IsStarted i result.0 result.1

abbrev SocketMade : ℕ → Option ℕ × Resolver → Type 0
SocketMade i result = IsSoundIdle i result.1

udp_of-ask : (f : Family) (c : Call) (r : Resolver) → udp_of f (ask c r) ≡ udp_of f r
udp_of-ask inet c r = refl
udp_of-ask inet6 c r = refl

get_udp_socket-SocketMade :
    (sys : System) (i : ℕ) (qry : Query) (r : Resolver)
    → IsSoundIdle i r
    → Keeps (SocketMade i) (get_udp_socket sys qry r)
unfolding get_udp_socket
get_udp_socket-SocketMade sys i qry r (sound, idle) =
    Keeps-any (SocketMade i) (get_curr_serv_addr r qry) _ (λ addr.
      let asked = ask-IsSound (create_udp addr.family) r sound in
      let udp = udp_of addr.family r in
      Keeps-option (SocketMade i) udp.sd _ _
        (λ no_socket.
          Keeps-option (SocketMade i) (sys.udp_socket (create_udp addr.family ∷ r.calls)) _ _
            (λ failed. (asked, idle))
            (λ sd made. (
              put_udp-IsSound addr.family (record udp { sd = some sd })
                  (ask (create_udp addr.family) r)
                  (sym (ap (λ u. u.writers) (udp_of-ask addr.family (create_udp addr.family) r)))
                  (sym (ap (λ u. u.readers) (udp_of-ask addr.family (create_udp addr.family) r)))
                  asked,
              idle,
            )))
        (λ sd there. (sound, idle)))

build_query-Started : (i : ℕ) (r : Resolver) → IsSoundIdle i r → Keeps (Started i) (build_query i r)
unfolding build_query
build_query-Started i r (sound, (qry, found, idle, fresh)) =
    Keeps-found (Started i) r.query_list i qry _ found (
      Keeps-any (Started i) (msg_build msg_high qry.query_id qry.full_dname qry.q_class qry.q_type)
        _
        (λ msg.
          Keeps-option (Started i) msg _ _ (λ failed. (sound, (qry, found, idle, fresh)))
            (λ bytes made. Keeps-check (Started i) (leb (length bytes) msg_high) _ (λ fits.
              let built = record qry { query_buf = unpack2 (length bytes) ++ bytes } in
              let built_sound =
                put_void-IsSound i qry built r found idle idle refl (sound.3 i qry found).1 sound in
              let built_idle : IsIdle i (put i built r) =
                (built, get_elem?-set_same r.query_list i qry built found, idle, fresh) in
              Keeps->>= IsSound (Started i) (want_write_udp i (put i built r)) _
                (Returns-Keeps IsSound (want_write_udp i (put i built r))
                  (want_write_udp-IsSound i (put i built r) built_sound built_idle))
                (λ r' s'. s')))))

pub start_query-Started :
    (sys : System) (i : ℕ) (r : Resolver)
    → IsSoundIdle i r
    → Keeps (Started i) (start_query sys i r)
unfolding start_query
start_query-Started sys i r (sound, (qry, found, idle, fresh)) =
    Keeps-found (Started i) r.query_list i qry _ found (
      Keeps->>= (SocketMade i) (Started i) (get_udp_socket sys qry r) _
        (get_udp_socket-SocketMade sys i qry r (sound, (qry, found, idle, fresh)))
        (λ (udp_sd, r') made.
          Keeps-option (Started i) udp_sd _ _ (λ failed. made)
            (λ sd e. build_query-Started i r' made)))

-- A suffix is chosen without a change of status or server.
abbrev IsSearching : Query → Option (List ℕ) × Query → Type 0
IsSearching qry result =
    (result.1.status ≡ qry.status)
    × (result.1.resolver_index ≡ qry.resolver_index)
    × (result.1.curr_server ≡ qry.curr_server)

next_search_suffix-IsSearching :
    (r : Resolver) (qry : Query) → Keeps (IsSearching qry) (next_search_suffix r qry)
unfolding next_search_suffix
next_search_suffix-IsSearching r qry =
    Keeps-option (IsSearching qry) r.search_list _ _ (λ none_there. (refl, refl, refl))
      (λ search_list e.
        Keeps-check (IsSearching qry) (leb qry.search_index (length search_list)) _ (λ in_range.
          Keeps-if (IsSearching qry) (qry.search_index == length search_list) _ _
            (λ last. (refl, refl, refl))
            (λ more.
              Keeps-any (IsSearching qry) (read search_list qry.search_index) _
                (λ suffix. (refl, refl, refl)))))

abbrev pub Handled : Resolver × Outcome → Type 0
Handled result = IsSound result.0

after_restart-IsSound :
    (i : ℕ) (result : ResResult) (r : Resolver)
    → IsStarted i result r
    → Keeps Handled (after_restart i result r)
unfolding after_restart
after_restart-IsSound i res_ok r started = started
after_restart-IsSound i res_socket r (sound, (qry, found, idle, fresh)) =
    Keeps-found Handled r.query_list i qry _ found (
      put_void-IsSound i qry (record qry { answer_code = code_launch_search_list }) r found idle
        idle refl (sound.3 i qry found).1 sound)
after_restart-IsSound i res_msg_build r (sound, (qry, found, idle, fresh)) =
    Keeps-found Handled r.query_list i qry _ found (
      put_void-IsSound i qry (record qry { answer_code = code_launch_search_list }) r found idle
        idle refl (sound.3 i qry found).1 sound)

restart-IsSound :
    (sys : System) (i : ℕ) (qry : Query) (full_dname : List ℕ) (r : Resolver)
    → get_elem? r.query_list i ≡ some qry
    → qry.status ≡ void
    → IsSound r
    → Keeps Handled (restart sys i qry full_dname r)
unfolding restart
restart-IsSound sys i qry full_dname r found idle sound =
    let tweaked = record qry {
      full_dname = full_dname;
      answer_buf = none;
      answer_code = code_void;
      remaining_retries = r.res_retry;
      first_server = qry.curr_server;
    } in
    let ready : IsSoundIdle i (put i tweaked r) = (
      put_void-IsSound i qry tweaked r found idle idle refl (sound.3 i qry found).1 sound,
      (tweaked, get_elem?-set_same r.query_list i qry tweaked found, idle, (refl, refl)),
    ) in
    Keeps-any Handled (check_answer qry) _ (λ checked.
      Keeps->>= (Started i) Handled (start_query sys i (put i tweaked r)) _
        (start_query-Started sys i (put i tweaked r) ready)
        (λ (result, r') started. after_restart-IsSound i result r' started))

pub fsm_query_done-IsSound :
    (sys : System) (i : ℕ) (qry : Query) (r : Resolver)
    → get_elem? r.query_list i ≡ some qry
    → qry.status ≡ void
    → IsSound r
    → Keeps Handled (fsm_query_done sys i r)
unfolding fsm_query_done
fsm_query_done-IsSound sys i qry r found idle sound =
    Keeps-found Handled r.query_list i qry _ found (
      Keeps-if Handled (uses_search_list qry) _ _
        (λ uses.
          Keeps->>= (IsSearching qry) Handled (next_search_suffix r qry) _
            (next_search_suffix-IsSearching r qry)
            (λ (suffix, searching) (status, index, server).
              let in_range : searching.curr_server < length r.ns_list =
                rw (server) (sound.3 i qry found).1 in
              let searching_sound =
                put_void-IsSound i qry searching r found idle (status ∙ idle) index in_range
                  sound in
              let found' = get_elem?-set_same r.query_list i qry searching found in
              Keeps-option Handled suffix _ _ (λ e. searching_sound)
                (λ domain e.
                  Keeps-any Handled (dname_concat dname_encoded searching.q_domain domain) _
                    (λ full.
                      Keeps-option Handled full _ _
                        (λ too_long.
                          put_void-IsSound i searching
                            (record searching { answer_code = code_concat_search_list })
                            (put i searching r) found' (status ∙ idle) (status ∙ idle) refl in_range
                            searching_sound)
                        (λ full_dname made.
                          restart-IsSound sys i searching full_dname (put i searching r) found'
                            (status ∙ idle) searching_sound)))))
        (λ otherwise. sound))
