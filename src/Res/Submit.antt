-- ===== src/Res/Submit.antt =====
-- A query is submitted, started again with the search list, and deleted.
pub mod Kept
pub mod Added
pub mod Failed
use ruli.Common.{
  ℕ, suc, ◌%◌, ◌^◌, ◌==◌, if◌then◌else◌, Run, done, abort, check, read, ltb, leb, length, ◌>>=◌,
  ◌>>◌, Option, some, none, List, [], ◌∷◌, ◌++◌, Bool, ◌&&◌, ◌||◌,
}
use ruli.Limits.{msg_high, dname_encoded}
use ruli.Util.{unpack2}
use ruli.Msg.{msg_build}
use ruli.Txt.Compare.{dname_concat}
use ruli.Addr.Compare.{has_option}
use ruli.Res.{
  Query, Resolver, System, void, code_void, code_launch_search_list, code_concat_search_list, ask,
  put, udp_of, put_udp, create_udp, Outcome, oop_continue, answered,
}
use ruli.Res.Servers.{get_curr_serv_addr, get_next_server}
use ruli.Fsm.Udp.{want_write_udp}
use ruli.Fsm.Connect.{is_ok}

-- The results RULI_RES_… of the submission of a query.
pub data ResResult : Type 0 where
  res_ok res_socket res_msg_build : ResResult

-- The UDP socket for the family of the server that the query uses.
unfoldable pub get_udp_socket : System → Query → Resolver → Run (Option ℕ × Resolver)
get_udp_socket sys qry r = do
  addr ← get_curr_serv_addr r qry
  let udp = udp_of addr.family r
  elim (udp.sd) [
    | some sd ↦ done (some sd, r)
    | none ↦ (do
      let asked = ask (create_udp addr.family) r
      elim (sys.udp_socket asked.calls) [
        | none ↦ done (none, asked)
        | some sd ↦ done (some sd, put_udp addr.family (record udp { sd = some sd }) asked)
      ])
  ]

-- The query message with the TCP prefix, in the buffer of the query.
unfoldable pub build_query : ℕ → Resolver → Run (ResResult × Resolver)
build_query i r = do
  qry ← read r.query_list i
  msg ← msg_build msg_high qry.query_id qry.full_dname qry.q_class qry.q_type
  elim msg [
    | none ↦ done (res_msg_build, r)
    | some bytes ↦ (do
      check (leb (length bytes) msg_high)
      let built = record qry { query_buf = unpack2 (length bytes) ++ bytes }
      r' ← want_write_udp i (put i built r)
      done (res_ok, r'))
  ]

unfoldable pub start_query : System → ℕ → Resolver → Run (ResResult × Resolver)
start_query sys i r = do
  qry ← read r.query_list i
  (udp_sd, r') ← get_udp_socket sys qry r
  elim udp_sd [ none ↦ done (res_socket, r') | some sd ↦ build_query i r' ]

-- `qry` holds what the client has set; the other fields are set here.
abbrev pub submitted_query : Resolver → ℕ → Query → Query
submitted_query r first_server qry = record qry {
  full_dname = qry.q_domain;
  resolver_index = length r.query_list;
  query_id = r.next_query_id;
  status = void;
  first_server = first_server;
  curr_server = first_server;
  query_buf = [];
  answer_buf = none;
  answer_code = code_void;
  remaining_retries = r.res_retry;
  search_index = 0;
}

unfoldable pub query_submit : System → Query → Resolver → Run (ResResult × Resolver)
query_submit sys qry r = do
  check (leb (length qry.q_domain) dname_encoded)
  check (sys.room r.calls)
  let numbered = record r { next_query_id = suc r.next_query_id % 2 ^ 16 }
  (first_server, r') ← get_next_server numbered
  let submitted = submitted_query r first_server qry
  start_query sys (length r.query_list)
      (record r' { query_list = r'.query_list ++ (submitted ∷ []) })

-- The suffix that is tried next, and the query that keeps the place behind it.
unfoldable pub next_search_suffix : Resolver → Query → Run (Option (List ℕ) × Query)
next_search_suffix r qry = elim (r.search_list) [
  | none ↦ done (none, qry)
  | some search_list ↦ (do
    check (leb qry.search_index (length search_list))
    if qry.search_index == length search_list then done (none, qry) else (do
      suffix ← read search_list qry.search_index
      done (some suffix, record qry { search_index = suc qry.search_index })))
]

-- RULI_RCODE_SERVERFAILURE and RULI_RCODE_NAMEERROR
abbrev pub misses_name : ℕ → Bool
misses_name rcode = rcode == 2 || rcode == 3

-- Whether the search list is used: the option RULI_RES_OPT_SEARCH, a server that answered, and an answer that misses the name.
abbrev pub uses_search_list : Query → Bool
uses_search_list qry =
    has_option qry.q_options 0 && (is_ok qry.answer_code && misses_name qry.answer_header.rcode)

-- The assertions on the answer buffer, which is released here.
abbrev pub check_answer : Query → Run (Unit {0})
check_answer qry = elim (qry.answer_buf) [
  | none ↦ abort
  | some bytes ↦ (do
    check (ltb 0 qry.answer_buf_size)
    check (leb qry.answer_buf_size 65535)
    check (ltb 0 (length bytes))
    check (leb (length bytes) 65535)
    check (length bytes == qry.answer_buf_size)
    check (is_ok qry.answer_code))
]

-- If the query could not start again, the client is told so.
unfoldable pub after_restart : ℕ → ResResult → Resolver → Run (Resolver × Outcome)
after_restart i res_ok r = done (r, oop_continue)
after_restart i res_socket r = do
  qry ← read r.query_list i
  done (put i (record qry { answer_code = code_launch_search_list }) r, answered i)
after_restart i res_msg_build r = do
  qry ← read r.query_list i
  done (put i (record qry { answer_code = code_launch_search_list }) r, answered i)

-- The query starts again with the name `full_dname`.
unfoldable pub restart : System → ℕ → Query → List ℕ → Resolver → Run (Resolver × Outcome)
restart sys i qry full_dname r = do
  check_answer qry
  let tweaked = record qry {
    full_dname = full_dname;
    answer_buf = none;
    answer_code = code_void;
    remaining_retries = r.res_retry;
    first_server = qry.curr_server;
  }
  (result, r') ← start_query sys i (put i tweaked r)
  after_restart i result r'

-- `_ruli_fsm_query_done`
unfoldable pub fsm_query_done : System → ℕ → Resolver → Run (Resolver × Outcome)
fsm_query_done sys i r = do
  qry ← read r.query_list i
  if uses_search_list qry
      then (do
        (suffix, searching) ← next_search_suffix r qry
        let r' = put i searching r
        elim suffix [
          | none ↦ done (r', answered i)
          | some domain ↦ (do
            full ← dname_concat dname_encoded searching.q_domain domain
            elim full [
              | none ↦ done (
                put i (record searching { answer_code = code_concat_search_list }) r',
                answered i,
              )
              | some full_dname ↦ restart sys i searching full_dname r'
            ])
        ])
      else done (r, answered i)
