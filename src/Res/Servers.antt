-- ===== src/Res/Servers.antt =====
-- The server that a query uses and the choice of the next one, the list of queries and that of servers searched.
pub mod Choice
pub mod Rounds
mod Tests
use ruli.Common.{ℕ, suc, ◌-◌, ◌%◌, Bool, true, false, Option, none, some, List, []}
use ruli.Common.{◌∷◌, length, ltb, ◌==◌, if◌then◌else◌, Run, done, check, read, ◌>>=◌, ◌>>◌}
use ruli.Addr.Compare.{Addr}
use ruli.Res.{Query, Server, Resolver}

unfoldable pub get_curr_server_index : Resolver → Query → Run ℕ
get_curr_server_index r qry = do
  check (ltb qry.curr_server (length r.server_list))
  done (qry.curr_server)

unfoldable pub get_curr_server : Resolver → Query → Run Server
get_curr_server r qry = do s ← get_curr_server_index r qry; read r.server_list s

unfoldable pub get_curr_serv_addr : Resolver → Query → Run Addr
get_curr_serv_addr r qry = do
  check (ltb 0 (length r.ns_list))
  check (ltb qry.curr_server (length r.ns_list))
  read r.ns_list qry.curr_server

unfoldable pub get_curr_serv_port : Resolver → Query → Run ℕ
get_curr_serv_port r qry = do server ← get_curr_server r qry; done (server.port)

unfoldable pub get_curr_tcp_socket : Resolver → Query → Run (Option ℕ)
get_curr_tcp_socket r qry = do server ← get_curr_server r qry; done (server.tcp_sd)

-- The server given to a query, and the resolver with the next one.
unfoldable pub get_next_server : Resolver → Run (ℕ × Resolver)
get_next_server r = do
  let servers = length r.ns_list
  check (ltb 0 servers)
  let next_server = suc r.next_server % servers
  check (ltb next_server servers)
  done (r.next_server, record r { next_server = next_server })

-- `true` is the result 0, and `false` is -1: every server was tried often enough.
unfoldable pub switch_server : Resolver → Query → Run (Bool × Query)
switch_server r qry = do
  let servers = length r.ns_list
  check (ltb 0 servers)
  let curr_server = suc qry.curr_server % servers
  check (ltb curr_server servers)
  let switched = record qry { curr_server = curr_server }
  if curr_server == qry.first_server
      then if ltb qry.remaining_retries 1
        then done (false, switched)
        else done (true, record switched { remaining_retries = qry.remaining_retries - 1 })
      else done (true, switched)

-- The index of the first query with this identifier, among those behind the first `i`.
unfoldable pub find_query : ℕ → ℕ → List Query → Option ℕ
find_query query_id i [] = none
find_query query_id i (qry ∷ queries) =
    if qry.query_id == query_id then some i else find_query query_id (suc i) queries

unfoldable pub find_query_by_id : List Query → ℕ → Option ℕ
find_query_by_id query_list query_id = find_query query_id 0 query_list

abbrev pub same_sd : Option ℕ → Option ℕ → Bool
same_sd none none = true
same_sd none (some b) = false
same_sd (some a) none = false
same_sd (some a) (some b) = a == b

-- The index of the first server with this TCP socket, among those behind the first `s`.
unfoldable pub find_server : ℕ → ℕ → List Server → Option ℕ
find_server sd s [] = none
find_server sd s (server ∷ servers) =
    if same_sd server.tcp_sd (some sd) then some s else find_server sd (suc s) servers

unfoldable pub find_server_by_sd : List Server → ℕ → Option ℕ
find_server_by_sd server_list sd = find_server sd 0 server_list
