-- ===== src/Res/Servers/Tests.antt =====
-- A query with two tries more at a resolver with two servers.
use ruli.Common.{ℕ, ◌+◌, ◌%◌, ◌≤◌, ◌≡◌, [], ◌∷◌, true, false, none, done, arith}
use ruli.Addr.Prefix.{inet}
use ruli.Addr.Compare.{Addr}
use ruli.Res.{Query, Resolver, Udp, void, code_void}
use ruli.Res.Servers.Rounds.{switch_times, switch_times-switches_left}

abbrev address : ℕ → Addr
address n = record {
  family = inet;
  addr = 192 ∷ 0 ∷ 2 ∷ n ∷ [];
  has_src = false;
  src_family = inet;
  src = [];
}

abbrev closed_udp : Udp
closed_udp = record { sd = none; writers = 0; readers = 0 }

abbrev two_servers : Resolver
two_servers = record {
  server_list = [];
  query_list = [];
  udp = closed_udp;
  udp6 = closed_udp;
  next_server = 0;
  next_query_id = 0;
  search_list = none;
  ns_list = address 1 ∷ address 2 ∷ [];
  res_retry = 2;
  res_timeout = 10;
  calls = [];
}

abbrev at_first_server : Query
at_first_server = record {
  resolver_index = 0;
  query_id = 0;
  status = void;
  first_server = 0;
  curr_server = 0;
  remaining_retries = 2;
  query_buf = [];
  tv = (0, 0);
  search_index = 0;
  full_dname = [];
  q_domain = [];
  q_class = 1;
  q_type = 1;
  q_options = 0;
  answer_buf = none;
  answer_buf_size = 0;
  answer_code = code_void;
  answer_header = record {
    id = 0;
    flags = 0;
    rcode = 0;
    qdcount = 0;
    ancount = 0;
    nscount = 0;
    arcount = 0;
  };
}

-- Five switches are possible.
switch_times-switches_left_example :
    (qry' : Query) × (switch_times 3 two_servers at_first_server ≡ done (true, qry'))
    × (3 ≤ 5 → qry'.curr_server ≡ (0 + 3) % 2)
switch_times-switches_left_example =
    switch_times-switches_left 3 two_servers at_first_server (omega arith) (omega arith)
