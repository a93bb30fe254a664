-- ===== src/Msg/Tests.antt =====
-- A query for the SRV records of `a.`.
use ruli.Common.{ℕ, List, [], ◌∷◌, some, arith, ◌≡◌, done}
use ruli.Msg.{msg_build, parse_header}
use ruli.Msg.Query.{query, msg_build-query, parse_header-query}

abbrev name : List ℕ
name = 1 ∷ b'a' ∷ 0 ∷ []

msg_build-query_example : msg_build 271 7 name 1 33 ≡ done (some (query 7 name 1 33))
msg_build-query_example =
    msg_build-query 271 7 name 1 33 (omega arith) (omega arith) (omega arith) (omega arith)
      (omega arith) (omega arith)

parse_header-query_example :
    parse_header (query 7 name 1 33) 19
    ≡ done (
        some (record {
          id = 7;
          flags = 256;
          rcode = 0;
          qdcount = 1;
          ancount = 0;
          nscount = 0;
          arcount = 0;
        }))
parse_header-query_example = parse_header-query 7 name 1 33 19 (omega arith) (omega arith)
