-- ===== src/Lib.antt =====
-- RULI, a resolver library for DNS SRV records: domain names, messages, the order of servers and of addresses.
--
-- The program is a library of several layers. `src/ruli_util.c` and `src/ruli_txt.c` read and write numbers and domain
-- names, `src/ruli_msg.c` builds queries, `src/ruli_parse.c` takes answers apart, `src/ruli_srv.c` turns the answer to an
-- SRV query into an ordered list of servers, `src/ruli_addr.c` orders the addresses of a server, and all of them keep their
-- items in the arrays of `src/ruli_list.c`. Below lie the resolver and its state machine (`src/ruli_res.c`,
-- `src/ruli_fsm.c`), which send the queries and receive the answers; above lie the front ends. The calls between the modelled layers are those of the code: the handler of
-- the SRV answer parses the message, compares the owners of its records with the name that was asked for, parses the data
-- of the records, sorts and selects.
--
-- Files and code:
--
--   Common           what every module shares: lists measured by native numbers, Boolean tests, bits, and the type `Run` of
--                    what a C function does: it returns a value, it stops at a failed `assert`, it accesses memory outside of
--                    an object, or the loop of the model was given too few rounds.
--   Limits           src/ruli_limits.h
--   Util             ruli_unpack2, ruli_pack2 and ruli_pack4 of src/ruli_util.c
--   Txt.Names        what a domain name is, independent of the code: labels, their wire format and their text
--   Txt.Encode       build_label and ruli_dname_encode of src/ruli_txt.c
--   Txt.Decode       ruli_dname_decode of src/ruli_txt.c
--   Txt.Expand       ruli_dname_expand of src/ruli_txt.c
--   Txt.Compare      ruli_dname_match, ruli_dname_compare and ruli_dname_concat of src/ruli_txt.c
--   Msg              src/ruli_msg.c
--   Parse.Records    skip_rr_owner, parse_question, parse_rr and parse_section of src/ruli_parse.c
--   Parse.Message    ruli_parse_message of src/ruli_parse.c
--   Parse.Data       ruli_parse_rr_a, _aaaa, _srv, _cname and _mx of src/ruli_parse.c
--   Srv.Order        steps 3 and 4 of on_srv_answer in src/ruli_srv.c
--   Srv.Answer       on_srv_answer of src/ruli_srv.c from its start to step 4
--   Addr.Prefix      scopes, prefix tables and common prefixes of src/ruli_addr.c
--   Addr.Compare     rfc3484_cmp and addr_cmp_preference of src/ruli_addr.c
--   RuliList         src/ruli_list.c
--   Res              the state of src/ruli_res.c: queries, servers, the resolver, and what it asks of the system
--   Res.Servers      the current and the next server of a query, and the two searches of src/ruli_res.c
--   Res.Submit       start_query, ruli_res_query_submit and _ruli_fsm_query_done of src/ruli_res.c
--   Res.Delete       ruli_res_query_delete of src/ruli_res.c, _ruli_query_status_done of src/ruli_fsm.c
--   Fsm.Udp, Fsm.Tcp the query_want_ and query_done_ functions of src/ruli_fsm.c
--   Fsm.Connect      the next server, query_want_connect_tcp, queries_connect_next and queries_tcp_connect2write
--   Fsm.Datagrams    query_done, on_udp_write, on_udp_read and on_udp_read_timeout of src/ruli_fsm.c
--   Fsm.Stream       on_tcp_connect, on_tcp_write, on_tcp_read and the TCP time-outs of src/ruli_fsm.c
--   Fsm.Counters     which counter counts which queries, and the calls that keep this
--   Fsm.Reach        the states that a new resolver reaches
--
-- State: an object in memory is the list of its bytes and a pointer into it an index; a null pointer and an error code
-- without further result are `none`. A buffer that is filled from its start is the list of the bytes stored so far, with its
-- size beside it. A list of references to records is the list of the records. The allocator and the random numbers are
-- parameters: functions that say whether there is memory for the next request, and what the next number is.
--
-- The resolver is one record that every call takes and returns. A pointer to a query or to a server is its index in the
-- list, as long as the list is as it is. Each call of the event source, the sockets, the allocator and the clock is put in
-- front of the list `calls` of the record, and what it returns is a function of that list, in the record `System`: the
-- system may answer by all that happened before. The theorems hold for every such function; what they assume of a call is
-- among their hypotheses. An event handler returns the new state, and whether the callback of a query is called, which is
-- the last thing that a handler does.
--
-- Bounds and fuel: sums of 16-bit fields stay far below the range of an `int`, so they are numbers without a bound; casts to
-- 8, 16 and 32 bits are written out, and so is the doubling of the capacity of an array, an `int`. The encoder and the decoder are given one round more than there are bytes, the
-- walks over labels one round more than there are bytes from the label to the end of the message, and step 4 one round for
-- each record; each round takes at least one byte or record, so the rounds suffice. The loop
-- over the servers of a query is given one round more than there are servers for each of its tries.
--
-- Not modelled: the sockets, the event loop and the configuration files below the resolver, the front ends, steps 5 and 6 of the SRV answer with the walk and
-- fallback queries, the text form of addresses, and the generator of random numbers, whose core is a copy of another
-- project's code and whose scaling is floating-point. The debug output is left out everywhere.

pub mod Common
pub mod Limits
pub mod Util
pub mod Txt
pub mod Msg
pub mod Parse
pub mod Srv
pub mod Addr
pub mod RuliList
pub mod Res
pub mod Fsm
