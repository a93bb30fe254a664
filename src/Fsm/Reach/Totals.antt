-- ===== src/Fsm/Reach/Totals.antt =====
-- The UDP events in a state that is reached.
use ruli.Common.{ℕ, ◌≡◌, ◌≢◌, none, true, List, some, get_elem?, done, Returns-done}
use ruli.Res.{Query, Resolver, System, Call, udp_want_send, udp_want_recv, oop_write}
use ruli.Fsm.Counters.{IsSound}
use ruli.Fsm.Datagrams.{udp_write, udp_read_timeout}
use ruli.Fsm.Datagrams.Kept.{is_sent, udp_write-IsSound, udp_read_timeout-IsSound}
use ruli.Fsm.Reach.{Reachable, next, udp_written, udp_timed_out, Reachable-IsSound}

-- In every state that is reached and has a query that waits to be sent by UDP, the event that the
-- socket can be written to returns, in a state that is reached as well: its assertions and those of
-- the operations that it calls hold, if `ruli_sock_sendto` has no result but success, a full buffer
-- and a failure, and `gettimeofday` does not fail.
pub udp_write_total :
    (sys : System) (udp_sd i : ℕ) (qry : Query) (r : Resolver)
    → ((calls : List Call) → is_sent (sys.sendto calls) ≡ true)
    → ((calls : List Call) → sys.now calls ≢ none)
    → Reachable sys r
    → get_elem? r.query_list i ≡ some qry
    → qry.status ≡ udp_want_send
    → (r' : Resolver) × (udp_write sys udp_sd oop_write r ≡ done r') × Reachable sys r'
udp_write_total sys udp_sd i qry r documented clock reached found sending =
    let (r', e, sound) = Returns-done IsSound (udp_write sys udp_sd oop_write r) (
      udp_write-IsSound sys udp_sd i qry r documented clock (Reachable-IsSound sys r reached) found
        sending) in
    (r', e, next r r' reached (udp_written udp_sd oop_write r r' e))

-- In every state that is reached, the time-out of a query that waits for a UDP answer returns, in a
-- state that is reached as well: its assertions and those of the operations that it calls hold.
pub udp_read_timeout_total :
    (sys : System) (i : ℕ) (qry : Query) (r : Resolver)
    → Reachable sys r
    → get_elem? r.query_list i ≡ some qry
    → qry.status ≡ udp_want_recv
    → (r' : Resolver) × (udp_read_timeout i r ≡ done r') × Reachable sys r'
udp_read_timeout_total sys i qry r reached found receiving =
    let (r', e, sound) =
      Returns-done IsSound (udp_read_timeout i r)
        (udp_read_timeout-IsSound i qry r (Reachable-IsSound sys r reached) found receiving) in
    (r', e, next r r' reached (udp_timed_out i r r' e))
