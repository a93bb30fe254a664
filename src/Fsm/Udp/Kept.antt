-- ===== src/Fsm/Udp/Kept.antt =====
-- The operations of Fsm.Udp on a sound state: their assertions hold, but for that on the clock, and the state stays sound.
use ruli.Fsm.Counters.Streams.{is_status_sound}
use ruli.Res.Servers.{get_curr_serv_addr}
use ruli.Common.{
  Run, ◌≢◌, ◌⊎◌, ◌+◌, List, abort, bad_read, none, some, Keeps, Returns-Keeps, Option-cases,
  Bool-cases, inl, inr, true, false,
}
use ruli.Common.{
  check, read, ◌>>=◌, ◌>>◌, ℕ, suc, ◌-◌, ◌≡◌, refl, get_elem?, get_elem?-set_same, arith, Returns,
  ltb, Returns-read, Returns-eq, Returns-check,
}
use ruli.Res.{
  Timer, ask, on_time, on_udp_read_timeout, Call, ask_if_none, on_fd, oop_read, on_udp_read,
  put_udp, Query, Resolver, System, void, udp_want_send, udp_want_recv, is_status, udp_of,
}
use ruli.Fsm.Counters.{waits_udp, IsSound, IsIdle, sending, receiving}
use ruli.Fsm.Udp.{schedule_timeout, want_write_udp, done_write_udp, want_read_udp, done_read_udp}
use ruli.Fsm.Counters.Datagrams.{
  get_curr_serv_addr_total, udp-IsSound, udp_positive, enters_sending, enters_receiving,
  leaves_sending, leaves_receiving,
}

pub want_write_udp-IsSound :
    (i : ℕ) (r : Resolver) → IsSound r → IsIdle i r → Returns IsSound (want_write_udp i r)
unfolding want_write_udp
want_write_udp-IsSound i r sound (qry, found, is_void, fresh) =
    let (addr, e, at) = get_curr_serv_addr_total r qry (sound.3 i qry found).1 in
    let udp = udp_of addr.family r in
    Returns-read IsSound r.query_list i qry _ found (
      Returns-eq IsSound (get_curr_serv_addr r qry) addr _ e (
        Returns-check IsSound (is_status qry.status void) _ (rw (is_void) refl) (
          udp-IsSound i (record udp { writers = suc udp.writers }) addr qry _ r _ found at sound
            (refl, refl, refl, refl, refl, refl) (rw (is_void) (omega arith), omega arith)
            (refl, refl) (λ waiting. fresh) (λ d. enters_sending udp qry.status d is_void))))

-- The query and the state when the time-out is scheduled.
abbrev pub scheduled : ℕ → Query → Timer → ℕ × ℕ → Resolver → Query × Resolver
scheduled i qry timer tv r = (record qry { tv = tv }, ask (on_time tv timer i) r)

-- What holds behind the call, if it returns.
pub Keeps-timeout :
    (sys : System) (i : ℕ) (qry : Query) (timer : Timer) (r : Resolver)
    (f : Query × Resolver → Run Resolver)
    → ((tv : ℕ × ℕ) → Keeps IsSound (f (scheduled i qry timer tv r)))
    → Keeps IsSound (schedule_timeout sys i qry timer r >>= f)
Keeps-timeout sys i qry timer r f h = elim (Option-cases (sys.now r.calls)) [
  | inl stopped ↦ rw (schedule_timeout, stopped, ◌>>=◌) tt
  | inr (now, told) ↦ rw (schedule_timeout, told, ◌>>=◌) (h (now.0 + r.res_timeout, now.1))
]

-- The call returns in a sound state, or `gettimeofday` fails.
want_read_udp-cases :
    (sys : System) (i : ℕ) (r : Resolver)
    → IsSound r
    → IsIdle i r
    → ((calls : List Call) × (sys.now calls ≡ none) × (want_read_udp sys i r ≡ abort))
      ⊎ Returns IsSound (want_read_udp sys i r)
unfolding want_read_udp
want_read_udp-cases sys i r sound (qry, found, is_void, fresh) =
    let (addr, e, at) = get_curr_serv_addr_total r qry (sound.3 i qry found).1 in
    let udp = udp_of addr.family r in
    let asked = ask_if_none udp.readers (on_fd udp.sd oop_read on_udp_read) r in
    let counted = put_udp addr.family (record udp { readers = suc udp.readers }) asked in
    let at_void : is_status qry.status void ≡ true = rw (is_void) refl in
    elim (Option-cases (sys.now counted.calls)) [
      | inl stopped ↦ inl (
        counted.calls,
        stopped,
        rw (found, read, e, at_void, check, schedule_timeout, stopped, ◌>>=◌, ◌>>◌) refl,
      )
      | inr (now, told) ↦ inr (
          Returns-read IsSound r.query_list i qry _ found (
            Returns-eq IsSound (get_curr_serv_addr r qry) addr _ e (
              Returns-check IsSound (is_status qry.status void) _ at_void (
                Returns-eq IsSound (schedule_timeout sys i qry on_udp_read_timeout counted)
                  (scheduled i qry on_udp_read_timeout (now.0 + r.res_timeout, now.1) counted) _
                  (rw (schedule_timeout, told) refl)
                  (udp-IsSound i (record udp { readers = suc udp.readers }) addr qry _ r _ found at
                    sound (refl, refl, refl, refl, refl, refl)
                    (rw (is_void) (omega arith), omega arith) (refl, refl) (λ waiting. fresh)
                    (λ d. enters_receiving udp qry.status d is_void))))))
    ]

pub want_read_udp-IsSound :
    (sys : System) (i : ℕ) (r : Resolver)
    → ((calls : List Call) → sys.now calls ≢ none)
    → IsSound r
    → IsIdle i r
    → Returns IsSound (want_read_udp sys i r)
want_read_udp-IsSound sys i r clock sound idle = elim (want_read_udp-cases sys i r sound idle) [
  | inl (calls, stopped, e) ↦ absurd (clock calls stopped)
  | inr returns ↦ returns
]

-- The same whatever the clock does, if the call returns.
pub want_read_udp-Keeps :
    (sys : System) (i : ℕ) (r : Resolver)
    → IsSound r
    → IsIdle i r
    → Keeps IsSound (want_read_udp sys i r)
want_read_udp-Keeps sys i r sound idle = elim (want_read_udp-cases sys i r sound idle) [
  | inl (calls, stopped, e) ↦ rw e tt
  | inr returns ↦ Returns-Keeps IsSound (want_read_udp sys i r) returns
]

-- The state is sound, and the query waits for nothing.
abbrev pub IsSoundIdle : ℕ → Resolver → Type 0
IsSoundIdle i r = IsSound r × IsIdle i r

pub done_write_udp-IsSound :
    (i : ℕ) (qry : Query) (r : Resolver)
    → IsSound r
    → get_elem? r.query_list i ≡ some qry
    → qry.status ≡ udp_want_send
    → Returns (IsSoundIdle i) (done_write_udp i r)
unfolding done_write_udp
done_write_udp-IsSound i qry r sound found is_sending =
    let (place, uses, fresh) = sound.3 i qry found in
    let (addr, e, at) = get_curr_serv_addr_total r qry uses in
    let udp = udp_of addr.family r in
    let waiting : waits_udp qry.status ≡ true = rw (is_sending) refl in
    let positive = udp_positive sending i addr qry r found at sound (rw (is_sending) refl) in
    Returns-read (IsSoundIdle i) r.query_list i qry _ found (
      Returns-eq (IsSoundIdle i) (get_curr_serv_addr r qry) addr _ e (
        Returns-check (IsSoundIdle i) (is_status qry.status udp_want_send) _ (rw (is_sending) refl)
          (Returns-check (IsSoundIdle i) (ltb 0 udp.writers) _ positive (
            udp-IsSound i (record udp { writers = udp.writers - 1 }) addr qry _ r _ found at sound
                (refl, refl, refl, refl, refl, refl) (rw (is_sending) (omega arith), omega arith)
                (refl, refl) (λ w. fresh waiting)
                (λ d. leaves_sending udp qry.status d is_sending positive),
            (
              record qry { status = void },
              get_elem?-set_same r.query_list i qry (record qry { status = void }) found,
              refl,
              fresh waiting,
            ),
          ))))

pub done_read_udp-IsSound :
    (i : ℕ) (qry : Query) (r : Resolver)
    → IsSound r
    → get_elem? r.query_list i ≡ some qry
    → qry.status ≡ udp_want_recv
    → Returns (IsSoundIdle i) (done_read_udp i r)
unfolding done_read_udp
done_read_udp-IsSound i qry r sound found is_receiving =
    let (place, uses, fresh) = sound.3 i qry found in
    let (addr, e, at) = get_curr_serv_addr_total r qry uses in
    let udp = udp_of addr.family r in
    let waiting : waits_udp qry.status ≡ true = rw (is_receiving) refl in
    let positive = udp_positive receiving i addr qry r found at sound (rw (is_receiving) refl) in
    Returns-read (IsSoundIdle i) r.query_list i qry _ found (
      Returns-eq (IsSoundIdle i) (get_curr_serv_addr r qry) addr _ e (
        Returns-check (IsSoundIdle i) (is_status qry.status udp_want_recv) _
          (rw (is_receiving) refl)
          (Returns-check (IsSoundIdle i) (ltb 0 udp.readers) _ positive (
            udp-IsSound i (record udp { readers = udp.readers - 1 }) addr qry _ r _ found at sound
                (refl, refl, refl, refl, refl, refl) (rw (is_receiving) (omega arith), omega arith)
                (refl, refl) (λ w. fresh waiting)
                (λ d. leaves_receiving udp qry.status d is_receiving positive),
            (
              record qry { status = void },
              get_elem?-set_same r.query_list i qry (record qry { status = void }) found,
              refl,
              fresh waiting,
            ),
          ))))

pub done_read_udp_aborts :
    (i : ℕ) (qry : Query) (r : Resolver)
    → IsSound r
    → get_elem? r.query_list i ≡ some qry
    → is_status qry.status udp_want_recv ≡ false
    → done_read_udp i r ≡ abort
unfolding done_read_udp
done_read_udp_aborts i qry r sound found other =
    let (addr, e, at) = get_curr_serv_addr_total r qry (sound.3 i qry found).1 in
    rw (found, read, e, other, check, ◌>>=◌, ◌>>◌) refl

done_read_udp_reads :
    (i : ℕ) (r : Resolver) → get_elem? r.query_list i ≡ none → done_read_udp i r ≡ bad_read
unfolding done_read_udp
done_read_udp_reads i r e = rw (e, read, ◌>>=◌) refl

-- The same without a condition on the status, if the call returns.
pub done_read_udp-Keeps :
    (i : ℕ) (r : Resolver) → IsSound r → Keeps (IsSoundIdle i) (done_read_udp i r)
done_read_udp-Keeps i r sound = elim (Option-cases (get_elem? r.query_list i)) [
  | inl e ↦ rw (done_read_udp_reads i r e) tt
  | inr (qry, found) ↦ elim (Bool-cases (is_status qry.status udp_want_recv)) [
    | inl at_status ↦ Returns-Keeps (IsSoundIdle i) (done_read_udp i r) (
        done_read_udp-IsSound i qry r sound found
          (is_status_sound qry.status udp_want_recv at_status))
    | inr other ↦ rw (done_read_udp_aborts i qry r sound found other) tt
  ]
]

pub done_write_udp_aborts :
    (i : ℕ) (qry : Query) (r : Resolver)
    → IsSound r
    → get_elem? r.query_list i ≡ some qry
    → is_status qry.status udp_want_send ≡ false
    → done_write_udp i r ≡ abort
unfolding done_write_udp
done_write_udp_aborts i qry r sound found other =
    let (addr, e, at) = get_curr_serv_addr_total r qry (sound.3 i qry found).1 in
    rw (found, read, e, other, check, ◌>>=◌, ◌>>◌) refl

done_write_udp_reads :
    (i : ℕ) (r : Resolver) → get_elem? r.query_list i ≡ none → done_write_udp i r ≡ bad_read
unfolding done_write_udp
done_write_udp_reads i r e = rw (e, read, ◌>>=◌) refl

-- The same without a condition on the status, if the call returns.
pub done_write_udp-Keeps :
    (i : ℕ) (r : Resolver) → IsSound r → Keeps (IsSoundIdle i) (done_write_udp i r)
done_write_udp-Keeps i r sound = elim (Option-cases (get_elem? r.query_list i)) [
  | inl e ↦ rw (done_write_udp_reads i r e) tt
  | inr (qry, found) ↦ elim (Bool-cases (is_status qry.status udp_want_send)) [
    | inl at_status ↦ Returns-Keeps (IsSoundIdle i) (done_write_udp i r) (
        done_write_udp-IsSound i qry r sound found
          (is_status_sound qry.status udp_want_send at_status))
    | inr other ↦ rw (done_write_udp_aborts i qry r sound found other) tt
  ]
]
