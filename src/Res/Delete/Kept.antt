-- ===== src/Res/Delete/Kept.antt =====
-- The deletion of a query leaves a sound state sound.
use ruli.Common.{
  abort, Keeps-weaken, ℕ, ◌-◌, ◌<◌, ◌≡◌, subst, refl, sym, ap, ◌∙◌, ◌==◌, true, some, List, length,
  set, get_elem?, one, count, count-set, arith, get_elem?-set_same, get_elem?-set, Bool-cases, inl,
  inr, ==_iff, ==_refl, Keeps, Keeps-read, Keeps-check, Keeps-if, Keeps->>=, ltb, read, ◌>>=◌, ◌>>◌,
}
use ruli.RuliList.{RuliList, ruli_list_drop, at}
use ruli.Res.{
  Query, Resolver, Status, void, udp_want_send, udp_want_recv, tcp_want_connect, tcp_want_send,
  tcp_want_recv_head, tcp_want_recv_body, is_status, put,
}
use ruli.Fsm.Counters.{Counter, counter, waits, IsSound, IsPlaced}
use ruli.Fsm.Counters.Streams.{is_status_sound}
use ruli.Fsm.Counters.Puts.{waits_void, waits_same, counter-same}
use ruli.Fsm.Udp.{done_read_udp, done_write_udp}
use ruli.Fsm.Udp.Kept.{IsSoundIdle, done_write_udp-Keeps, done_read_udp-Keeps, done_read_udp_aborts}
use ruli.Fsm.Tcp.Kept.{
  IsVoid, done_connect_tcp-IsSound, done_read_tcp_head-IsSound, done_read_tcp_body-IsSound,
}
use ruli.Res.Delete.{leave_status, query_status_done, reindex, query_delete}
use ruli.Res.Delete.Dropped.{
  drop_slot, not_equal, some_same, length-drop_slot, count-drop_slot, get_elem?-drop_slot,
}

abbrev with_queries : List Query → Resolver → Resolver
with_queries queries r = record r { query_list = queries }

-- The state without the query at index `i`, which waits for nothing; `last` is the last query of the list.
module _ (i : ℕ) (qry last : Query) (r : Resolver) (sound : IsSound r)
    (found : get_elem? r.query_list i ≡ some qry)
    (at_end : get_elem? r.query_list (length r.query_list - 1) ≡ some last)
    (idle : qry.status ≡ void) where
  dropped : List Query
  dropped = drop_slot r.query_list i last

  counted : (c : Counter) → counter c r ≡ count (waits r.ns_list c) dropped
  unfolding dropped
  counted c = omega (
    arith,
    sound.0 c,
    count-drop_slot (waits r.ns_list c) r.query_list i qry last found at_end,
    ap one (waits_void r qry c idle),
  )

  -- Another query keeps its place.
  others :
      (j : ℕ) (q : Query)
      → get_elem? dropped j ≡ some q
      → (j ≡ i → j < length r.query_list - 1 → IsPlaced (length r.ns_list) j q)
      → IsPlaced (length r.ns_list) j q
  unfolding dropped
  others j q e at_i = elim (get_elem?-drop_slot r.query_list i j qry last q found e) [
    | inl (same, last_q, bound) ↦ at_i same bound
    | inr (before, bound, there) ↦ sound.3 j q before
  ]

  last_dropped-IsSound : (i == length dropped) ≡ true → IsSound (with_queries dropped r)
  unfolding dropped
  last_dropped-IsSound is_last =
      let size = length-drop_slot r.query_list i qry last found in
      let at_size = (==_iff i (length (drop_slot r.query_list i last))).0 is_last in
      (
        λ c. counter-same r (with_queries dropped r) c refl refl refl ∙ counted c,
        sound.1,
        sound.2,
        λ j q e. others j q e (λ same bound. absurd (omega (arith, size, at_size, same, bound))),
      )

  replaced-IsSound :
      (index : ℕ) (moved : Query)
      → index ≡ i
      → get_elem? dropped i ≡ some moved
      → IsSound (put i (record moved { resolver_index = index }) (with_queries dropped r))
  unfolding dropped
  replaced-IsSound index moved index_i there =
      let moved' = record moved { resolver_index = index } in
      let was : IsPlaced (length r.ns_list) (length r.query_list - 1) moved =
        elim (get_elem?-drop_slot r.query_list i i qry last moved found there) [
          | inl (same, last_moved, bound) ↦
              subst (λ q. IsPlaced (length r.ns_list) (length r.query_list - 1) q) last_moved
                (sound.3 (length r.query_list - 1) last at_end)
          | inr (before, bound, apart) ↦ let refl_i = ==_refl i in cc
        ] in
      (
        λ c. omega (
          arith,
          counter-same r (put i moved' (with_queries dropped r)) c refl refl refl,
          counted c,
          count-set (waits r.ns_list c) dropped i moved moved' there,
          ap one (waits_same r moved moved' c refl refl),
        ),
        sound.1,
        sound.2,
        λ j q e. elim (Bool-cases (i == j)) [
          | inl same ↦
              let i_j = (==_iff i j).0 same in
              let stored = get_elem?-set_same dropped i moved moved' there in
              subst (λ x. IsPlaced (length r.ns_list) j x)
                (some_same (sym stored ∙ ap (get_elem? (set dropped i moved')) i_j ∙ e))
                (index_i ∙ i_j, was.1, was.2)
          | inr differs ↦
              others j q (sym (get_elem?-set dropped i j moved' (not_equal i j differs)) ∙ e)
                (λ same bound. let same_j = sym same in let refl_i = (==_iff i j).1 same_j in cc)
        ],
      )

  reindexed-IsSound :
      (index : ℕ) (queries : List Query)
      → index ≡ i
      → queries ≡ dropped
      → Keeps IsSound (reindex index (with_queries queries r))
  unfolding reindex
  reindexed-IsSound index queries index_i same =
      subst (λ qs. Keeps IsSound (reindex index (with_queries qs r))) (sym same)
        (Keeps-if IsSound (index == length dropped) _ _
          (λ e. last_dropped-IsSound (ap (λ k. k == length dropped) (sym index_i) ∙ e))
          (λ e. Keeps-read IsSound dropped index _ (λ moved there.
            subst
              (λ k.
                IsSound (put k (record moved { resolver_index = index }) (with_queries dropped r)))
              (sym index_i)
              (replaced-IsSound index moved index_i
                (ap (get_elem? dropped) (sym index_i) ∙ there)))))

abbrev IsDropped : List Query → ℕ → RuliList Query → Type 0
IsDropped queries idx list =
    (last : Query) × (get_elem? queries (length queries - 1) ≡ some last)
    × (list.items ≡ drop_slot queries idx last)

ruli_list_drop-IsDropped :
    (queries : List Query) (capacity idx : ℕ)
    → Keeps (IsDropped queries idx) (ruli_list_drop (at queries capacity) idx)
unfolding ruli_list_drop
ruli_list_drop-IsDropped queries capacity idx =
    Keeps-check (IsDropped queries idx) (ltb idx (length queries)) _ (λ in_range.
      Keeps-read (IsDropped queries idx) queries (length queries - 1) _
        (λ last at_end. (last, at_end, refl)))

leave_status-IsSound :
    (status : Status) (i : ℕ) (r : Resolver) → IsSound r → Keeps IsSound (leave_status status i r)
unfolding leave_status
leave_status-IsSound void i r sound = sound
leave_status-IsSound udp_want_send i r sound =
    Keeps-weaken (IsSoundIdle i) IsSound (done_write_udp i r) (done_write_udp-Keeps i r sound)
      (λ r' kept. kept.0)
leave_status-IsSound udp_want_recv i r sound =
    Keeps-weaken (IsSoundIdle i) IsSound (done_read_udp i r) (done_read_udp-Keeps i r sound)
      (λ r' kept. kept.0)
leave_status-IsSound tcp_want_connect i r sound = done_connect_tcp-IsSound i r sound
leave_status-IsSound tcp_want_send i r sound =
    Keeps-weaken (IsSoundIdle i) IsSound (done_read_udp i r) (done_read_udp-Keeps i r sound)
      (λ r' kept. kept.0)
leave_status-IsSound tcp_want_recv_head i r sound = done_read_tcp_head-IsSound i r sound
leave_status-IsSound tcp_want_recv_body i r sound = done_read_tcp_body-IsSound i r sound

abbrev Left : ℕ → Resolver → Type 0
Left i r = IsSound r × IsVoid i r

query_status_done-IsSound :
    (i : ℕ) (r : Resolver) → IsSound r → Keeps (Left i) (query_status_done i r)
unfolding query_status_done
query_status_done-IsSound i r sound = Keeps-read (Left i) r.query_list i _ (λ qry found.
    Keeps->>= IsSound (Left i) (leave_status qry.status i r) _
      (leave_status-IsSound qry.status i r sound)
      (λ r' s'. Keeps-read (Left i) r'.query_list i _ (λ left found'.
        Keeps-check (Left i) (is_status left.status void) _
          (λ at_void. (s', (left, found', is_status_sound left.status void at_void))))))

-- The deletion of a query, if it returns.
pub query_delete-IsSound : (i : ℕ) (r : Resolver) → IsSound r → Keeps IsSound (query_delete i r)
unfolding query_delete dropped
query_delete-IsSound i r sound = Keeps-read IsSound r.query_list i _ (λ qry found.
    let index = (sound.3 i qry found).0 in
    Keeps->>= (Left i) IsSound (query_status_done i r) _ (query_status_done-IsSound i r sound)
      (λ r' (s', (q, found', idle)).
        Keeps->>= (IsDropped r'.query_list qry.resolver_index) IsSound
          (ruli_list_drop (at r'.query_list (length r'.query_list)) qry.resolver_index) _
          (ruli_list_drop-IsDropped r'.query_list (length r'.query_list) qry.resolver_index)
          (λ list (last, at_end, items).
            let r_index = qry.resolver_index in
            reindexed-IsSound i q last r' s' found' at_end idle r_index list.items index
              (items ∙ ap (λ k. drop_slot r'.query_list k last) index))))

-- In a sound state, a query that waits to be sent over TCP cannot be deleted:
-- `_ruli_query_status_done` takes it out of the UDP readers, and an assertion fails.
pub query_delete_aborts :
    (i : ℕ) (qry : Query) (r : Resolver)
    → IsSound r
    → get_elem? r.query_list i ≡ some qry
    → qry.status ≡ tcp_want_send
    → query_delete i r ≡ abort
unfolding query_delete query_status_done leave_status
query_delete_aborts i qry r sound found has =
    rw (found, read, has, done_read_udp_aborts i qry r sound found (rw (has) refl), ◌>>=◌, ◌>>◌)
      refl
