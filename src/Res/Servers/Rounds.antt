-- ===== src/Res/Servers/Rounds.antt =====
-- The servers are tried one behind the other, each of them once for each try of the query.
use ruli.Common.{
  ℕ, zero, suc, ◌+◌, ◌-◌, ◌*◌, ◌%◌, ◌<◌, ◌≤◌, ◌≡◌, refl, sym, ap, ◌∙◌, ◌==◌, Bool, true, false,
  length, ltb, leb, lt→ltb, le→not_ltb, ltb→lt, not_ltb→le, ==_iff, arith, Run, done, check,
  Bool-cases, inl, inr, if◌then◌else◌, ◌>>=◌, ◌>>◌, ◌⊎◌, le→leb, lt→not_leb,
}
use native.Mathlib.Nat.{mod-eq_of_lt, mod_self, suc-mul, mod-lt, mod-add-mod}
use ruli.Res.{Query, Resolver}
use ruli.Res.Servers.{switch_server}

-- The query is switched `n` times, as long as that is possible.
pub switch_times : ℕ → Resolver → Query → Run (Bool × Query)
switch_times zero r qry = done (true, qry)
switch_times (suc n) r qry = do
  (switched, qry') ← switch_server r qry
  elim switched [ true ↦ switch_times n r qry' | false ↦ done (false, qry') ]

-- How often a query at the server `curr` can be switched before the next one is `first`.
abbrev pub before_first : (servers first curr : ℕ) → ℕ
before_first servers first curr =
    if ltb curr first then first - suc curr else first + servers - suc curr

-- How often the query can be switched in all.
abbrev pub switches_left : ℕ → Query → ℕ
switches_left servers qry =
    qry.remaining_retries * servers + before_first servers qry.first_server qry.curr_server

next_cases :
    (n c : ℕ) → c < n → ((suc c < n) × (suc c % n ≡ suc c)) ⊎ ((suc c ≡ n) × (suc c % n ≡ 0))
next_cases n c h = elim (Bool-cases (ltb (suc c) n)) [
  | inl e ↦ let lt = ltb→lt (suc c) n e in inl (lt, mod-eq_of_lt lt)
  | inr e ↦
      let le = not_ltb→le (suc c) n e in
      let same : suc c ≡ n = omega arith in inr (same, ap (λ k. k % n) same ∙ mod_self n)
]

back_at_first : (n f c : ℕ) → c < n → f < n → suc c % n ≡ f → before_first n f c ≡ 0
back_at_first n f c hc hf e = elim (next_cases n c hc) [
  | inl (lt, m) ↦ rw (lt→ltb c f (omega arith)) (omega arith)
  | inr (same, m) ↦ rw (le→not_ltb c f (omega arith)) (omega arith)
]

on_to_next :
    (n f c : ℕ)
    → c < n
    → f < n
    → (suc c % n == f) ≡ false
    → before_first n f c ≡ suc (before_first n f (suc c % n))
on_to_next n f c hc hf e = elim (next_cases n c hc) [
  | inl (lt, m) ↦ let e' = rw (m) at e in rw (m) (ground (arith, e'))
  | inr (same, m) ↦ let e' = rw (m) at e in rw (m) (ground (arith, e'))
]

whole_round : (n f : ℕ) → f < n → suc (before_first n f f) ≡ n
whole_round n f h = rw (le→not_ltb f f (omega arith)) (omega arith)

no_round : (k n b : ℕ) → k < 1 → b ≡ 0 → k * n + b ≡ 0
no_round zero n b h e = omega (arith, e)
no_round (suc k) n b h e = absurd (omega arith)

one_round : (k n b b' : ℕ) → 1 ≤ k → b ≡ 0 → suc b' ≡ n → suc ((k - 1) * n + b') ≡ k * n + b
one_round zero n b b' h e e' = absurd (omega arith)
one_round (suc k) n b b' h e e' =
    let same : suc k - 1 ≡ k = omega arith in
    omega (arith, e, e', suc-mul k n, ap (λ t. t * n) same)

-- The query after a switch, and how often it can be switched from there.
abbrev pub IsAfter : Resolver → Query → Query → Type 0
IsAfter r qry qry' =
    (suc (switches_left (length r.ns_list) qry') ≡ switches_left (length r.ns_list) qry)
    × (qry'.first_server ≡ qry.first_server)
    × (qry'.curr_server ≡ suc qry.curr_server % length r.ns_list)

abbrev pub moved : Resolver → Query → Query
moved r qry = record qry { curr_server = suc qry.curr_server % length r.ns_list }

-- A round is over: a try less, or the end.
at_first :
    (r : Resolver) (qry : Query)
    → qry.first_server < length r.ns_list
    → qry.curr_server < length r.ns_list
    → (suc qry.curr_server % length r.ns_list == qry.first_server) ≡ true
    → ((switches_left (length r.ns_list) qry ≡ 0)
        × (switch_server r qry ≡ done (false, moved r qry)))
      ⊎ ((qry' : Query) × (switch_server r qry ≡ done (true, qry')) × IsAfter r qry qry')
unfolding switch_server
at_first r qry first curr back =
    let n = length r.ns_list in
    let back' = (==_iff (suc qry.curr_server % n) qry.first_server).0 back in
    let none_before = back_at_first n qry.first_server qry.curr_server curr first back' in
    let some_server = lt→ltb 0 n (omega arith) in
    let in_range = lt→ltb (suc qry.curr_server % n) n (omega arith) in
    elim (Bool-cases (ltb qry.remaining_retries 1)) [
      | inl e ↦ inl (
        no_round qry.remaining_retries n _ (ltb→lt qry.remaining_retries 1 e) none_before,
        rw (some_server, in_range, back, e, check, ◌>>=◌, ◌>>◌) refl,
      )
      | inr e ↦ inr (
        record (moved r qry) { remaining_retries = qry.remaining_retries - 1 },
        rw (some_server, in_range, back, e, check, ◌>>=◌, ◌>>◌) refl,
        (
          one_round qry.remaining_retries n _ _ (not_ltb→le qry.remaining_retries 1 e) none_before (
              ap (λ k. suc (before_first n qry.first_server k)) back'
              ∙ whole_round n qry.first_server first),
          refl,
          refl,
        ),
      )
    ]

not_at_first :
    (r : Resolver) (qry : Query)
    → qry.first_server < length r.ns_list
    → qry.curr_server < length r.ns_list
    → (suc qry.curr_server % length r.ns_list == qry.first_server) ≡ false
    → (switch_server r qry ≡ done (true, moved r qry)) × IsAfter r qry (moved r qry)
unfolding switch_server
not_at_first r qry first curr on =
    let n = length r.ns_list in
    let some_server = lt→ltb 0 n (omega arith) in
    let in_range = lt→ltb (suc qry.curr_server % n) n (omega arith) in
    (
      rw (some_server, in_range, on, check, ◌>>=◌, ◌>>◌) refl,
      (omega (arith, on_to_next n qry.first_server qry.curr_server curr first on), refl, refl),
    )

leb-suc : (a b : ℕ) → leb (suc a) (suc b) ≡ leb a b
leb-suc a b = ground arith

pub switch_cases :
    (r : Resolver) (qry : Query)
    → qry.first_server < length r.ns_list
    → qry.curr_server < length r.ns_list
    → ((switches_left (length r.ns_list) qry ≡ 0)
        × (switch_server r qry ≡ done (false, moved r qry)))
      ⊎ ((qry' : Query) × (switch_server r qry ≡ done (true, qry')) × IsAfter r qry qry')
switch_cases r qry first curr =
    elim (Bool-cases (suc qry.curr_server % length r.ns_list == qry.first_server)) [
      | inl back ↦ at_first r qry first curr back
      | inr on ↦ let (e, after) = not_at_first r qry first curr on in inr (moved r qry, e, after)
    ]

-- For a query whose first and current server are there: `ruli_res_switch_server` succeeds exactly as
-- often as there are servers for the tries that remain, plus the servers before the first one is
-- reached again, and then it fails; after `m` successes the query uses the server `m` places behind,
-- around the list.
pub switch_times-switches_left :
    (m : ℕ) (r : Resolver) (qry : Query)
    → qry.first_server < length r.ns_list
    → qry.curr_server < length r.ns_list
    → (qry' : Query) × (switch_times m r qry
        ≡ done (leb m (switches_left (length r.ns_list) qry), qry'))
      × (m ≤ switches_left (length r.ns_list) qry
          → qry'.curr_server ≡ (qry.curr_server + m) % length r.ns_list)
unfolding switch_times
switch_times-switches_left zero r qry first curr = (
  qry,
  rw (le→leb 0 (switches_left (length r.ns_list) qry) (omega arith)) refl,
  λ h.
      let same : qry.curr_server + 0 ≡ qry.curr_server = omega arith in
      sym (ap (λ k. k % length r.ns_list) same ∙ mod-eq_of_lt curr),
)
switch_times-switches_left (suc m) r qry first curr = elim (switch_cases r qry first curr) [
  | inl (none_left, e) ↦ (
    moved r qry,
    rw (e, lt→not_leb (suc m) (switches_left (length r.ns_list) qry) (omega (arith, none_left)))
        refl,
    λ h. absurd (omega (arith, none_left, h)),
  )
  | inr (qry', e, (left, same_first, next)) ↦
      let n = length r.ns_list in
      let first' : qry'.first_server < n = rw (same_first) first in
      let curr' : qry'.curr_server < n = rw (next) (mod-lt (suc qry.curr_server) (omega arith)) in
      let (q, e', at) = switch_times-switches_left m r qry' first' curr' in
      let as_many = ap (leb (suc m)) (sym left) ∙ leb-suc m (switches_left n qry') in
      let later : suc qry.curr_server + m ≡ qry.curr_server + suc m = omega arith in
      (
        q,
        rw (e, e', as_many) refl,
        λ h.
            at (omega (arith, left, h))
            ∙ ap (λ k. (k + m) % n) next
            ∙ mod-add-mod (suc qry.curr_server) n m
            ∙ ap (λ k. k % n) later,
      )
]
