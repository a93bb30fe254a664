-- ===== src/Parse/Records/Owner.antt =====
-- Where the owner of a record ends.
use ruli.Common.{ℕ, zero, suc, ◌+◌, ◌-◌, ◌≤◌, ◌<◌, ◌≡◌, refl, arith, inl, inr, Option, none, some}
use ruli.Common.{
  List, length, done, Bool-cases, ltb, leb, ◌==◌, get_or, bit_and, read-eq-done, if◌then◌else◌, Run,
  not_ltb→le, not_leb→lt,
}
use ruli.Parse.Records.{skip_loop, skip_rr_owner}

-- An owner ends inside of the message, if it ends.
abbrev pub EndsWithin : ℕ → ℕ → Option ℕ → Type 0
EndsWithin msg past_end none = Unit
EndsWithin msg past_end (some p) = (msg < p) × (p ≤ past_end)

-- A result that ends behind `msg` and not behind `past_end`.
abbrev pub Ends : ℕ → ℕ → Run (Option ℕ) → Type 0
Ends msg past_end run = (r : Option ℕ) × (run ≡ done r) × EndsWithin msg past_end r

relax-Ends :
    (msg n past_end : ℕ) (r : Option ℕ)
    → EndsWithin (msg + n) past_end r
    → EndsWithin msg past_end r
relax-Ends msg n past_end none h = tt
relax-Ends msg n past_end (some p) h = (omega arith, h.1)

relax :
    (msg n past_end : ℕ) (run : Run (Option ℕ))
    → Ends (msg + n) past_end run
    → Ends msg past_end run
relax msg n past_end run h = (h.0, h.1, relax-Ends msg n past_end h.0 h.2)

step-Ends :
    (msg n past_end : ℕ)
    → Ends msg past_end
        (if ltb past_end (msg + suc n) then done none else done (some (msg + suc n)))
step-Ends msg n past_end = elim (Bool-cases (ltb past_end (msg + suc n))) [
  | inl e ↦ rw e (none, refl, tt)
  | inr e ↦ rw e (some (msg + suc n), refl, (omega arith, not_ltb→le past_end (msg + suc n) e))
]

by_label :
    (past_end msg len : ℕ) (rest : Run (Option ℕ))
    → Ends msg past_end rest
    → Ends msg past_end (
        if len == 0
        then (if ltb past_end (msg + 1) then done none else done (some (msg + 1)))
        else if bit_and len 0xC0 == 0xC0
        then (if ltb past_end (msg + 2) then done none else done (some (msg + 2)))
        else rest)
by_label past_end msg len rest h = elim (Bool-cases (len == 0)) [
  | inl e ↦ rw e (step-Ends msg 0 past_end)
  | inr e ↦ elim (Bool-cases (bit_and len 0xC0 == 0xC0)) [
    | inl c ↦ rw (e, c) (step-Ends msg 1 past_end)
    | inr c ↦ rw (e, c) h
  ]
]

skip_loop_bounds :
    (m : List ℕ) (past_end f msg : ℕ)
    → past_end ≤ length m
    → past_end - msg < f
    → Ends msg past_end (skip_loop m past_end f msg)
unfolding skip_loop
skip_loop_bounds m past_end zero msg h k = absurd (omega arith)
skip_loop_bounds m past_end (suc f) msg h k = elim (Bool-cases (leb past_end msg)) [
  | inl e ↦ rw e (none, refl, tt)
  | inr e ↦
      let b = get_or m msg 0 in
      rw (e, read-eq-done m msg (omega (arith, not_leb→lt past_end msg e)))
        (by_label past_end msg b (skip_loop m past_end f (msg + (b + 1))) (
          relax msg (b + 1) past_end (skip_loop m past_end f (msg + (b + 1))) (
            skip_loop_bounds m past_end f (msg + (b + 1)) h
              (omega (arith, not_leb→lt past_end msg e)))))
]

-- `skip_rr_owner` never reads outside of a message that lies in its object: it fails, or the owner
-- ends behind its start and inside of the message.
pub skip_rr_owner_bounds :
    (m : List ℕ) (past_end msg : ℕ)
    → past_end ≤ length m
    → Ends msg past_end (skip_rr_owner m past_end msg)
unfolding skip_rr_owner
skip_rr_owner_bounds m past_end msg h =
    skip_loop_bounds m past_end (suc (past_end - msg)) msg h (omega arith)
