-- ===== src/Srv/Answer/Ordered.antt =====
-- The list with which the handler of the SRV answer goes on to its later steps.
use ruli.Common.{
  ap, sym, ◌∙◌, ==_iff, not_ltb→le, ℕ, ◌≡◌, ◌≤◌, Bool, Option, none, some, List, [], Run, done,
  >>=-eq-done, Bool-cases, inl, inr, ltb, ◌==◌, not, if◌then◌else◌,
}
use ruli.Msg.{Header}
use ruli.Parse.Records.{Rr, Memory}
use ruli.Parse.Message.{
  Status, ok, short_msg, long_msg, question, answer, authority, additional, Parse, Memories,
  parse_message,
}
use ruli.Parse.Message.Accepted.{IsTiled, parse_message-IsTiled}
use ruli.Srv.Order.{SrvRr, sort_by_priority, select_by_weight}
use ruli.Srv.Answer.{
  Outcome, go_on, query_done, fallback, code_parse_failed, answered, step_1, step_2, list_step,
  steps, on_srv_answer,
}
use ruli.Srv.Answer.Collected.{Collected, and_then-go_on, step_2-Collected}

module _ (buf : List ℕ) (msg_len : ℕ) (full_dname : List ℕ) where
  list_step-go_on :
      (o : Option (List SrvRr)) {l : List SrvRr}
      → ◌≡◌ {A = Run (Outcome (List SrvRr))}
          (done (list_step buf msg_len full_dname o))
          (done (go_on l))
      → o ≡ some l
  unfolding list_step
  list_step-go_on none h = cc
  list_step-go_on (some k) h = cc

  -- The order of the records that were collected.
  abbrev pub Ordered : (ℕ → Bool) → (ℕ → ℕ → Run ℕ) → List SrvRr → List SrvRr → Type 0
  Ordered room rand rs out =
      (sorted : List SrvRr) × (sort_by_priority room rs ≡ some sorted)
      × (select_by_weight room rand sorted ≡ done (some out))

  steps-go_on :
      (mem : Memory) (room : ℕ → Bool) (rand : ℕ → ℕ → Run ℕ) (ancount : ℕ) (an_list : List Rr)
      {out : List SrvRr}
      → steps buf msg_len full_dname mem room rand ancount an_list ≡ done (go_on out)
      → (rs : List SrvRr) × Collected buf msg_len full_dname an_list rs × Ordered room rand rs out
  unfolding steps
  steps-go_on mem room rand ancount an_list h =
      let (u, e1, h1) = and_then-go_on (step_1 buf msg_len full_dname ancount an_list) _ h in
      let (l, e2, h2) = and_then-go_on (step_2 buf msg_len full_dname mem [] an_list) _ h1 in
      let (sorted, e3, h3) =
        and_then-go_on (done (list_step buf msg_len full_dname (sort_by_priority room l))) _ h2 in
      let (o, e4, h4) = >>=-eq-done (select_by_weight room rand sorted) _ h3 in
      let (rs, e5, c) = step_2-Collected buf msg_len full_dname mem [] an_list l e2 in
      (
        rs,
        c,
        (
          sorted,
          ap (sort_by_priority room) (sym e5) ∙ list_step-go_on (sort_by_priority room l) e3,
          e4 ∙ ap done (list_step-go_on o h4),
        ),
      )

  module _ (memories : Memories) (mem : Memory) (room : ℕ → Bool) (rand : ℕ → ℕ → Run ℕ)
      (hdr : Header) (out : List SrvRr) where
    -- What an answer was like that a list was made from.
    abbrev pub Answer : Type 0
    Answer =
        (parse : Parse) × (rs : List SrvRr) × (parse_message memories buf msg_len hdr
          ≡ done (ok, parse))
        × IsTiled msg_len parse
        × (hdr.rcode ≡ 0)
        × (1 ≤ hdr.ancount)
        × Collected buf msg_len full_dname parse.answer_list rs
        × Ordered room rand rs out

    with_records :
        (parse : Parse)
        → parse_message memories buf msg_len hdr ≡ done (ok, parse)
        → (if not (hdr.rcode == 0)
            then done fallback
            else if ltb hdr.ancount 1
            then done fallback
            else steps buf msg_len full_dname mem room rand hdr.ancount parse.answer_list)
          ≡ done (go_on out)
        → Answer
    with_records parse e k = elim (Bool-cases (hdr.rcode == 0)) [
      | inr n ↦ let k' = rw n at k in cc
      | inl y ↦ elim (Bool-cases (ltb hdr.ancount 1)) [
        | inl n ↦ let k' = rw (y, n) at k in cc
        | inr z ↦
            let (rs, c, o) =
              steps-go_on mem room rand hdr.ancount parse.answer_list (rw (y, z) at k) in
            (
              parse,
              rs,
              e,
              (parse_message-IsTiled memories buf msg_len hdr e).0,
              (==_iff hdr.rcode 0).0 y,
              not_ltb→le hdr.ancount 1 z,
              c,
              o,
            )
      ]
    ]

    -- If the handler of an answered SRV query goes on with a list, the message was accepted and is filled
    -- exactly by its sections, its response code is 0 and it counts an answer, and the list is what steps
    -- 3 and 4 make of the SRV records of the Internet class among its answers, all of them owned by the
    -- name that was asked for.
    pub on_srv_answer-Ordered :
        on_srv_answer buf msg_len full_dname memories mem room rand answered hdr ≡ done (go_on out)
        → Answer
    unfolding on_srv_answer
    on_srv_answer-Ordered h =
        let (r, e, k) = >>=-eq-done (parse_message memories buf msg_len hdr) _ h in
        by_status r.0 r.1 e k
      where
        by_status :
            (status : Status) (parse : Parse)
            → parse_message memories buf msg_len hdr ≡ done (status, parse)
            → (elim status [
              | ok ↦
                  if not (hdr.rcode == 0)
                  then done fallback
                  else if ltb hdr.ancount 1
                  then done fallback
                  else steps buf msg_len full_dname mem room rand hdr.ancount parse.answer_list
              | _ ↦ done (query_done code_parse_failed)
            ])
              ≡ done (go_on out)
            → Answer
        by_status ok parse e k = with_records parse e k
        by_status short_msg parse e k = cc
        by_status long_msg parse e k = cc
        by_status question parse e k = cc
        by_status answer parse e k = cc
        by_status authority parse e k = cc
        by_status additional parse e k = cc
