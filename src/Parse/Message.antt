-- ===== src/Parse/Message.antt =====
-- `ruli_parse_message`: the four sections of a message.
pub mod Accepted
mod Tests
use ruli.Common.{ℕ, ◌+◌, Bool, true, false, Option, none, some, List, []}
use ruli.Common.{length, ltb, leb, ◌==◌, if◌then◌else◌, Run, done, check, ◌>>=◌, ◌>>◌}
use ruli.Limits.{msg_header}
use ruli.Msg.{Header}
use ruli.Parse.Records.{Rr, Memory, parse_question, parse_rr, parse_section}

-- The RULI_PARSE_… codes of `ruli_parse_message`.
pub data Status : Type 0 where
  ok short_msg long_msg question answer authority additional : Status

-- `ruli_parse_t`
pub record Parse : Type 0 where
  pub qdcount : ℕ
  pub ancount : ℕ
  pub nscount : ℕ
  pub arcount : ℕ
  pub question_list : List Rr
  pub answer_list : List Rr
  pub authority_list : List Rr
  pub additional_list : List Rr

-- What `ruli_parse_new` and the four assignments at the start make.
abbrev pub with_counts : Header → Parse
with_counts hdr = record {
  qdcount = hdr.qdcount;
  ancount = hdr.ancount;
  nscount = hdr.nscount;
  arcount = hdr.arcount;
  question_list = [];
  answer_list = [];
  authority_list = [];
  additional_list = [];
}

-- The assertions behind a section that was parsed from `i` to `j`.
abbrev pub check_section : ℕ → ℕ → ℕ → List Rr → ℕ → Run (Unit {0})
check_section i j past_end l count = do
  check (leb i j)
  check (leb j past_end)
  check (length l == count)

-- The allocator serves the sections in their order.
pub record Memories : Type 0 where
  pub question : Memory
  pub answer : Memory
  pub authority : Memory
  pub additional : Memory

module _ (mem : Memories) (msg : List ℕ) (msg_len : ℕ) where
  -- `if (i < past_end) return RULI_PARSE_LONG_MSG; return RULI_PARSE_OK;`
  unfoldable pub parse_end : Parse → ℕ → Run (Status × Parse)
  parse_end p i = if ltb i msg_len then done (long_msg, p) else done (ok, p)

  unfoldable pub parse_additional : Parse → ℕ → Run (Status × Parse)
  parse_additional p j = do
    (l, r) ← parse_section msg msg_len (parse_rr msg msg_len) mem.additional j p.arcount
    let p' = record p { additional_list = l }
    elim r [
      | none ↦ done (additional, p')
      | some i ↦ check_section j i msg_len l p.arcount >> parse_end p' i
    ]

  unfoldable pub parse_authority : Parse → ℕ → Run (Status × Parse)
  parse_authority p i = do
    (l, r) ← parse_section msg msg_len (parse_rr msg msg_len) mem.authority i p.nscount
    let p' = record p { authority_list = l }
    elim r [
      | none ↦ done (authority, p')
      | some j ↦ check_section i j msg_len l p.nscount >> parse_additional p' j
    ]

  unfoldable pub parse_answer : Parse → ℕ → Run (Status × Parse)
  parse_answer p j = do
    (l, r) ← parse_section msg msg_len (parse_rr msg msg_len) mem.answer j p.ancount
    let p' = record p { answer_list = l }
    elim r [
      | none ↦ done (answer, p')
      | some i ↦ check_section j i msg_len l p.ancount >> parse_authority p' i
    ]

  unfoldable pub parse_message : Header → Run (Status × Parse)
  parse_message hdr =
      let p = with_counts hdr in
      if ltb msg_len msg_header then done (short_msg, p) else do
        (l, r) ←
            parse_section msg msg_len (parse_question msg msg_len) mem.question msg_header p.qdcount
        let p' = record p { question_list = l }
        elim r [
          | none ↦ done (question, p')
          | some j ↦ check_section msg_header j msg_len l p.qdcount >> parse_answer p' j
        ]
