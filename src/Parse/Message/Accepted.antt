-- ===== src/Parse/Message/Accepted.antt =====
-- What a message that `ruli_parse_message` accepts looks like.
use ruli.Common.{ℕ, ◌≤◌, ◌≡◌, arith, Option, none, some, List, length, Run}
use ruli.Common.{done, ◌>>=◌, ◌>>◌, >>=-eq-done, ◌≢◌, Bool-cases, ltb, inl, inr, refl}
use ruli.Limits.{msg_header}
use ruli.Parse.Records.{Rr, parse_rr, parse_section}
use ruli.Parse.Records.Tiles.{
  Tiles, question_next, rr_next, NoData, HasData, parse_section-Tiles, parse_rr-Parses, Parses,
  parse_question-Parses,
}
use ruli.Parse.Message.{
  Status, ok, additional, Parse, Memories, Memory, parse_end, check_section, parse_additional,
  parse_message, parse_authority, parse_answer, Header, with_counts, authority, answer,
  parse_question, question,
}

-- The sections lie one behind the other, from the header to the end of the message, with as many records as
-- their counts say.
pub record IsTiled (msg_len : ℕ) (s : Parse) : Type 0 where
  pub answers_at : ℕ
  pub authorities_at : ℕ
  pub additionals_at : ℕ
  pub questions : Tiles question_next NoData msg_header s.question_list answers_at
  pub answers : Tiles rr_next HasData answers_at s.answer_list authorities_at
  pub authorities : Tiles rr_next HasData authorities_at s.authority_list additionals_at
  pub additionals : Tiles rr_next HasData additionals_at s.additional_list msg_len
  pub question_count : length s.question_list ≡ s.qdcount
  pub answer_count : length s.answer_list ≡ s.ancount
  pub authority_count : length s.authority_list ≡ s.nscount
  pub additional_count : length s.additional_list ≡ s.arcount

guarded {ℓ κ} :
    {A : Type ℓ} {B : Type κ} (m : Run A) (k : Run B) {b : B} → (m >>= λ _. k) ≡ done b → k ≡ done b
guarded m k h = let (a, e, h') = >>=-eq-done m (λ _. k) h in h'

status_of :
    (a b : Status) (p s : Parse)
    → ◌≡◌ {A = Run (Status × Parse)} (done (a, p)) (done (b, s))
    → a ≡ b
status_of a b p s h = cc

module _ (msg : List ℕ) (msg_len : ℕ) (next : Rr → ℕ) (P : Rr → Type 0)
    (parser : ℕ → Run (Option (Rr × ℕ)))
    (parses : (q : ℕ) (rr : Rr) (p : ℕ)
      → parser q ≡ done (some (rr, p))
      → Parses msg msg_len next P q rr p)
    (mem : Memory) where
  -- A step of `ruli_parse_message` that ends in RULI_PARSE_OK has parsed its section and gone on.
  section-ok :
      (i count : ℕ) (bad : Status) (failed : List Rr → Parse)
      (more : List Rr → ℕ → Run (Status × Parse)) {s : Parse}
      → bad ≢ ok
      → ◌≡◌ {A = Run (Status × Parse)}
          (◌>>=◌ {B = Status × Parse} (parse_section msg msg_len parser mem i count) λ lr.
            elim lr.1 [
              | none ↦ done (bad, failed lr.0)
              | some j ↦ check_section i j msg_len lr.0 count >> more lr.0 j
            ])
          (done (ok, s))
      → (l : List Rr) × (j : ℕ) × Tiles next P i l j
        × (length l ≡ count)
        × (j ≤ msg_len)
        × (more l j ≡ done (ok, s))
  section-ok i count bad failed more {s} never h =
      let (lr, x, k) = >>=-eq-done (parse_section msg msg_len parser mem i count) _ h in
      split lr.0 lr.1 x k
    where
      split :
          (l : List Rr) (r : Option ℕ)
          → parse_section msg msg_len parser mem i count ≡ done (l, r)
          → ◌≡◌ {A = Run (Status × Parse)}
              (elim r [
                | none ↦ done (bad, failed l)
                | some j ↦ check_section i j msg_len l count >> more l j
              ])
              (done (ok, s))
          → (l : List Rr) × (j : ℕ) × Tiles next P i l j
            × (length l ≡ count)
            × (j ≤ msg_len)
            × (more l j ≡ done (ok, s))
      split l none x k = absurd (never (status_of bad ok (failed l) s k))
      split l (some j) x k =
          let (n, t, le) = parse_section-Tiles msg msg_len next P parser parses mem i count x in
          (l, j, t, n, le, guarded (check_section i j msg_len l count) (more l j) k)

module _ (mem : Memories) (msg : List ℕ) (msg_len : ℕ) where
  end-ok :
      (p : Parse) (i : ℕ) {s : Parse}
      → i ≤ msg_len
      → parse_end mem msg msg_len p i ≡ done (ok, s)
      → (s ≡ p) × (i ≡ msg_len)
  unfolding parse_end
  end-ok p i le h = ground arith

  -- What each step has done to the sections that it parses, when the whole message is accepted.
  FromAdditional : Parse → ℕ → Parse → Type 0
  FromAdditional p j s =
      (l : List Rr) × Tiles rr_next HasData j l msg_len
      × (length l ≡ p.arcount)
      × (s ≡ record p { additional_list = l })

  additional-ok :
      (p : Parse) (j : ℕ) {s : Parse}
      → parse_additional mem msg msg_len p j ≡ done (ok, s)
      → FromAdditional p j s
  unfolding parse_additional FromAdditional
  additional-ok p j {s} h =
      let (l, i, t, n, le, k) =
        section-ok msg msg_len rr_next HasData (parse_rr msg msg_len)
          (λ q rr z. parse_rr-Parses msg msg_len q) mem.additional j p.arcount additional
          (λ l. record p { additional_list = l })
          (λ l. parse_end mem msg msg_len (record p { additional_list = l })) (λ e. cc) h in
      let (e, at_end) = end-ok (record p { additional_list = l }) i le k in
      (l, rw at_end at t, n, e)

  FromAuthority : Parse → ℕ → Parse → Type 0
  FromAuthority p i s =
      (l : List Rr) × (j : ℕ) × Tiles rr_next HasData i l j
      × (length l ≡ p.nscount)
      × FromAdditional (record p { authority_list = l }) j s

  authority-ok :
      (p : Parse) (i : ℕ) {s : Parse}
      → parse_authority mem msg msg_len p i ≡ done (ok, s)
      → FromAuthority p i s
  unfolding parse_authority FromAuthority
  authority-ok p i {s} h =
      let (l, j, t, n, le, k) =
        section-ok msg msg_len rr_next HasData (parse_rr msg msg_len)
          (λ q rr z. parse_rr-Parses msg msg_len q) mem.authority i p.nscount authority
          (λ l. record p { authority_list = l })
          (λ l. parse_additional mem msg msg_len (record p { authority_list = l })) (λ e. cc) h in
      (l, j, t, n, additional-ok (record p { authority_list = l }) j k)

  FromAnswer : Parse → ℕ → Parse → Type 0
  FromAnswer p i s =
      (l : List Rr) × (j : ℕ) × Tiles rr_next HasData i l j
      × (length l ≡ p.ancount)
      × FromAuthority (record p { answer_list = l }) j s

  answer-ok :
      (p : Parse) (i : ℕ) {s : Parse}
      → parse_answer mem msg msg_len p i ≡ done (ok, s)
      → FromAnswer p i s
  unfolding parse_answer FromAnswer
  answer-ok p i {s} h =
      let (l, j, t, n, le, k) =
        section-ok msg msg_len rr_next HasData (parse_rr msg msg_len)
          (λ q rr z. parse_rr-Parses msg msg_len q) mem.answer i p.ancount answer
          (λ l. record p { answer_list = l })
          (λ l. parse_authority mem msg msg_len (record p { answer_list = l })) (λ e. cc) h in
      (l, j, t, n, authority-ok (record p { answer_list = l }) j k)

  FromQuestion : Parse → Parse → Type 0
  FromQuestion p s =
      (l : List Rr) × (j : ℕ) × Tiles question_next NoData msg_header l j
      × (length l ≡ p.qdcount)
      × FromAnswer (record p { question_list = l }) j s

  question-ok :
      (hdr : Header) {s : Parse}
      → parse_message mem msg msg_len hdr ≡ done (ok, s)
      → FromQuestion (with_counts hdr) s
  unfolding parse_message FromQuestion
  question-ok hdr {s} h = elim (Bool-cases (ltb msg_len msg_header)) [
    | inl short ↦ let h' = rw short at h in cc
    | inr long ↦
        let p = with_counts hdr in
        let (l, j, t, n, le, k) =
          section-ok msg msg_len question_next NoData (parse_question msg msg_len)
            (λ q rr z. parse_question-Parses msg msg_len q) mem.question msg_header p.qdcount
            question (λ l. record p { question_list = l })
            (λ l. parse_answer mem msg msg_len (record p { question_list = l })) (λ e. cc)
            (rw long at h) in
        (l, j, t, n, answer-ok (record p { question_list = l }) j k)
  ]

  -- A message that `ruli_parse_message` accepts is filled exactly by its sections: the records lie one
  -- behind the other from the header to the end, none of them reaches over the end, each list has as
  -- many records as its count says, and the counts are those of the header.
  pub parse_message-IsTiled :
      (hdr : Header) {s : Parse}
      → parse_message mem msg msg_len hdr ≡ done (ok, s)
      → IsTiled msg_len s
        × (s.qdcount ≡ hdr.qdcount)
        × (s.ancount ≡ hdr.ancount)
        × (s.nscount ≡ hdr.nscount)
        × (s.arcount ≡ hdr.arcount)
  unfolding FromQuestion FromAnswer FromAuthority FromAdditional
  parse_message-IsTiled hdr {s} h =
      let (l1, j1, t1, n1, r1) = question-ok hdr h in
      let (l2, j2, t2, n2, r2) = r1 in
      let (l3, j3, t3, n3, r3) = r2 in
      let (l4, t4, n4, e) = r3 in
      rw e (
        record {
          answers_at = j1;
          authorities_at = j2;
          additionals_at = j3;
          questions = t1;
          answers = t2;
          authorities = t3;
          additionals = t4;
          question_count = n1;
          answer_count = n2;
          authority_count = n3;
          additional_count = n4;
        },
        refl,
        refl,
        refl,
        refl,
      )
