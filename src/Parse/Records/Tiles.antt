-- ===== src/Parse/Records/Tiles.antt =====
-- The records that a section parser returns: where they lie in the message.
use ruli.Common.{
  refl, append-nil, Bool-cases, inl, inr, suc, zero, ap, ◌∙◌, length, ◌++◌, List, [], ◌∷◌,
  if◌then◌else◌, ◌≤◌,
}
use ruli.Common.{
  ℕ, ◌+◌, ◌<◌, ◌≡◌, arith, Option, none, some, Run, done, ◌>>◌, check, ltb, leb, >>=-eq-done,
  append_assoc,
}
use ruli.Util.{pack2, pack4}
use ruli.Parse.Records.{
  Memory, section_loop, parse_section, Rr, skip_rr_owner, question_fields, rr_fields, with_owner,
  parse_question, parse_rr,
}

-- The index behind a question, and behind any other record.
abbrev pub question_next : Rr → ℕ
question_next r = r.owner + r.owner_len + 4

abbrev pub rr_next : Rr → ℕ
rr_next r = r.owner + r.owner_len + 10 + r.rdlength

-- The data of the record begins behind the ten bytes of its fixed fields.
abbrev pub HasData : Rr → Type 0
HasData r = r.rdata ≡ some (r.owner + r.owner_len + 10)

abbrev pub NoData : Rr → Type 0
NoData r = (r.rdata ≡ none) × (r.rdlength ≡ 0)

-- The records lie one behind the other, from index `p` to index `e`, each with an owner of at least one byte.
abbrev pub Tiles : (Rr → ℕ) → (Rr → Type 0) → ℕ → List Rr → ℕ → Type 0
Tiles next P p [] e = p ≡ e
Tiles next P p (r ∷ rs) e = (r.owner ≡ p) × (0 < r.owner_len) × P r × Tiles next P (next r) rs e

check-le : (a b : ℕ) {u : Unit {0}} → check (leb a b) ≡ done u → a ≤ b
check-le a b h = ground arith

module _ (m : List ℕ) (past_end : ℕ) where
  -- What one successful call of a record parser at `msg` says of its result.
  abbrev pub Parses : (Rr → ℕ) → (Rr → Type 0) → ℕ → Rr → ℕ → Type 0
  Parses next P msg rr p =
      (rr.owner ≡ msg) × (0 < rr.owner_len) × P rr × (p ≡ next rr) × (p ≤ past_end)

  with_owner-some :
      (fields : ℕ → ℕ → Run (Option (Rr × ℕ))) (msg : ℕ) {r : Rr × ℕ}
      → with_owner m past_end fields msg ≡ done (some r)
      → (q : ℕ) × (msg < q) × (fields msg q ≡ done (some r))
  unfolding with_owner
  with_owner-some fields msg {r} h =
      let (u, c, h1) = >>=-eq-done (check (leb msg past_end)) _ h in
      let (o, s, h2) = >>=-eq-done (skip_rr_owner m past_end msg) _ h1 in split o h2
    where
      split :
          (o : Option ℕ)
          → (elim o [
            | none ↦ done none
            | some q ↦ check (ltb msg q) >> (check (ltb q past_end) >> fields msg q)
          ])
            ≡ done (some r)
          → (q : ℕ) × (msg < q) × (fields msg q ≡ done (some r))
      split none k = cc
      split (some q) k = (q, ground arith, ground arith)

  pub parse_question-Parses :
      (msg : ℕ) {rr : Rr} {p : ℕ}
      → parse_question m past_end msg ≡ done (some (rr, p))
      → Parses question_next NoData msg rr p
  unfolding parse_question question_fields
  parse_question-Parses msg {rr} {p} h =
      let (q, lt, k) = with_owner-some (question_fields m past_end) msg h in
      elim (Bool-cases (ltb past_end (q + 4))) [
        | inl long ↦ let k' = rw long at k in cc
        | inr fits ↦
            let (type, e1, k1) = >>=-eq-done (pack2 m q) _ (rw fits at k) in
            let (qclass, e2, k2) = >>=-eq-done (pack2 m (q + 2)) _ k1 in ground arith
      ]

  pub parse_rr-Parses :
      (msg : ℕ) {rr : Rr} {p : ℕ}
      → parse_rr m past_end msg ≡ done (some (rr, p))
      → Parses rr_next HasData msg rr p
  unfolding parse_rr rr_fields
  parse_rr-Parses msg {rr} {p} h =
      let (q, lt, k) = with_owner-some (rr_fields m past_end) msg h in
      let (len, e0, k0) = >>=-eq-done (pack2 m (q + 8)) _ k in
      elim (Bool-cases (ltb past_end (q + 10 + len))) [
        | inl long ↦ let k' = rw long at k0 in cc
        | inr fits ↦
            let (type, e1, k1) = >>=-eq-done (pack2 m q) _ (rw fits at k0) in
            let (qclass, e2, k2) = >>=-eq-done (pack2 m (q + 2)) _ k1 in
            let (ttl, e3, k3) = >>=-eq-done (pack4 m (q + 4)) _ k2 in ground arith
      ]

  module _ (next : Rr → ℕ) (P : Rr → Type 0) (parser : ℕ → Run (Option (Rr × ℕ)))
      (parses : (msg : ℕ) (rr : Rr) (p : ℕ)
        → parser msg ≡ done (some (rr, p))
        → Parses next P msg rr p)
      (mem : Memory) where
    -- A round that goes on has parsed one more record.
    section_round :
        (n msg : ℕ) (l : List Rr) {l' : List Rr} {e : ℕ}
        → section_loop m past_end parser mem (suc n) l msg ≡ done (l', some e)
        → (rr : Rr) × (p : ℕ) × Parses next P msg rr p
          × (section_loop m past_end parser mem n (l ++ (rr ∷ [])) p ≡ done (l', some e))
    unfolding section_loop
    section_round n msg l {l'} {e} h = elim (Bool-cases (mem.malloc (length l))) [
      | inr no_space ↦ let h' = rw no_space at h in cc
      | inl space ↦ let (r, x, k) = >>=-eq-done (parser msg) _ (rw space at h) in split r x k
    ]
      where
        split :
            (r : Option (Rr × ℕ))
            → parser msg ≡ done r
            → ◌≡◌ {A = Run (List Rr × Option ℕ)}
                (elim r [
                  | none ↦ done (l, none)
                  | some (rr, p) ↦
                      check (ltb msg p)
                      >> (check (leb p past_end)
                          >> (if mem.push (length l)
                              then section_loop m past_end parser mem n (l ++ (rr ∷ [])) p
                              else done (l, none)))
                ])
                (done (l', some e))
            → (rr : Rr) × (p : ℕ) × Parses next P msg rr p
              × (section_loop m past_end parser mem n (l ++ (rr ∷ [])) p ≡ done (l', some e))
        split none x k = cc
        split (some (rr, p)) x k = (rr, p, parses msg rr p x, ground arith)

    section_loop-Tiles :
        (n msg : ℕ) (l : List Rr) {l' : List Rr} {e : ℕ}
        → msg ≤ past_end
        → section_loop m past_end parser mem n l msg ≡ done (l', some e)
        → (new : List Rr) × (l' ≡ l ++ new)
          × (length new ≡ n)
          × Tiles next P msg new e
          × (e ≤ past_end)
    unfolding section_loop
    section_loop-Tiles zero msg l le h =
        ([], ground (arith, append-nil l), refl, ground arith, ground arith)
    section_loop-Tiles (suc n) msg l le h =
        let (rr, p, ps, k) = section_round n msg l h in
        let (new, e1, e2, t, e3) = section_loop-Tiles n p (l ++ (rr ∷ [])) ps.4 k in
        (
          rr ∷ new,
          e1 ∙ append_assoc l (rr ∷ []) new,
          ap suc e2,
          (ps.0, ps.1, ps.2, rw ps.3 at t),
          e3,
        )

    -- A section that is parsed has as many records as its count says, one behind the other, inside
    -- of the message.
    pub parse_section-Tiles :
        (msg count : ℕ) {l : List Rr} {e : ℕ}
        → parse_section m past_end parser mem msg count ≡ done (l, some e)
        → (length l ≡ count) × Tiles next P msg l e × (e ≤ past_end)
    unfolding parse_section
    parse_section-Tiles msg count {l} {e} h =
        let (u, c, k) = >>=-eq-done (check (leb msg past_end)) _ h in
        let (new, e1, e2, t, e3) = section_loop-Tiles count msg [] (check-le msg past_end c) k in
        (ap length e1 ∙ e2, rw (← e1) at t, e3)
