-- ===== src/Srv/Answer/Collected.antt =====
-- The records that step 2 collects.
use ruli.Common.{
  none, append-nil, Run, abort, bad_read, bad_write, no_fuel, refl, append_assoc, ap, ◌∙◌, ◌++◌,
  Bool-cases, inl,
}
use ruli.Common.{inr, ℕ, ◌≡◌, true, false, some, List, [], ◌∷◌, done, >>=-eq-done, Option, length}
use ruli.Parse.Records.{Rr, Memory}
use ruli.Parse.Data.{SrvRdata}
use ruli.Txt.Names.{wire}
use ruli.Txt.Expand.Names.{NameAt}
use ruli.Srv.Order.{SrvRr}
use ruli.Txt.Compare.Labels.{dname_compare_iff}
use ruli.Srv.Answer.{
  fallback, Code, code_parse_failed, code_malloc, code_list, rr_srv, is_srv, step_2, collect_one,
  go_on, Outcome, query_done, dname_compare, and_then,
}

-- A collected record has the fields of the answer and of its data.
abbrev pub from_rr : Rr → SrvRdata → SrvRr
from_rr rr r = record {
  priority = r.priority;
  weight = r.weight;
  port = r.port;
  target = r.target;
  target_len = r.target_len;
  ttl = rr.ttl;
  qclass = rr.qclass;
  type = rr.type;
}

-- The owner of a record is the name that was asked for.
abbrev pub OwnedBy : List ℕ → ℕ → List ℕ → Rr → Type 0
OwnedBy buf msg_len full_dname rr =
    (ls : List (List ℕ)) × NameAt buf msg_len 20 rr.owner ls × (full_dname ≡ wire ls)

-- The SRV records of the Internet class among the answers, in their order, all of them owned by the name and with data that
-- can be parsed.
pub data Collected (buf : List ℕ) (msg_len : ℕ) (full_dname : List ℕ)
    : List Rr → List SrvRr → Type 0 where
  none_left : Collected buf msg_len full_dname [] []
  other :
      (rr : Rr) (rest : List Rr) (rs : List SrvRr)
      → is_srv rr ≡ false
      → Collected buf msg_len full_dname rest rs
      → Collected buf msg_len full_dname (rr ∷ rest) rs
  srv :
      (rr : Rr) (d : SrvRdata) (rest : List Rr) (rs : List SrvRr)
      → is_srv rr ≡ true
      → OwnedBy buf msg_len full_dname rr
      → rr_srv buf msg_len full_dname rr ≡ done (some d)
      → Collected buf msg_len full_dname rest rs
      → Collected buf msg_len full_dname (rr ∷ rest) (from_rr rr d ∷ rs)

pub and_then-go_on {ℓ κ} :
    {A : Type ℓ} {B : Type κ} (m : Run (Outcome A)) (f : A → Run (Outcome B)) {b : B}
    → and_then m f ≡ done (go_on b)
    → (a : A) × (m ≡ done (go_on a)) × (f a ≡ done (go_on b))
and_then-go_on (done (go_on a)) f h = (a, refl, h)
and_then-go_on (done (query_done code)) f h = cc
and_then-go_on (done fallback) f h = cc
and_then-go_on abort f h = cc
and_then-go_on bad_read f h = cc
and_then-go_on bad_write f h = cc
and_then-go_on no_fuel f h = cc

module _ (buf : List ℕ) (msg_len : ℕ) (full_dname : List ℕ) where
  collect_one-srv :
      (mem : Memory) (l : List SrvRr) (rr : Rr) {out : List SrvRr}
      → collect_one buf msg_len full_dname mem l rr ≡ done (go_on out)
      → (d : SrvRdata) × OwnedBy buf msg_len full_dname rr
        × (rr_srv buf msg_len full_dname rr ≡ done (some d))
        × (out ≡ l ++ (from_rr rr d ∷ []))
  unfolding collect_one
  collect_one-srv mem l rr {out} h =
      let (same, e, k) = >>=-eq-done (dname_compare buf msg_len rr.owner full_dname) _ h in
      elim (Bool-cases same) [
        | inr n ↦ absurd (stopped code_parse_failed (rw n at k))
        | inl y ↦ elim (Bool-cases (mem.malloc (length l))) [
          | inr n ↦ absurd (stopped code_malloc (rw (y, n) at k))
          | inl a ↦ elim (Bool-cases (mem.push (length l))) [
            | inr n ↦ absurd (stopped code_list (rw (y, a, n) at k))
            | inl b ↦
                let (d, f, g) =
                  >>=-eq-done (rr_srv buf msg_len full_dname rr) _ (rw (y, a, b) at k) in
                let (ls, at, w, _) =
                  (dname_compare_iff buf msg_len rr.owner full_dname).0 (rw y at e) in
                let (r, p, q) = by_data d f g in (r, (ls, at, w), p, q)
          ]
        ]
      ]
    where
      stopped :
          (code : Code)
          → ◌≡◌ {A = Run (Outcome (List SrvRr))} (done (query_done code)) (done (go_on out))
          → ⊥
      stopped code h = cc

      by_data :
          (d : Option SrvRdata)
          → rr_srv buf msg_len full_dname rr ≡ done d
          → (elim d [
            | none ↦ done (query_done code_parse_failed)
            | some r ↦ done (go_on (l ++ (from_rr rr r ∷ [])))
          ])
            ≡ done (go_on out)
          → (d : SrvRdata) × (rr_srv buf msg_len full_dname rr ≡ done (some d))
            × (out ≡ l ++ (from_rr rr d ∷ []))
      by_data none e k = cc
      by_data (some d) e k = (d, e, cc)

  -- If step 2 goes on, it has put behind the list exactly the SRV records of the Internet class among
  -- the answers, in their order, each owned by the name that was asked for, with the fields of its data.
  pub step_2-Collected :
      (mem : Memory) (l : List SrvRr) (an_list : List Rr) (out : List SrvRr)
      → step_2 buf msg_len full_dname mem l an_list ≡ done (go_on out)
      → (rs : List SrvRr) × (out ≡ l ++ rs) × Collected buf msg_len full_dname an_list rs
  unfolding step_2
  step_2-Collected mem l [] out h = ([], cc (append-nil l), none_left)
  step_2-Collected mem l (rr ∷ an_list) out h = elim (Bool-cases (is_srv rr)) [
    | inr e ↦
        let (rs, f, c) = step_2-Collected mem l an_list out (rw e at h) in
        (rs, f, other rr an_list rs e c)
    | inl e ↦
        let (l2, f, k) =
          and_then-go_on (collect_one buf msg_len full_dname mem l rr) _ (rw e at h) in
        let (d, owned, parsed, p) = collect_one-srv mem l rr f in
        let (rs, q, c) = step_2-Collected mem l2 an_list out k in
        (
          from_rr rr d ∷ rs,
          q ∙ ap (λ x. x ++ rs) p ∙ append_assoc l (from_rr rr d ∷ []) rs,
          srv rr d an_list rs e owned parsed c,
        )
  ]
