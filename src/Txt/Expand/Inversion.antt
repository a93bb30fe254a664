-- ===== src/Txt/Expand/Inversion.antt =====
-- What a round of the expansion loop has done when the loop returns a name.
use ruli.Common.{ℕ, zero, suc, ◌+◌, ◌-◌, ◌≤◌, ◌<◌, ◌≡◌, ◌≢◌, ap, ◌∙◌, arith, inl, inr}
use ruli.Common.{
  Option, some, List, [], ◌∷◌, ◌++◌, length, leb, ◌==◌, true, false, bit_and, Run, done,
}
use ruli.Common.{
  read, read_range, write, ◌>>=◌, take, drop, >>=-eq-done, sym, length-drop, length-take,
  Bool-cases, not_leb→lt, ==_iff,
}
use ruli.Txt.Expand.{expand_loop}

drop-cons : (m : List ℕ) (p : ℕ) {x : ℕ} → read m p ≡ done x → (t : List ℕ) × (drop p m ≡ x ∷ t)
drop-cons [] p r = cc
drop-cons (y ∷ m) zero r = (m, cc)
drop-cons (y ∷ m) (suc p) r = drop-cons m p r

write-eq :
    (size : ℕ) (out bytes : List ℕ) {out' : List ℕ}
    → write size out bytes ≡ done out'
    → out' ≡ out ++ bytes
write-eq size out bytes h = ground arith

range-eq :
    (m : List ℕ) (p n : ℕ) {bytes : List ℕ}
    → read_range m p n ≡ done bytes
    → (bytes ≡ take n (drop p m)) × (p + n ≤ length m)
range-eq m p n h = ground arith

-- The bytes that are copied are the length and the label.
pub read_range-cons :
    (m : List ℕ) (p n : ℕ) {x : ℕ} {bytes : List ℕ}
    → read m p ≡ done x
    → read_range m p (n + 1) ≡ done bytes
    → (l : List ℕ) × (bytes ≡ x ∷ l) × (length l ≡ n)
read_range-cons m p n {x} r h =
    let (t, d) = drop-cons m p r in
    let size : suc (length t) ≡ length m - p = ap length (sym d) ∙ length-drop p m in
    let step : n + 1 ≡ suc n = omega arith in
    let both = range-eq m p (n + 1) h in
    (
      take n t,
      both.0 ∙ ap (take (n + 1)) d ∙ ap (λ k. take k (x ∷ t)) step,
      omega (arith, length-take n t, both.1),
    )

module _ (m : List ℕ) (e size : ℕ) (jump : ℕ → List ℕ → Run (Option (List ℕ))) where
  -- The three ways in which a round leads to a name.
  pub data Round (f p : ℕ) (out w : List ℕ) : Type 0 where
    at_root : read m p ≡ done 0 → w ≡ out ++ (0 ∷ []) → length out < size → Round f p out w
    at_pointer :
        (n : ℕ)
        → read m p ≡ done n
        → (bit_and n 0xC0 == 0xC0) ≡ true
        → jump p out ≡ done (some w)
        → Round f p out w
    at_label :
        (n : ℕ) (l : List ℕ)
        → read m p ≡ done n
        → n ≢ 0
        → (bit_and n 0xC0 == 0xC0) ≡ false
        → n ≡ length l
        → read_range m p (n + 1) ≡ done (n ∷ l)
        → expand_loop m e size jump f (p + (n + 1)) (out ++ (n ∷ l)) ≡ done (some w)
        → Round f p out w

  label :
      {f p : ℕ} {out w : List ℕ} (n : ℕ)
      → read m p ≡ done n
      → n ≢ 0
      → (bit_and n 0xC0 == 0xC0) ≡ false
      → (read_range m p (n + 1) >>= λ bytes.
          write size out bytes >>= λ out'. expand_loop m e size jump f (p + (n + 1)) out')
        ≡ done (some w)
      → Round f p out w
  label {f} {p} {out} {w} n r nz np k =
      let (bytes, rr, k4) = >>=-eq-done (read_range m p (n + 1)) _ k in
      let (out', wr, k5) = >>=-eq-done (write size out bytes) _ k4 in
      let (l, be, ll) = read_range-cons m p n r rr in
      let oe : out' ≡ out ++ (n ∷ l) = write-eq size out bytes wr ∙ ap (λ b. out ++ b) be in
      at_label n l r nz np (sym ll) (rr ∙ ap done be)
        (ap (λ o. expand_loop m e size jump f (p + (n + 1)) o) (sym oe) ∙ k5)

  pub expand_loop-round :
      (f p : ℕ) (out : List ℕ) {w : List ℕ}
      → expand_loop m e size jump (suc f) p out ≡ done (some w)
      → (p < e) × Round f p out w
  unfolding expand_loop
  expand_loop-round f p out {w} h = elim (Bool-cases (leb e p)) [
    | inl past ↦ let h' = rw past at h in cc
    | inr inside ↦
        let (n, r, k) = >>=-eq-done (read m p) _ (rw inside at h) in
        (
          not_leb→lt e p inside,
          elim (Bool-cases (n == 0)) [
            | inl z ↦
                let k' = rw z at k in
                at_root (rw ((==_iff n 0).0 z) at r) (ground arith) (ground arith)
            | inr nz ↦
                let k1 = rw nz at k in
                elim (Bool-cases (bit_and n 0xC0 == 0xC0)) [
                  | inl np ↦ at_pointer n r np (rw np at k1)
                  | inr np ↦
                      let k2 = rw np at k1 in
                      elim (Bool-cases (leb size (length out + (n + 1)))) [
                        | inl full ↦ let k3 = rw full at k2 in cc
                        | inr room ↦ label n r (ground arith) np (rw room at k2)
                      ]
                ]
          ],
        )
  ]
