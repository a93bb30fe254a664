-- ===== src/Txt/Expand/Names.antt =====
-- The names that `ruli_dname_expand` finds in a message.
use ruli.Common.{ℕ, zero, suc, ◌+◌, ◌-◌, ◌≤◌, ◌<◌, ◌≡◌, ◌≢◌, ◌↔◌, sym, ap, ◌∙◌, arith}
use ruli.Common.{
  append_assoc, Option, none, some, List, [], ◌∷◌, ◌++◌, length, ◌==◌, true, false, length-append,
  bit_and,
}
use ruli.Common.{
  Run, done, read, read_range, ◌>>=◌, lt→not_leb, Bool-cases, inl, inr, le→leb, ==_iff, >>=-eq-done,
}
use ruli.Util.{pack2}
use ruli.Limits.{dname_encoded, compression_depth}
use ruli.Txt.Names.{wire}
use ruli.Txt.Expand.Inversion.{Round, at_root, at_pointer, at_label, expand_loop-round}
use ruli.Txt.Expand.{pointer_offset, expand_loop, expand, dname_expand}

-- `NameAt m e d p ls`: the name that begins at index `p` of a message that ends at `e` has the
-- labels `ls`, and at most `d` compression pointers are followed to read it.
pub data NameAt (m : List ℕ) (e : ℕ) : ℕ → ℕ → List (List ℕ) → Type 0 where
  root : (d p : ℕ) → p < e → read m p ≡ done 0 → NameAt m e d p []
  label :
      (d p n : ℕ) (l : List ℕ) (ls : List (List ℕ))
      → p < e
      → read m p ≡ done n
      → n ≢ 0
      → (bit_and n 0xC0 == 0xC0) ≡ false
      → n ≡ length l
      → read_range m p (n + 1) ≡ done (n ∷ l)
      → NameAt m e d (p + (n + 1)) ls
      → NameAt m e d p (l ∷ ls)
  pointer :
      (d p n v : ℕ) (ls : List (List ℕ))
      → p < e
      → read m p ≡ done n
      → (bit_and n 0xC0 == 0xC0) ≡ true
      → pack2 m p ≡ done v
      → NameAt m e d (pointer_offset v) ls
      → NameAt m e (suc d) p ls

wire_pos : (ls : List (List ℕ)) → 0 < length (wire ls)
wire_pos [] = omega arith
wire_pos (l ∷ ls) = omega arith

module _ (m : List ℕ) (e size : ℕ) where
  -- One call for each way in which a round of the loop goes on.
  loop-root :
      (jump : ℕ → List ℕ → Run (Option (List ℕ))) (f p : ℕ) (out : List ℕ)
      → p < e
      → read m p ≡ done 0
      → length out < size
      → expand_loop m e size jump (suc f) p out ≡ done (some (out ++ (0 ∷ [])))
  unfolding expand_loop
  loop-root jump f p out h r room = rw (lt→not_leb e p h, r) (ground arith)

  loop-label :
      (jump : ℕ → List ℕ → Run (Option (List ℕ))) (f p n : ℕ) (l out : List ℕ)
      → p < e
      → read m p ≡ done n
      → n ≢ 0
      → (bit_and n 0xC0 == 0xC0) ≡ false
      → n ≡ length l
      → read_range m p (n + 1) ≡ done (n ∷ l)
      → length out + (n + 1) < size
      → expand_loop m e size jump (suc f) p out
        ≡ expand_loop m e size jump f (p + (n + 1)) (out ++ (n ∷ l))
  unfolding expand_loop
  loop-label jump f p n l out h r nz np nl rr room = rw (lt→not_leb e p h, r, np, rr) (ground arith)

  loop-pointer :
      (jump : ℕ → List ℕ → Run (Option (List ℕ))) (f p n : ℕ) (out : List ℕ)
      → p < e
      → read m p ≡ done n
      → (bit_and n 0xC0 == 0xC0) ≡ true
      → expand_loop m e size jump (suc f) p out ≡ jump p out
  unfolding expand_loop
  loop-pointer jump f p n out h r np = elim (Bool-cases (n == 0)) [
    | inl z ↦ let np' : (bit_and 0 0xC0 == 0xC0) ≡ true = rw ((==_iff n 0).0 z) at np in cc
    | inr nz ↦ rw (lt→not_leb e p h, r, nz, np)
  ]

  -- What the code does at a compression pointer with `d` jumps left.
  abbrev pub jump : ℕ → ℕ → List ℕ → Run (Option (List ℕ))
  jump zero = λ label out. done none
  jump (suc d) = λ label out. pack2 m label >>= λ v. expand m e size d (pointer_offset v) out

  pub expand-enter :
      (d p : ℕ) (out : List ℕ)
      → p < e
      → length out ≤ size
      → expand m e size d p out ≡ expand_loop m e size (jump d) (suc (e - p)) p out
  unfolding expand
  expand-enter zero p out h room = rw (le→leb (length out) size room, lt→not_leb e p h)
  expand-enter (suc d) p out h room = rw (le→leb (length out) size room, lt→not_leb e p h)

  pub expand-past :
      (d p : ℕ) (out : List ℕ) → length out ≤ size → e ≤ p → expand m e size d p out ≡ done none
  unfolding expand
  expand-past zero p out room h = rw (le→leb (length out) size room, le→leb e p h)
  expand-past (suc d) p out room h = rw (le→leb (length out) size room, le→leb e p h)

  NameAt-lt : {d p : ℕ} {ls : List (List ℕ)} → NameAt m e d p ls → p < e
  NameAt-lt (root d p h r) = h
  NameAt-lt (label d p n l ls h _ _ _ _ _ _) = h
  NameAt-lt (pointer d p n v ls h _ _ _ _) = h

  pub loop_complete :
      (f : ℕ) (out : List ℕ) {d p : ℕ} {ls : List (List ℕ)}
      → NameAt m e d p ls
      → e - p < f
      → length out + length (wire ls) ≤ size
      → expand_loop m e size (jump d) f p out ≡ done (some (out ++ wire ls))
  loop_complete zero out a h room = absurd (omega arith)
  loop_complete (suc f) out (root d p lt r) h room = loop-root (jump d) f p out lt r (omega arith)
  loop_complete (suc f) out (label d p n l ls lt r nz np nl rr rest) h room =
      loop-label (jump d) f p n l out lt r nz np nl rr
        (omega (arith, length-append l (wire ls), wire_pos ls))
      ∙ loop_complete f (out ++ (n ∷ l)) rest (omega arith)
          (omega (arith, length-append l (wire ls), length-append out (n ∷ l)))
      ∙ ap (λ w. done (some w))
          (append_assoc out (n ∷ l) (wire ls) ∙ ap (λ k. out ++ (k ∷ (l ++ wire ls))) nl)
  loop_complete (suc f) out (pointer d p n v ls lt r np pk rest) h room =
      loop-pointer (jump (suc d)) f p n out lt r np
      ∙ ap (λ k. k >>= λ v. expand m e size d (pointer_offset v) out) pk
      ∙ expand-enter d (pointer_offset v) out (NameAt-lt rest) (omega (arith, wire_pos ls))
      ∙ loop_complete (suc (e - pointer_offset v)) out rest (omega arith) room

  pub Sound : ℕ → ℕ → List ℕ → List ℕ → Type 0
  Sound d p out w =
      (ls : List (List ℕ)) × NameAt m e d p ls × (w ≡ out ++ wire ls) × (length w ≤ size)

  -- One round, given that the rest of the loop and the jump are sound.
  round-Sound :
      (d f p : ℕ) (out : List ℕ) {w : List ℕ}
      → p < e
      → ((q : ℕ) (o : List ℕ) → expand_loop m e size (jump d) f q o ≡ done (some w) → Sound d q o w)
      → ((q : ℕ) (o : List ℕ) (n : ℕ)
          → q < e
          → read m q ≡ done n
          → (bit_and n 0xC0 == 0xC0) ≡ true
          → jump d q o ≡ done (some w)
          → Sound d q o w)
      → Round m e size (jump d) f p out w
      → Sound d p out w
  unfolding Sound
  round-Sound d f p out lt loop jumped (at_root r e room) =
      ([], root d p lt r, e, omega (arith, ap length e, length-append out (0 ∷ [])))
  round-Sound d f p out lt loop jumped (at_pointer n r np k) = jumped p out n lt r np k
  round-Sound d f p out lt loop jumped (at_label n l r nz np nl rr k) =
      let (ls, a, e', le) = loop (p + (n + 1)) (out ++ (n ∷ l)) k in
      (
        l ∷ ls,
        label d p n l ls lt r nz np nl rr a,
        e' ∙ append_assoc out (n ∷ l) (wire ls) ∙ ap (λ k. out ++ (k ∷ (l ++ wire ls))) nl,
        le,
      )

  expand-some :
      (d p : ℕ) (out : List ℕ) {w : List ℕ}
      → expand m e size d p out ≡ done (some w)
      → expand_loop m e size (jump d) (suc (e - p)) p out ≡ done (some w)
  unfolding expand
  expand-some zero p out h = ground arith
  expand-some (suc d) p out h = ground arith

  pub loop-Sound :
      (d f p : ℕ) (out : List ℕ) {w : List ℕ}
      → expand_loop m e size (jump d) f p out ≡ done (some w)
      → Sound d p out w
  unfolding expand_loop Sound
  loop-Sound d zero p out h = cc
  loop-Sound zero (suc f) p out h =
      let (lt, r) = expand_loop-round m e size (jump zero) f p out h in
      round-Sound zero f p out lt (λ q o k. loop-Sound zero f q o k) (λ q o n lt r np k. cc) r
  loop-Sound (suc d) (suc f) p out h =
      let (lt, r) = expand_loop-round m e size (jump (suc d)) f p out h in
      round-Sound (suc d) f p out lt (λ q o k. loop-Sound (suc d) f q o k)
        (λ q o n lt r np k.
          let (v, pk, x) = >>=-eq-done (pack2 m q) _ k in
          let (ls, a, ew, le) =
            loop-Sound d (suc (e - pointer_offset v)) (pointer_offset v) o
              (expand-some d (pointer_offset v) o x) in
          (ls, pointer d q n v ls lt r np pk a, ew, le))
        r

-- `ruli_dname_expand` returns a name exactly when one can be read at the index by at most 20 jumps and
-- its wire format fits into 255 bytes, and what it returns is that wire format.
pub dname_expand_iff :
    (m : List ℕ) (e p : ℕ) (w : List ℕ)
    → (dname_expand m e p ≡ done (some w)) ↔ (
        (ls : List (List ℕ)) × NameAt m e compression_depth p ls
        × (w ≡ wire ls)
        × (length w ≤ dname_encoded))
unfolding dname_expand Sound
dname_expand_iff m e p w = (
  (λ h. loop-Sound m e 255 20 _ p [] (expand-some m e 255 20 p [] h)),
  λ (ls, a, ew, le).
      expand-enter m e 255 20 p [] (NameAt-lt m e 255 a) (omega arith)
      ∙ loop_complete m e 255 _ [] a (omega arith) (omega (arith, ap length ew))
      ∙ ap (λ v. done (some v)) (sym ew),
)
