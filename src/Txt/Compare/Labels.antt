-- ===== src/Txt/Compare/Labels.antt =====
-- Comparing names and joining them, in terms of their labels.
use ruli.Common.{
  bytes_equal, bytes_equal_iff, ℕ, ◌-◌, ◌≤◌, ◌<◌, ◌≡◌, ◌↔◌, refl, ap, ◌∙◌, sym, arith,
}
use ruli.Common.{
  append_assoc, true, false, ◌||◌, Option, none, some, List, [], ◌∷◌, ◌++◌, length, ltb,
}
use ruli.Common.{
  leb, ◌==◌, if◌then◌else◌, done, abort, read, length-append, take_exact, lt→ltb, read-append,
  >>=-eq-done, ==_refl,
}
use ruli.Limits.{dname_encoded, compression_depth}
use ruli.Txt.Names.{dot, wire, text, length-wire}
use ruli.Txt.Expand.{dname_expand}
use ruli.Txt.Expand.Names.{NameAt, dname_expand_iff}
use ruli.Txt.Compare.{dname_compare, concat_copy, dname_concat}

-- `ruli_dname_compare` answers yes exactly when a name can be read at the index by at most 20 jumps
-- and its wire format is the uncompressed name and has at most 255 bytes.
pub dname_compare_iff :
    (m : List ℕ) (e p : ℕ) (uncomp : List ℕ)
    → (dname_compare m e p uncomp ≡ done true) ↔ (
        (ls : List (List ℕ)) × NameAt m e compression_depth p ls
        × (uncomp ≡ wire ls)
        × (length uncomp ≤ dname_encoded))
unfolding dname_compare
dname_compare_iff m e p uncomp = (
  (λ h. let (r, x, k) = >>=-eq-done (dname_expand m e p) _ h in found r x k),
  λ h.
      rw ((dname_expand_iff m e p uncomp).1 h, ==_refl (length uncomp))
        (ap done ((bytes_equal_iff uncomp uncomp).1 refl)),
)
  where
    found :
        (r : Option (List ℕ))
        → dname_expand m e p ≡ done r
        → (elim r [
          | none ↦ abort
          | some name ↦
              if length name == length uncomp then done (bytes_equal name uncomp) else done false
        ])
          ≡ done true
        → (ls : List (List ℕ)) × NameAt m e compression_depth p ls
          × (uncomp ≡ wire ls)
          × (length uncomp ≤ dname_encoded)
    found none x k = cc
    found (some name) x k =
        let same : name ≡ uncomp = (bytes_equal_iff name uncomp).0 (ground arith) in
        (dname_expand_iff m e p uncomp).0 (rw same at x)

-- A name that cannot be expanded stops the program, since the comparison asserts that it can.
pub dname_compare_abort :
    (m : List ℕ) (e p : ℕ) (uncomp : List ℕ)
    → dname_expand m e p ≡ done none
    → dname_compare m e p uncomp ≡ abort
unfolding dname_compare
dname_compare_abort m e p uncomp h = rw h

wire_ends :
    (a : List (List ℕ))
    → (s : List ℕ) × (wire a ≡ s ++ (0 ∷ []))
      × (length s ≡ length (text a))
      × ((b : List (List ℕ)) → wire (a ++ b) ≡ s ++ wire b)
wire_ends [] = ([], refl, refl, λ b. refl)
wire_ends (l ∷ a) =
    let (s, e, n, f) = wire_ends a in
    (
      length l ∷ (l ++ s),
      ap (λ t. length l ∷ (l ++ t)) e ∙ ap (◌∷◌ (length l)) (sym (append_assoc l s (0 ∷ []))),
      omega (arith, n, length-append l s, length-append l (dot ∷ text a)),
      λ b.
          ap (λ t. length l ∷ (l ++ t)) (f b)
          ∙ ap (◌∷◌ (length l)) (sym (append_assoc l s (wire b))),
    )

concat_copy-eq :
    (n : ℕ) (s t : List ℕ)
    → 1 ≤ length t
    → concat_copy n (s ++ (0 ∷ [])) t ≡ (
        if ltb dname_encoded (length (s ++ t)) || (ltb n (length (s ++ t)) || leb n (length t))
        then done none
        else done (some (s ++ t)))
unfolding concat_copy
concat_copy-eq n s t h = ground (
  arith,
  length-append s (0 ∷ []),
  length-append s t,
  take_exact s (0 ∷ []) (length (s ++ (0 ∷ [])) - 1) (omega (arith, length-append s (0 ∷ []))),
)

last_zero : (a : List (List ℕ)) → read (wire a) (length (wire a) - 1) ≡ done 0
last_zero a =
    let (s, e, n, f) = wire_ends a in
    rw e (
      read-append s (0 ∷ []) (length (s ++ (0 ∷ [])) - 1) 0
        (omega (arith, length-append s (0 ∷ []))))

wire_pos : (a : List (List ℕ)) → 1 ≤ length (wire a)
wire_pos a = omega (arith, length-wire a)

dname_concat-checked :
    (n : ℕ) (a b : List (List ℕ))
    → length (wire a) < 255
    → length (wire b) < 255
    → dname_concat n (wire a) (wire b) ≡ concat_copy n (wire a) (wire b)
unfolding dname_concat
dname_concat-checked n a b ha hb = rw (
  lt→ltb 0 (length (wire a)) (wire_pos a),
  lt→ltb 0 (length (wire b)) (wire_pos b),
  lt→ltb (length (wire a)) 255 ha,
  lt→ltb (length (wire b)) 255 hb,
  last_zero a,
  last_zero b,
)

-- Joining the wire formats of two names of less than 255 bytes gives that of the joined labels if it
-- has at most 255 bytes and fits the buffer, and the second name alone leaves a byte of the buffer; in
-- every other case nothing is returned.
pub dname_concat-wire :
    (n : ℕ) (a b : List (List ℕ))
    → length (wire a) < 255
    → length (wire b) < 255
    → let w = wire (a ++ b) in
      dname_concat n (wire a) (wire b) ≡ (
        if ltb dname_encoded (length w) || (ltb n (length w) || leb n (length (wire b)))
        then done none
        else done (some w))
dname_concat-wire n a b ha hb =
    let (s, e, k, f) = wire_ends a in
    dname_concat-checked n a b ha hb ∙ rw (e, f b) (concat_copy-eq n s (wire b) (wire_pos b))
