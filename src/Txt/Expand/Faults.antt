-- ===== src/Txt/Expand/Faults.antt =====
-- `ruli_dname_expand` returns, or it reads behind the object that holds the message.
use ruli.Common.{
  ℕ, zero, suc, ◌+◌, ◌-◌, ◌≤◌, ◌<◌, ◌≡◌, ◌≢◌, ◌⊎◌, ◌>>=◌, refl, ◌∙◌, arith, Option, none, some,
  List,
}
use ruli.Common.{
  [], ◌∷◌, ◌++◌, length, leb, ◌==◌, true, false, length-append, ◌||◌, ltb, All, bit_and, Run, done,
  read, read_range, write,
}
use ruli.Common.{
  get_elem?, Option-cases, get_or, take, drop, bad_read, ne→not_==, lt→not_leb, Bool-cases,
  not_leb→lt, inl, inr, read-eq-done, le→leb, leb→le, length-take, length-drop,
}
use ruli.Common.Bits.{all_below, all_below_sound}
use ruli.Util.{pack2}
use ruli.Util.RoundTrip.{pack2_total}
use ruli.Txt.Expand.{pointer_offset, expand_loop, expand, dname_expand}
use ruli.Txt.Expand.Names.{jump, expand-enter, expand-past}

abbrev pub IsBytes : List ℕ → Type 0
IsBytes m = All (λ b. b < 256) m

pub get_or-lt : (m : List ℕ) (i : ℕ) → IsBytes m → get_or m i 0 < 256
get_or-lt [] i h = omega arith
get_or-lt (x ∷ m) zero h = h.0
get_or-lt (x ∷ m) (suc i) h = get_or-lt m i h.1

pointer_table : all_below 256 (λ x. (bit_and x 0xC0 == 0xC0) || ltb x 192) ≡ true
unfolding all_below
pointer_table = refl

-- A byte that is no compression pointer is below 192.
pub not_pointer-lt : (x : ℕ) → x < 256 → (bit_and x 0xC0 == 0xC0) ≡ false → x < 192
not_pointer-lt x h np = ground (arith, all_below_sound 256 _ x h pointer_table)

-- The call returns, or it reads behind an object that is less than 191 bytes longer than the message.
abbrev pub OverReads : List ℕ → ℕ → Run (Option (List ℕ)) → Type 0
OverReads m e run =
    ((r : Option (List ℕ)) × (run ≡ done r)) ⊎ ((run ≡ bad_read) × (length m < e + 191))

beyond : (m : List ℕ) (i : ℕ) → length m ≤ i → get_elem? m i ≡ none
beyond [] i h = refl
beyond (x ∷ m) zero h = absurd (omega (arith, h))
beyond (x ∷ m) (suc i) h = beyond m i (omega (arith, h))

pack2-bad_read : (m : List ℕ) (i : ℕ) → length m ≤ suc i → pack2 m i ≡ bad_read
unfolding pack2
pack2-bad_read m i h =
    let next = beyond m (i + 1) (omega (arith, h)) in
    elim (Option-cases (get_elem? m i)) [
      | inl e ↦ rw (read, e, ◌>>=◌) refl
      | inr (x, e) ↦ rw (read, e, ◌>>=◌, next) refl
    ]

module _ (m : List ℕ) (e size : ℕ) (bytes : IsBytes m) (held : e ≤ length m) where
  copied :
      (p n : ℕ) (out : List ℕ)
      → leb (p + (n + 1)) (length m) ≡ true
      → length out + (n + 1) < size
      → (b : List ℕ) × (read_range m p (n + 1) ≡ done b)
        × (write size out b ≡ done (out ++ b))
        × (length (out ++ b) < size)
  copied p n out fits room =
      let within = leb→le (p + (n + 1)) (length m) fits in
      let len : length (take (n + 1) (drop p m)) ≡ n + 1 =
        omega (arith, within, length-take (n + 1) (drop p m), length-drop p m) in
      (
        take (n + 1) (drop p m),
        rw fits refl,
        rw (le→leb (length out + length (take (n + 1) (drop p m))) size (omega arith)),
        omega (arith, length-append out (take (n + 1) (drop p m))),
      )

  root :
      (out : List ℕ)
      → leb size (length out) ≡ false
      → write size out (0 ∷ []) ≡ done (out ++ (0 ∷ []))
  root out free = ground arith

  abbrev Jumps : ℕ → Type 0
  Jumps d = (q : ℕ) (o : List ℕ) → q < e → length o ≤ size → OverReads m e (jump m e size d q o)

  -- The label is copied, or it reaches behind the object.
  label-total :
      (d f p n : ℕ) (out : List ℕ)
      → p < e
      → n < 192
      → length out + (n + 1) < size
      → ((b : List ℕ)
          → length b ≤ size
          → OverReads m e (expand_loop m e size (jump m e size d) f (p + (n + 1)) b))
      → OverReads m e (do
        b ← read_range m p (n + 1)
        out' ← write size out b
        expand_loop m e size (jump m e size d) f (p + (n + 1)) out')
  label-total d f p n out inside small room rest =
      elim (Bool-cases (leb (p + (n + 1)) (length m))) [
        | inl fits ↦
            let (b, rr, wr, le) = copied p n out fits room in
            rw (rr, wr, ◌>>=◌) (rest (out ++ b) (omega (arith, le)))
        | inr short ↦
            let past = not_leb→lt (p + (n + 1)) (length m) short in
            inr (rw (short, ◌>>=◌) refl, omega (arith, past, inside, small))
      ]

  loop-total :
      (d f p : ℕ) (out : List ℕ)
      → e - p < f
      → length out ≤ size
      → Jumps d
      → OverReads m e (expand_loop m e size (jump m e size d) f p out)
  unfolding expand_loop
  loop-total d zero p out h room jumps = absurd (omega arith)
  loop-total d (suc f) p out h room jumps = elim (Bool-cases (leb e p)) [
    | inl past ↦ inl (none, rw past)
    | inr inside ↦
        let lt = not_leb→lt e p inside in
        let n = get_or m p 0 in
        let r : read m p ≡ done n = read-eq-done m p (omega arith) in
        elim (Bool-cases (n == 0)) [
          | inl z ↦ elim (Bool-cases (leb size (length out))) [
            | inl full ↦ inl (none, rw (inside, r, z, full))
            | inr free ↦ inl (some (out ++ (0 ∷ [])), rw (inside, r, z, free, root out free))
          ]
          | inr nz ↦ elim (Bool-cases (bit_and n 0xC0 == 0xC0)) [
            | inl np ↦ rw (inside, r, nz, np) (jumps p out lt room)
            | inr np ↦ elim (Bool-cases (leb size (length out + (n + 1)))) [
              | inl full ↦ inl (none, rw (inside, r, nz, np, full))
              | inr free ↦
                  rw (inside, r, nz, np, free)
                    (label-total d f p n out lt (not_pointer-lt n (get_or-lt m p bytes) np)
                      (not_leb→lt _ _ free)
                      (λ b le. loop-total d f (p + (n + 1)) b (omega arith) le jumps))
            ]
          ]
        ]
  ]

  Jumps-total :
      (d : ℕ)
      → ((p : ℕ) (out : List ℕ) → length out ≤ size → OverReads m e (expand m e size d p out))
      → Jumps (suc d)
  Jumps-total d rest q o h room = elim (Bool-cases (leb (length m) (suc q))) [
    | inl short ↦
        let past = leb→le (length m) (suc q) short in
        inr (rw (pack2-bad_read m q past, ◌>>=◌) refl, omega (arith, past, h))
    | inr long ↦
        let (v, pk) = pack2_total m q (omega (arith, not_leb→lt (length m) (suc q) long)) in
        rw (pk, ◌>>=◌) (rest (pointer_offset v) o room)
  ]

  entered :
      (d p : ℕ) (out : List ℕ)
      → length out ≤ size
      → Jumps d
      → OverReads m e (expand m e size d p out)
  entered d p out room jumps = elim (Bool-cases (leb e p)) [
    | inl past ↦ inl (none, expand-past m e size d p out room (leb→le e p past))
    | inr inside ↦
        let lt = not_leb→lt e p inside in
        rw (expand-enter m e size d p out lt room)
          (loop-total d (suc (e - p)) p out (omega arith) room jumps)
  ]

  expand-total :
      (d p : ℕ) (out : List ℕ) → length out ≤ size → OverReads m e (expand m e size d p out)
  expand-total zero p out room = entered zero p out room (λ q o h k. inl (none, refl))
  expand-total (suc d) p out room = entered (suc d) p out room (Jumps-total d (expand-total d))

-- For a message of bytes that lies in its object, `ruli_dname_expand` returns, or it reads behind the
-- object: no assertion fails, nothing is written outside of the buffer, and no chain of compression
-- pointers keeps it from ending. It reads behind the object only if the object is not longer than the
-- message by 191 bytes or more.
pub dname_expand_total :
    (m : List ℕ) (e p : ℕ)
    → IsBytes m
    → e ≤ length m
    → ((r : Option (List ℕ)) × (dname_expand m e p ≡ done r))
      ⊎ ((dname_expand m e p ≡ bad_read) × (length m < e + 191))
unfolding dname_expand
dname_expand_total m e p bytes held = expand-total m e 255 bytes held 20 p [] (omega arith)

over_read :
    (m : List ℕ) (e size : ℕ) (jump : ℕ → List ℕ → Run (Option (List ℕ))) (f p n : ℕ)
    → p < e
    → read m p ≡ done n
    → n ≢ 0
    → (bit_and n 0xC0 == 0xC0) ≡ false
    → n + 1 < size
    → length m < p + (n + 1)
    → expand_loop m e size jump (suc f) p [] ≡ bad_read
unfolding expand_loop
over_read m e size jump f p n lt r nz np room short = rw (
  lt→not_leb e p lt,
  r,
  ne→not_== n 0 nz,
  np,
  lt→not_leb size (0 + (n + 1)) (omega arith),
  lt→not_leb (p + (n + 1)) (length m) short,
)

-- The label at the end of a message that fills its object is copied past that end: if the last byte is
-- the length of a label, from 1 to 191, the expansion from there reads outside of the object.
pub dname_expand_over_read :
    (m : List ℕ) (p n : ℕ)
    → length m ≡ p + 1
    → read m p ≡ done n
    → n ≢ 0
    → (bit_and n 0xC0 == 0xC0) ≡ false
    → n < 192
    → dname_expand m (p + 1) p ≡ bad_read
unfolding dname_expand
dname_expand_over_read m p n l r nz np small =
    expand-enter m (p + 1) 255 20 p [] (omega arith) (omega arith)
    ∙ over_read m (p + 1) 255 (jump m (p + 1) 255 20) (p + 1 - p) p n (omega arith) r nz np
        (omega arith) (omega arith)
