-- ===== src/Addr/Prefix/Lengths.antt =====
-- How long a common prefix is: the bits of two addresses, from the highest one on.
use ruli.Common.{
  ℕ, zero, suc, ◌+◌, ◌-◌, ◌*◌, ◌/◌, ◌%◌, ◌^◌, ◌≤◌, ◌<◌, ◌≡◌, ◌≢◌, ◌↔◌, ne→not_==, refl, ap, arith,
  List, [], ◌∷◌, ◌++◌, ◌==◌, if◌then◌else◌, take, length, All, bit_xor, false, Bool-cases, inl, inr,
  ==_iff, done, check, le→leb, ◌>>=◌, ◌>>◌, ◌∙◌, length-append,
}
use Prim.Native.Nat.{differ}
use native.Mathlib.Nat.{pow-suc}
use ruli.Common.Bits.{bit_xor_step}
use ruli.Addr.Prefix.{match_bits, prefix_loop, common_prefix_bitlen}

-- The `w` low bits of a number, the highest one first.
abbrev pub bits : ℕ → ℕ → List ℕ
bits zero x = []
bits (suc w) x = bits w (x / 2) ++ (x % 2 ∷ [])

abbrev pub bits_of : List ℕ → List ℕ
bits_of [] = []
bits_of (x ∷ xs) = bits 8 x ++ bits_of xs

-- In how many items two lists agree from the start.
abbrev pub agree : List ℕ → List ℕ → ℕ
agree [] ys = 0
agree (x ∷ xs) [] = 0
agree (x ∷ xs) (y ∷ ys) = if x == y then suc (agree xs ys) else 0

-- In how many bits the first `n` bytes of two addresses agree from the start.
abbrev pub equal_bits : ℕ → List ℕ → List ℕ → ℕ
equal_bits n a b = agree (bits_of (take n a)) (bits_of (take n b))

length-bits : (w x : ℕ) → length (bits w x) ≡ w
length-bits zero x = refl
length-bits (suc w) x =
    omega (arith, length-append (bits w (x / 2)) (x % 2 ∷ []), length-bits w (x / 2))

agree_same : (xs : List ℕ) → agree xs xs ≡ length xs
agree_same [] = refl
agree_same (x ∷ xs) = ground (arith, agree_same xs)

agree-le : (xs ys : List ℕ) → agree xs ys ≤ length xs
agree-le [] ys = omega arith
agree-le (x ∷ xs) [] = omega arith
agree-le (x ∷ xs) (y ∷ ys) = ground (arith, agree-le xs ys)

-- Lists of one length and what is behind them.
agree-append_same : (xs us vs : List ℕ) → agree (xs ++ us) (xs ++ vs) ≡ length xs + agree us vs
agree-append_same [] us vs = omega arith
agree-append_same (x ∷ xs) us vs = ground (arith, agree-append_same xs us vs)

agree-append :
    (xs ys us vs : List ℕ)
    → length xs ≡ length ys
    → agree xs ys < length xs
    → agree (xs ++ us) (ys ++ vs) ≡ agree xs ys
agree-append [] ys us vs e h = absurd (omega (arith, h))
agree-append (x ∷ xs) [] us vs e h = absurd (omega (arith, e))
agree-append (x ∷ xs) (y ∷ ys) us vs e h = elim (Bool-cases (x == y)) [
  | inl same ↦
      let h' = rw same at h in
      rw same (ap suc (agree-append xs ys us vs (omega (arith, e)) (omega (arith, h'))))
  | inr differs ↦ rw differs refl
]

differ_digits :
    (a b : ℕ)
    → a < 2
    → b < 2
    → (differ a b < 2) × (differ a b ≡ 0 → a ≡ b) × (a ≡ b → differ a b ≡ 0)
differ_digits zero zero ha hb = (omega arith, (λ e. refl), λ e. refl)
differ_digits zero (suc zero) ha hb = (omega arith, (λ e. omega (arith, e)), λ e. omega (arith, e))
differ_digits (suc zero) zero ha hb = (omega arith, (λ e. omega (arith, e)), λ e. omega (arith, e))
differ_digits (suc zero) (suc zero) ha hb = (omega arith, (λ e. refl), λ e. refl)
differ_digits (suc (suc a)) b ha hb = absurd (omega (arith, ha))
differ_digits zero (suc (suc b)) ha hb = absurd (omega (arith, hb))
differ_digits (suc zero) (suc (suc b)) ha hb = absurd (omega (arith, hb))

zero_zero : (x y : ℕ) → x ≡ 0 → y ≡ 0 → bit_xor x y ≡ 0
zero_zero x y a b = rw (a, b) refl

xor_zero : (w x y : ℕ) → x < 2 ^ w → y < 2 ^ w → (bit_xor x y ≡ 0) ↔ (x ≡ y)
xor_zero zero x y hx hy =
    (λ e. omega (arith, hx, hy), λ e. zero_zero x y (omega (arith, hx)) (omega (arith, hy)))
xor_zero (suc w) x y hx hy =
    let (below, zero_same, same_zero) = differ_digits (x % 2) (y % 2) (omega arith) (omega arith) in
    let step = bit_xor_step x y in
    let half =
      xor_zero w (x / 2) (y / 2) (omega (arith, hx, pow-suc 2 w))
        (omega (arith, hy, pow-suc 2 w)) in
    (
      λ e.
          let low = zero_same (omega (arith, e, step)) in
          let high = half.0 (omega (arith, e, step)) in omega (arith, low, high),
      λ e.
          let low = same_zero (ap (λ t. t % 2) e) in
          let high = half.1 (ap (λ t. t / 2) e) in omega (arith, low, high, step),
    )

xor_half : (x y : ℕ) → bit_xor x y / 2 ≡ bit_xor (x / 2) (y / 2)
xor_half x y =
    let (below, zero_same, same_zero) = differ_digits (x % 2) (y % 2) (omega arith) (omega arith) in
    omega (arith, below, bit_xor_step x y)

-- The bits of the numbers agree as those of their halves do, and in fewer places than there are.
abbrev IsHalved : ℕ → ℕ → ℕ → Type 0
IsHalved w x y =
    (agree (bits (suc w) x) (bits (suc w) y) ≡ agree (bits w (x / 2)) (bits w (y / 2)))
    × (agree (bits (suc w) x) (bits (suc w) y) < suc w)

agree_last : (w x y : ℕ) → x / 2 ≡ y / 2 → (x == y) ≡ false → IsHalved w x y
agree_last w x y high e =
    let low : (x % 2 == y % 2) ≡ false = ground (arith, e, high) in
    let whole = agree-append_same (bits w (y / 2)) (x % 2 ∷ []) (y % 2 ∷ []) in
    rw (high, whole, low)
      (omega (arith, agree_same (bits w (y / 2))), omega (arith, length-bits w (y / 2)))

agree_step : (w x y : ℕ) → x < 2 ^ suc w → y < 2 ^ suc w → (x == y) ≡ false → IsHalved w x y
agree_step zero x y hx hy e = agree_last zero x y (omega (arith, hx, hy)) e
agree_step (suc w) x y hx hy e = elim (Bool-cases (x / 2 == y / 2)) [
  | inl same ↦ agree_last (suc w) x y ((==_iff (x / 2) (y / 2)).0 same) e
  | inr differs ↦
      let (halved, fewer) =
        agree_step w (x / 2) (y / 2) (omega (arith, hx, pow-suc 2 (suc w)))
          (omega (arith, hy, pow-suc 2 (suc w))) differs in
      let xs = bits (suc w) (x / 2) in
      let ys = bits (suc w) (y / 2) in
      let long_x = length-bits (suc w) (x / 2) in
      let long_y = length-bits (suc w) (y / 2) in
      let before =
        agree-append xs ys (x % 2 ∷ []) (y % 2 ∷ []) (omega (arith, long_x, long_y))
          (omega (arith, long_x, fewer)) in
      (before, omega (arith, before, fewer))
]

match_zero : (w b : ℕ) → match_bits w 0 b ≡ b
unfolding match_bits
match_zero zero b = refl
match_zero (suc w) b = match_zero w b

match-agree :
    (w x y b : ℕ)
    → x < 2 ^ w
    → y < 2 ^ w
    → w ≤ b
    → match_bits w (bit_xor x y) b + w ≡ b + agree (bits w x) (bits w y)
unfolding match_bits
match-agree zero x y b hx hy h = omega arith
match-agree (suc w) x y b hx hy h =
    let xor = xor_zero (suc w) x y hx hy in
    elim (Bool-cases (x == y)) [
      | inl same ↦
          let e = (==_iff x y).0 same in
          let e' = xor.1 e in
          let all =
            ap (λ t. agree (bits (suc w) t) (bits (suc w) y)) e
            ∙ agree_same (bits (suc w) y)
            ∙ length-bits (suc w) y in
          rw (e') (omega (arith, match_zero w b, all))
      | inr differs ↦
          let not_zero : bit_xor x y ≢ 0 = λ z. let e = xor.0 z in ground (arith, e, differs) in
          let halved = (agree_step w x y hx hy differs).0 in
          let later =
            match-agree w (x / 2) (y / 2) (b - 1) (omega (arith, hx, pow-suc 2 w))
              (omega (arith, hy, pow-suc 2 w)) (omega (arith, h)) in
          rw (ne→not_== (bit_xor x y) 0 not_zero, xor_half x y) (omega (arith, h, later, halved))
    ]

prefix_loop-equal_bits :
    (n : ℕ) (a b : List ℕ) (l : ℕ)
    → All (λ x. x < 256) a
    → All (λ x. x < 256) b
    → n ≤ length a
    → n ≤ length b
    → prefix_loop n a b l ≡ done (l + equal_bits n a b)
unfolding prefix_loop
prefix_loop-equal_bits zero a b l p q h k = ap done (omega arith)
prefix_loop-equal_bits (suc n) [] b l p q h k = absurd (omega (arith, h))
prefix_loop-equal_bits (suc n) (x ∷ a) [] l p q h k = absurd (omega (arith, k))
prefix_loop-equal_bits (suc n) (x ∷ a) (y ∷ b) l p q h k = elim (Bool-cases (x == y)) [
  | inl same ↦
      let e = (==_iff x y).0 same in
      let rest =
        prefix_loop-equal_bits n a b (l + 8) p.1 q.1 (omega (arith, h)) (omega (arith, k)) in
      let whole = agree-append_same (bits 8 y) (bits_of (take n a)) (bits_of (take n b)) in
      let more =
        ap (λ t. agree (bits 8 t ++ bits_of (take n a)) (bits_of (take (suc n) (y ∷ b)))) e in
      rw same (rest ∙ ap done (omega (arith, more, whole, length-bits 8 y)))
  | inr differs ↦
      let (halved, fewer) = agree_step 7 x y p.0 q.0 differs in
      let before =
        agree-append (bits 8 x) (bits 8 y) (bits_of (take n a)) (bits_of (take n b))
          (omega (arith, length-bits 8 x, length-bits 8 y))
          (omega (arith, length-bits 8 x, fewer)) in
      rw differs (ap done (omega (arith, before, match-agree 8 x y 8 p.0 q.0 (omega arith))))
]

length-bits_of : (n : ℕ) (a : List ℕ) → length (bits_of (take n a)) ≤ 8 * n
length-bits_of zero a = omega arith
length-bits_of (suc n) [] = omega arith
length-bits_of (suc n) (x ∷ a) =
    omega
      (arith, length-append (bits 8 x) (bits_of (take n a)), length-bits 8 x, length-bits_of n a)

pub equal_bits-le : (n : ℕ) (a b : List ℕ) → equal_bits n a b ≤ 8 * n
equal_bits-le n a b =
    omega (arith, agree-le (bits_of (take n a)) (bits_of (take n b)), length-bits_of n a)

-- For two addresses of at most 16 bytes in objects that hold them,
-- `ruli_addr_get_common_prefix_bitlen` returns the number of bits in which they agree from the highest
-- bit of the first byte on; its assertions hold.
pub common_prefix-equal_bits :
    (a b : List ℕ) (n : ℕ)
    → All (λ x. x < 256) a
    → All (λ x. x < 256) b
    → n ≤ 16
    → n ≤ length a
    → n ≤ length b
    → common_prefix_bitlen a b n ≡ done (equal_bits n a b)
unfolding common_prefix_bitlen
common_prefix-equal_bits a b n p q small h k =
    let from_zero : 0 + equal_bits n a b ≡ equal_bits n a b = omega arith in
    rw
      (
        le→leb n 32 (omega (arith, small)),
        prefix_loop-equal_bits n a b 0 p q h k ∙ ap done from_zero,
        le→leb (equal_bits n a b) 128 (omega (arith, small, equal_bits-le n a b)),
        check,
        ◌>>=◌,
        ◌>>◌,
      )
      refl
