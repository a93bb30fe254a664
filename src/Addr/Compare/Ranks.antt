-- ===== src/Addr/Compare/Ranks.antt =====
-- The order of RFC 3484 as a lexicographic order of numbers.
use ruli.Common.{
  ℕ, ◌-◌, ◌*◌, ◌≤◌, ◌≡◌, ◌↔◌, refl, sym, arith, Bool, true, false, List, [], ◌∷◌, if◌then◌else◌,
}
use ruli.Common.{
  ◌==◌, ltb, Bool-cases, inl, inr, Run, done, ◌∙◌, ==_refl, ◌<◌, All, length, subst, check, ◌>>=◌,
  ◌>>◌,
}
use ruli.Addr.Prefix.{Family, inet, inet6, get_scope, common_prefix_bitlen}
use ruli.Addr.Prefix.Tables.{get_label_precedence}
use ruli.Addr.Prefix.Lengths.{equal_bits, equal_bits-le, common_prefix-equal_bits}
use ruli.Addr.Compare.{
  Addr, Order, before, same, after, prefer, prefer_match, family_equal, addr_size, rule_9, rule_8,
  rule_6, rule_5, rule_2, rfc3484_cmp,
}

-- The first difference decides, and the smaller number comes first.
abbrev pub lexicographic : List ℕ → List ℕ → Order
lexicographic (x ∷ xs) (y ∷ ys) =
    if ltb x y then before else if ltb y x then after else lexicographic xs ys
lexicographic [] ys = same
lexicographic (x ∷ xs) [] = same

abbrev pub differ : ℕ → ℕ → ℕ
differ a b = if a == b then 0 else 1

-- The label of an address, which every address has.
abbrev pub label_of : Family → List ℕ → ℕ
label_of family addr = (get_label_precedence family addr).0

-- 0 if the source address has the scope of the destination, and 1 if not; the same for the label. Without a source
-- address both are 0.
abbrev pub source_scope : Addr → ℕ
source_scope a =
    if a.has_src then differ (get_scope a.family a.addr) (get_scope a.src_family a.src) else 0

abbrev pub source_label : Addr → ℕ
source_label a =
    if a.has_src then differ (label_of a.family a.addr) (label_of a.src_family a.src) else 0

-- What rule 9 looks at.
abbrev pub mismatch : Addr → ℕ
mismatch a = if a.has_src then 128 - equal_bits (addr_size a.family) a.addr a.src else 0

abbrev pub last_rank : Bool → Addr → List ℕ
last_rank true a = mismatch a ∷ []
last_rank false a = []

-- What the rules look at, as numbers that are smaller for the better address, from the last rule to the first; rule 9
-- counts only if `same_family` holds.
abbrev pub from_rule_8 : Bool → Addr → List ℕ
from_rule_8 same_family a = get_scope a.family a.addr ∷ last_rank same_family a

abbrev pub from_rule_6 : Bool → Addr → List ℕ
from_rule_6 same_family a = label_of a.family a.addr ∷ from_rule_8 same_family a

abbrev pub from_rule_5 : Bool → Addr → List ℕ
from_rule_5 same_family a = source_label a ∷ from_rule_6 same_family a

abbrev pub from_rule_2 : Bool → Addr → List ℕ
from_rule_2 same_family a = source_scope a ∷ from_rule_5 same_family a

abbrev pub ranks : Bool → Addr → List ℕ
ranks same_family a = (if a.has_src then 0 else 1) ∷ from_rule_2 same_family a

prefer-lexicographic :
    (x y : ℕ) (xs ys : List ℕ) (rest : Run Order)
    → rest ≡ done (lexicographic xs ys)
    → prefer (ltb x y) (ltb y x) rest ≡ done (lexicographic (x ∷ xs) (y ∷ ys))
unfolding prefer
prefer-lexicographic x y xs ys rest h = ground arith

prefer_match-differ :
    (a b c d : ℕ) (rest : Run Order)
    → prefer_match (a == b) (c == d) rest
      ≡ prefer (ltb (differ a b) (differ c d)) (ltb (differ c d) (differ a b)) rest
unfolding prefer
prefer_match-differ a b c d rest = ground arith

prefer-swap :
    (x y : ℕ) (rest : Run Order)
    → x ≤ 128
    → y ≤ 128
    → prefer (ltb y x) (ltb x y) rest
      ≡ prefer (ltb (128 - x) (128 - y)) (ltb (128 - y) (128 - x)) rest
unfolding prefer
prefer-swap x y rest hx hy = ground arith

prefer-same : (x : ℕ) (rest : Run Order) → prefer (ltb x x) (ltb x x) rest ≡ rest
unfolding prefer
prefer-same x rest = ground arith

family_equal_iff : (f g : Family) → (family_equal f g ≡ true) ↔ (f ≡ g)
family_equal_iff inet inet = ground arith
family_equal_iff inet inet6 = ground arith
family_equal_iff inet6 inet = ground arith
family_equal_iff inet6 inet6 = ground arith

addr_size-le : (f : Family) → addr_size f ≤ 16
addr_size-le inet = omega arith
addr_size-le inet6 = omega arith

prefix-le : (x y : List ℕ) (f : Family) → equal_bits (addr_size f) x y ≤ 128
prefix-le x y f = omega (arith, equal_bits-le (addr_size f) x y, addr_size-le f)

-- The objects behind the pointers hold the bytes that the family of the address has, those of the source address too.
abbrev pub IsWhole : Addr → Type 0
IsWhole a =
    All (λ b. b < 256) a.addr
    × All (λ b. b < 256) a.src
    × (addr_size a.family ≤ length a.addr)
    × (a.has_src ≡ true → addr_size a.family ≤ length a.src)

prefix-equal_bits :
    (a : Addr)
    → IsWhole a
    → a.has_src ≡ true
    → common_prefix_bitlen a.addr a.src (addr_size a.family)
      ≡ done (equal_bits (addr_size a.family) a.addr a.src)
prefix-equal_bits a (p, q, h, k) y =
    common_prefix-equal_bits a.addr a.src (addr_size a.family) p q (addr_size-le a.family) h (k y)

rule_9-rank :
    (a b : Addr)
    → IsWhole a
    → IsWhole b
    → a.has_src ≡ b.has_src
    → (let s = family_equal a.family b.family in
        rule_9 a b ≡ done (lexicographic (last_rank s a) (last_rank s b)))
unfolding rule_9
rule_9-rank a b pa pb h = elim (Bool-cases (family_equal a.family b.family)) [
  | inr e ↦ rw e refl
  | inl e ↦ elim (Bool-cases b.has_src) [
    | inr n ↦ rw (e, h, n) refl
    | inl y ↦
        let n = addr_size b.family in
        let same_family = (family_equal_iff a.family b.family).0 e in
        let len1 = equal_bits n a.addr a.src in
        let len2 = equal_bits n b.addr b.src in
        let e1 : common_prefix_bitlen a.addr a.src n ≡ done len1 =
          subst
            (λ f.
              common_prefix_bitlen a.addr a.src (addr_size f)
              ≡ done (equal_bits (addr_size f) a.addr a.src))
            same_family (prefix-equal_bits a pa (h ∙ y)) in
        let e2 = prefix-equal_bits b pb y in
        let swap =
          prefer-swap len1 len2 (done same) (prefix-le a.addr a.src b.family)
            (prefix-le b.addr b.src b.family) in
        rw (e, h, y, same_family, ==_refl n, check, ◌>>=◌, ◌>>◌, e1, e2)
          (swap ∙ prefer-lexicographic (128 - len1) (128 - len2) [] [] (done same) refl)
  ]
]

rule_8-rank :
    (a b : Addr) (xs ys : List ℕ)
    → rule_9 a b ≡ done (lexicographic xs ys)
    → rule_8 a b
      ≡ done (lexicographic (get_scope a.family a.addr ∷ xs) (get_scope b.family b.addr ∷ ys))
unfolding rule_8
rule_8-rank a b xs ys h =
    prefer-lexicographic (get_scope a.family a.addr) (get_scope b.family b.addr) xs ys (rule_9 a b)
      h

prefer-precedence :
    (x y : ℕ) (rest : Run Order)
    → x ≤ 4
    → y ≤ 4
    → prefer (ltb (50 - 10 * y) (50 - 10 * x)) (ltb (50 - 10 * x) (50 - 10 * y)) rest
      ≡ prefer (ltb x y) (ltb y x) rest
unfolding prefer
prefer-precedence x y rest hx hy = ground arith

rule_6-rank :
    (a b : Addr) (xs ys : List ℕ)
    → rule_8 a b ≡ done (lexicographic xs ys)
    → rule_6 a b
      ≡ done (lexicographic (label_of a.family a.addr ∷ xs) (label_of b.family b.addr ∷ ys))
unfolding rule_6
rule_6-rank a b xs ys h =
    let (l, el, pl, bl) = get_label_precedence a.family a.addr in
    let (m, em, pm, bm) = get_label_precedence b.family b.addr in
    rw (pl, pm)
      (prefer-precedence l m (rule_8 a b) bl bm ∙ prefer-lexicographic l m xs ys (rule_8 a b) h)

rule_5-rank :
    (a b : Addr) (xs ys : List ℕ)
    → a.has_src ≡ b.has_src
    → rule_6 a b ≡ done (lexicographic xs ys)
    → rule_5 a b ≡ done (lexicographic (source_label a ∷ xs) (source_label b ∷ ys))
unfolding rule_5
rule_5-rank a b xs ys h r =
    let la = get_label_precedence a.family a.addr in
    let lb = get_label_precedence b.family b.addr in
    let ma = get_label_precedence a.src_family a.src in
    let mb = get_label_precedence b.src_family b.src in
    elim (Bool-cases b.has_src) [
      | inr n ↦ simp (h, n) r
      | inl y ↦
          simp (h, y, la.1, lb.1, ma.1, mb.1)
            (prefer_match-differ la.0 ma.0 lb.0 mb.0 (rule_6 a b)
              ∙ prefer-lexicographic (differ la.0 ma.0) (differ lb.0 mb.0) xs ys (rule_6 a b) r)
    ]

rule_2-rank :
    (a b : Addr) (xs ys : List ℕ)
    → a.has_src ≡ b.has_src
    → rule_5 a b ≡ done (lexicographic xs ys)
    → rule_2 a b ≡ done (lexicographic (source_scope a ∷ xs) (source_scope b ∷ ys))
unfolding rule_2
rule_2-rank a b xs ys h r =
    let p = get_scope a.family a.addr in
    let q = get_scope a.src_family a.src in
    let s = get_scope b.family b.addr in
    let t = get_scope b.src_family b.src in
    elim (Bool-cases b.has_src) [
      | inr n ↦ simp (h, n) r
      | inl y ↦
          simp (h, y)
            (prefer_match-differ p q s t (rule_5 a b)
              ∙ prefer-lexicographic (differ p q) (differ s t) xs ys (rule_5 a b) r)
    ]

rule_1-rank :
    (a b : Addr) (xs ys : List ℕ)
    → (a.has_src ≡ b.has_src → rule_2 a b ≡ done (lexicographic xs ys))
    → rfc3484_cmp a b
      ≡ done (lexicographic ((if a.has_src then 0 else 1) ∷ xs) ((if b.has_src then 0 else 1) ∷ ys))
unfolding rfc3484_cmp prefer
rule_1-rank a b xs ys r = elim (Bool-cases a.has_src) [
  | inl p ↦ elim (Bool-cases b.has_src) [
    | inl q ↦ simp (p, q) (r (p ∙ sym q))
    | inr q ↦ simp (p, q)
  ]
  | inr p ↦ elim (Bool-cases b.has_src) [
    | inl q ↦ simp (p, q)
    | inr q ↦ simp (p, q) (r (p ∙ sym q))
  ]
]

-- For two addresses in objects that hold the bytes of their family, the source addresses too,
-- `rfc3484_cmp` returns, and it is the lexicographic order of what the rules look at: whether there is
-- a source address, whether the scope and the label of the source are those of the destination, the
-- label, the scope, and, for two addresses of one family, the number of bits from the first on in
-- which the address and its source agree, more of them first.
pub rfc3484_cmp-lexicographic :
    (a b : Addr) (same_family : Bool)
    → IsWhole a
    → IsWhole b
    → family_equal a.family b.family ≡ same_family
    → rfc3484_cmp a b ≡ done (lexicographic (ranks same_family a) (ranks same_family b))
rfc3484_cmp-lexicographic a b s pa pb e =
    let by_8 = λ (h : a.has_src ≡ b.has_src).
      rule_8-rank a b (last_rank s a) (last_rank s b) (rw⁻¹ e (rule_9-rank a b pa pb h)) in
    let by_6 =
      λ (h : a.has_src ≡ b.has_src). rule_6-rank a b (from_rule_8 s a) (from_rule_8 s b) (by_8 h) in
    let by_5 = λ (h : a.has_src ≡ b.has_src).
      rule_5-rank a b (from_rule_6 s a) (from_rule_6 s b) h (by_6 h) in
    rule_1-rank a b (from_rule_2 s a) (from_rule_2 s b)
      (λ h. rule_2-rank a b (from_rule_5 s a) (from_rule_5 s b) h (by_5 h))
