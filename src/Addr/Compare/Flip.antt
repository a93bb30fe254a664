-- ===== src/Addr/Compare/Flip.antt =====
-- The comparison of two addresses the other way round.
use ruli.Common.{ℕ, ◌≡◌, ◌≢◌, ◌<◌, ◌&&◌, refl, ap, sym, ◌∙◌, ◌++◌, arith, Bool, true}
use ruli.Common.{false, length, ltb, if◌then◌else◌, List, [], ◌∷◌, Bool-cases, inl, inr, Run, done}
use ruli.Addr.Prefix.{Family, inet, inet6}
use ruli.Addr.Compare.{
  Addr, Order, before, same, after, prefer, family_equal, rfc3484_cmp, has_option, by_position,
  by_family, addr_cmp_preference, false,
}
use ruli.Addr.Compare.Ranks.{IsWhole, lexicographic, ranks, rfc3484_cmp-lexicographic}

abbrev pub flip : Order → Order
flip before = after
flip same = same
flip after = before

lexicographic-flip : (xs ys : List ℕ) → lexicographic ys xs ≡ flip (lexicographic xs ys)
lexicographic-flip [] [] = refl
lexicographic-flip [] (y ∷ ys) = refl
lexicographic-flip (x ∷ xs) [] = refl
lexicographic-flip (x ∷ xs) (y ∷ ys) = ground (arith, lexicographic-flip xs ys)

family_equal_comm : (f g : Family) → family_equal g f ≡ family_equal f g
family_equal_comm inet inet = refl
family_equal_comm inet inet6 = refl
family_equal_comm inet6 inet = refl
family_equal_comm inet6 inet6 = refl

-- `rfc3484_cmp` never fails on whole addresses, and with its arguments swapped it gives the opposite result.
pub rfc3484_cmp-flip :
    (a b : Addr)
    → IsWhole a
    → IsWhole b
    → (order : Order) × (rfc3484_cmp a b ≡ done order) × (rfc3484_cmp b a ≡ done (flip order))
rfc3484_cmp-flip a b pa pb =
    let s = family_equal a.family b.family in
    (
      lexicographic (ranks s a) (ranks s b),
      rfc3484_cmp-lexicographic a b s pa pb refl,
      rfc3484_cmp-lexicographic b a s pb pa (family_equal_comm a.family b.family)
          ∙ ap done (lexicographic-flip (ranks s a) (ranks s b)),
    )

by_position-flip :
    (i j : ℕ) → i < j → (by_position i j ≡ done before) × (by_position j i ≡ done after)
unfolding by_position prefer
by_position-flip i j h = ground arith

before-ne : before ≢ same
before-ne = ground arith

after-ne : after ≢ same
after-ne = ground arith

-- Two results are opposite, and neither of them is `same`.
abbrev pub Opposite : Run Order → Run Order → Type 0
Opposite m n = (order : Order) × (m ≡ done order) × (n ≡ done (flip order)) × (order ≢ same)

prefer_inet6-Opposite :
    (f g : Family) (m n : Run Order)
    → Opposite m n
    → Opposite
        (prefer
          (family_equal f inet6 && family_equal g inet)
          (family_equal f inet && family_equal g inet6)
          m)
        (prefer
          (family_equal g inet6 && family_equal f inet)
          (family_equal g inet && family_equal f inet6)
          n)
unfolding prefer
prefer_inet6-Opposite inet inet m n h = h
prefer_inet6-Opposite inet inet6 m n h = (after, refl, refl, after-ne)
prefer_inet6-Opposite inet6 inet m n h = (before, refl, refl, before-ne)
prefer_inet6-Opposite inet6 inet6 m n h = h

by_family-Opposite :
    (options : ℕ) (a b : Addr) (m n : Run Order)
    → Opposite m n
    → Opposite (by_family options a b m) (by_family options b a n)
unfolding by_family
by_family-Opposite options a b m n h = elim (Bool-cases (has_option options 7)) [
  | inl e ↦ rw e h
  | inr e ↦ rw e (prefer_inet6-Opposite a.family b.family m n h)
]

by_rules :
    (order : Order) (m n : Run Order)
    → Opposite m n
    → Opposite
        (elim order [ before ↦ done before | after ↦ done after | same ↦ m ])
        (elim (flip order) [ before ↦ done before | after ↦ done after | same ↦ n ])
by_rules before m n h = (before, refl, refl, before-ne)
by_rules same m n h = h
by_rules after m n h = (after, refl, refl, after-ne)

abbrev pub family_rank : Family → ℕ
family_rank inet6 = 0
family_rank inet = 1

-- What is compared behind the rules: the family, unless the options have RULI_RES_OPT_SRV_NOSORT6, and the position.
abbrev pub last_keys : ℕ → ℕ → Addr → List ℕ
last_keys options i a = if has_option options 7 then i ∷ [] else family_rank a.family ∷ i ∷ []

-- What is compared in all: the rules first, if the options have RULI_RES_OPT_SRV_RFC3484.
abbrev pub keys : ℕ → Bool → ℕ → Addr → List ℕ
keys options same_family i a =
    if has_option options 8
    then ranks same_family a ++ last_keys options i a
    else last_keys options i a

by_family-lexicographic :
    (options i j : ℕ) (a b : Addr)
    → by_family options a b (by_position i j)
      ≡ done (lexicographic (last_keys options i a) (last_keys options j b))
unfolding by_family by_position prefer
by_family-lexicographic options i j a b = elim (Bool-cases (has_option options 7)) [
  | inl e ↦ rw (e) (ground arith)
  | inr e ↦ rw (e) (both a.family b.family)
]
  where
    both :
        (f g : Family)
        → prefer
            (family_equal f inet6 && family_equal g inet)
            (family_equal f inet && family_equal g inet6)
            (prefer (ltb i j) (ltb j i) (done same))
          ≡ done (lexicographic (family_rank f ∷ i ∷ []) (family_rank g ∷ j ∷ []))
    both inet inet = unfold prefer in ground arith
    both inet inet6 = unfold prefer in refl
    both inet6 inet = unfold prefer in refl
    both inet6 inet6 = unfold prefer in ground arith

lexicographic-append :
    (xs ys us vs : List ℕ)
    → length xs ≡ length ys
    → lexicographic (xs ++ us) (ys ++ vs)
      ≡ elim (lexicographic xs ys) [ before ↦ before | after ↦ after | same ↦ lexicographic us vs ]
lexicographic-append [] [] us vs e = refl
lexicographic-append [] (y ∷ ys) us vs e = absurd (omega (arith, e))
lexicographic-append (x ∷ xs) [] us vs e = absurd (omega (arith, e))
lexicographic-append (x ∷ xs) (y ∷ ys) us vs e =
    ground (arith, lexicographic-append xs ys us vs (omega (arith, e)))

as_many : (s : Bool) (a b : Addr) → length (ranks s a) ≡ length (ranks s b)
as_many true a b = refl
as_many false a b = refl

after_rules :
    (order last : Order) (m : Run Order)
    → m ≡ done last
    → (elim order [ before ↦ done before | after ↦ done after | same ↦ m ])
      ≡ done (elim order [ before ↦ before | after ↦ after | same ↦ last ])
after_rules before last m e = refl
after_rules after last m e = refl
after_rules same last m e = e

addr_cmp_preference-lexicographic :
    (options i j : ℕ) (a b : Addr) (s : Bool)
    → IsWhole a
    → IsWhole b
    → family_equal a.family b.family ≡ s
    → addr_cmp_preference options i a j b
      ≡ done (lexicographic (keys options s i a) (keys options s j b))
unfolding addr_cmp_preference
addr_cmp_preference-lexicographic options i j a b s pa pb e =
    let last = by_family-lexicographic options i j a b in
    elim (Bool-cases (has_option options 8)) [
      | inr n ↦ rw n last
      | inl y ↦
          rw (y, rfc3484_cmp-lexicographic a b s pa pb e)
            (after_rules (lexicographic (ranks s a) (ranks s b)) _ _ last
              ∙ ap done (
                  sym (
                    lexicographic-append (ranks s a) (ranks s b) (last_keys options i a)
                      (last_keys options j b) (as_many s a b))))
    ]

-- For two addresses in objects that hold the bytes of their family, the source addresses too, at two
-- positions of the array: `addr_cmp_preference` returns, it tells them apart, and with its arguments
-- swapped it gives the opposite result, whatever the options are. It is the lexicographic order of
-- what the rules of `rfc3484_cmp` look at, if RULI_RES_OPT_SRV_RFC3484 is set, the family, IPv6 before
-- IPv4, unless RULI_RES_OPT_SRV_NOSORT6 is set, and the position.
pub addr_cmp_preference-flip :
    (options i j : ℕ) (a b : Addr) (same_family : Bool)
    → i < j
    → IsWhole a
    → IsWhole b
    → family_equal a.family b.family ≡ same_family
    → (order : Order) × (addr_cmp_preference options i a j b ≡ done order)
      × (addr_cmp_preference options j b i a ≡ done (flip order))
      × (order ≢ same)
      × (order ≡ lexicographic (keys options same_family i a) (keys options same_family j b))
unfolding addr_cmp_preference
addr_cmp_preference-flip options i j a b s h pa pb fam =
    let spec = addr_cmp_preference-lexicographic options i j a b s pa pb fam in
    let (order, e, f, distinct) = opposite in (order, e, f, distinct, done_same (sym e ∙ spec))
  where
    done_same : {x y : Order} → done x ≡ done y → x ≡ y
    done_same e = cc

    opposite : Opposite (addr_cmp_preference options i a j b) (addr_cmp_preference options j b i a)
    opposite =
        let (order, e, f) = rfc3484_cmp-flip a b pa pb in
        let (p, q) = by_position-flip i j h in
        let rest =
          by_family-Opposite options a b (by_position i j) (by_position j i)
            (before, p, q, before-ne) in
        unfold addr_cmp_preference in
        (elim (Bool-cases (has_option options 8)) [
          | inr n ↦ rw n rest
          | inl y ↦ rw (y, e, f) (by_rules order _ _ rest)
        ])
