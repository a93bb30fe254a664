-- ===== src/Addr/Prefix/Tables.antt =====
-- What the prefix tables say of an address.
use ruli.Common.{
  ℕ, ◌-◌, ◌*◌, ◌≤◌, ◌≡◌, refl, arith, true, List, [], ◌∷◌, ◌&&◌, done, ◌==◌, if◌then◌else◌,
  Bool-cases, inl, inr,
}
use ruli.Addr.Prefix.{
  Family, inet, addr_in_net, net_loop, last_byte, match_loop, match_prefix, to_in6, get_label,
  get_precedence, in6addr_any, in6addr_loopback, prefix_6to4, prefix_mapped,
}

any_net : (net addr : List ℕ) → addr_in_net net 0 addr ≡ true
unfolding addr_in_net net_loop last_byte
any_net net addr = refl

-- The last entry of the tables fits every address, so the loops end inside of them, with a label from
-- 0 to 4, and the precedence of an address is 50 less ten times its label.
pub get_label_precedence :
    (family : Family) (addr : List ℕ)
    → (label : ℕ) × (get_label family addr ≡ done label)
      × (get_precedence family addr ≡ done (50 - 10 * label))
      × (label ≤ 4)
unfolding get_label get_precedence match_prefix match_loop
get_label_precedence family addr =
    let a = to_in6 family addr in
    elim (Bool-cases (addr_in_net in6addr_loopback 128 a)) [
      | inl e ↦ (0, rw e, rw e, omega arith)
      | inr e ↦ elim (Bool-cases (addr_in_net prefix_6to4 16 a)) [
        | inl f ↦ (2, rw (e, f), rw (e, f), omega arith)
        | inr f ↦ elim (Bool-cases (addr_in_net in6addr_any 96 a)) [
          | inl g ↦ (3, rw (e, f, g), rw (e, f, g), omega arith)
          | inr g ↦ elim (Bool-cases (addr_in_net prefix_mapped 96 a)) [
            | inl h ↦ (4, rw (e, f, g, h), rw (e, f, g, h), omega arith)
            | inr h ↦ (
              1,
              rw (e, f, g, h, any_net in6addr_any a),
              rw (e, f, g, h, any_net in6addr_any a),
              omega arith,
            )
          ]
        ]
      ]
    ]

-- An IPv4 address has the label 3 if it is 0.0.0.0, 0 if it is 127.0.0.1, and 4 otherwise.
pub get_label-inet :
    (a b c d : ℕ)
    → get_label inet (a ∷ b ∷ c ∷ d ∷ [])
      ≡ done (
          if a == 0 && (b == 0 && (c == 0 && d == 0))
          then 3
          else if a == 127 && (b == 0 && (c == 0 && d == 1))
          then 0
          else 4)
unfolding get_label match_prefix match_loop to_in6 addr_in_net net_loop last_byte
get_label-inet a b c d = ground arith
