-- ===== src/Parse/Data/Tests.antt =====
-- The data of records of every kind.
use ruli.Common.{ℕ, List, [], ◌∷◌, some, none, refl, arith, ◌≡◌, done, replicate, Option}
use ruli.Util.{pack2}
use ruli.Txt.Expand.{dname_expand, expand, expand_loop}
use ruli.Parse.Data.{
  SrvRdata, parse_rr_address, parse_rr_a, parse_rr_aaaa, parse_rr_srv, rr_name, parse_rr_cname,
  parse_rr_mx,
}
use ruli.Parse.Data.Bounds.{IsSrvOf, parse_rr_srv-IsSrvOf}

-- An address record of 4 bytes, and one of 5.
four_bytes : parse_rr_a (10 ∷ 0 ∷ 0 ∷ 1 ∷ 9 ∷ []) 0 4 ≡ done (some (10 ∷ 0 ∷ 0 ∷ 1 ∷ []))
unfolding parse_rr_a parse_rr_address
four_bytes = refl

five_bytes : parse_rr_a (10 ∷ 0 ∷ 0 ∷ 1 ∷ 9 ∷ []) 0 5 ≡ done none
unfolding parse_rr_a parse_rr_address
five_bytes = refl

sixteen_bytes : parse_rr_aaaa (replicate 16 0) 0 16 ≡ done (some (replicate 16 0))
unfolding parse_rr_aaaa parse_rr_address
sixteen_bytes = refl

-- The name `a.` at index 0, and the data of an MX record that points to it.
abbrev mail : List ℕ
mail = 1 ∷ b'a' ∷ 0 ∷ 0 ∷ 10 ∷ 192 ∷ 0 ∷ []

uncompressed : parse_rr_cname mail 5 2 7 ≡ done (some (1 ∷ b'a' ∷ 0 ∷ []))
unfolding parse_rr_cname rr_name dname_expand expand expand_loop pack2
uncompressed = refl

exchange :
    parse_rr_mx mail 3 4 7 ≡ done (some (record { preference = 10; target = 1 ∷ b'a' ∷ 0 ∷ [] }))
unfolding parse_rr_mx rr_name dname_expand expand expand_loop pack2
exchange = refl

abbrev service : List ℕ
service = 0 ∷ 1 ∷ 0 ∷ 5 ∷ 0 ∷ 80 ∷ 1 ∷ b'b' ∷ 0 ∷ []

parse_rr_srv-IsSrvOf_example :
    (r : Option SrvRdata) × (parse_rr_srv service 0 9 ≡ done r) × IsSrvOf 0 9 r
parse_rr_srv-IsSrvOf_example = parse_rr_srv-IsSrvOf service 0 9 (omega arith)
