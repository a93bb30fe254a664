-- ===== src/Parse/Data/Bounds.antt =====
-- Where the data of a record is read.
use ruli.Common.{ℕ, ◌+◌, ◌-◌, ◌≤◌, ◌≡◌, refl, arith, inl, inr, Option}
use ruli.Common.{none, some, List, length, done, Bool-cases, ltb, ◌==◌, not_ltb→le, le→leb}
use ruli.Parse.Records.Owner.{skip_rr_owner_bounds}
use ruli.Util.RoundTrip.{pack2_total}
use ruli.Parse.Data.{SrvRdata, parse_rr_srv, srv_target}

-- The data of an SRV record, accepted.
abbrev pub IsSrvOf : ℕ → ℕ → Option SrvRdata → Type 0
IsSrvOf rdata rdlength none = Unit
IsSrvOf rdata rdlength (some d) =
    (d.target ≡ rdata + 6)
    × (d.target + d.target_len ≡ rdata + rdlength)
    × (1 ≤ d.target_len)
    × (d.target_len ≤ 255)

srv_target-IsSrvOf :
    (m : List ℕ) (rdata rdlength priority weight port : ℕ) (i : Option ℕ)
    → 7 ≤ rdlength
    → rdlength ≤ 261
    → (r : Option SrvRdata) × (srv_target m rdata rdlength priority weight port i ≡ done r)
      × IsSrvOf rdata rdlength r
unfolding srv_target
srv_target-IsSrvOf m rdata rdlength priority weight port none h k = (none, refl, tt)
srv_target-IsSrvOf m rdata rdlength priority weight port (some i) h k =
    elim (Bool-cases (i == rdata + rdlength)) [
      | inr e ↦ rw e (none, refl, tt)
      | inl e ↦
          rw (e, le→leb (rdata + rdlength - (rdata + 6)) 255 (omega arith))
            (
              some (record {
                priority = priority;
                weight = weight;
                port = port;
                target = rdata + 6;
                target_len = rdata + rdlength - (rdata + 6);
              }),
              refl,
              (refl, omega arith, omega arith, omega arith),
            )
    ]

-- `ruli_parse_rr_srv` reads nothing outside of the data of the record, which lies in its object, and
-- its assertion holds, whatever the bytes are. If it accepts, the target is the rest of the data, of 1
-- to 255 bytes.
pub parse_rr_srv-IsSrvOf :
    (m : List ℕ) (rdata rdlength : ℕ)
    → rdata + rdlength ≤ length m
    → (r : Option SrvRdata) × (parse_rr_srv m rdata rdlength ≡ done r) × IsSrvOf rdata rdlength r
unfolding parse_rr_srv
parse_rr_srv-IsSrvOf m rdata rdlength h = elim (Bool-cases (ltb rdlength 7)) [
  | inl e ↦ rw e (none, refl, tt)
  | inr e ↦ elim (Bool-cases (ltb 261 rdlength)) [
    | inl f ↦ rw (e, f) (none, refl, tt)
    | inr f ↦
        let low = not_ltb→le rdlength 7 e in
        let high = not_ltb→le 261 rdlength f in
        let (p, hp) = pack2_total m rdata (omega arith) in
        let (w, hw) = pack2_total m (rdata + 2) (omega arith) in
        let (o, ho) = pack2_total m (rdata + 4) (omega arith) in
        let (i, hi, ends) = skip_rr_owner_bounds m (rdata + rdlength) (rdata + 6) h in
        rw (e, f, hp, hw, ho, hi) (srv_target-IsSrvOf m rdata rdlength p w o i low high)
  ]
]
