-- ===== src/Parse/Data.antt =====
-- `ruli_parse_rr_a`, `_aaaa`, `_srv`, `_cname` and `_mx`: the data of a record.
--
-- The data is in the object `m`, from the index `rdata` on; `none` is RULI_PARSE_RR_FAIL.
pub mod Bounds
mod Tests
use ruli.Common.{
  ℕ, ◌+◌, ◌-◌, Option, none, some, List, length, ltb, leb, ◌==◌, not, if◌then◌else◌, Run, done,
  abort, check, read_range, ◌>>=◌, ◌>>◌,
}
use ruli.Limits.{dname_encoded}
use ruli.Util.{pack2}
use ruli.Txt.Expand.{dname_expand}
use ruli.Parse.Records.{skip_rr_owner}

pub record SrvRdata : Type 0 where
  pub priority : ℕ
  pub weight : ℕ
  pub port : ℕ
  pub target : ℕ
  pub target_len : ℕ

-- `ruli_mx_rdata_t`: the target is uncompressed.
pub record MxRdata : Type 0 where
  pub preference : ℕ
  pub target : List ℕ

module _ (m : List ℕ) (rdata rdlength : ℕ) where
  -- The address of `size` bytes of an A or an AAAA record.
  pub parse_rr_address : ℕ → Run (Option (List ℕ))
  parse_rr_address size =
      if not (rdlength == size)
      then done none
      else read_range m rdata rdlength >>= λ addr. done (some addr)

  pub parse_rr_a : Run (Option (List ℕ))
  parse_rr_a = parse_rr_address 4

  pub parse_rr_aaaa : Run (Option (List ℕ))
  parse_rr_aaaa = parse_rr_address 16

  -- The last part of `ruli_parse_rr_srv`, when the target ends at `i`.
  unfoldable pub srv_target : (priority weight port : ℕ) → Option ℕ → Run (Option SrvRdata)
  srv_target priority weight port none = done none
  srv_target priority weight port (some i) = if not (i == rdata + rdlength) then done none else do
    check (leb (rdata + rdlength - (rdata + 6)) dname_encoded)
    done (
        some (record {
          priority = priority;
          weight = weight;
          port = port;
          target = rdata + 6;
          target_len = rdata + rdlength - (rdata + 6);
        }))

  unfoldable pub parse_rr_srv : Run (Option SrvRdata)
  parse_rr_srv = if ltb rdlength 7 then done none else if ltb 261 rdlength then done none else do
    priority ← pack2 m rdata
    weight ← pack2 m (rdata + 2)
    port ← pack2 m (rdata + 4)
    i ← skip_rr_owner m (rdata + rdlength) (rdata + 6)
    srv_target priority weight port i

  -- The name of a record, uncompressed, with the assertions on its length.
  pub rr_name : ℕ → ℕ → Run (Option (List ℕ))
  rr_name msg_len label = do
    r ← dname_expand m msg_len label
    elim r [
      | none ↦ done none
      | some name ↦ do
        check (ltb 0 (length name))
        check (leb (length name) dname_encoded)
        done (some name)
    ]

  pub parse_rr_cname : ℕ → Run (Option (List ℕ))
  parse_rr_cname msg_len = rr_name msg_len rdata

  pub parse_rr_mx : ℕ → Run (Option MxRdata)
  parse_rr_mx msg_len =
      if ltb rdlength 3 then done none else if ltb 257 rdlength then done none else do
        preference ← pack2 m rdata
        r ← rr_name msg_len (rdata + 2)
        elim r [
          | none ↦ done none
          | some target ↦ done (some (record { preference = preference; target = target }))
        ]
