-- ===== src/Parse/Records.antt =====
-- `skip_rr_owner`, `parse_question`, `parse_rr`, `parse_section` and `ruli_parse_message`.
--
-- A message is an object `m` and the index `past_end`; a pointer into it is an index, and `none` is
-- the null pointer.
pub mod Tiles
pub mod Owner
mod Tests
use ruli.Common.{ℕ, zero, suc, ◌+◌, ◌-◌, Bool, Option, none, some, List, [], ◌∷◌, ◌++◌, length}
use ruli.Common.{
  ltb, leb, ◌==◌, not, if◌then◌else◌, bit_and, Run, done, no_fuel, check, read, ◌>>=◌, ◌>>◌,
}
use ruli.Util.{pack2, pack4}

-- `ruli_rr_t`. The pointer `rdata` of a question is null.
pub record Rr : Type 0 where
  pub owner : ℕ
  pub owner_len : ℕ
  pub type : ℕ
  pub qclass : ℕ
  pub ttl : ℕ
  pub rdlength : ℕ
  pub rdata : Option ℕ

-- The allocator: whether `ruli_malloc` gives space for the record at an index of a list, and whether
-- `ruli_list_push` can store it there.
pub record Memory : Type 0 where
  pub malloc : ℕ → Bool
  pub push : ℕ → Bool

module _ (m : List ℕ) (past_end : ℕ) where
  unfoldable pub skip_loop : ℕ → ℕ → Run (Option ℕ)
  skip_loop zero msg = no_fuel
  skip_loop (suc f) msg = if leb past_end msg then done none else do
    len ← read m msg
    if len == 0
        then (if ltb past_end (msg + 1) then done none else done (some (msg + 1)))
        else if bit_and len 0xC0 == 0xC0
        then (if ltb past_end (msg + 2) then done none else done (some (msg + 2)))
        else skip_loop f (msg + (len + 1))

  unfoldable pub skip_rr_owner : ℕ → Run (Option ℕ)
  skip_rr_owner msg = skip_loop (suc (past_end - msg)) msg

  -- The rest of `parse_question`, behind the owner that ends at `q`.
  unfoldable pub question_fields : ℕ → ℕ → Run (Option (Rr × ℕ))
  question_fields msg q = if ltb past_end (q + 4) then done none else do
    type ← pack2 m q
    qclass ← pack2 m (q + 2)
    done (
        some (
          record {
            owner = msg;
            owner_len = q - msg;
            type = type;
            qclass = qclass;
            ttl = 0;
            rdlength = 0;
            rdata = none;
          },
          q + 4,
        ))

  -- The rest of `parse_rr`.
  unfoldable pub rr_fields : ℕ → ℕ → Run (Option (Rr × ℕ))
  rr_fields msg q = do
    rdlength ← pack2 m (q + 8)
    if ltb past_end (q + 10 + rdlength) then done none else do
      type ← pack2 m q
      qclass ← pack2 m (q + 2)
      ttl ← pack4 m (q + 4)
      done (
          some (
            record {
              owner = msg;
              owner_len = q - msg;
              type = type;
              qclass = qclass;
              ttl = ttl;
              rdlength = rdlength;
              rdata = some (q + 10);
            },
            q + 10 + rdlength,
          ))

  -- Both parsers: the owner is skipped, and asserted to be non-empty and to end before `past_end`.
  unfoldable pub with_owner : (ℕ → ℕ → Run (Option (Rr × ℕ))) → ℕ → Run (Option (Rr × ℕ))
  with_owner fields msg = do
    check (leb msg past_end)
    r ← skip_rr_owner msg
    elim r [
      | none ↦ done none
      | some q ↦ check (ltb msg q) >> (check (ltb q past_end) >> fields msg q)
    ]

  unfoldable pub parse_question : ℕ → Run (Option (Rr × ℕ))
  parse_question msg = with_owner question_fields msg

  unfoldable pub parse_rr : ℕ → Run (Option (Rr × ℕ))
  parse_rr msg = with_owner rr_fields msg

  -- The loop of `parse_section` with `n` rounds left. The records stay in the list on failure.
  unfoldable pub section_loop :
      (ℕ → Run (Option (Rr × ℕ))) → Memory → ℕ → List Rr → ℕ → Run (List Rr × Option ℕ)
  section_loop rr_parser mem zero rr_list msg = done (rr_list, some msg)
  section_loop rr_parser mem (suc n) rr_list msg =
      if not (mem.malloc (length rr_list)) then done (rr_list, none) else do
        r ← rr_parser msg
        elim r [
          | none ↦ done (rr_list, none)
          | some (rr, p) ↦
              check (ltb msg p)
              >> (check (leb p past_end)
                  >> (if mem.push (length rr_list)
                      then section_loop rr_parser mem n (rr_list ++ (rr ∷ [])) p
                      else done (rr_list, none)))
        ]

  unfoldable pub parse_section :
      (ℕ → Run (Option (Rr × ℕ))) → Memory → ℕ → ℕ → Run (List Rr × Option ℕ)
  parse_section rr_parser mem msg rr_count = do
    check (leb msg past_end)
    section_loop rr_parser mem rr_count [] msg
