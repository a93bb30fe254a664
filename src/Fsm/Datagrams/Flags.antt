-- ===== src/Fsm/Datagrams/Flags.antt =====
-- What `check_answer_flags` accepts, bit by bit.
use ruli.Common.{ℕ, ◌*◌, ◌/◌, ◌%◌, ◌^◌, ◌≡◌, ap, ◌∙◌, bit_and, arith, ◌↔◌}
use ruli.Common.Bits.{bit_and-shifted, bit_and-1, bit_and-7}
use ruli.Res.{code_ok}
use ruli.Fsm.Datagrams.{check_answer_flags}

-- Bit `k` of a number.
abbrev pub bit : ℕ → ℕ → ℕ
bit flags k = flags / 2 ^ k % 2

masked_bit : (flags k : ℕ) → bit_and flags (1 * 2 ^ k) ≡ bit flags k * 2 ^ k
masked_bit flags k = bit_and-shifted k flags 1 ∙ ap (λ b. b * 2 ^ k) (bit_and-1 (flags / 2 ^ k))

-- The results of the five tests.
abbrev pub IsGoodAnswer : ℕ → ℕ → Type 0
IsGoodAnswer flags options =
    (bit flags 15 ≡ 1)
    × (flags / 2 ^ 11 % 8 ≡ 0)
    × (bit flags 8 ≡ 1)
    × (bit options 1 ≡ 1 → bit flags 7 ≡ 1)
    × (bit flags 4 ≡ 0)

-- `check_answer_flags` accepts the flags of an answer exactly when QR and RD are set, the three bits
-- that it takes for the opcode and the bit that it takes for Z are clear, and RA is set if the options
-- require it.
pub check_answer_flags_iff :
    (flags options : ℕ) → (check_answer_flags flags options ≡ code_ok) ↔ IsGoodAnswer flags options
unfolding check_answer_flags
check_answer_flags_iff flags options =
    let opcode = bit_and-shifted 11 flags 7 ∙ ap (λ b. b * 2 ^ 11) (bit_and-7 (flags / 2 ^ 11)) in
    rw (masked_bit flags 15, opcode, masked_bit flags 8, masked_bit flags 7, masked_bit flags 4)
      (ground arith)
