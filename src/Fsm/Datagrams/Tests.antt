-- ===== src/Fsm/Datagrams/Tests.antt =====
-- An answer with the flags QR, RD and RA.
use ruli.Common.{◌≡◌, ◌↔◌}
use ruli.Res.{code_ok}
use ruli.Fsm.Datagrams.{check_answer_flags}
use ruli.Fsm.Datagrams.Flags.{IsGoodAnswer, check_answer_flags_iff}

check_answer_flags_iff_example : (check_answer_flags 0x8180 2 ≡ code_ok) ↔ IsGoodAnswer 0x8180 2
check_answer_flags_iff_example = check_answer_flags_iff 0x8180 2
