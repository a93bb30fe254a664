-- ===== src/Limits.antt =====
-- src/ruli_limits.h.
use ruli.Common.{ℕ, ◌+◌, ◌-◌}

abbrev pub msg_header : ℕ
msg_header = 12

abbrev pub msg_low : ℕ
msg_low = msg_header + 5

abbrev pub msg_high : ℕ
msg_high = 271

abbrev pub dname_encoded : ℕ
dname_encoded = 255

abbrev pub dname_text : ℕ
dname_text = dname_encoded - 2

abbrev pub label_low : ℕ
label_low = 1

abbrev pub label_high : ℕ
label_high = 63

abbrev pub compression_depth : ℕ
compression_depth = 20

abbrev pub tcp_header : ℕ
tcp_header = msg_header + 2

abbrev pub datagram_high : ℕ
datagram_high = 512
