-- ===== src/Msg.antt =====
-- src/ruli_msg.c: the query message and the header of an answer.
pub mod Query
mod Tests
use ruli.Common.{ℕ, ◌+◌, ◌*◌, ◌%◌, ◌^◌, bit_and, bit_or, Option, none, some, List, []}
use ruli.Common.{length, ltb, leb, if◌then◌else◌, Run, done, check, read, write, ◌>>=◌, ◌>>◌}
use ruli.Limits.{msg_header, msg_low, msg_high}
use ruli.Util.{unpack2, pack2}

-- `ruli_msg_header_t`
pub record Header : Type 0 where
  pub id : ℕ
  pub flags : ℕ
  pub rcode : ℕ
  pub qdcount : ℕ
  pub ancount : ℕ
  pub nscount : ℕ
  pub arcount : ℕ

-- `build_options`, with the shifts of RULI_MSG_OFFSET_…; the result is cut to 16 bits.
unfoldable pub build_options : (qr opcode aa tc rd ra z rcode : ℕ) → ℕ
build_options qr opcode aa tc rd ra z rcode =
    bit_or
      (bit_or
        (bit_or
          (bit_or
            (bit_or (bit_or (bit_or (qr * 2 ^ 15) (opcode * 2 ^ 11)) (aa * 2 ^ 10)) (tc * 2 ^ 9))
            (rd * 2 ^ 8))
          (ra * 2 ^ 7))
        (z * 2 ^ 4))
      (rcode * 2 ^ 0)
    % 2 ^ 16

-- RULI_OPCODE_QUERY
abbrev pub opcode_query : ℕ
opcode_query = 0

-- `ruli_msg_build`, with the bytes stored in `buf` as its result: their number is `*msg_len`, and
-- `none` is RULI_MSG_SHORT_BUF.
unfoldable pub msg_build :
    (buf_size query_id : ℕ) (dname : List ℕ) (qclass qtype : ℕ) → Run (Option (List ℕ))
msg_build buf_size query_id dname qclass qtype = if ltb buf_size msg_high then done none else do
  let options = build_options 0 opcode_query 0 0 1 0 0 0
  i ← write buf_size [] (unpack2 query_id)
  i ← write buf_size i (unpack2 options)
  i ← write buf_size i (unpack2 1)
  i ← write buf_size i (unpack2 0)
  i ← write buf_size i (unpack2 0)
  i ← write buf_size i (unpack2 0)
  i ← write buf_size i dname
  i ← write buf_size i (unpack2 qtype)
  i ← write buf_size i (unpack2 qclass)
  check (leb msg_low (length i))
  check (leb (length i) msg_high)
  check (leb (length i) buf_size)
  done (some i)

-- `ruli_msg_parse_header`; `none` is RULI_MSG_PARSE_SHORT.
unfoldable pub parse_header : List ℕ → ℕ → Run (Option Header)
parse_header msg msg_len = if ltb msg_len msg_header then done none else do
  id ← pack2 msg 0
  flags ← pack2 msg 2
  b3 ← read msg 3
  qdcount ← pack2 msg 4
  ancount ← pack2 msg 6
  nscount ← pack2 msg 8
  arcount ← pack2 msg 10
  done (
      some (record {
        id = id;
        flags = flags;
        rcode = bit_and b3 0xF;
        qdcount = qdcount;
        ancount = ancount;
        nscount = nscount;
        arcount = arcount;
      }))
