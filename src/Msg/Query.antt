-- ===== src/Msg/Query.antt =====
-- The bytes of a query message, and its header read back.
use ruli.Common.{ℕ, ◌+◌, ◌/◌, ◌%◌, ◌^◌, ◌≤◌, ◌<◌, ◌≡◌, refl, ap, arith}
use ruli.Common.{
  append_assoc, some, List, [], ◌∷◌, ◌++◌, length, done, length-append, le→leb, le→not_ltb,
}
use ruli.Util.RoundTrip.{unpack2_bytes, pack2_sum}
use ruli.Msg.{build_options, msg_build, parse_header}

-- The 12 bytes of the header of a query: recursion is desired, and there is one question.
abbrev pub query_header : ℕ → List ℕ
query_header id = id / 256 ∷ id % 256 ∷ 1 ∷ 0 ∷ 0 ∷ 1 ∷ 0 ∷ 0 ∷ 0 ∷ 0 ∷ 0 ∷ 0 ∷ []

abbrev pub query : ℕ → List ℕ → ℕ → ℕ → List ℕ
query id dname qclass qtype =
    query_header id ++ (dname ++ (qtype / 256 ∷ qtype % 256 ∷ qclass / 256 ∷ qclass % 256 ∷ []))

-- The bytes behind the name, in the order in which they are stored.
abbrev with_type : ℕ → List ℕ → ℕ → List ℕ
with_type id dname qtype = (query_header id ++ dname) ++ (qtype / 256 ∷ qtype % 256 ∷ [])

abbrev stored : ℕ → List ℕ → ℕ → ℕ → List ℕ
stored id dname qclass qtype = with_type id dname qtype ++ (qclass / 256 ∷ qclass % 256 ∷ [])

length-with_type :
    (id : ℕ) (dname : List ℕ) (qtype : ℕ) → length (with_type id dname qtype) ≡ length dname + 14
length-with_type id dname qtype =
    omega (arith, length-append (query_header id ++ dname) (qtype / 256 ∷ qtype % 256 ∷ []))

length-stored :
    (id : ℕ) (dname : List ℕ) (qclass qtype : ℕ)
    → length (stored id dname qclass qtype) ≡ length dname + 16
length-stored id dname qclass qtype = omega (
  arith,
  length-with_type id dname qtype,
  length-append (with_type id dname qtype) (qclass / 256 ∷ qclass % 256 ∷ []),
)

stored-query :
    (id : ℕ) (dname : List ℕ) (qclass qtype : ℕ)
    → stored id dname qclass qtype ≡ query id dname qclass qtype
stored-query id dname qclass qtype = simp append_assoc

-- `ruli_msg_build` stores the header of a query, the name, the type and the class, in network byte
-- order, for a name of 1 to 255 bytes, an identifier, a class and a type of 16 bits, and a buffer of
-- at least 271 bytes; its assertions hold and it stores nothing outside of the buffer.
pub msg_build-query :
    (buf_size id : ℕ) (dname : List ℕ) (qclass qtype : ℕ)
    → 271 ≤ buf_size
    → id < 2 ^ 16
    → qclass < 2 ^ 16
    → qtype < 2 ^ 16
    → 1 ≤ length dname
    → length dname ≤ 255
    → msg_build buf_size id dname qclass qtype ≡ done (some (query id dname qclass qtype))
unfolding msg_build build_options
msg_build-query buf_size id dname qclass qtype room hi hc ht low high =
    rw
      (
        unpack2_bytes id hi,
        unpack2_bytes 256 (omega arith),
        unpack2_bytes 1 (omega arith),
        unpack2_bytes 0 (omega arith),
        unpack2_bytes qclass hc,
        unpack2_bytes qtype ht,
        le→not_ltb buf_size 271 room,
        le→leb 2 buf_size (omega arith),
        le→leb 4 buf_size (omega arith),
        le→leb 6 buf_size (omega arith),
        le→leb 8 buf_size (omega arith),
        le→leb 10 buf_size (omega arith),
        le→leb 12 buf_size (omega arith),
        le→leb (12 + length dname) buf_size (omega arith),
        le→leb (length (query_header id ++ dname) + 2) buf_size (omega arith),
        le→leb (length (with_type id dname qtype) + 2) buf_size
            (omega (arith, length-with_type id dname qtype)),
        le→leb 17 (length (stored id dname qclass qtype))
            (omega (arith, length-stored id dname qclass qtype)),
        le→leb (length (stored id dname qclass qtype)) 271
            (omega (arith, length-stored id dname qclass qtype)),
        le→leb (length (stored id dname qclass qtype)) buf_size
            (omega (arith, length-stored id dname qclass qtype)),
      )
      (ap (λ w. done (some w)) (stored-query id dname qclass qtype))

-- The header of the query that `ruli_msg_build` stores is read back by `ruli_msg_parse_header`, for an
-- identifier of 16 bits and a message of at least 12 bytes: the same identifier, only the RD flag, no
-- error, one question and no other record.
pub parse_header-query :
    (id : ℕ) (dname : List ℕ) (qclass qtype msg_len : ℕ)
    → id < 2 ^ 16
    → 12 ≤ msg_len
    → parse_header (query id dname qclass qtype) msg_len
      ≡ done (
          some (record {
            id = id;
            flags = 256;
            rcode = 0;
            qdcount = 1;
            ancount = 0;
            nscount = 0;
            arcount = 0;
          }))
unfolding parse_header
parse_header-query id dname qclass qtype msg_len h k =
    let q = query id dname qclass qtype in
    rw
      (
        le→not_ltb msg_len 12 k,
        pack2_sum q 0 (id / 256) (id % 256) refl refl (omega arith) (omega arith),
        pack2_sum q 2 1 0 refl refl (omega arith) (omega arith),
        pack2_sum q 4 0 1 refl refl (omega arith) (omega arith),
        pack2_sum q 6 0 0 refl refl (omega arith) (omega arith),
        pack2_sum q 8 0 0 refl refl (omega arith) (omega arith),
        pack2_sum q 10 0 0 refl refl (omega arith) (omega arith),
      )
      (ground arith)
