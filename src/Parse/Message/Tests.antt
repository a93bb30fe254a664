-- ===== src/Parse/Message/Tests.antt =====
-- A message with one question and one answer.
use ruli.Common.{ℕ, true, List, [], ◌∷◌, ◌++◌, some, none, refl, ◌≡◌, done, abort, replicate}
use ruli.Util.{pack2, pack4}
use ruli.Msg.{Header}
use ruli.Parse.Records.{
  Memory, skip_loop, skip_rr_owner, question_fields, rr_fields, with_owner, parse_question,
  parse_rr, section_loop, parse_section,
}
use ruli.Parse.Message.{
  ok, long_msg, Parse, Memories, parse_message, parse_answer, parse_authority, parse_additional,
  parse_end,
}
use ruli.Parse.Message.Accepted.{IsTiled, parse_message-IsTiled}

-- The header is not read again; the name of the answer is a pointer to that of the question.
abbrev message : List ℕ
message =
    replicate 12 0
    ++ (1 ∷ b'a' ∷ 0 ∷ 0 ∷ 1 ∷ 0 ∷ 1 ∷ 192 ∷ 12 ∷ 0 ∷ 1 ∷ 0 ∷ 1 ∷ 0 ∷ 0 ∷ 0 ∷ 60 ∷ 0 ∷ 4 ∷ 10 ∷ 0
        ∷ 0 ∷ 1 ∷ [])

abbrev header : Header
header = record { id = 7; flags = 0; rcode = 0; qdcount = 1; ancount = 1; nscount = 0; arcount = 0 }

abbrev memory : Memory
memory = record { malloc = λ n. true; push = λ n. true }

abbrev memories : Memories
memories = record { question = memory; answer = memory; authority = memory; additional = memory }

abbrev parsed : Parse
parsed = record {
  qdcount = 1;
  ancount = 1;
  nscount = 0;
  arcount = 0;
  question_list =
      record {
        owner = 12;
        owner_len = 3;
        type = 1;
        qclass = 1;
        ttl = 0;
        rdlength = 0;
        rdata = none;
      }
      ∷ [];
  answer_list =
      record {
        owner = 19;
        owner_len = 2;
        type = 1;
        qclass = 1;
        ttl = 60;
        rdlength = 4;
        rdata = some 31;
      }
      ∷ [];
  authority_list = [];
  additional_list = [];
}

one_answer : parse_message memories message 35 header ≡ done (ok, parsed)
unfolding pack2 pack4 skip_loop skip_rr_owner question_fields rr_fields with_owner parse_question
    parse_rr section_loop parse_section parse_message parse_answer parse_authority parse_additional
    parse_end
one_answer = refl

one_byte_more : parse_message memories (message ++ (0 ∷ [])) 36 header ≡ done (long_msg, parsed)
unfolding pack2 pack4 skip_loop skip_rr_owner question_fields rr_fields with_owner parse_question
    parse_rr section_loop parse_section parse_message parse_answer parse_authority parse_additional
    parse_end
one_byte_more = refl

-- A question that ends behind its owner stops the program.
truncated : parse_message memories (replicate 12 0 ++ (1 ∷ b'a' ∷ 0 ∷ [])) 15 header ≡ abort
unfolding pack2 pack4 skip_loop skip_rr_owner question_fields rr_fields with_owner parse_question
    parse_rr section_loop parse_section parse_message
truncated = refl

parse_message-IsTiled_example :
    IsTiled 35 parsed
    × (parsed.qdcount ≡ 1)
    × (parsed.ancount ≡ 1)
    × (parsed.nscount ≡ 0)
    × (parsed.arcount ≡ 0)
parse_message-IsTiled_example = parse_message-IsTiled memories message 35 header one_answer
