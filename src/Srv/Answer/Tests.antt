-- ===== src/Srv/Answer/Tests.antt =====
-- An answer with one SRV record.
use ruli.Common.{ℕ, true, List, [], ◌∷◌, ◌++◌, some, refl, ◌≡◌, done, replicate, Bool, Run}
use ruli.Util.{pack2, pack4}
use ruli.Txt.Expand.{dname_expand, expand, expand_loop}
use ruli.Txt.Compare.{dname_compare}
use ruli.Parse.Records.{
  Rr, Memory, skip_loop, skip_rr_owner, question_fields, rr_fields, with_owner, parse_question,
  parse_rr, section_loop, parse_section,
}
use ruli.Parse.Data.{parse_rr_srv, srv_target}
use ruli.Srv.Order.{
  SrvRr, sort_by_priority, sort_from, sort_one, insert_slot, find_slot, next_slot, same_priority,
  list_push, list_insert_at, select_by_weight, select_from, pick, when_pushed, weight_sum,
}
use ruli.Srv.Answer.{
  rr_srv, collect_one, step_2, go_on, query_done, code_unavailable, step_1, step_1_record,
  step_1_target, answered, steps, list_step, on_srv_answer,
}
use ruli.Msg.{Header}
use ruli.Parse.Message.{
  Memories, parse_message, parse_answer, parse_authority, parse_additional, parse_end,
}
use ruli.Srv.Answer.Ordered.{Answer, on_srv_answer-Ordered}
use ruli.Srv.Answer.Collected.{Collected, step_2-Collected}

-- The name `a.`, then the data of a record: priority 0, weight 5, port 80 and the target `b.`; and that with the target `.`.
abbrev buffer : List ℕ
buffer = 1 ∷ b'a' ∷ 0 ∷ 0 ∷ 0 ∷ 0 ∷ 5 ∷ 0 ∷ 80 ∷ 1 ∷ b'b' ∷ 0 ∷ []

abbrev no_service : List ℕ
no_service = 1 ∷ b'a' ∷ 0 ∷ 0 ∷ 0 ∷ 0 ∷ 5 ∷ 0 ∷ 80 ∷ 0 ∷ []

abbrev name : List ℕ
name = 1 ∷ b'a' ∷ 0 ∷ []

abbrev srv_record : ℕ → Rr
srv_record rdlength = record {
  owner = 0;
  owner_len = 3;
  type = 33;
  qclass = 1;
  ttl = 60;
  rdlength = rdlength;
  rdata = some 3;
}

abbrev memory : Memory
memory = record { malloc = λ n. true; push = λ n. true }

abbrev collected : SrvRr
collected = record {
  priority = 0;
  weight = 5;
  port = 80;
  target = 9;
  target_len = 3;
  ttl = 60;
  qclass = 1;
  type = 33;
}

one_collected : step_2 buffer 12 name memory [] (srv_record 9 ∷ []) ≡ done (go_on (collected ∷ []))
unfolding pack2 dname_expand expand expand_loop dname_compare skip_loop skip_rr_owner parse_rr_srv
    srv_target rr_srv collect_one step_2
one_collected = refl

unavailable : step_1 no_service 10 name 1 (srv_record 7 ∷ []) ≡ done (query_done code_unavailable)
unfolding pack2 dname_expand expand expand_loop dname_compare skip_loop skip_rr_owner parse_rr_srv
    srv_target rr_srv step_1 step_1_record step_1_target
unavailable = refl

step_2-Collected_example :
    (rs : List SrvRr) × ((collected ∷ []) ≡ [] ++ rs)
    × Collected buffer 12 name (srv_record 9 ∷ []) rs
step_2-Collected_example =
    step_2-Collected buffer 12 name memory [] (srv_record 9 ∷ []) (collected ∷ []) one_collected

-- A message with the question for `a.` and two answers, of priority 10 and of priority 20.
abbrev answer_to : ℕ → List ℕ
answer_to priority =
    192 ∷ 12 ∷ 0 ∷ 33 ∷ 0 ∷ 1 ∷ 0 ∷ 0 ∷ 0 ∷ 60 ∷ 0 ∷ 9 ∷ 0 ∷ priority ∷ 0 ∷ 5 ∷ 0 ∷ 80 ∷ 1 ∷ b'b'
    ∷ 0 ∷ []

abbrev message : List ℕ
message = replicate 12 0 ++ ((1 ∷ b'a' ∷ 0 ∷ 0 ∷ 33 ∷ 0 ∷ 1 ∷ []) ++ (answer_to 10 ++ answer_to 20))

abbrev header : Header
header = record { id = 7; flags = 0; rcode = 0; qdcount = 1; ancount = 2; nscount = 0; arcount = 0 }

abbrev memories : Memories
memories = record { question = memory; answer = memory; authority = memory; additional = memory }

abbrev always : ℕ → Bool
always n = true

abbrev highest : ℕ → ℕ → Run ℕ
highest k max = done max

abbrev server : ℕ → ℕ → SrvRr
server priority target = record {
  priority = priority;
  weight = 5;
  port = 80;
  target = target;
  target_len = 3;
  ttl = 60;
  qclass = 1;
  type = 33;
}

abbrev listed : List SrvRr
listed = server 20 58 ∷ server 10 37 ∷ server 20 58 ∷ []

two_answers :
    on_srv_answer message 61 name memories memory always highest answered header
    ≡ done (go_on listed)
unfolding pack2 pack4 dname_expand expand expand_loop dname_compare skip_loop skip_rr_owner
    question_fields rr_fields with_owner parse_question parse_rr section_loop parse_section
    parse_message parse_answer parse_authority parse_additional parse_end parse_rr_srv srv_target
    sort_by_priority sort_from sort_one insert_slot find_slot next_slot same_priority list_push
    list_insert_at select_by_weight select_from pick when_pushed weight_sum rr_srv collect_one
    step_1 step_1_record step_1_target step_2 list_step steps on_srv_answer
two_answers = refl

on_srv_answer-Ordered_example : Answer message 61 name memories memory always highest header listed
on_srv_answer-Ordered_example =
    on_srv_answer-Ordered message 61 name memories memory always highest header listed two_answers
