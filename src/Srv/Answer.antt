-- ===== src/Srv/Answer.antt =====
-- `on_srv_answer` from its start to step 4: the answer to an SRV query, up to the order of the records.
pub mod Collected
pub mod Ordered
mod Tests
use ruli.Common.{
  ℕ, ◌+◌, Bool, true, false, not, ◌&&◌, Option, none, some, List, [], ◌∷◌, ◌++◌, length, ltb, leb,
  ◌==◌, if◌then◌else◌, Run, done, bad_read, check, read, ◌>>=◌, ◌>>◌,
}
use ruli.Msg.{Header}
use ruli.Parse.Records.{Rr, Memory}
use ruli.Parse.Message.{Status, ok, Parse, Memories, parse_message}
use ruli.Parse.Data.{SrvRdata, parse_rr_srv}
use ruli.Txt.Compare.{dname_compare}
use ruli.Srv.Order.{SrvRr, sort_by_priority, select_by_weight}

-- The values of `answer_code` that this part sets.
pub data Code : Type 0 where
  code_unavailable code_alarm code_query_failed code_parse_failed code_malloc code_list : Code

-- What happens to the query: it is done with a code, the fallback query starts, or a list goes on to the next step.
pub data Outcome {ℓ} (A : Type ℓ) : Type ℓ where
  query_done : Code → Outcome A
  fallback : Outcome A
  go_on : A → Outcome A

abbrev pub and_then {ℓ κ} :
    {A : Type ℓ} {B : Type κ} → Run (Outcome A) → (A → Run (Outcome B)) → Run (Outcome B)
and_then m f = m >>= λ o. elim o [
  | query_done code ↦ done (query_done code)
  | fallback ↦ done fallback
  | go_on a ↦ f a
]

-- What became of the underlying query: its `answer_code` is 0, RULI_CODE_TIMEOUT or another one.
pub data Answered : Type 0 where
  answered timed_out failed : Answered

-- RULI_RR_CLASS_IN and RULI_RR_TYPE_SRV.
abbrev pub class_in : ℕ
class_in = 1

abbrev pub type_srv : ℕ
type_srv = 33

abbrev pub is_srv : Rr → Bool
is_srv rr = rr.qclass == class_in && rr.type == type_srv

-- The answer buffer, the length of the answer in it, and the name that was asked for.
module _ (buf : List ℕ) (msg_len : ℕ) (full_dname : List ℕ) where
  -- `ruli_parse_rr_srv` of a record; a record without data has a null pointer there.
  pub rr_srv : Rr → Run (Option SrvRdata)
  rr_srv rr = elim (rr.rdata) [ none ↦ bad_read | some rdata ↦ parse_rr_srv buf rdata rr.rdlength ]

  -- Step 1: the only record is an SRV record whose target is the root.
  pub step_1_target : Rr → SrvRdata → Run (Outcome (Unit {0}))
  step_1_target rr d = do
    byte ← read buf d.target
    if not (byte == 0)
        then done (go_on tt)
        else if not (d.target_len == 1)
        then done (query_done code_parse_failed)
        else do
          same ← dname_compare buf msg_len rr.owner full_dname
          if not same
              then done (query_done code_parse_failed)
              else done (query_done code_unavailable)

  pub step_1_record : Rr → Run (Outcome (Unit {0}))
  step_1_record rr = if not (is_srv rr) then done (go_on tt) else do
    d ← rr_srv rr
    elim d [
      | none ↦ done (query_done code_parse_failed)
      | some srv_rdata ↦ step_1_target rr srv_rdata
    ]

  pub step_1 : ℕ → List Rr → Run (Outcome (Unit {0}))
  step_1 ancount [] = done (go_on tt)
  step_1 ancount (rr ∷ []) = if ancount == 1 then step_1_record rr else done (go_on tt)
  step_1 ancount (rr ∷ s ∷ an_list) = done (go_on tt)

  -- One record of step 2: it is compared, allocated, pushed and parsed, in this order.
  pub collect_one : Memory → List SrvRr → Rr → Run (Outcome (List SrvRr))
  collect_one mem rr_srv_list rr = do
    same ← dname_compare buf msg_len rr.owner full_dname
    if not same
        then done (query_done code_parse_failed)
        else if not (mem.malloc (length rr_srv_list))
        then done (query_done code_malloc)
        else if not (mem.push (length rr_srv_list))
        then done (query_done code_list)
        else do
          d ← rr_srv rr
          elim d [
            | none ↦ done (query_done code_parse_failed)
            | some r ↦ done (
                go_on (
                  rr_srv_list
                  ++ ((record {
                    priority = r.priority;
                    weight = r.weight;
                    port = r.port;
                    target = r.target;
                    target_len = r.target_len;
                    ttl = rr.ttl;
                    qclass = rr.qclass;
                    type = rr.type;
                  })
                      ∷ [])))
          ]

  -- Step 2.
  pub step_2 : Memory → List SrvRr → List Rr → Run (Outcome (List SrvRr))
  step_2 mem rr_srv_list [] = done (go_on rr_srv_list)
  step_2 mem rr_srv_list (rr ∷ an_list) =
      if not (is_srv rr)
      then step_2 mem rr_srv_list an_list
      else and_then (collect_one mem rr_srv_list rr) (λ l. step_2 mem l an_list)

  -- A step that fails only for want of memory in a list.
  pub list_step : Option (List SrvRr) → Outcome (List SrvRr)
  list_step none = query_done code_list
  list_step (some l) = go_on l

  -- Steps 1 to 4 for the answer section of the message.
  pub steps : Memory → (ℕ → Bool) → (ℕ → ℕ → Run ℕ) → ℕ → List Rr → Run (Outcome (List SrvRr))
  steps mem room rand ancount an_list = and_then (step_1 ancount an_list) (λ _.
      and_then (step_2 mem [] an_list) (λ rr_srv_list.
        and_then (done (list_step (sort_by_priority room rr_srv_list)))
          (λ pri_srv_list. select_by_weight room rand pri_srv_list >>= λ o. done (list_step o))))

  pub on_srv_answer :
      Memories
      → Memory
      → (ℕ → Bool)
      → (ℕ → ℕ → Run ℕ)
      → Answered
      → Header
      → Run (Outcome (List SrvRr))
  on_srv_answer memories mem room rand timed_out hdr = done (query_done code_alarm)
  on_srv_answer memories mem room rand failed hdr = done (query_done code_query_failed)
  on_srv_answer memories mem room rand answered hdr = do
    (status, parse) ← parse_message memories buf msg_len hdr
    elim status [
      | ok ↦
          if not (hdr.rcode == 0)
          then done fallback
          else if ltb hdr.ancount 1
          then done fallback
          else steps mem room rand hdr.ancount parse.answer_list
      | _ ↦ done (query_done code_parse_failed)
    ]
