-- ===== src/Response/Tests.antt =====
-- Runs of the response components, and their theorems at concrete inputs.
use ai_soc.Base.{
  ℕ, zero, suc, ◌%◌, ◌+◌, ◌*◌, ◌≤◌, ◌<◌, ◌≡◌, refl, ◌↔◌, ◌⊎◌, true, false, List, [], ◌∷◌, ◌++◌,
  some, arith, length,
}
use ai_soc.Base.Text.{Text, codes, strip, lower}
use ai_soc.Base.Ipv4.{parse_ipv4}
use ai_soc.Base.{text_eq}
use ai_soc.Response.Actions.{ProposedAction, block_ip, tier, tier_value, accepts}
use ai_soc.Response.Breaker.{
  CircuitBreaker, new_breaker, is_disruptive, disruptive, is_tripped, check_caps, recent,
  disruptive_count, record_execution,
}
use ai_soc.Response.Breaker.Window.{everything, count_hour}
use ai_soc.Response.Breaker.Caps.{Request, serve, serve_within_caps}
use ai_soc.Response.Policy.{
  PolicyContext, new_context, evaluate, evaluate_target, evaluate_tier, is_grounded, invalid_refs,
  protecting_network, normalize, is_protected,
}
use ai_soc.Response.Policy.Gate.{RunsAlone, MayAutoExecute, auto_execute_exact, human_gate}
use ai_soc.Response.AuditChain.{
  Record, Json, string, get, payload, verify_chain, compute_entry_hash, check_record, hash_mismatch,
  named,
}
use ai_soc.Response.AuditChain.Tamper.{
  IsLinked, SameContent, Collision, verify_chain_exact, tamper_evident,
}

abbrev busy : CircuitBreaker
busy = record new_breaker { history = record { at = 7; kind = disruptive } ∷ [] }

busy_passes : (is_tripped 9 busy).1.0 ≡ false
unfolding is_tripped check_caps recent disruptive_count
busy_passes = refl

abbrev tight : CircuitBreaker
tight = record new_breaker { max_actions_per_hour = 2; max_disruptive_actions_per_hour = 1 }

abbrev burst : List Request
burst =
    record { at = 5; disruptive = true }
    ∷ record { at = 6; disruptive = true }
    ∷ record { at = 7; disruptive = false }
    ∷ record { at = 8; disruptive = false }
    ∷ record { at = 3600000006; disruptive = true }
    ∷ []

burst_log :
    (serve burst tight []).1
    ≡ record { at = 5; kind = disruptive } ∷ record { at = 3600000006; kind = disruptive } ∷ []
unfolding serve is_tripped check_caps recent disruptive_count record_execution
burst_log = refl

serve_within_caps_example :
    (count_hour everything 5 (serve burst tight []).1 ≤ 2)
    × (count_hour is_disruptive 5 (serve burst tight []).1 ≤ 1)
serve_within_caps_example = serve_within_caps tight burst refl (omega arith) 5

abbrev block : ProposedAction
block = record {
  action_type = block_ip;
  target = codes " 203.0.113.9";
  reason = codes "known scanner";
  evidence_refs = codes "alert:1" ∷ [];
  confidence = 900000;
  ttl_seconds = some 3600;
  parameters = [];
}

block_accepted : accepts block ≡ true
unfolding accepts
block_accepted = refl

abbrev context : PolicyContext
context =
    new_context 1 (codes "203.0.113.9" ∷ codes "Root" ∷ []) (codes "alert:1" ∷ codes "event:2" ∷ [])

block_runs : RunsAlone (evaluate 9 busy block context).1
unfolding evaluate is_tripped check_caps recent disruptive_count evaluate_target evaluate_tier
    is_grounded is_protected invalid_refs protecting_network normalize strip lower parse_ipv4
    text_eq
block_runs = (refl, refl)

auto_execute_exact_example : MayAutoExecute 9 busy block context
auto_execute_exact_example = (auto_execute_exact 9 busy block context).0 block_runs

human_gate_example :
    ((evaluate 9 busy block context).1.action ≡ block)
    × ((evaluate 9 busy block context).1.requires_human_approval ≡ true
        → (evaluate 9 busy block context).1.allowed ≡ true)
    × ((evaluate 9 busy block context).1.allowed ≡ true
        → ((evaluate 9 busy block context).1.requires_human_approval ≡ true) ↔ (
            (2 ≤ tier_value (tier block))
            ⊎ ((tier_value (tier block) ≡ 1) × (block.confidence < context.min_auto_confidence))))
human_gate_example = human_gate 9 busy block context

-- A digest for the runs: 64 copies of a checksum.
abbrev checksum : ℕ → Text → ℕ
checksum n [] = n
checksum n (c ∷ s) = checksum ((n * 31 + c) % 65521) s

abbrev copies : ℕ → ℕ → Text
copies zero c = []
copies (suc n) c = c ∷ copies n c

digest : Text → Text
digest x = copies 64 (checksum 7 x)

length-digest : (x : Text) → length (digest x) ≡ 64
unfolding digest
length-digest x = refl

abbrev text_value : Json → Text
text_value (string s) = s
text_value _ = codes "?"

abbrev dump : Record → Text
dump [] = []
dump ((k, v) ∷ r) = codes k ++ text_value v ++ dump r

abbrev zeros : Text
zeros = copies 64 b'0'

abbrev entry : Text → Text → Text → Record
entry prev action hash =
    ("id", string (codes "7"))
    ∷ ("prev_hash", string prev)
    ∷ ("action", string action)
    ∷ ("record_hash", string hash)
    ∷ []

abbrev first_hash : Text
first_hash = compute_entry_hash digest dump zeros (payload (entry zeros (codes "block_ip") []))

abbrev chain : List Record
chain = entry zeros (codes "block_ip") first_hash ∷ []

chain_verifies : (verify_chain digest dump chain zeros).0 ≡ true
unfolding verify_chain check_record compute_entry_hash payload get text_eq digest
chain_verifies = refl

tampered_fails :
    verify_chain digest dump (entry zeros (codes "notify") first_hash ∷ []) zeros
    ≡ (false, some (hash_mismatch (named (string (codes "7")))))
unfolding verify_chain check_record compute_entry_hash payload get text_eq digest
tampered_fails = refl

verify_chain_exact_example :
    ((verify_chain digest dump chain zeros).0 ≡ true) ↔ IsLinked digest dump zeros chain
verify_chain_exact_example = verify_chain_exact digest dump length-digest chain zeros refl

tamper_evident_example : SameContent digest dump chain chain ⊎ Collision digest dump
tamper_evident_example =
    tamper_evident digest dump length-digest chain chain zeros refl chain_verifies chain_verifies
      refl refl
