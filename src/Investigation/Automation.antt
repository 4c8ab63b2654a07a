-- ===== src/Investigation/Automation.antt =====
-- backend/app/investigation/automation.py: which incidents are investigated without a request. The
-- keys of the cooldown in Redis are an interface: `set` with `nx` and `ex`, and `delete`.
pub mod Triggered
use ai_soc.Base.{
  ℕ, zero, suc, Bool, true, false, not, ◌&&◌, ◌||◌, String, List, [], ◌∷◌, Option, none, some, leb,
  ◌==◌, String-equality, Text-equality, if◌then◌else◌, Result, ok, err,
}
use ai_soc.Base.Text.{Text, codes, lower}
use ai_soc.Models.{Incident}
use ai_soc.Investigation.Service.{LlmSettings, RequestError, Jobs, Reply, request_investigation}

-- `SEVERITY_RANK.get(severity, default)`; texts of severities are in lower case where they are stored.
abbrev pub severity_rank : ℕ → Text → ℕ
severity_rank default s =
    if s == codes "low"
    then 1
    else if s == codes "medium"
    then 2
    else if s == codes "high"
    then 3
    else if s == codes "critical"
    then 4
    else default

unfoldable pub should_trigger : LlmSettings → Incident → Bool
should_trigger settings i =
    settings.automatic_investigations_enabled
    && ((i.status == "open" || i.status == "investigating")
        && leb (severity_rank 4 (lower settings.automatic_investigation_min_severity))
            (severity_rank 0 (lower (codes i.severity))))

pub record Cooldowns (R : Type 0) : Type 0 where
  pub claim : R → ℕ → ℕ → R × Bool
  pub release : R → ℕ → R

module _ {R : Type 0} (redis : Cooldowns R) (settings : LlmSettings)
    (context_hash : Incident → Text) (now : ℕ) (online : ℕ → Bool) where
  -- After an error the incident may be tried again at once.
  abbrev settle : ℕ → R → Reply → Jobs × R
  settle incident r (st, ok x) = (st, r)
  settle incident r (st, err e) = (st, redis.release r incident)

  abbrev pub request_claimed : ℕ → ℕ → Jobs → R × Bool → Jobs × R
  request_claimed fresh incident st (r, won) =
      if won
      then settle incident r
          (request_investigation settings context_hash now fresh (online incident) incident st)
      else (st, r)

  abbrev pub dispatch_one : ℕ → Incident → Jobs → R → Jobs × R
  dispatch_one fresh i st r =
      if should_trigger settings i
      then request_claimed fresh i.id st
          (redis.claim r i.id settings.automatic_investigation_cooldown_seconds)
      else (st, r)

  -- The loop; `fresh` is the next unused identifier.
  unfoldable pub dispatch : ℕ → List Incident → Jobs → R → Jobs × R
  dispatch fresh [] st r = (st, r)
  dispatch fresh (i ∷ incidents) st r =
      let (st', r') = dispatch_one fresh i st r in dispatch (suc fresh) incidents st' r'
