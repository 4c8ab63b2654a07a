-- ===== src/Repository/Alerts.antt =====
-- backend/app/repositories/alert_repository.py: alerts that share an identity.
use ai_soc.Base.{ℕ, Bool, ◌&&◌, ◌||◌, List, Option, filter, leb, ltb, nat_eq}
use ai_soc.Base.Text.{Text}
use ai_soc.Base.Sort.{sort_by}
use ai_soc.Models.{Alert}
use ai_soc.Repository.Events.{matches_identity}

-- The order by `first_seen`, then `created_at`.
abbrev pub earlier_alert : Alert → Alert → Bool
earlier_alert a b =
    ltb a.first_seen b.first_seen
    || (nat_eq a.first_seen b.first_seen && leb a.created_at b.created_at)

unfoldable pub related_alerts : Option Text → Option Text → ℕ → ℕ → List Alert → List Alert
related_alerts username source_ip since until alerts = sort_by earlier_alert (
    filter
      (λ a.
        leb since a.last_seen
        && leb a.last_seen until
        && matches_identity username source_ip a.username a.source_ip)
      alerts)
