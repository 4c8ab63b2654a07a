-- ===== src/Detection/Rules.antt =====
-- backend/app/detection/rules: each rule as a function of the settings, the table of events and the
-- event. `failures[0]` of an empty list raises. Confidences are hundredths.
use ai_soc.Base.{
  ℕ, ◌-◌, ◌*◌, not, String, List, [], ◌∷◌, Option, none, some, length, ltb, contains, ◌==◌,
  String-equality, if◌then◌else◌, Result, ok, err,
}
use ai_soc.Base.Text.{Text}
use ai_soc.Models.{Event, second}
use ai_soc.Repository.Events.{
  recent_login_failures_by_source_ip, distinct_usernames_for_failures_by_source_ip,
  recent_login_failures_for_identity, recent_authentication_context_for_privilege_change,
}

-- detection/base.py, without the texts and the evidence.
pub record DetectionResult : Type 0 where
  pub rule_id : String
  pub severity : String
  pub confidence : ℕ
  pub source_ip : Option Text
  pub username : Option Text
  pub first_seen : Option ℕ
  pub last_seen : Option ℕ

pub record Settings : Type 0 where
  pub brute_force_window_seconds : ℕ
  pub brute_force_threshold : ℕ
  pub password_spray_window_seconds : ℕ
  pub password_spray_unique_users : ℕ
  pub privilege_change_lookback_seconds : ℕ
  pub large_download_threshold_bytes : ℕ
  pub login_after_failures_window_seconds : ℕ
  pub login_after_failures_threshold : ℕ

pub data DetectionError : Type 0 where
  index_error : DetectionError

abbrev pub Verdict : Type 0
Verdict = Result DetectionError (Option DetectionResult)

-- `if not text`
abbrev pub present : Option Text → Option Text
present none = none
present (some []) = none
present (some (c ∷ s)) = some (c ∷ s)

abbrev pub last_time : ℕ → List Event → ℕ
last_time t [] = t
last_time t (e ∷ es) = last_time e.timestamp es

abbrev pub found : String → String → ℕ → Event → ℕ → ℕ → DetectionResult
found rule severity confidence e first last = record {
  rule_id = rule;
  severity = severity;
  confidence = confidence;
  source_ip = e.source_ip;
  username = e.username;
  first_seen = some first;
  last_seen = some last;
}

abbrev pub window_start : Event → ℕ → ℕ
window_start e seconds = e.timestamp - seconds * second

-- The result that spans the failures.
abbrev pub span : Event → List Event → Verdict
span e [] = err index_error
span e (f ∷ failures) =
    ok
      (some (found "rule_001_brute_force" "high" 90 e f.timestamp (last_time f.timestamp failures)))

abbrev pub brute_force_from : Settings → List Event → Event → Option Text → Verdict
brute_force_from settings events e none = ok none
brute_force_from settings events e (some ip) =
    let failures =
      recent_login_failures_by_source_ip ip (window_start e settings.brute_force_window_seconds)
        e.timestamp events in
    if ltb (length failures) settings.brute_force_threshold then ok none else span e failures

unfoldable pub brute_force : Settings → List Event → Event → Verdict
brute_force settings events e =
    if not (e.event_type == "login_failure")
    then ok none
    else brute_force_from settings events e (present e.source_ip)

-- `failures[0].timestamp if failures else event.timestamp`
abbrev pub first_time : ℕ → List Event → ℕ
first_time t [] = t
first_time t (f ∷ failures) = f.timestamp

abbrev pub password_spray_from : Settings → List Event → Event → Option Text → Verdict
password_spray_from settings events e none = ok none
password_spray_from settings events e (some ip) =
    let since = window_start e settings.password_spray_window_seconds in
    let usernames = distinct_usernames_for_failures_by_source_ip ip since e.timestamp events in
    let failures = recent_login_failures_by_source_ip ip since e.timestamp events in
    if ltb (length usernames) settings.password_spray_unique_users
    then ok none
    else ok (
        some (
          found "rule_002_password_spray" "high" 88 e (first_time e.timestamp failures)
            e.timestamp))

unfoldable pub password_spray : Settings → List Event → Event → Verdict
password_spray settings events e =
    if not (e.event_type == "login_failure")
    then ok none
    else password_spray_from settings events e (present e.source_ip)

abbrev pub since_first : String → ℕ → Event → List Event → Verdict
since_first rule confidence e [] = err index_error
since_first rule confidence e (f ∷ failures) =
    ok (some (found rule "high" confidence e f.timestamp e.timestamp))

abbrev privilege_change_from : Event → List Event → Verdict
privilege_change_from e [] = ok none
privilege_change_from e (f ∷ failures) =
    ok (some (found "rule_003_suspicious_privilege_change" "high" 82 e f.timestamp e.timestamp))

unfoldable pub suspicious_privilege_change : Settings → List Event → Event → Verdict
suspicious_privilege_change settings events e =
    if not (e.event_type == "privilege_change")
    then ok none
    else privilege_change_from e (
        recent_authentication_context_for_privilege_change e.username e.source_ip
          settings.privilege_change_lookback_seconds e.timestamp events)

abbrev large_from : Settings → Event → Option ℕ → Verdict
large_from settings e none = ok none
large_from settings e (some bytes) =
    if ltb bytes settings.large_download_threshold_bytes
    then ok none
    else ok (some (found "rule_004_large_download" "medium" 80 e e.timestamp e.timestamp))

unfoldable pub large_download : Settings → List Event → Event → Verdict
large_download settings events e =
    if not (contains ("file_download" ∷ "resource_access" ∷ []) e.event_type)
    then ok none
    else large_from settings e e.bytes_received

unfoldable pub login_after_failures : Settings → List Event → Event → Verdict
login_after_failures settings events e =
    let failures =
      recent_login_failures_for_identity e.username e.source_ip
        (window_start e settings.login_after_failures_window_seconds) e.timestamp events in
    if not (e.event_type == "login_success")
    then ok none
    else if ltb (length failures) settings.login_after_failures_threshold
    then ok none
    else since_first "rule_005_login_after_failures" 86 e failures

abbrev severity_or : Option String → String
severity_or none = "medium"
severity_or (some s) = if s == "" then "medium" else s

abbrev finding_types : List String
finding_types =
    "cloud_finding" ∷ "s3_public_exposure" ∷ "secret_exposure" ∷ "access_key_used"
    ∷ "data_exfiltration" ∷ []

unfoldable pub cloud_finding : Settings → List Event → Event → Verdict
cloud_finding settings events e =
    if not (contains finding_types e.event_type)
    then ok none
    else ok (
        some (
          found "rule_006_cloud_finding" (severity_or e.severity)
            (if e.source_type == "aws_security_hub" then 90 else 75) e e.timestamp e.timestamp))
