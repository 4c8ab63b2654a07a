-- ===== src/Repository/Events.antt =====
-- backend/app/repositories/event_repository.py: the queries of detection and correlation. Where the
-- query orders by time alone, rows of one time stay in the order of the table.
use ai_soc.Base.{
  ℕ, ◌-◌, ◌*◌, Bool, false, ◌&&◌, ◌||◌, List, [], ◌∷◌, Option, none, some, filter, find, contains,
  leb, ◌==◌, ℕ-equality, String-equality, Text-equality, if◌then◌else◌,
}
use ai_soc.Base.Text.{Text}
use ai_soc.Base.Sort.{sort_by}
use ai_soc.Models.{Event, second}

abbrev pub earlier_event : Event → Event → Bool
earlier_event a b = leb a.timestamp b.timestamp

-- `column == value` in SQL: a null column equals nothing.
abbrev pub column_is : Option Text → Text → Bool
column_is none t = false
column_is (some s) t = s == t

abbrev pub is_failure_between : ℕ → ℕ → Event → Bool
is_failure_between since until e =
    e.event_type == "login_failure" && leb since e.timestamp && leb e.timestamp until

-- The rows with an identifier of the list, and the look-up in the dictionary that is made of them.
unfoldable pub get_by_ids : List ℕ → List Event → List Event
get_by_ids ids events = filter (λ e. contains ids e.id) events

unfoldable pub get_event : ℕ → List Event → Option Event
get_event id events = find (λ e. e.id == id) events

unfoldable pub recent_login_failures_by_source_ip : Text → ℕ → ℕ → List Event → List Event
recent_login_failures_by_source_ip ip since until events =
    sort_by earlier_event
      (filter (λ e. is_failure_between since until e && column_is e.source_ip ip) events)

-- The user names of a list of rows, each once.
abbrev add_name : Option Text → List Text → List Text
add_name none names = names
add_name (some n) names = if contains names n then names else n ∷ names

unfoldable pub distinct_usernames : List Event → List Text
distinct_usernames [] = []
distinct_usernames (e ∷ es) = add_name e.username (distinct_usernames es)

unfoldable pub distinct_usernames_for_failures_by_source_ip : Text → ℕ → ℕ → List Event → List Text
distinct_usernames_for_failures_by_source_ip ip since until events =
    distinct_usernames
      (filter (λ e. is_failure_between since until e && column_is e.source_ip ip) events)

-- `or_` of the identity clauses that are there.
abbrev pub matches_clause : Option Text → Option Text → Bool
matches_clause none column = false
matches_clause (some v) column = column_is column v

abbrev pub matches_identity : Option Text → Option Text → Option Text → Option Text → Bool
matches_identity username source_ip user_column ip_column =
    matches_clause username user_column || matches_clause source_ip ip_column

-- Without a clause the query is not made and the result is empty.
unfoldable pub recent_login_failures_for_identity :
    Option Text → Option Text → ℕ → ℕ → List Event → List Event
recent_login_failures_for_identity username source_ip since until events = sort_by earlier_event (
    filter
      (λ e.
        is_failure_between since until e
        && matches_identity username source_ip e.username e.source_ip)
      events)

unfoldable pub recent_authentication_context_for_privilege_change :
    Option Text → Option Text → ℕ → ℕ → List Event → List Event
recent_authentication_context_for_privilege_change username source_ip lookback_seconds event_time
      events =
    recent_login_failures_for_identity username source_ip (event_time - lookback_seconds * second)
      event_time events
