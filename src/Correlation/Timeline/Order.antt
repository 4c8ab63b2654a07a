-- ===== src/Correlation/Timeline/Order.antt =====
-- The timeline is in order, shows each alert once for each of its rows, and each event of theirs
-- once.
use ai_soc.Base.{
  ℕ, zero, suc, ◌≡◌, refl, sym, ap, ◌∙◌, inl, inr, Bool, true, false, ◌||◌, String, List, [], ◌∷◌,
  ◌++◌, Option, none, some, arith, nat_eq, ◌==◌, ==_iff, String-equality, if◌then◌else◌, contains,
  any, Bool-cases,
}
use ai_soc.Base.Sort.{
  sort_by, count_if, count_if-append, count_if-sort_by, IsSortedBy, sort_by-IsSortedBy,
}
use ai_soc.Models.{Alert, Event, TimelineEntry, event_entry, alert_entry}
use ai_soc.Repository.Events.{get_event}
use ai_soc.Repository.Alerts.{earlier_alert}
use ai_soc.Correlation.Timeline.{entry_le, event_part, mark_seen, collect, build_incident_timeline}

abbrev pub shows_alert : ℕ → TimelineEntry → Bool
shows_alert id (event_entry e) = false
shows_alert id (alert_entry a e) = nat_eq a.id id

abbrev pub shows_event : String → TimelineEntry → Bool
shows_event id (event_entry e) = e.event_id == id
shows_event id (alert_entry a e) = false

-- Whether an alert's row names an event with this identifier.
abbrev event_is : String → Option Event → Bool
event_is id none = false
event_is id (some e) = e.event_id == id

abbrev pub raised_by : List Event → String → Alert → Bool
raised_by events id a = event_is id (get_event a.event_id events)

entry_le-total : (s t : TimelineEntry) → entry_le s t ≡ false → entry_le t s ≡ true
entry_le-total (event_entry e) (event_entry f) h = ground arith
entry_le-total (event_entry e) (alert_entry b f) h = ground arith
entry_le-total (alert_entry a e) (event_entry f) h = ground arith
entry_le-total (alert_entry a e) (alert_entry b f) h = ground arith

count_if-event_part :
    (id : ℕ) (event : Option Event) (seen : List String)
    → count_if (shows_alert id) (event_part event seen) ≡ 0
count_if-event_part id none seen = refl
count_if-event_part id (some e) seen = ground arith

count_if-collect :
    (id : ℕ) (events : List Event) (seen : List String) (alerts : List Alert)
    → count_if (shows_alert id) (collect events seen alerts)
      ≡ count_if (λ (a : Alert). nat_eq a.id id) alerts
unfolding collect
count_if-collect id events seen [] = refl
count_if-collect id events seen (a ∷ alerts) =
    let event = get_event a.event_id events in
    rw
      (count_if-append (shows_alert id) (event_part event seen)
        (alert_entry a event ∷ collect events (mark_seen event seen) alerts))
      (rw (count_if-event_part id event seen)
        (ground (arith, count_if-collect id events (mark_seen event seen) alerts)))

abbrev once : Bool → Bool → ℕ
once true _ = 0
once false true = 1
once false false = 0

count_if-event_step :
    (id : String) (event : Option Event) (seen : List String) (later : Bool)
    (rest : List TimelineEntry)
    → count_if (shows_event id) rest ≡ once (contains (mark_seen event seen) id) later
    → count_if (shows_event id) (event_part event seen ++ rest)
      ≡ once (contains seen id) (event_is id event || later)
count_if-event_step id none seen later rest h = h
count_if-event_step id (some e) seen later rest h = elim (Bool-cases (contains seen e.event_id)) [
  | inl old ↦ elim (Bool-cases (e.event_id == id)) [
    | inl same ↦
        let known = sym (ap (contains seen) ((==_iff e.event_id id).0 same)) ∙ old in
        rw (old, known) (rw (old, known) at h)
    | inr other ↦ rw (old, other) (rw old at h)
  ]
  | inr new ↦ elim (Bool-cases (e.event_id == id)) [
    | inl same ↦
        let known = sym (ap (contains seen) ((==_iff e.event_id id).0 same)) ∙ new in
        rw (new, known, same) (ap suc (rw (new, same) at h))
    | inr other ↦ rw (new, other) (rw (new, other) at h)
  ]
]

count_if-collect_event :
    (id : String) (events : List Event) (seen : List String) (alerts : List Alert)
    → count_if (shows_event id) (collect events seen alerts)
      ≡ once (contains seen id) (any (raised_by events id) alerts)
unfolding collect
count_if-collect_event id events seen [] = elim (Bool-cases (contains seen id)) [
  | inl old ↦ rw old refl
  | inr new ↦ rw new refl
]
count_if-collect_event id events seen (a ∷ alerts) =
    let event = get_event a.event_id events in
    count_if-event_step id event seen (any (raised_by events id) alerts)
      (alert_entry a event ∷ collect events (mark_seen event seen) alerts)
      (count_if-collect_event id events (mark_seen event seen) alerts)

bool_of : ℕ → Bool
bool_of zero = false
bool_of (suc n) = true

-- A test is met somewhere in a sorted list exactly when it is in the list.
any-count_if : {A : Type 0} (p : A → Bool) (xs : List A) → any p xs ≡ bool_of (count_if p xs)
unfolding bool_of
any-count_if p [] = refl
any-count_if p (x ∷ xs) = elim (Bool-cases (p x)) [
  | inl t ↦ rw t refl
  | inr f ↦ rw f (any-count_if p xs)
]

any-sort_by :
    {A : Type 0} (p : A → Bool) (le : A → A → Bool) (xs : List A) → any p (sort_by le xs) ≡ any p xs
any-sort_by p le xs =
    any-count_if p (sort_by le xs) ∙ ap bool_of (count_if-sort_by p le xs) ∙ sym (any-count_if p xs)

-- The timeline is in order; an alert's identifier has as many entries as rows among the alerts; and
-- an event has one entry if the row of an alert's event has its identifier, and none otherwise.
pub build_incident_timeline_exact :
    (alerts : List Alert) (events : List Event)
    → IsSortedBy entry_le (build_incident_timeline alerts events)
      × (((id : ℕ)
            → count_if (shows_alert id) (build_incident_timeline alerts events)
              ≡ count_if (λ (a : Alert). nat_eq a.id id) alerts)
          × ((id : String)
              → count_if (shows_event id) (build_incident_timeline alerts events)
                ≡ (if any (raised_by events id) alerts then 1 else 0)))
unfolding build_incident_timeline
build_incident_timeline_exact alerts events = (
  sort_by-IsSortedBy entry_le entry_le-total (collect events [] (sort_by earlier_alert alerts)),
  (
    λ id.
        count_if-sort_by (shows_alert id) entry_le
          (collect events [] (sort_by earlier_alert alerts))
        ∙ count_if-collect id events [] (sort_by earlier_alert alerts)
        ∙ count_if-sort_by (λ (a : Alert). nat_eq a.id id) earlier_alert alerts,
    λ id.
        count_if-sort_by (shows_event id) entry_le
          (collect events [] (sort_by earlier_alert alerts))
        ∙ count_if-collect_event id events [] (sort_by earlier_alert alerts)
        ∙ ap (once false) (any-sort_by (raised_by events id) earlier_alert alerts)
        ∙ once_false (any (raised_by events id) alerts),
  ),
)
  where
    once_false : (b : Bool) → once false b ≡ (if b then 1 else 0)
    once_false true = refl
    once_false false = refl
