-- ===== src/Response/Breaker/Window.antt =====
-- Counting the entries of a history from a time on, and what pruning keeps of it.
use ai_soc.Base.{
  ℕ, suc, ◌+◌, ◌-◌, ◌≤◌, ◌<◌, ◌≡◌, refl, Bool, true, ◌&&◌, List, [], ◌∷◌, ◌++◌, arith, leb, length,
  if◌then◌else◌,
}
use ai_soc.Response.Breaker.{Kind, Entry, hour, is_disruptive, kind_of, recent, disruptive_count}

abbrev pub everything : Kind → Bool
everything k = true

-- How many entries of the chosen kinds are not older than `since`.
pub count_since : (Kind → Bool) → ℕ → List Entry → ℕ
count_since chosen since [] = 0
count_since chosen since (e ∷ es) =
    let rest = count_since chosen since es in
    if chosen e.kind && leb since e.at then suc rest else rest

-- How many entries of the chosen kinds lie in the hour that starts at `from`.
unfoldable pub count_hour : (Kind → Bool) → ℕ → List Entry → ℕ
count_hour chosen from [] = 0
count_hour chosen from (e ∷ es) =
    let rest = count_hour chosen from es in
    if chosen e.kind && (leb from e.at && leb e.at (from + hour)) then suc rest else rest

pub length-recent :
    (now : ℕ) (es : List Entry) → length (recent now es) ≡ count_since everything (now - hour) es
unfolding count_since recent
length-recent now [] = refl
length-recent now (e ∷ es) = ground (arith, length-recent now es)

pub disruptive_count-recent :
    (now : ℕ) (es : List Entry)
    → disruptive_count (recent now es) ≡ count_since is_disruptive (now - hour) es
unfolding count_since recent disruptive_count
disruptive_count-recent now [] = refl
disruptive_count-recent now (e ∷ es) = ground (arith, disruptive_count-recent now es)

pub count_since-recent :
    (chosen : Kind → Bool) (now since : ℕ) (es : List Entry)
    → now - hour ≤ since
    → count_since chosen since (recent now es) ≡ count_since chosen since es
unfolding count_since recent
count_since-recent chosen now since [] h = refl
count_since-recent chosen now since (e ∷ es) h =
    ground (arith, count_since-recent chosen now since es)

pub count_since-append :
    (chosen : Kind → Bool) (since : ℕ) (es fs : List Entry)
    → count_since chosen since (es ++ fs)
      ≡ count_since chosen since es + count_since chosen since fs
unfolding count_since
count_since-append chosen since [] fs = ground arith
count_since-append chosen since (e ∷ es) fs = ground (arith, count_since-append chosen since es fs)

pub count_hour-append :
    (chosen : Kind → Bool) (from : ℕ) (es fs : List Entry)
    → count_hour chosen from (es ++ fs) ≡ count_hour chosen from es + count_hour chosen from fs
unfolding count_hour
count_hour-append chosen from [] fs = ground arith
count_hour-append chosen from (e ∷ es) fs = ground (arith, count_hour-append chosen from es fs)

pub count_hour-le-count_since :
    (chosen : Kind → Bool) (from since : ℕ) (es : List Entry)
    → since ≤ from
    → count_hour chosen from es ≤ count_since chosen since es
unfolding count_hour count_since
count_hour-le-count_since chosen from since [] h = ground arith
count_hour-le-count_since chosen from since (e ∷ es) h =
    ground (arith, count_hour-le-count_since chosen from since es)

abbrev pub one_entry : ℕ → Bool → List Entry
one_entry now d = record { at = now; kind = kind_of d } ∷ []

pub count_hour-one :
    (chosen : Kind → Bool) (from t : ℕ) (d : Bool)
    → (count_hour chosen from (one_entry t d) ≤ 1)
      × (from + hour < t → count_hour chosen from (one_entry t d) ≡ 0)
unfolding count_hour
count_hour-one chosen from t d = (ground arith, λ h. ground arith)
