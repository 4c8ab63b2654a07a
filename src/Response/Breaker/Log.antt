-- ===== src/Response/Breaker/Log.antt =====
-- The history of the circuit breaker against the log of all that was executed.
use ai_soc.Base.{
  ℕ, ◌+◌, ◌-◌, ◌≤◌, ◌<◌, ◌≡◌, Bool, true, false, List, ◌++◌, arith, Bool-cases, inl, inr, ◌⊎◌, ltb,
  ltb→lt, tests, ◌∙◌, ap, sym,
}
use ai_soc.Response.Breaker.{Kind, Entry, hour, recent}
use ai_soc.Response.Breaker.Window.{
  count_since, count_hour, count_since-recent, count_since-append, count_hour-append,
  count_hour-one, one_entry, count_hour-le-count_since,
}

-- What the breaker still knows of the log, and what the log satisfies.
pub record Tracks (chosen : Kind → Bool) (limit now : ℕ) (history log : List Entry) : Type 0 where
  pub known :
      (since : ℕ)
      → now - hour ≤ since
      → count_since chosen since history ≡ count_since chosen since log
  pub capped : (from : ℕ) → count_hour chosen from log ≤ limit

pub Tracks-recent :
    (chosen : Kind → Bool) (limit now t : ℕ) (history log : List Entry)
    → now ≤ t
    → Tracks chosen limit now history log
    → Tracks chosen limit t (recent t history) log
Tracks-recent chosen limit now t history log h k = record {
  known = λ since le. count_since-recent chosen t since history le ∙ k.known since (omega arith);
  capped = k.capped;
}

-- One more entry, below the cap.
pub Tracks-record :
    (chosen : Kind → Bool) (limit t : ℕ) (d : Bool) (history log : List Entry)
    → count_since chosen (t - hour) history < limit
    → Tracks chosen limit t history log
    → Tracks chosen limit t (history ++ one_entry t d) (log ++ one_entry t d)
Tracks-record chosen limit t d history log below k = record {
  known = λ since le.
      count_since-append chosen since history (one_entry t d)
      ∙ ap (λ n. n + count_since chosen since (one_entry t d)) (k.known since le)
      ∙ sym (count_since-append chosen since log (one_entry t d));
  capped = λ from. below_limit from (Bool-cases (ltb (from + hour) t));
}
  where
    below_limit :
        (from : ℕ)
        → (ltb (from + hour) t ≡ true) ⊎ (ltb (from + hour) t ≡ false)
        → count_hour chosen from (log ++ one_entry t d) ≤ limit
    below_limit from (inl outside) = omega (
      tests,
      count_hour-append chosen from log (one_entry t d),
      (count_hour-one chosen from t d).1 (ltb→lt _ _ outside),
      k.capped from,
    )
    below_limit from (inr inside) =
        let in_reach : t - hour ≤ from = ground arith in
        omega (
          tests,
          count_hour-append chosen from log (one_entry t d),
          (count_hour-one chosen from t d).0,
          count_hour-le-count_since chosen from (t - hour) log in_reach,
          k.known (t - hour) (omega arith),
        )

pub Tracks-later :
    (chosen : Kind → Bool) (limit now t : ℕ) (history log : List Entry)
    → now ≤ t
    → Tracks chosen limit now history log
    → Tracks chosen limit t history log
Tracks-later chosen limit now t history log h k = record {
  known = λ since le. k.known since (omega arith);
  capped = k.capped;
}
