-- ===== src/Base/Decimal.antt =====
-- `str(n)` on a natural number, and why it can be read back.
use Prim.Native.Nat.{ℕ, zero, suc, ◌+◌, ◌-◌, ◌*◌, ◌/◌, ◌%◌, ◌<◌}
use mathlib.Core.Path.{◌≡◌, refl, ap, ◌∙◌}
use mathlib.Core.Bool.{true, false}
use mathlib.Core.List.{[], ◌∷◌, ◌++◌}
use mathlib.Core.Logic.{inl, inr}
use native.Mathlib.Omega.{arith}
use ai_soc.Base.Tests.{ltb, if◌then◌else◌, Bool-cases}
use ai_soc.Base.Lists.{all}
use ai_soc.Base.Text.{Text}
use ai_soc.Base.Ipv4.{is_digit, decimal_from}

-- The digits of `n` before those in `acc`. A number has fewer digits than `suc n`.
digits_from : ℕ → ℕ → Text → Text
digits_from zero n acc = acc
digits_from (suc f) n acc =
    let more = digits_from f (n / 10) ((48 + n % 10) ∷ acc) in
    if ltb n 10 then (48 + n) ∷ acc else more

unfoldable pub decimal : ℕ → Text
unfolding digits_from
decimal n = digits_from (suc n) n []

digits_from-read :
    (f n : ℕ) (acc : Text) → n < f → decimal_from 0 (digits_from f n acc) ≡ decimal_from n acc
unfolding digits_from decimal_from
digits_from-read zero n acc h = absurd (omega arith)
digits_from-read (suc f) n acc h = elim (Bool-cases (ltb n 10)) [
  | inl small ↦
      rw small
        (ap (λ (m : ℕ). decimal_from m acc) (let e : 0 * 10 + (48 + n - 48) ≡ n = omega arith in e))
  | inr large ↦ rw large (
      digits_from-read f (n / 10) ((48 + n % 10) ∷ acc) (ground (arith, large))
      ∙ ap (λ (m : ℕ). decimal_from m acc)
          (let e : n / 10 * 10 + (48 + n % 10 - 48) ≡ n = omega arith in e))
]

-- Reading what was printed gives the number back.
pub decimal_from-decimal : (n : ℕ) → decimal_from 0 (decimal n) ≡ n
unfolding decimal decimal_from
decimal_from-decimal n = digits_from-read (suc n) n [] (omega arith)

digits_from-digits :
    (f n : ℕ) (acc : Text) → all is_digit acc ≡ true → all is_digit (digits_from f n acc) ≡ true
unfolding digits_from
digits_from-digits zero n acc h = h
digits_from-digits (suc f) n acc h = elim (Bool-cases (ltb n 10)) [
  | inl small ↦ rw small (ground (arith, h, small))
  | inr large ↦ rw large (digits_from-digits f (n / 10) ((48 + n % 10) ∷ acc) (ground (arith, h)))
]

pub decimal-digits : (n : ℕ) → all is_digit (decimal n) ≡ true
unfolding decimal
decimal-digits n = digits_from-digits (suc n) n [] refl

-- What stands before the first character that is no digit, and what stands behind it, are determined.
pub digits_split :
    (c : ℕ) (xs ys s t : Text)
    → is_digit c ≡ false
    → all is_digit xs ≡ true
    → all is_digit ys ≡ true
    → xs ++ c ∷ s ≡ ys ++ c ∷ t
    → (xs ≡ ys) × (s ≡ t)
digits_split c [] [] s t n hx hy e = (refl, cc)
digits_split c [] (y ∷ ys) s t n hx hy e = absurd (ground arith)
digits_split c (x ∷ xs) [] s t n hx hy e = absurd (ground arith)
digits_split c (x ∷ xs) (y ∷ ys) s t n hx hy e =
    let (p, q) = digits_split c xs ys s t n (ground arith) (ground arith) (cc) in (cc, q)
