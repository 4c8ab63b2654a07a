-- ===== src/Base/Compare.antt =====
-- `==` as an interface with its law, and its instances for numbers, tags and texts. A tag that the
-- program only compares is a `String`; a text that it walks is the list of its code points.
use Prim.Native.Nat.{ℕ}
use Prim.Native.String.{String}
use mathlib.Core.Path.{◌≡◌, refl}
use mathlib.Core.Logic.{◌↔◌}
use mathlib.Core.Bool.{Bool, true, false, ◌&&◌, false≢true}
use mathlib.Core.Option.{Option, none, some}
use mathlib.Core.List.{List, [], ◌∷◌}
use native.Mathlib.Omega.{arith}
use text.Mathlib.Text.{◌==◌ as str_eq}
use text.Mathlib.TextEquality.{eq_iff}
use ai_soc.Base.Tests.{nat_eq, nat_eq_iff}

pub record Equality {ℓ} (A : Type ℓ) : Type ℓ where
  pub eqb : A → A → Bool
  pub eqb_iff : (a b : A) → (eqb a b ≡ true) ↔ (a ≡ b)

infix 50 ◌==◌
abbrev pub ◌==◌ {ℓ} : {A : Type ℓ} ⦃e : Equality A⦄ → A → A → Bool
◌==◌ ⦃e⦄ = e.eqb

pub ==_iff {ℓ} : {A : Type ℓ} ⦃e : Equality A⦄ (a b : A) → ((a == b) ≡ true) ↔ (a ≡ b)
==_iff ⦃e⦄ = e.eqb_iff

pub ==_refl {ℓ} : {A : Type ℓ} ⦃e : Equality A⦄ (a : A) → (a == a) ≡ true
==_refl ⦃e⦄ a = (e.eqb_iff a a).1 refl

instance abbrev pub ℕ-equality : Equality ℕ
ℕ-equality = record { eqb = nat_eq; eqb_iff = nat_eq_iff }

instance abbrev pub String-equality : Equality String
String-equality = record { eqb = str_eq; eqb_iff = eq_iff }

unfoldable pub text_eq : List ℕ → List ℕ → Bool
text_eq [] [] = true
text_eq (x ∷ xs) (y ∷ ys) = nat_eq x y && text_eq xs ys
text_eq _ _ = false

pub text_eq_iff : (xs ys : List ℕ) → (text_eq xs ys ≡ true) ↔ (xs ≡ ys)
unfolding text_eq
text_eq_iff [] [] = ground arith
text_eq_iff [] (y ∷ ys) = (λ h. cc, λ h. cc)
text_eq_iff (x ∷ xs) [] = (λ h. cc, λ h. cc)
text_eq_iff (x ∷ xs) (y ∷ ys) = (
  λ h. ground (arith, text_eq_iff xs ys, nat_eq_iff x y),
  λ h. ground (arith, text_eq_iff xs ys, nat_eq_iff x y),
)

instance abbrev pub Text-equality : Equality (List ℕ)
Text-equality = record { eqb = text_eq; eqb_iff = text_eq_iff }

abbrev pub option_eq {ℓ} : {A : Type ℓ} ⦃e : Equality A⦄ → Option A → Option A → Bool
option_eq none none = true
option_eq ⦃e⦄ (some a) (some b) = e.eqb a b
option_eq _ _ = false

-- Equality from a decision.
abbrev pub is_yes {ℓ} : {P : Type ℓ} → Dec P → Bool
is_yes (yes p) = true
is_yes (no n) = false

pub is_yes_iff {ℓ} : {P : Type ℓ} (d : Dec P) → (is_yes d ≡ true) ↔ P
is_yes_iff (yes p) = (λ h. p, λ q. refl)
is_yes_iff (no n) = (λ h. absurd (false≢true h), λ q. absurd (n q))

abbrev pub equality_of {ℓ} : {A : Type ℓ} → Discrete A → Equality A
equality_of d = record { eqb = λ a b. is_yes (d a b); eqb_iff = λ a b. is_yes_iff (d a b) }
