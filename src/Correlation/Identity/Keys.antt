-- ===== src/Correlation/Identity/Keys.antt =====
-- A correlation key determines the identity that it stands for, and two alerts that share an
-- identity take a common lock, in one order.
use mathlib.Core.List.{append_assoc, append-nil}
use ai_soc.Base.{
  ℕ, ◌≡◌, refl, sym, ap, subst, ◌∙◌, ◌↔◌, ◌≢◌, ◌⊎◌, inl, inr, List, [], ◌∷◌, ◌++◌, Option, arith,
  length, append_inj, IsIn, Bool-cases,
}
use ai_soc.Base.Text.{Text, codes}
use ai_soc.Base.Ipv4.{decimal_from}
use ai_soc.Base.Decimal.{decimal, decimal_from-decimal, decimal-digits, digits_split}
use ai_soc.Correlation.Identity.{
  normalized, sized, build_correlation_key, text_le, sorted_pair, sorted, lock_key,
  build_identity_lock_keys,
}

decimal_inj : (m n : ℕ) → decimal m ≡ decimal n → m ≡ n
decimal_inj m n e = sym (decimal_from-decimal m) ∙ ap (decimal_from 0) e ∙ decimal_from-decimal n

-- A sized text can be cut off the front of a longer text in one way.
sized_inj : (s t rest rest' : Text) → sized s ++ rest ≡ sized t ++ rest' → (s ≡ t) × (rest ≡ rest')
unfolding sized
sized_inj s t rest rest' e =
    let (p, q) =
      digits_split b':' (decimal (length s)) (decimal (length t)) (s ++ rest) (t ++ rest') refl
        (decimal-digits (length s)) (decimal-digits (length t))
        (sym (append_assoc (decimal (length s)) (b':' ∷ s) rest)
          ∙ e
          ∙ append_assoc (decimal (length t)) (b':' ∷ t) rest') in
    append_inj s t rest rest' (decimal_inj (length s) (length t) p) q

-- Two keys are equal only if both the normalized user names and the normalized addresses are.
pub build_correlation_key_inj :
    (u s u' s' : Option Text)
    → build_correlation_key u s ≡ build_correlation_key u' s'
    → (normalized u ≡ normalized u') × (normalized s ≡ normalized s')
unfolding build_correlation_key
build_correlation_key_inj u s u' s' e =
    let (_, tail) =
      append_inj (codes "credential_compromise:u:") (codes "credential_compromise:u:") _ _ refl e in
    let (user, rest) = sized_inj (normalized u) (normalized u') _ _ tail in
    let (_, last) = append_inj (codes "|s:") (codes "|s:") _ _ refl rest in
    (
      user,
      (sized_inj (normalized s) (normalized s') [] [] (append-nil _ ∙ last ∙ sym (append-nil _))).0,
    )

abbrev username_kind : Text
username_kind = codes "credential_compromise:username:"

abbrev source_ip_kind : Text
source_ip_kind = codes "credential_compromise:source_ip:"

-- `k` is the lock of a text that is not empty.
abbrev IsLock : Text → Text → Text → Type 0
IsLock k kind s = (s ≢ []) × (kind ++ sized s ≡ k)

IsIn-sorted_pair : (k s t : Text) → IsIn k (sorted_pair s t) → (s ≡ k) ⊎ (t ≡ k)
IsIn-sorted_pair k s t h = elim (Bool-cases (text_le s t)) [
  | inl le ↦ pair_cases s t (rw le at h)
  | inr gt ↦ swap (pair_cases t s (rw gt at h))
]
  where
    pair_cases : (a b : Text) → IsIn k (a ∷ b ∷ []) → (a ≡ k) ⊎ (b ≡ k)
    pair_cases a b (inl e) = inl e
    pair_cases a b (inr (inl e)) = inr e
    pair_cases a b (inr (inr x)) = absurd x

    swap : {A B : Type 0} → A ⊎ B → B ⊎ A
    swap (inl a) = inr a
    swap (inr b) = inl b

sorted_pair-IsIn : (k s t : Text) → (s ≡ k) ⊎ (t ≡ k) → IsIn k (sorted_pair s t)
sorted_pair-IsIn k s t (inl e) = elim (Bool-cases (text_le s t)) [
  | inl le ↦ rw le (inl e)
  | inr gt ↦ rw gt (inr (inl e))
]
sorted_pair-IsIn k s t (inr e) = elim (Bool-cases (text_le s t)) [
  | inl le ↦ rw le (inr (inl e))
  | inr gt ↦ rw gt (inl e)
]

abbrev locks : Text → Text → List Text
locks u s = sorted (lock_key username_kind u) (lock_key source_ip_kind s)

IsIn-locks :
    (k u s : Text) → IsIn k (locks u s) → IsLock k username_kind u ⊎ IsLock k source_ip_kind s
IsIn-locks k [] [] h = absurd h
IsIn-locks k [] (d ∷ s) (inl e) = inr (λ h. cc, e)
IsIn-locks k [] (d ∷ s) (inr x) = absurd x
IsIn-locks k (c ∷ u) [] (inl e) = inl (λ h. cc, e)
IsIn-locks k (c ∷ u) [] (inr x) = absurd x
IsIn-locks k (c ∷ u) (d ∷ s) h = elim (IsIn-sorted_pair k _ _ h) [
  | inl e ↦ inl (λ h. cc, e)
  | inr e ↦ inr (λ h. cc, e)
]

locks-IsIn :
    (k u s : Text) → IsLock k username_kind u ⊎ IsLock k source_ip_kind s → IsIn k (locks u s)
locks-IsIn k [] s (inl l) = absurd (l.0 refl)
locks-IsIn k (c ∷ u) [] (inl l) = inl l.1
locks-IsIn k (c ∷ u) (d ∷ s) (inl l) = sorted_pair-IsIn k _ _ (inl l.1)
locks-IsIn k u [] (inr l) = absurd (l.0 refl)
locks-IsIn k [] (d ∷ s) (inr l) = inl l.1
locks-IsIn k (c ∷ u) (d ∷ s) (inr l) = sorted_pair-IsIn k _ _ (inr l.1)

same_lock : (k kind s t : Text) → IsLock k kind s → IsLock k kind t → (s ≡ t) × (s ≢ [])
same_lock k kind s t a b =
    let (_, e) = append_inj kind kind (sized s) (sized t) refl (a.1 ∙ sym b.1) in
    ((sized_inj s t [] [] (append-nil _ ∙ e ∙ sym (append-nil _))).0, a.0)

abbrev first_code : Text → ℕ
first_code [] = 0
first_code (c ∷ s) = c

-- The two kinds differ in a letter, so no lock is of both.
kinds_differ : (k s t : Text) → IsLock k username_kind s → IsLock k source_ip_kind t → ⊥
kinds_differ k s t a b =
    let shared_part = codes "credential_compromise:" in
    let (_, e) =
      append_inj shared_part shared_part (codes "username:" ++ sized s)
        (codes "source_ip:" ++ sized t) refl (a.1 ∙ sym b.1) in
    let letters : 117 ≡ first_code (codes "source_ip:" ++ sized t) = ap first_code e in
    absurd (omega (arith, letters))

-- Two identities have a lock in common exactly when their normalized user names are the same and not
-- empty, or their normalized addresses are.
pub common_lock_exact :
    (u s u' s' : Option Text)
    → ((k : Text) × IsIn k (build_identity_lock_keys u s) × IsIn k (build_identity_lock_keys u' s'))
      ↔ (((normalized u ≡ normalized u') × (normalized u ≢ []))
          ⊎ ((normalized s ≡ normalized s') × (normalized s ≢ [])))
unfolding build_identity_lock_keys
common_lock_exact u s u' s' = (
  λ h.
      let (k, a, b) = h in
      shared k (IsIn-locks k (normalized u) (normalized s) a)
        (IsIn-locks k (normalized u') (normalized s') b),
  λ h. common h,
)
  where
    shared :
        (k : Text)
        → IsLock k username_kind (normalized u) ⊎ IsLock k source_ip_kind (normalized s)
        → IsLock k username_kind (normalized u') ⊎ IsLock k source_ip_kind (normalized s')
        → ((normalized u ≡ normalized u') × (normalized u ≢ []))
          ⊎ ((normalized s ≡ normalized s') × (normalized s ≢ []))
    shared k (inl a) (inl b) = inl (same_lock k username_kind _ _ a b)
    shared k (inr a) (inr b) = inr (same_lock k source_ip_kind _ _ a b)
    shared k (inl a) (inr b) = absurd (kinds_differ k _ _ a b)
    shared k (inr a) (inl b) = absurd (kinds_differ k _ _ b a)

    common :
        ((normalized u ≡ normalized u') × (normalized u ≢ []))
          ⊎ ((normalized s ≡ normalized s') × (normalized s ≢ []))
        → (k : Text) × IsIn k (locks (normalized u) (normalized s))
          × IsIn k (locks (normalized u') (normalized s'))
    common (inl (e, n)) = (
      username_kind ++ sized (normalized u),
      locks-IsIn _ (normalized u) (normalized s) (inl (n, refl)),
      locks-IsIn _ (normalized u') (normalized s')
          (inl (subst (λ t. t ≢ []) e n, ap (λ t. username_kind ++ sized t) (sym e))),
    )
    common (inr (e, n)) = (
      source_ip_kind ++ sized (normalized s),
      locks-IsIn _ (normalized u) (normalized s) (inr (n, refl)),
      locks-IsIn _ (normalized u') (normalized s')
          (inr (subst (λ t. t ≢ []) e n, ap (λ t. source_ip_kind ++ sized t) (sym e))),
    )
