-- ===== src/Response/AuditChain/Tamper.antt =====
-- What a verified chain is, and that no record of one can change without a collision of the hash.
use ai_soc.Base.{
  ℕ, ◌+◌, ◌≡◌, refl, sym, ap, subst, ◌∙◌, ◌≢◌, ◌↔◌, ◌⊎◌, inl, inr, true, false, List, [], ◌∷◌, ◌++◌,
  Option, none, some, arith, length, append_inj, Bool-cases, ==_iff, ==_refl, String-equality,
  Text-equality, ◌==◌,
}
use ai_soc.Base.Text.{Text}
use ai_soc.Response.AuditChain.{
  Json, Record, string, get, payload, text_of, falsy, is_text, ChainError, compute_entry_hash,
  check_record, verify_from, verify_chain, result_of, first_error,
}

is_text_iff : (o : Option Json) (t : Text) → (is_text o t ≡ true) ↔ (o ≡ some (string t))
is_text_iff none t = (λ h. cc, λ h. cc)
is_text_iff (some (string s)) t =
    (λ h. ap (λ x. some (string x)) ((==_iff s t).0 h), λ h. (==_iff s t).1 (cc))
is_text_iff (some Json.null) t = (λ h. cc, λ h. cc)
is_text_iff (some (Json.boolean b)) t = (λ h. cc, λ h. cc)
is_text_iff (some (Json.integer n)) t = (λ h. cc, λ h. cc)
is_text_iff (some (Json.array vs)) t = (λ h. cc, λ h. cc)
is_text_iff (some (Json.object fs)) t = (λ h. cc, λ h. cc)

first_error-none :
    (o rest : Option ChainError) → first_error o rest ≡ none → (o ≡ none) × (rest ≡ none)
first_error-none none rest h = (refl, h)
first_error-none (some e) rest h = cc

result-none : (o : Option ChainError) → (result_of o).0 ≡ true → o ≡ none
result-none none h = refl
result-none (some e) h = cc

falsy_text : (t : Text) → length t ≡ 64 → falsy (some (string t)) ≡ false
falsy_text [] h = absurd (omega arith)
falsy_text (c ∷ s) h = refl

module _ (sha256 : Text → Text) (dumps : Record → Text) where
  -- Each record names the hash before it, and carries the hash of that and of its own payload.
  abbrev pub IsLinked : Text → List Record → Type 0
  IsLinked current [] = Unit
  IsLinked current (r ∷ rs) =
      let hash = sha256 (current ++ dumps (payload r)) in
      (get "prev_hash" r ≡ some (string current))
      × (get "record_hash" r ≡ some (string hash))
      × IsLinked hash rs

  -- The hash that the next record would name.
  abbrev pub last_hash : Text → List Record → Text
  last_hash current [] = current
  last_hash current (r ∷ rs) = last_hash (sha256 (current ++ dumps (payload r))) rs

  -- The same links and the same serialised payloads, record by record.
  abbrev pub SameContent : List Record → List Record → Type 0
  SameContent [] [] = Unit
  SameContent (r ∷ rs) (s ∷ ss) =
      (get "prev_hash" r ≡ get "prev_hash" s)
      × (get "record_hash" r ≡ get "record_hash" s)
      × (dumps (payload r) ≡ dumps (payload s))
      × SameContent rs ss
  SameContent _ _ = ⊥

  -- Two texts with one hash.
  abbrev pub Collision : Type 0
  Collision = (x : Text) × (y : Text) × (x ≢ y) × (sha256 x ≡ sha256 y)

  module _ (hex_length : (x : Text) → length (sha256 x) ≡ 64) where
    check_record_sound :
        (i : ℕ) (current : Text) (r : Record)
        → check_record sha256 dumps i current r ≡ none
        → (get "prev_hash" r ≡ some (string current))
          × (get "record_hash" r ≡ some (string (sha256 (current ++ dumps (payload r)))))
    unfolding check_record compute_entry_hash
    check_record_sound i current r h =
        let hash = sha256 (current ++ dumps (payload r)) in
        (
          ground (arith, is_text_iff (get "prev_hash" r) current, h),
          ground (arith, is_text_iff (get "record_hash" r) hash, h),
        )

    check_record_complete :
        (i : ℕ) (current : Text) (r : Record)
        → length current ≡ 64
        → get "prev_hash" r ≡ some (string current)
        → get "record_hash" r ≡ some (string (sha256 (current ++ dumps (payload r))))
        → check_record sha256 dumps i current r ≡ none
    unfolding check_record compute_entry_hash
    check_record_complete i current r l p q =
        let hash = sha256 (current ++ dumps (payload r)) in
        rw (p, q)
          (rw (falsy_text current l, falsy_text hash (hex_length _), ==_refl current, ==_refl hash))

    verify_from_sound :
        (i : ℕ) (current : Text) (rs : List Record)
        → verify_from sha256 dumps i current rs ≡ none
        → IsLinked current rs
    unfolding verify_from
    verify_from_sound i current [] h = tt
    verify_from_sound i current (r ∷ rs) h =
        let (good, rest) = first_error-none (check_record sha256 dumps i current r) _ h in
        let (p, q) = check_record_sound i current r good in
        (
          p,
          q,
          verify_from_sound (i + 1) _ rs
              (subst (λ o. verify_from sha256 dumps (i + 1) (text_of o) rs ≡ none) q rest),
        )

    verify_from_complete :
        (i : ℕ) (current : Text) (rs : List Record)
        → length current ≡ 64
        → IsLinked current rs
        → verify_from sha256 dumps i current rs ≡ none
    unfolding verify_from
    verify_from_complete i current [] l h = refl
    verify_from_complete i current (r ∷ rs) l (p, q, h) =
        rw (check_record_complete i current r l p q, first_error)
          (rw q (verify_from_complete (i + 1) _ rs (hex_length _) h))

    -- A chain verifies exactly when every record names the hash before it and carries the hash of
    -- that and of its own payload; for a hash whose digests, like the initial one, have 64 characters.
    pub verify_chain_exact :
        (rs : List Record) (initial : Text)
        → length initial ≡ 64
        → ((verify_chain sha256 dumps rs initial).0 ≡ true) ↔ IsLinked initial rs
    unfolding verify_chain
    verify_chain_exact rs initial l = (
      λ h. verify_from_sound 0 initial rs (result-none (verify_from sha256 dumps 0 initial rs) h),
      λ h. rw (verify_from_complete 0 initial rs l h),
    )

    record_same :
        (p q : Text) (r s : Record)
        → length p ≡ length q
        → sha256 (p ++ dumps (payload r)) ≡ sha256 (q ++ dumps (payload s))
        → ((p ≡ q) × (dumps (payload r) ≡ dumps (payload s))) ⊎ Collision
    record_same p q r s l e = elim (Bool-cases (p ++ dumps (payload r) == q ++ dumps (payload s))) [
      | inl same ↦ inl (append_inj p q _ _ l ((==_iff _ _).0 same))
      | inr other ↦ inr (
        p ++ dumps (payload r),
        q ++ dumps (payload s),
        λ h. ground (arith, (==_iff (p ++ dumps (payload r)) (q ++ dumps (payload s))).1 h),
        e,
      )
    ]

    linked_same :
        (p q : Text) (rs ss : List Record)
        → length p ≡ 64
        → length q ≡ 64
        → IsLinked p rs
        → IsLinked q ss
        → length rs ≡ length ss
        → last_hash p rs ≡ last_hash q ss
        → ((p ≡ q) × SameContent rs ss) ⊎ Collision
    linked_same p q [] [] lp lq hr hs n e = inl (e, tt)
    linked_same p q [] (s ∷ ss) lp lq hr hs n e = absurd (omega arith)
    linked_same p q (r ∷ rs) [] lp lq hr hs n e = absurd (omega arith)
    linked_same p q (r ∷ rs) (s ∷ ss) lp lq hr hs n e =
        elim (linked_same (sha256 (p ++ dumps (payload r))) (sha256 (q ++ dumps (payload s))) rs ss
          (hex_length _) (hex_length _) hr.2 hs.2 (omega arith) e) [
            | inr clash ↦ inr clash
            | inl (hash, rest) ↦ elim (record_same p q r s (lp ∙ sym lq) hash) [
              | inr clash ↦ inr clash
              | inl (link, content) ↦ inl (
                link,
                (
                  hr.0 ∙ ap (λ x. some (string x)) link ∙ sym hs.0,
                  hr.1 ∙ ap (λ x. some (string x)) hash ∙ sym hs.1,
                  content,
                  rest,
                ),
              )
            ]
          ]

    -- Two chains of the same length that verify from one initial hash and end in the same hash have
    -- the same links, hashes and serialised payloads, record by record; or else two different texts
    -- with one hash are at hand. The digests and the initial hash have 64 characters.
    pub tamper_evident :
        (rs ss : List Record) (initial : Text)
        → length initial ≡ 64
        → (verify_chain sha256 dumps rs initial).0 ≡ true
        → (verify_chain sha256 dumps ss initial).0 ≡ true
        → length rs ≡ length ss
        → last_hash initial rs ≡ last_hash initial ss
        → SameContent rs ss ⊎ Collision
    tamper_evident rs ss initial l hr hs n e =
        elim (linked_same initial initial rs ss l l ((verify_chain_exact rs initial l).0 hr)
          ((verify_chain_exact ss initial l).0 hs) n e) [
            | inl (_, same) ↦ inl same
            | inr clash ↦ inr clash
          ]
