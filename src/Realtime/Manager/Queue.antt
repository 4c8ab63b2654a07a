-- ===== src/Realtime/Manager/Queue.antt =====
-- backend/app/realtime/manager.py: a queue holds the latest messages in their order.
use mathlib.Core.List.{append_assoc, append-nil}
use ai_soc.Base.{
  ℕ, zero, suc, ◌+◌, ◌-◌, ◌≤◌, ◌≡◌, refl, sym, ap, ◌∙◌, inl, inr, List, [], ◌∷◌, ◌++◌, arith,
  length, length-append, leb, Bool-cases,
}
use ai_soc.Base.Text.{Text}
use ai_soc.Realtime.Manager.{deliver, drop_first, queue_size}

abbrev pub drop : ℕ → List Text → List Text
drop zero q = q
drop (suc n) [] = []
drop (suc n) (p ∷ q) = drop n q

-- The last `n` elements.
abbrev pub latest : ℕ → List Text → List Text
latest n q = drop (length q - n) q

-- The queue after a sequence of messages.
unfoldable pub deliver_all : List Text → List Text → List Text
deliver_all [] q = q
deliver_all (p ∷ payloads) q = deliver_all payloads (deliver p q)

length-drop : (n : ℕ) (q : List Text) → length (drop n q) ≡ length q - n
length-drop zero q = omega arith
length-drop (suc n) [] = omega arith
length-drop (suc n) (p ∷ q) = omega (arith, length-drop n q)

drop_first-drop : (n : ℕ) (q : List Text) → drop_first (drop n q) ≡ drop (suc n) q
drop_first-drop zero [] = refl
drop_first-drop zero (p ∷ q) = refl
drop_first-drop (suc n) [] = refl
drop_first-drop (suc n) (p ∷ q) = drop_first-drop n q

drop-append : (n : ℕ) (q s : List Text) → n ≤ length q → drop n (q ++ s) ≡ drop n q ++ s
drop-append zero q s h = refl
drop-append (suc n) [] s h = absurd (omega (arith, h))
drop-append (suc n) (p ∷ q) s h = drop-append n q s (omega (arith, h))

deliver-latest :
    (p : Text) (q : List Text) → deliver p (latest queue_size q) ≡ latest queue_size (q ++ p ∷ [])
unfolding deliver
deliver-latest p q = elim (Bool-cases (leb queue_size (length (latest queue_size q)))) [
  | inl full ↦ rw full (when_full (ground (arith, full, length-drop (length q - queue_size) q)))
  | inr room ↦ rw room (with_room (ground (arith, room, length-drop (length q - queue_size) q)))
]
  where
    when_full :
        queue_size ≤ length q
        → drop_first (latest queue_size q) ++ p ∷ [] ≡ latest queue_size (q ++ p ∷ [])
    when_full h =
        let next : suc (length q - queue_size) ≡ length (q ++ p ∷ []) - queue_size =
          omega (arith, h, length-append q (p ∷ [])) in
        ap (λ s. s ++ p ∷ []) (drop_first-drop (length q - queue_size) q)
        ∙ sym (drop-append (suc (length q - queue_size)) q (p ∷ []) (omega (arith, h)))
        ∙ ap (λ n. drop n (q ++ p ∷ [])) next

    with_room :
        length q + 1 ≤ queue_size → latest queue_size q ++ p ∷ [] ≡ latest queue_size (q ++ p ∷ [])
    with_room h =
        let none_left : length q - queue_size ≡ 0 = omega (arith, h) in
        let none_after : length (q ++ p ∷ []) - queue_size ≡ 0 =
          omega (arith, h, length-append q (p ∷ [])) in
        ap (λ n. drop n q ++ p ∷ []) none_left ∙ sym (ap (λ n. drop n (q ++ p ∷ [])) none_after)

-- A queue that was empty, or short enough, holds after any messages the latest 100 of all that it got,
-- in their order.
pub deliver_all-latest :
    (payloads q : List Text)
    → length q ≤ queue_size
    → deliver_all payloads q ≡ latest queue_size (q ++ payloads)
unfolding deliver_all
deliver_all-latest payloads q h =
    ap (deliver_all payloads) (sym (short q h)) ∙ from_latest payloads q
  where
    short : (q : List Text) → length q ≤ queue_size → latest queue_size q ≡ q
    short q h = ap (λ n. drop n q) (none_left q h)
      where
        none_left : (q : List Text) → length q ≤ queue_size → length q - queue_size ≡ 0
        none_left q h = omega (arith, h)

    from_latest :
        (payloads q : List Text)
        → deliver_all payloads (latest queue_size q) ≡ latest queue_size (q ++ payloads)
    from_latest [] q = ap (latest queue_size) (sym (append-nil q))
    from_latest (p ∷ payloads) q =
        ap (deliver_all payloads) (deliver-latest p q)
        ∙ from_latest payloads (q ++ p ∷ [])
        ∙ ap (latest queue_size) (append_assoc q (p ∷ []) payloads)
