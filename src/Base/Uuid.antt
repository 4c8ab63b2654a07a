-- ===== src/Base/Uuid.antt =====
-- The identifier that an ASCII text names, as Python's `uuid.UUID` reads it.
use Prim.Native.Nat.{ℕ, zero, suc, ◌+◌, ◌-◌, ◌*◌}
use mathlib.Core.Bool.{Bool, true, false, not, ◌&&◌, ◌||◌}
use mathlib.Core.Option.{Option, none, some}
use mathlib.Core.List.{[], ◌∷◌, reverse}
use ai_soc.Base.Tests.{leb, nat_eq, if◌then◌else◌}
use ai_soc.Base.Lists.{length, filter}
use ai_soc.Base.Text.{Text, codes}

abbrev starts_with : Text → Text → Bool
starts_with [] s = true
starts_with (p ∷ ps) [] = false
starts_with (p ∷ ps) (c ∷ s) = nat_eq p c && starts_with ps s

-- `s.replace(part, '')`; the number is what is left of an occurrence.
abbrev remove_from : Text → ℕ → Text → Text
remove_from part n [] = []
remove_from part (suc n) (c ∷ s) = remove_from part n s
remove_from part zero (c ∷ s) = elim (starts_with part (c ∷ s)) [
  | true ↦ remove_from part (length part - 1) s
  | false ↦ c ∷ remove_from part zero s
]

abbrev remove : Text → Text → Text
remove part s = remove_from part zero s

abbrev lstrip_of : (ℕ → Bool) → Text → Text
lstrip_of p [] = []
lstrip_of p (c ∷ s) = let rest = lstrip_of p s in if p c then rest else c ∷ s

abbrev strip_of : (ℕ → Bool) → Text → Text
strip_of p s = reverse (lstrip_of p (reverse (lstrip_of p s)))

abbrev is_brace : ℕ → Bool
is_brace c = nat_eq c b'{' || nat_eq c b'}'

abbrev is_blank : ℕ → Bool
is_blank c = (leb 9 c && leb c 13) || nat_eq c b' '

abbrev hex_value : ℕ → Option ℕ
hex_value c =
    if leb b'0' c && leb c b'9'
    then some (c - 48)
    else if leb b'a' c && leb c b'f'
    then some (c - 87)
    else if leb b'A' c && leb c b'F'
    then some (c - 55)
    else none

abbrev push_digit : ℕ → Option ℕ → Option ℕ
push_digit n none = none
push_digit n (some d) = some (n * 16 + d)

abbrev add_digit : Option ℕ → ℕ → Option ℕ
add_digit none c = none
add_digit (some n) c = push_digit n (hex_value c)

-- One character; an underscore stands behind a digit.
abbrev add_character : Option ℕ → Bool → ℕ → Option ℕ
add_character n after_digit c =
    if nat_eq c b'_' then (if after_digit then n else none) else add_digit n c

-- The digits of `int(s, 16)`, which end in a digit.
unfoldable pub hex_from : Option ℕ → Bool → Text → Option ℕ
hex_from n after_digit [] = if after_digit then n else none
hex_from n after_digit (c ∷ s) = hex_from (add_character n after_digit c) (not (nat_eq c b'_')) s

abbrev drop_one : ℕ → Text → Text
drop_one d [] = []
drop_one d (c ∷ s) = if nat_eq c d then s else c ∷ s

abbrev drop_prefix : Text → Text
drop_prefix (z ∷ x ∷ s) =
    if nat_eq z b'0' && (nat_eq x b'x' || nat_eq x b'X') then drop_one b'_' s else z ∷ x ∷ s
drop_prefix s = s

-- `int(s, 16)`, for a text without hyphens.
unfoldable pub parse_hex : Text → Option ℕ
parse_hex s = hex_from (some 0) false (drop_prefix (drop_one b'+' (strip_of is_blank s)))

unfoldable pub parse_uuid : Text → Option ℕ
unfolding hex_from parse_hex
parse_uuid s =
    let hex =
      filter (λ c. not (nat_eq c b'-'))
        (strip_of is_brace (remove (codes "uuid:") (remove (codes "urn:") s))) in
    if nat_eq (length hex) 32 then parse_hex hex else none
