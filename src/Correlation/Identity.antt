-- ===== src/Correlation/Identity.antt =====
-- backend/app/correlation/identity.py: the key of an incident and the keys of the locks, made from a
-- normalized user name and source address.
pub mod Keys
use ai_soc.Base.{
  ℕ, ◌+◌, Bool, true, false, List, [], ◌∷◌, ◌++◌, Option, none, some, length, leb, ltb, nat_eq,
  if◌then◌else◌,
}
use ai_soc.Base.Text.{Text, codes, strip, lower}
use ai_soc.Base.Decimal.{decimal}

abbrev pub or_empty : Option Text → Text
or_empty none = []
or_empty (some s) = s

-- `(value or "").strip().lower()`
unfoldable pub normalized : Option Text → Text
normalized value = lower (strip (or_empty value))

-- `{len(text)}:{text}`
unfoldable pub sized : Text → Text
sized s = decimal (length s) ++ b':' ∷ s

unfoldable pub build_correlation_key : Option Text → Option Text → Text
build_correlation_key username source_ip =
    codes "credential_compromise:u:"
    ++ (sized (normalized username) ++ (codes "|s:" ++ sized (normalized source_ip)))

-- The order of Python's `sorted` on texts: by code points.
unfoldable pub text_le : Text → Text → Bool
text_le [] t = true
text_le (c ∷ s) [] = false
text_le (c ∷ s) (d ∷ t) =
    let rest = text_le s t in if ltb c d then true else if nat_eq c d then rest else false

abbrev sorted_pair : Text → Text → List Text
sorted_pair s t = if text_le s t then s ∷ t ∷ [] else t ∷ s ∷ []

-- `sorted` on a list of at most two texts.
abbrev sorted : List Text → List Text → List Text
sorted (s ∷ _) (t ∷ _) = sorted_pair s t
sorted [] ts = ts
sorted ss [] = ss

abbrev lock_key : Text → Text → List Text
lock_key kind [] = []
lock_key kind (c ∷ s) = (kind ++ sized (c ∷ s)) ∷ []

unfoldable pub build_identity_lock_keys : Option Text → Option Text → List Text
build_identity_lock_keys username source_ip =
    sorted (lock_key (codes "credential_compromise:username:") (normalized username))
      (lock_key (codes "credential_compromise:source_ip:") (normalized source_ip))
