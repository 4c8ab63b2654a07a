-- ===== src/Response/AuditChain.antt =====
-- backend/app/response/audit_chain.py: records linked by hashes, and their verification.
-- SHA-256 and `json.dumps` are parameters, as functions on texts.
pub mod Tamper
use ai_soc.Base.{
  ℕ, ◌+◌, Bool, true, false, not, ◌||◌, ◌&&◌, String, List, [], ◌∷◌, ◌++◌, Option, none, some,
  filter, ◌==◌, nat_eq, String-equality, Text-equality, if◌then◌else◌,
}
use ai_soc.Base.Text.{Text, codes}

-- A value that `json.dumps` takes: the entries of an object and the elements of an array end in
-- `none_left` and `no_more`.
mutual
  pub data Json : Type 0 where
    string : Text → Json
    integer : ℕ → Json
    boolean : Bool → Json
    object : Members → Json
    array : Elements → Json
    null : Json

  pub data Members : Type 0 where
    member : (key : String) (value : Json) (others : Members) → Members
    none_left : Members

  pub data Elements : Type 0 where
    element : (value : Json) (others : Elements) → Elements
    no_more : Elements

-- A record is a dictionary.
abbrev pub Record : Type 0
Record = List (String × Json)

-- `record.get(key)`
unfoldable pub get : String → Record → Option Json
get k [] = none
get k ((j, v) ∷ r) = let rest = get k r in if j == k then some v else rest

abbrev is_empty : Text → Bool
is_empty [] = true
is_empty (c ∷ s) = false

-- A value that is a text and not empty. Whatever else `get` gives is refused by the same line or,
-- if it is no text, by the comparison with a hash that follows.
abbrev pub falsy : Option Json → Bool
falsy none = true
falsy (some null) = true
falsy (some (boolean b)) = not b
falsy (some (integer n)) = nat_eq n 0
falsy (some (string s)) = is_empty s
falsy (some (array no_more)) = true
falsy (some (array (element v vs))) = false
falsy (some (object none_left)) = true
falsy (some (object (member k v fs))) = false

-- `value == text`
abbrev pub is_text : Option Json → Text → Bool
is_text (some (string s)) t = s == t
is_text _ t = false

abbrev pub text_of : Option Json → Text
text_of (some (string s)) = s
text_of _ = []

-- The record without `record_hash` and `id`.
unfoldable pub payload : Record → Record
payload r = filter (λ kv. not (kv.0 == "record_hash" || kv.0 == "id")) r

-- The `id` of a record, or its index where it has none.
pub data Label : Type 0 where
  named : Json → Label
  index : ℕ → Label

abbrev pub label : Option Json → ℕ → Label
label (some v) i = named v
label none i = index i

pub data ChainError : Type 0 where
  missing_pointers : Label → ChainError
  broken_linkage : Label → Text → Option Json → ChainError
  hash_mismatch : Label → ChainError

abbrev first_error : Option ChainError → Option ChainError → Option ChainError
first_error (some e) rest = some e
first_error none rest = rest

abbrev result_of : Option ChainError → Bool × Option ChainError
result_of none = (true, none)
result_of (some e) = (false, some e)

module _ (sha256 : Text → Text) (dumps : Record → Text) where
  unfoldable pub canonical_json : Record → Text
  canonical_json r = dumps r

  unfoldable pub compute_entry_hash : Text → Record → Text
  unfolding canonical_json
  compute_entry_hash prev_hash entry = sha256 (prev_hash ++ canonical_json entry)

  -- The checks of one record: an error, or none.
  unfoldable pub check_record : ℕ → Text → Record → Option ChainError
  check_record i current r =
      let prev_hash = get "prev_hash" r in
      let record_hash = get "record_hash" r in
      let name = label (get "id" r) i in
      if falsy prev_hash || falsy record_hash
      then some (missing_pointers name)
      else if not (is_text prev_hash current)
      then some (broken_linkage name current prev_hash)
      else if not (is_text record_hash (compute_entry_hash current (payload r)))
      then some (hash_mismatch name)
      else none

  -- The loop: the next record is linked to the hash of this one, which the checks found to be a text.
  unfoldable pub verify_from : ℕ → Text → List Record → Option ChainError
  verify_from i current [] = none
  verify_from i current (r ∷ rs) =
      let rest = verify_from (i + 1) (text_of (get "record_hash" r)) rs in
      first_error (check_record i current r) rest

  unfoldable pub verify_chain : List Record → Text → Bool × Option ChainError
  unfolding verify_from
  verify_chain records initial_prev_hash = result_of (verify_from 0 initial_prev_hash records)
