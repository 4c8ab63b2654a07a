-- ===== src/Repository/Incidents/Rows.antt =====
-- backend/app/repositories/incident_repository.py: which rows the table of incidents holds.
use ai_soc.Base.{
  ℕ, ◌≡◌, refl, sym, ap, ◌∙◌, inl, inr, true, List, [], ◌∷◌, Option, some, IsIn, IsIn-filter, ◌==◌,
  ==_iff, ℕ-equality, String-equality, Text-equality,
}
use ai_soc.Base.Text.{Text}
use ai_soc.Base.Sort.{IsIn-sort_by}
use ai_soc.Models.{Incident}
use ai_soc.Repository.Incidents.{
  create, update, later_incident, first_row, find_open_related_incident,
}

first_row-IsIn : (i : Incident) (rows : List Incident) → first_row rows ≡ some i → IsIn i rows
first_row-IsIn i [] e = absurd (cc)
first_row-IsIn i (j ∷ rows) e = inl (cc)

-- A found incident is a row.
pub find_open_related_incident-IsIn :
    (key : Text) (username source_ip : Option Text) (since until : ℕ) (incidents : List Incident)
    (i : Incident)
    → find_open_related_incident key username source_ip since until incidents ≡ some i
    → IsIn i incidents
unfolding find_open_related_incident
find_open_related_incident-IsIn key username source_ip since until incidents i e =
    (IsIn-filter _ i incidents (IsIn-sort_by later_incident i _ (first_row-IsIn i _ e))).0

pub create-IsIn : (i : Incident) (incidents : List Incident) → IsIn i (create i incidents)
unfolding create
create-IsIn i [] = inl refl
create-IsIn i (j ∷ incidents) = inr (create-IsIn i incidents)

-- A written row is there if a row had its identifier.
pub update-IsIn :
    (i i' : Incident) (incidents : List Incident)
    → i'.id ≡ i.id
    → IsIn i incidents
    → IsIn i' (update i' incidents)
unfolding update
update-IsIn i i' [] e m = m
update-IsIn i i' (j ∷ incidents) e (inr m) = inr (update-IsIn i i' incidents e m)
update-IsIn i i' (j ∷ incidents) e (inl same) = inl (rw (same_id) refl)
  where
    same_id : (j.id == i'.id) ≡ true
    same_id = (==_iff j.id i'.id).1 (ap (λ (x : Incident). x.id) same ∙ sym e)
