-- ===== src/Repository/Mitre.antt =====
-- backend/app/repositories/mitre_repository.py: the techniques that rules are mapped to.
use ai_soc.Base.{◌&&◌, String, List, any, filter, contains, ◌==◌, String-equality, Text-equality}
use ai_soc.Base.Text.{Text}
use ai_soc.Base.Sort.{sort_by}
use ai_soc.Correlation.Identity.{text_le}

pub record MitreTechnique : Type 0 where
  pub external_id : Text
  pub name : Text
  pub tactics : List Text
  pub description : Text

pub record RuleTechniqueMapping : Type 0 where
  pub rule_id : String
  pub technique_external_id : Text

-- The join gives a technique once, whatever the number of its rules.
unfoldable pub get_for_rules :
    List String → List RuleTechniqueMapping → List MitreTechnique → List MitreTechnique
get_for_rules rule_ids mappings techniques =
    sort_by (λ s t. text_le s.external_id t.external_id)
      (filter
        (λ t.
          any (λ m. m.technique_external_id == t.external_id && contains rule_ids m.rule_id)
            mappings)
        techniques)
