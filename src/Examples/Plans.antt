-- ===== src/Examples/Plans.antt =====
-- Campaigns and fan-out targets.
use honryu.Base.{◌≡◌, refl, ◌↔◌, List, [], ◌∷◌, none, ok}
use honryu.Base.Ints.{ℤ, pos}
use honryu.Base.Text.{Text}
use honryu.Campaign.{Campaign, Service, validate, validate_services, seen_before}
use honryu.Execution.{normalize_fan_out_targets}
use honryu.Execution.Targets
use honryu.Execution.Targets.{named, normalize_fan_out_targets-Apart}

abbrev service : ℤ → ℤ → Service
service project execution = record { project_id = project; execution_id = execution }

abbrev readiness : Campaign
readiness = record {
  id = pos 1;
  name = "black friday";
  tenant_id = pos 1;
  window = record { start = pos 0; end = pos 100 };
  services = service (pos 1) (pos 11) ∷ service (pos 2) (pos 12) ∷ [];
  aborted_at = none;
}

valid_campaign : validate readiness ≡ none
unfolding validate validate_services seen_before
valid_campaign = refl

-- " eu", an empty target and "us".
abbrev targets : List Text
targets = (32 ∷ 101 ∷ 117 ∷ []) ∷ [] ∷ (117 ∷ 115 ∷ []) ∷ []

abbrev names : List Text
names = (101 ∷ 117 ∷ []) ∷ (117 ∷ 115 ∷ []) ∷ []

normalize_fan_out_targets-Apart_example :
    (normalize_fan_out_targets targets ≡ ok names)
    ↔ (Targets.Apart [] (named targets) × (names ≡ named targets))
normalize_fan_out_targets-Apart_example = normalize_fan_out_targets-Apart targets names
