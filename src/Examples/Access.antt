-- ===== src/Examples/Access.antt =====
-- The theorems on the lifecycle and on entitlement decisions, at concrete requests.
use saas_billing_entitlement.Prelude.{
  ◌⊎◌, ◌≡◌, refl, ◌↔◌, ◌≢◌, true, false, none, some, String, List, [], ◌∷◌,
}
use saas_billing_entitlement.Prelude.Int.{pos}
use saas_billing_entitlement.Prelude.Text.{eq_iff}
use saas_billing_entitlement.Lifecycle.{Status, active, past_due, unpaid, transition}
use saas_billing_entitlement.Lifecycle.Reach.{Drawn, Undrawn, transition_iff_Drawn}
use saas_billing_entitlement.Entitlements.Decide.{
  decide_feature, decide_access, effective_limit, is_grace_active,
}
use saas_billing_entitlement.Entitlements.Checks.{Check, FeatureData, Snapshot, evaluate_checks}
use saas_billing_entitlement.Entitlements.Laws.{Fits, hard_enforcement_iff}
use saas_billing_entitlement.Entitlements.Answers.{
  HasAccess, Answers, IsSound, IsRefused, access_iff, evaluate_checks-IsSound, revoked_refuses_all,
}

transition_iff_Drawn_example :
    (transition past_due unpaid ≡ some unpaid)
    ↔ ((Drawn past_due unpaid ⊎ Undrawn past_due unpaid) × (unpaid ≡ unpaid))
transition_iff_Drawn_example = transition_iff_Drawn past_due unpaid unpaid

hard_enforcement_iff_example :
    ((decide_feature "quota" (some (pos 10)) (pos 7) "hard" (pos 3) true none).allowed ≡ true)
    ↔ Fits (effective_limit "quota" (some (pos 10)) none) (pos 7) (pos 3)
hard_enforcement_iff_example =
    hard_enforcement_iff "quota" (some (pos 10)) (pos 7) (pos 3) none refl

soft_is_not_hard : ◌≢◌ {A = String} "soft" "hard"
soft_is_not_hard h = let same : false ≡ true = (eq_iff "soft" "hard").1 h in cc

access_iff_example :
    ((decide_access past_due (is_grace_active past_due 7 (some 1000) 2000) "hard").allowed ≡ true)
    ↔ HasAccess past_due 7 (some 1000) 2000
access_iff_example = access_iff past_due 7 (some 1000) 2000 "hard"

abbrev calls : FeatureData
calls = record {
  feature_type = "quota";
  limit = some (pos 10);
  used = pos 7;
  seats = none;
  is_enabled = true;
  enforcement_mode = "hard";
}

abbrev snapshot : Status → Snapshot
snapshot status = record {
  subscription_status = status;
  grace_active = false;
  features = ("api_calls", calls) ∷ [];
}

abbrev checks : List Check
checks =
    record { feature_key = "api_calls"; quantity = pos 3 }
    ∷ record { feature_key = "exports"; quantity = pos 1 }
    ∷ []

evaluate_checks-IsSound_example :
    Answers (IsSound (snapshot active)) checks (evaluate_checks (snapshot active) checks)
evaluate_checks-IsSound_example = evaluate_checks-IsSound (snapshot active) checks

revoked_refuses_all_example : Answers IsRefused checks (evaluate_checks (snapshot unpaid) checks)
revoked_refuses_all_example = revoked_refuses_all (snapshot unpaid) checks (λ h. cc) (λ h. cc) refl
