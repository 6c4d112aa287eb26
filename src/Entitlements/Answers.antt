-- ===== src/Entitlements/Answers.antt =====
-- Who has access, and what a whole request is answered:
-- src/billing_platform/services/entitlements.py and src/billing_platform/services/grace.py.
use saas_billing_entitlement.Prelude.{
  ℕ, ◌+◌, ◌<◌, ◌≡◌, refl, subst, inl, inr, ◌≢◌, ◌↔◌, Bool, true, false, ◌||◌, Option, none, some,
  String, List, [], ◌∷◌, arith, Bool-cases,
}
use saas_billing_entitlement.Prelude.Int.{ℤ}
use saas_billing_entitlement.Prelude.Text.{str_eq}
use saas_billing_entitlement.Lifecycle.{Status, trialing, active, past_due}
use saas_billing_entitlement.Entitlements.Decide.{
  decide_feature, effective_limit, is_numeric, decide_access, days, is_grace_active,
}
use saas_billing_entitlement.Entitlements.Checks.{
  Check, FeatureData, Snapshot, EvaluateResult, get_feature, evaluate_feature, evaluate_checks,
}
use saas_billing_entitlement.Entitlements.Laws.{Fits, hard_enforcement_iff}

-- Who may use the product at all.
abbrev pub HasAccess : Status → ℕ → Option ℕ → ℕ → Type 0
HasAccess active grace_period_days entered_at now = Unit
HasAccess trialing grace_period_days entered_at now = Unit
HasAccess past_due grace_period_days none now = ⊥
HasAccess past_due grace_period_days (some t) now = now < t + days grace_period_days
HasAccess _ grace_period_days entered_at now = ⊥

-- Access is granted exactly to active and trialing subscriptions, and to overdue ones before the end
-- of the grace window that began when they became overdue; the enforcement mode plays no part.
pub access_iff :
    (status : Status) (grace_period_days : ℕ) (entered_at : Option ℕ) (now : ℕ)
    (enforcement : String)
    → ((decide_access status
          (is_grace_active status grace_period_days entered_at now)
          enforcement).allowed
        ≡ true)
      ↔ HasAccess status grace_period_days entered_at now
unfolding decide_access is_grace_active
access_iff past_due g none now enforcement = ground arith
access_iff past_due g (some t) now enforcement = ground arith
access_iff _ g entered_at now enforcement = ground arith

-- Results stand in the order of the checks, each related to its check.
abbrev pub Answers : (Check → EvaluateResult → Type 0) → List Check → List EvaluateResult → Type 0
Answers P [] [] = Unit
Answers P (c ∷ cs) (r ∷ rs) = P c r × Answers P cs rs
Answers P _ _ = ⊥

evaluate_checks-Answers :
    (P : Check → EvaluateResult → Type 0) (s : Snapshot)
    → ((c : Check)
        → P c (
            evaluate_feature s.subscription_status s.grace_active c
              (get_feature c.feature_key s.features)))
    → (checks : List Check) → Answers P checks (evaluate_checks s checks)
unfolding evaluate_checks
evaluate_checks-Answers P s each [] = tt
evaluate_checks-Answers P s each (c ∷ cs) = (each c, evaluate_checks-Answers P s each cs)

-- What an allowed answer rests on.
pub record Granted (s : Snapshot) (c : Check) (f : FeatureData) : Type 0 where
  pub in_plan : get_feature c.feature_key s.features ≡ some f
  pub has_access :
      (decide_access s.subscription_status s.grace_active f.enforcement_mode).allowed ≡ true
  pub enabled : f.is_enabled ≡ true
  pub known_type : str_eq f.feature_type "boolean" || is_numeric f.feature_type ≡ true
  pub fits :
      is_numeric f.feature_type ≡ true
      → f.enforcement_mode ≡ "hard"
      → Fits (effective_limit f.feature_type f.limit f.seats) f.used c.quantity

abbrev pub IsSound : Snapshot → Check → EvaluateResult → Type 0
IsSound s c r =
    (r.feature_key ≡ c.feature_key) × (r.allowed ≡ true → (f : FeatureData) × Granted s c f)

enabled_of_allowed :
    (t : String) (limit : Option ℤ) (used : ℤ) (enforcement : String) (quantity : ℤ)
    (is_enabled : Bool) (seats : Option ℤ)
    → (decide_feature t limit used enforcement quantity is_enabled seats).allowed ≡ true
    → (is_enabled ≡ true) × (str_eq t "boolean" || is_numeric t ≡ true)
unfolding decide_feature
enabled_of_allowed t limit used enforcement quantity is_enabled seats h = ground arith

Fits-of_allowed :
    (t : String) (limit : Option ℤ) (used : ℤ) (enforcement : String) (quantity : ℤ)
    (is_enabled : Bool) (seats : Option ℤ)
    → (decide_feature t limit used enforcement quantity is_enabled seats).allowed ≡ true
    → is_enabled ≡ true
    → is_numeric t ≡ true
    → enforcement ≡ "hard"
    → Fits (effective_limit t limit seats) used quantity
Fits-of_allowed t limit used enforcement quantity is_enabled seats h e n hard =
    (hard_enforcement_iff t limit used quantity seats n).0 (
      subst (λ m. (decide_feature t limit used m quantity true seats).allowed ≡ true) hard
        (subst (λ b. (decide_feature t limit used enforcement quantity b seats).allowed ≡ true) e
          h))

evaluate_feature-IsSound :
    (s : Snapshot) (c : Check) (o : Option FeatureData)
    → get_feature c.feature_key s.features ≡ o
    → IsSound s c (evaluate_feature s.subscription_status s.grace_active c o)
unfolding evaluate_feature
evaluate_feature-IsSound s c none e = (refl, λ h. cc)
evaluate_feature-IsSound s c (some f) e =
    elim (Bool-cases
      (decide_access s.subscription_status s.grace_active f.enforcement_mode).allowed) [
        | inl yes_access ↦ rw yes_access (
          refl,
          λ h. (
            f,
            let ok =
                  enabled_of_allowed f.feature_type f.limit f.used f.enforcement_mode c.quantity
                    f.is_enabled f.seats h in
                record {
                  in_plan = e;
                  has_access = yes_access;
                  enabled = ok.0;
                  known_type = ok.1;
                  fits =
                      Fits-of_allowed f.feature_type f.limit f.used f.enforcement_mode c.quantity
                        f.is_enabled f.seats h ok.0;
                },
          ),
        )
        | inr no_access ↦ rw no_access (refl, λ h. cc)
      ]

-- The answer has one result for each check, in order and under its key, and a check is allowed only
-- if its feature is in the plan, the subscription has access, the feature is enabled and of a known
-- type, and, where a numeric feature is enforced hard, the quantity fits the effective limit.
pub evaluate_checks-IsSound :
    (s : Snapshot) (checks : List Check) → Answers (IsSound s) checks (evaluate_checks s checks)
evaluate_checks-IsSound s =
    evaluate_checks-Answers (IsSound s) s
      (λ c. evaluate_feature-IsSound s c (get_feature c.feature_key s.features) refl)

abbrev pub IsRefused : Check → EvaluateResult → Type 0
IsRefused c r = (r.feature_key ≡ c.feature_key) × (r.allowed ≡ false) × (r.reason ≢ none)

evaluate_feature-IsRefused :
    (status : Status) (grace_active : Bool) (c : Check) (o : Option FeatureData)
    → ((mode : String) → (decide_access status grace_active mode).allowed ≡ false)
    → IsRefused c (evaluate_feature status grace_active c o)
unfolding evaluate_feature
evaluate_feature-IsRefused status g c none h = (refl, refl, λ e. cc)
evaluate_feature-IsRefused status g c (some f) h = rw (h f.enforcement_mode) (refl, refl, λ e. cc)

no_access :
    (status : Status) (mode : String)
    → status ≢ active
    → status ≢ trialing
    → (decide_access status false mode).allowed ≡ false
unfolding decide_access
no_access status mode na nt = ground arith

-- When the subscription is neither active nor trialing and no grace is active, every check of the
-- request is refused with a reason, whatever the plan and the usage.
pub revoked_refuses_all :
    (s : Snapshot) (checks : List Check)
    → s.subscription_status ≢ active
    → s.subscription_status ≢ trialing
    → s.grace_active ≡ false
    → Answers IsRefused checks (evaluate_checks s checks)
revoked_refuses_all s checks na nt ng =
    evaluate_checks-Answers IsRefused s
      (λ c.
        evaluate_feature-IsRefused s.subscription_status s.grace_active c
          (get_feature c.feature_key s.features)
          (λ mode. rw ng (no_access s.subscription_status mode na nt)))
      checks
