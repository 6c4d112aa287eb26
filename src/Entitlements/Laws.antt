-- ===== src/Entitlements/Laws.antt =====
-- What the decisions of src/billing_platform/services/entitlements.py guarantee.
use saas_billing_entitlement.Prelude.{
  ◌≡◌, subst, inl, inr, ◌≢◌, ◌↔◌, Bool, true, false, not, Option, none, some, String, arith,
  Bool-cases, if◌then◌else◌,
}
use saas_billing_entitlement.Prelude.Int.{ℤ, pos, ◌+ℤ◌, ◌-ℤ◌, ◌≤ℤ◌, ◌<ℤ◌, int_laws}
use saas_billing_entitlement.Prelude.Text.{str_eq, eq_iff}
use saas_billing_entitlement.Entitlements.Decide.{
  decide_feature, decide_within, decide_numeric_feature, effective_limit, exhausted_reason,
  exceeded_soft_reason, is_numeric, reached, remaining_of,
}

-- A quantity fits: there is no limit, or the limit is not reached and stays respected.
abbrev pub Fits : Option ℤ → ℤ → ℤ → Type 0
Fits none used quantity = Unit
Fits (some limit) used quantity = (used <ℤ limit) × (used +ℤ quantity ≤ℤ limit)

decide_within-hard_iff :
    (feature_type : String) (limit : Option ℤ) (used quantity : ℤ)
    → ((decide_within feature_type limit used "hard" quantity).allowed ≡ true)
      ↔ Fits limit used quantity
unfolding decide_within
decide_within-hard_iff feature_type none used quantity = ground arith
decide_within-hard_iff feature_type (some limit) used quantity = ground arith

numeric-ne-boolean : (t : String) → is_numeric t ≡ true → str_eq t "boolean" ≡ false
numeric-ne-boolean t h = elim (Bool-cases (str_eq t "boolean")) [
  | inl e ↦ cc (subst (λ s. is_numeric s ≡ true) ((eq_iff t "boolean").0 e) h)
  | inr e ↦ e
]

decide_feature-numeric :
    (t : String) (limit : Option ℤ) (used : ℤ) (enforcement : String) (quantity : ℤ)
    (seats : Option ℤ)
    → is_numeric t ≡ true
    → decide_feature t limit used enforcement quantity true seats
      ≡ decide_within t (effective_limit t limit seats) used enforcement quantity
unfolding decide_feature decide_numeric_feature
decide_feature-numeric t limit used enforcement quantity seats h = rw (numeric-ne-boolean t h, h)

-- An enabled quota, rate limit or seat feature under hard enforcement is allowed exactly when the
-- effective limit is absent, or it is not yet reached and the quantity does not pass it.
pub hard_enforcement_iff :
    (t : String) (limit : Option ℤ) (used quantity : ℤ) (seats : Option ℤ)
    → is_numeric t ≡ true
    → ((decide_feature t limit used "hard" quantity true seats).allowed ≡ true)
      ↔ Fits (effective_limit t limit seats) used quantity
hard_enforcement_iff t limit used quantity seats h =
    rw (decide_feature-numeric t limit used "hard" quantity seats h)
      (decide_within-hard_iff t (effective_limit t limit seats) used quantity)

decide_within-soft :
    (t : String) (limit : Option ℤ) (used : ℤ) (enforcement : String) (quantity : ℤ)
    → str_eq enforcement "hard" ≡ false
    → ((decide_within t limit used enforcement quantity).allowed ≡ true)
      × ((decide_within t limit used enforcement quantity).reason
          ≡ (if reached limit used then some (exceeded_soft_reason t) else none))
unfolding decide_within
decide_within-soft t limit used enforcement quantity h = ground arith

-- Under any other enforcement such a feature is always allowed, and it carries the soft reason
-- exactly when the effective limit is reached.
soft_enforcement_allows :
    (t : String) (limit : Option ℤ) (used : ℤ) (enforcement : String) (quantity : ℤ)
    (seats : Option ℤ)
    → is_numeric t ≡ true
    → enforcement ≢ "hard"
    → let d = decide_feature t limit used enforcement quantity true seats in
      (d.allowed ≡ true)
      × (d.reason ≡ (
          if reached (effective_limit t limit seats) used
          then some (exceeded_soft_reason t)
          else none))
soft_enforcement_allows t limit used enforcement quantity seats h ne =
    rw (decide_feature-numeric t limit used enforcement quantity seats h) (
      decide_within-soft t (effective_limit t limit seats) used enforcement quantity
        (ground (arith, eq_iff enforcement "hard")))

remaining-of_reached :
    (limit : Option ℤ) (used : ℤ)
    → reached limit used ≡ true
    → some (pos 0) ≡ remaining_of limit used
unfolding ◌-ℤ◌
remaining-of_reached none used h = cc
remaining-of_reached (some limit) used h = ground arith

decide_within-remaining :
    (t : String) (limit : Option ℤ) (used : ℤ) (enforcement : String) (quantity : ℤ)
    → let d = decide_within t limit used enforcement quantity in
      d.remaining ≡ remaining_of d.limit used
unfolding decide_within
decide_within-remaining t limit used enforcement quantity =
    ground (arith, remaining-of_reached limit used)

-- Whatever the branch, a feature that is not boolean reports as remaining what is left below the
-- limit that it reports, and never less than zero; a boolean one reports neither.
reported_remaining :
    (t : String) (limit : Option ℤ) (used : ℤ) (enforcement : String) (quantity : ℤ)
    (is_enabled : Bool) (seats : Option ℤ)
    → let d = decide_feature t limit used enforcement quantity is_enabled seats in
      d.remaining ≡ (if str_eq t "boolean" then none else remaining_of d.limit used)
unfolding decide_feature decide_numeric_feature
reported_remaining t limit used enforcement quantity is_enabled seats =
    ground
      (arith, decide_within-remaining t (effective_limit t limit seats) used enforcement quantity)

decide_within-denied :
    (t : String) (limit : Option ℤ) (used : ℤ) (enforcement : String) (quantity : ℤ)
    → let d = decide_within t limit used enforcement quantity in
      d.allowed ≡ false → d.reason ≡ some (exhausted_reason t)
unfolding decide_within
decide_within-denied t limit used enforcement quantity h = ground arith

-- The reasons with which `decide_feature` denies.
abbrev pub denial : String → Bool → String
denial t is_enabled =
    if not is_enabled
    then "feature_disabled"
    else if is_numeric t
    then exhausted_reason t
    else "feature_misconfigured"

-- A denial always carries its reason: the feature is disabled, else its numeric limit is exhausted,
-- else its type is unknown. A boolean feature is denied only when it is disabled.
denial_reason :
    (t : String) (limit : Option ℤ) (used : ℤ) (enforcement : String) (quantity : ℤ)
    (is_enabled : Bool) (seats : Option ℤ)
    → let d = decide_feature t limit used enforcement quantity is_enabled seats in
      d.allowed ≡ false
      → (d.reason ≡ some (denial t is_enabled)) × (str_eq t "boolean" ≡ true → is_enabled ≡ false)
unfolding decide_feature decide_numeric_feature
denial_reason t limit used enforcement quantity is_enabled seats h = ground (
  arith,
  numeric-ne-boolean t,
  decide_within-denied t (effective_limit t limit seats) used enforcement quantity,
)

-- Allowing is downward closed under hard enforcement: if a request is allowed, so is one that asks
-- for no more when no more is in use.
hard_allowed_down :
    (t : String) (limit : Option ℤ) (used used' quantity quantity' : ℤ) (seats : Option ℤ)
    → is_numeric t ≡ true
    → used' ≤ℤ used
    → quantity' ≤ℤ quantity
    → (decide_feature t limit used "hard" quantity true seats).allowed ≡ true
    → (decide_feature t limit used' "hard" quantity' true seats).allowed ≡ true
hard_allowed_down t limit used used' quantity quantity' seats h lu lq allowed =
    (hard_enforcement_iff t limit used' quantity' seats h).1 (
      Fits_down (effective_limit t limit seats)
        ((hard_enforcement_iff t limit used quantity seats h).0 allowed))
  where
    Fits_down : (l : Option ℤ) → Fits l used quantity → Fits l used' quantity'
    Fits_down none f = tt
    Fits_down (some l) f = omega (int_laws, lu, lq, f)
