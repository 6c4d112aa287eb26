-- ===== src/Lifecycle.antt =====
-- The subscription state machine: src/billing_platform/domain/state_machines/subscription.py, over
-- the statuses of src/billing_platform/domain/models/subscription.py.
pub mod Reach
use saas_billing_entitlement.Prelude.{
  Bool, false, ◌||◌, Option, none, some, List, [], ◌∷◌, if◌then◌else◌, any, String,
}

pub data Status : Type 0 where
  trialing active past_due canceled unpaid incomplete : Status

-- The enum's `value`.
abbrev pub status_value : Status → String
status_value trialing = "trialing"
status_value active = "active"
status_value past_due = "past_due"
status_value canceled = "canceled"
status_value unpaid = "unpaid"
status_value incomplete = "incomplete"

-- `==` on the enum.
abbrev pub same_status : Status → Status → Bool
same_status trialing trialing = Bool.true
same_status active active = Bool.true
same_status past_due past_due = Bool.true
same_status canceled canceled = Bool.true
same_status unpaid unpaid = Bool.true
same_status incomplete incomplete = Bool.true
same_status _ _ = false

-- The table `ALLOWED_TRANSITIONS`; each set is a list.
unfoldable pub allowed_transitions : Status → List Status
allowed_transitions incomplete = active ∷ canceled ∷ []
allowed_transitions trialing = active ∷ canceled ∷ []
allowed_transitions active = canceled ∷ past_due ∷ []
allowed_transitions past_due = active ∷ unpaid ∷ canceled ∷ []
allowed_transitions canceled = []
allowed_transitions unpaid = []

-- `transition`: the new status, or `none` for `IllegalTransition`.
unfoldable pub transition : Status → Status → Option Status
unfolding allowed_transitions
transition current new =
    if any (same_status new) (allowed_transitions current) then some new else none
