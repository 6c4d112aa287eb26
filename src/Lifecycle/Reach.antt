-- ===== src/Lifecycle/Reach.antt =====
-- Sequences of status changes, each one made by `transition`
-- (src/billing_platform/domain/state_machines/subscription.py).
use saas_billing_entitlement.Prelude.{
  ◌≡◌, refl, subst, ◌⊎◌, inl, inr, ◌↔◌, ap, sym, ◌∙◌, some, arith,
}
use saas_billing_entitlement.Lifecycle.{
  Status, trialing, active, past_due, canceled, unpaid, incomplete, transition,
}

-- The arrows of the diagram in spec.md, appendix A.
pub data Drawn : Status → Status → Type 0 where
  pay_first : Drawn incomplete active
  convert : Drawn trialing active
  cancel_active : Drawn active canceled
  miss_payment : Drawn active past_due
  give_up : Drawn past_due unpaid

-- The ways out of a status before `active`, and out of `past_due`, that it does not have.
pub data Undrawn : Status → Status → Type 0 where
  abandon : Undrawn incomplete canceled
  cancel_trial : Undrawn trialing canceled
  recover : Undrawn past_due active
  cancel_overdue : Undrawn past_due canceled

-- Every list of statuses through which `transition` leads.
pub data Run (s : Status) : Status → Type 0 where
  here : Run s s
  next : {t u : Status} → Run s t → transition t u ≡ some u → Run s u

abbrev pub IsTerminal : Status → Type 0
IsTerminal s = (s ≡ canceled) ⊎ (s ≡ unpaid)

transition-of-Drawn : {s t : Status} → Drawn s t → transition s t ≡ some t
unfolding transition
transition-of-Drawn pay_first = refl
transition-of-Drawn convert = refl
transition-of-Drawn cancel_active = refl
transition-of-Drawn miss_payment = refl
transition-of-Drawn give_up = refl

transition-of-Undrawn : {s t : Status} → Undrawn s t → transition s t ≡ some t
unfolding transition
transition-of-Undrawn abandon = refl
transition-of-Undrawn cancel_trial = refl
transition-of-Undrawn recover = refl
transition-of-Undrawn cancel_overdue = refl

-- What `transition` accepts is an arrow or one of the others; `r` is its result.
arrow-of-transition :
    (s t r : Status) → transition s t ≡ some r → (Drawn s t ⊎ Undrawn s t) × (r ≡ t)
unfolding transition
arrow-of-transition incomplete active r h = (inl pay_first, ground arith)
arrow-of-transition incomplete canceled r h = (inr abandon, ground arith)
arrow-of-transition trialing active r h = (inl convert, ground arith)
arrow-of-transition trialing canceled r h = (inr cancel_trial, ground arith)
arrow-of-transition active canceled r h = (inl cancel_active, ground arith)
arrow-of-transition active past_due r h = (inl miss_payment, ground arith)
arrow-of-transition past_due active r h = (inr recover, ground arith)
arrow-of-transition past_due unpaid r h = (inl give_up, ground arith)
arrow-of-transition past_due canceled r h = (inr cancel_overdue, ground arith)
arrow-of-transition _ _ r h = cc

transition-of-arrow : (s t : Status) → Drawn s t ⊎ Undrawn s t → transition s t ≡ some t
transition-of-arrow s t (inl d) = transition-of-Drawn d
transition-of-arrow s t (inr u) = transition-of-Undrawn u

-- `transition` returns a status exactly where the diagram in spec.md, appendix A, has an arrow from the
-- current status to the new one, or where the change is one of four that the diagram lacks: from
-- incomplete, from trialing and from past_due to canceled, and from past_due to active. What it returns
-- is the new status.
pub transition_iff_Drawn :
    (s t r : Status) → (transition s t ≡ some r) ↔ ((Drawn s t ⊎ Undrawn s t) × (r ≡ t))
transition_iff_Drawn s t r =
    (arrow-of-transition s t r, λ e. transition-of-arrow s t e.0 ∙ ap some (sym e.1))

terminal_closed : (s t : Status) → IsTerminal s → ¬ (transition s t ≡ some t)
unfolding transition
terminal_closed s t h e = ground arith

-- Once canceled or unpaid, a subscription keeps that status through any sequence of transitions.
Run-of-terminal : {s t : Status} → IsTerminal s → Run s t → t ≡ s
Run-of-terminal h here = refl
Run-of-terminal h (next {t} {u} r e) =
    absurd (terminal_closed t u (subst IsTerminal (sym (Run-of-terminal h r)) h) e)

-- `unpaid` is entered only from `past_due`, and `past_due` only from `active`.
pub entry_points :
    (s t : Status)
    → transition s t ≡ some t
    → (t ≡ unpaid → s ≡ past_due) × (t ≡ past_due → s ≡ active)
unfolding transition
entry_points s t h = ground arith
