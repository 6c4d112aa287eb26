-- ===== src/Dunning/Campaigns.antt =====
-- Starting, pausing and resuming campaigns: src/billing_platform/services/dunning.py.
use saas_billing_entitlement.Prelude.{
  ℕ, suc, ◌+◌, ◌==◌, Bool, true, false, not, ◌&&◌, Option, none, some, String, List, [], ◌∷◌, ◌++◌,
  if◌then◌else◌, find_row, update_rows,
}
use saas_billing_entitlement.Prelude.Text.{str_eq, str_ℕ, ◌⧺◌}
use saas_billing_entitlement.Entitlements.Decide.{days, compute_grace_until}
use saas_billing_entitlement.Db.Json.{Json, str, arr, obj, Items, nil, cons, field, end, Dict, get}
use saas_billing_entitlement.Db.Rows.{
  Subscription, Plan, DunningCampaign, DunningAttempt, CampaignStatus, running, paused, completed,
  exhausted, Tables,
}
use saas_billing_entitlement.Db.Session.{
  value_error, integrity_error, ok, Exec, pure, raise, gets, select, or_raise, modify, new_uuid,
  now_utc, ◌>>=◌, ◌>>◌,
}
use saas_billing_entitlement.Subscriptions.{plan_by_id}

-- `schedule_attempt_offsets_days`
abbrev pub schedule_attempt_offsets_days : List ℕ
schedule_attempt_offsets_days = 1 ∷ 3 ∷ 7 ∷ []

abbrev pub is_status : CampaignStatus → CampaignStatus → Bool
is_status running running = true
is_status paused paused = true
is_status completed completed = true
is_status exhausted exhausted = true
is_status _ _ = false

abbrev pub campaign_has_key : String → DunningCampaign → Bool
campaign_has_key key c = str_eq c.idempotency_key key

-- `_find_campaign_by_idempotency_key`
abbrev pub campaign_by_key : String → List DunningCampaign → Option DunningCampaign
campaign_by_key key = find_row (campaign_has_key key)

abbrev pub is_active_for : ℕ → DunningCampaign → Bool
is_active_for sub c = c.subscription_id == sub && is_status c.status running

-- `_find_active_campaign_for_subscription`
abbrev pub active_campaign : ℕ → List DunningCampaign → Option DunningCampaign
active_campaign sub = find_row (is_active_for sub)

abbrev pub campaign_has_id : String → DunningCampaign → Bool
campaign_has_id id c = str_eq c.id id

-- `_get_campaign_by_id`
abbrev pub get_campaign_by_id : String → ℕ → List DunningCampaign → Option DunningCampaign
get_campaign_by_id id org = find_row (λ c. str_eq c.id id && c.organization_id == org)

-- A list at a key of a dictionary, and a key set to a value.
abbrev items_of : Option Json → Items
items_of (some (arr items)) = items
items_of _ = nil

unfoldable pub snoc : Items → Json → Items
snoc nil v = cons v nil
snoc (cons w rest) v = cons w (snoc rest v)

unfoldable pub set_key : String → Json → Dict → Dict
set_key key v [] = (key, v) ∷ []
set_key key v ((k, w) ∷ rest) =
    let later = set_key key v rest in if str_eq key k then (k, v) ∷ rest else (k, w) ∷ later

-- `_append_campaign_audit`, on the policy snapshot.
unfoldable pub append_audit : Dict → String → String → String → Dict
append_audit snapshot action actor at =
    set_key "operator_history"
      (arr (
        snoc (items_of (get "operator_history" snapshot)) (
          obj (
            field "action" (str action)
              (field "actor_key_id" (str actor) (field "at" (str at) end))))))
      snapshot

abbrev pub set_campaigns : (List DunningCampaign → List DunningCampaign) → Tables → Tables
set_campaigns f t = record t { campaigns = f t.campaigns }

-- A loaded campaign with its new values is flushed.
unfoldable pub save_campaign : DunningCampaign → Exec (Unit {0})
save_campaign c = modify (set_campaigns (update_rows (campaign_has_id c.id) (λ _. c)))

abbrev new_attempt : DunningCampaign → String → ℕ → ℕ → DunningAttempt
new_attempt c id attempt_no day_offset = record {
  id = id;
  campaign_id = c.id;
  attempt_no = attempt_no;
  scheduled_at = c.started_at + days day_offset;
  executed_at = none;
  result = none;
  external_charge_id = none;
  idempotency_key = c.id ⧺ (":" ⧺ str_ℕ attempt_no);
}

-- The loop of `schedule_campaign_attempts`, from an attempt number on.
unfoldable pub schedule_from : DunningCampaign → ℕ → List ℕ → Exec (Unit {0})
schedule_from c attempt_no [] = pure tt
schedule_from c attempt_no (day_offset ∷ rest) = do
  id ← new_uuid
  modify (λ t. record t { attempts = t.attempts ++ new_attempt c id attempt_no day_offset ∷ [] })
  schedule_from c (suc attempt_no) rest

unfoldable pub schedule_campaign_attempts : DunningCampaign → Exec (Unit {0})
unfolding schedule_from
schedule_campaign_attempts c = schedule_from c 1 schedule_attempt_offsets_days

-- Other transactions commit these campaigns at this point.
unfoldable pub others_commit : List DunningCampaign → Exec (Unit {0})
others_commit rivals s = (
  ok tt,
  record s {
    tables = record s.tables { campaigns = s.tables.campaigns ++ rivals };
    committed = record s.committed { campaigns = s.committed.campaigns ++ rivals };
  },
)

-- The keyword arguments of `start_campaign`.
pub record Start : Type 0 where
  pub subscription_id : ℕ
  pub organization_id : ℕ
  pub idempotency_key : String
  pub started_at : Option ℕ

-- The subscription with its plan, of the organization.
abbrev plan_beside : Option Subscription → Tables → Option (Subscription × Plan)
plan_beside none t = none
plan_beside (some x) t = elim (plan_by_id x.plan_id t) [ none ↦ none | some p ↦ some (x, p) ]

abbrev pub subscription_with_plan : ℕ → ℕ → Tables → Option (Subscription × Plan)
subscription_with_plan sub org t =
    plan_beside
      (find_row (λ (x : Subscription). x.id == sub && x.organization_id == org) t.subscriptions) t

abbrev grace_until : Option ℕ → ℕ → Option ℕ
grace_until none days' = none
grace_until (some entered_at) days' = some (compute_grace_until entered_at days')

abbrev pub campaign_of : Start → Subscription → Plan → String → ℕ → DunningCampaign
campaign_of a x plan id started_at = record {
  id = id;
  subscription_id = a.subscription_id;
  organization_id = a.organization_id;
  status = running;
  grace_until = grace_until x.past_due_entered_at plan.grace_period_days;
  policy_snapshot = plan.dunning_policy;
  idempotency_key = a.idempotency_key;
  started_at = started_at;
}

-- The unique indexes: the key, and one active campaign for each subscription.
abbrev pub conflicts : Start → List DunningCampaign → Option DunningCampaign
conflicts a cs = elim (campaign_by_key a.idempotency_key cs) [
  | some c ↦ some c
  | none ↦ active_campaign a.subscription_id cs
]

-- The savepoint: the row and its attempts are written, or the `IntegrityError` undoes it and the rows
-- are looked for again.
unfoldable pub insert_campaign :
    Start → DunningCampaign → Option DunningCampaign → Exec DunningCampaign
unfolding schedule_campaign_attempts
insert_campaign a c none = do
  modify (set_campaigns (λ cs. cs ++ c ∷ []))
  schedule_campaign_attempts c
  pure c
insert_campaign a c (some conflict) = do
  found ← select (λ t. conflicts a t.campaigns)
  or_raise found integrity_error

abbrev pub or_now : Option ℕ → Exec ℕ
or_now none = now_utc
or_now (some t) = pure t

unfoldable pub insert_at :
    List DunningCampaign → Start → Subscription → Plan → ℕ → Exec DunningCampaign
unfolding insert_campaign others_commit
insert_at rivals a x plan started_at = do
  id ← new_uuid
  others_commit rivals
  conflict ← select (λ t. conflicts a t.campaigns)
  insert_campaign a (campaign_of a x plan id started_at) conflict

abbrev pub missing_text : Start → String
missing_text a =
    "subscription "
    ⧺ (str_ℕ a.subscription_id ⧺ (" not found for organization " ⧺ str_ℕ a.organization_id))

unfoldable pub start_new :
    List DunningCampaign → Start → Option (Subscription × Plan) → Exec DunningCampaign
unfolding insert_at
start_new rivals a none = raise (value_error (missing_text a))
start_new rivals a (some (x, plan)) = do
  started_at ← or_now a.started_at
  insert_at rivals a x plan started_at

unfoldable pub start_unless :
    List DunningCampaign → Start → Option DunningCampaign → Exec DunningCampaign
unfolding start_new
start_unless rivals a (some c) = pure c
start_unless rivals a none = do
  row ← select (subscription_with_plan a.subscription_id a.organization_id)
  start_new rivals a row

-- `start_campaign`; the Boolean is `dunning_enabled`, and the list holds the campaigns that other
-- transactions commit between its lookups and its insertion.
unfoldable pub start_campaign : Bool → List DunningCampaign → Start → Exec (Option DunningCampaign)
unfolding start_unless
start_campaign false rivals a = pure none
start_campaign true rivals a = do
  existing ← select (λ t. conflicts a t.campaigns)
  c ← start_unless rivals a existing
  pure (some c)

-- A campaign with its new status and its audit entry.
abbrev pub audited : DunningCampaign → CampaignStatus → String → String → String → DunningCampaign
audited c status action actor at = record c {
  status = status;
  policy_snapshot = append_audit c.policy_snapshot action actor at;
}

unfoldable pub write_audited :
    DunningCampaign → CampaignStatus → String → String → Exec DunningCampaign
unfolding save_campaign
write_audited c status action actor = do
  now ← now_utc
  isoformat ← gets (λ s. s.host.isoformat_utc)
  save_campaign (audited c status action actor (isoformat now))
  pure (audited c status action actor (isoformat now))

unfoldable pub pause_found : Option DunningCampaign → String → Exec DunningCampaign
unfolding write_audited
pause_found none actor = raise (value_error "dunning campaign not found")
pause_found (some c) actor =
    if is_status c.status running
    then write_audited c paused "pause" actor
    else raise (value_error "cannot pause campaign")

-- `pause_campaign`
unfoldable pub pause_campaign : String → ℕ → String → Exec DunningCampaign
unfolding pause_found
pause_campaign id org actor = do
  c ← select (λ t. get_campaign_by_id id org t.campaigns)
  pause_found c actor

-- Another campaign than this one.
abbrev pub is_other : DunningCampaign → Option DunningCampaign → Bool
is_other c none = false
is_other c (some d) = not (str_eq d.id c.id)

-- `true` where another campaign is active.
unfoldable pub resume_unless : Bool → DunningCampaign → String → Exec DunningCampaign
unfolding write_audited
resume_unless true c actor =
    raise (value_error "another active dunning campaign exists for subscription")
resume_unless false c actor = write_audited c running "resume" actor

unfoldable pub resume_checked : DunningCampaign → String → Exec DunningCampaign
unfolding resume_unless
resume_checked c actor = do
  other ← select (λ t. active_campaign c.subscription_id t.campaigns)
  resume_unless (is_other c other) c actor

unfoldable pub resume_found : Option DunningCampaign → String → Exec DunningCampaign
unfolding resume_checked
resume_found none actor = raise (value_error "dunning campaign not found")
resume_found (some c) actor =
    if is_status c.status paused
    then resume_checked c actor
    else raise (value_error "cannot resume campaign")

-- `resume_campaign`
unfoldable pub resume_campaign : String → ℕ → String → Exec DunningCampaign
unfolding resume_found
resume_campaign id org actor = do
  c ← select (λ t. get_campaign_by_id id org t.campaigns)
  resume_found c actor
