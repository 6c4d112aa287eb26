-- ===== src/Dunning/Outcome.antt =====
-- How starting a campaign ends: src/billing_platform/services/dunning.py.
use saas_billing_entitlement.Prelude.{
  ℕ, ◌+◌, ◌≤◌, ◌≡◌, refl, ◌⊎◌, ap, sym, subst, ◌∙◌, Bool, true, Bool-cases, inl, inr, Option, none,
  some, Option-cases, String, List, [], ◌∷◌, ◌++◌, arith, find_row-append, count_rows,
  count_rows-append, find_row-count_rows,
}
use saas_billing_entitlement.Prelude.Text.{eq_iff, eq_refl}
use saas_billing_entitlement.Db.Rows.{Subscription, Plan, DunningCampaign}
use saas_billing_entitlement.Db.Session.{
  Session, Result, ok, err, or_raise, integrity_error, new_uuid, value_error, Error, pure, continue,
  ◌>>=◌,
}
use saas_billing_entitlement.Dunning.Campaigns.{
  missing_text, is_active_for, active_campaign, campaign_by_key, campaign_has_id, campaign_has_key,
  Start, campaign_of, conflicts, insert_campaign, insert_at, schedule_from,
  schedule_campaign_attempts, start_new, start_unless, start_campaign, others_commit,
  subscription_with_plan,
}
use saas_billing_entitlement.Dunning.Laws.{OneActive}

-- The tests that no conflict leaves open, and what either of them finds.
both_none :
    (o p : Option DunningCampaign)
    → elim o [ some c ↦ some c | none ↦ p ] ≡ none
    → (o ≡ none) × (p ≡ none)
both_none none p h = (refl, h)
both_none (some c) p h = cc

conflicts-by_key :
    (a : Start) (cs : List DunningCampaign) {c : DunningCampaign}
    → campaign_by_key a.idempotency_key cs ≡ some c
    → conflicts a cs ≡ some c
conflicts-by_key a cs h =
    ap (λ o. elim o [ some c ↦ some c | none ↦ active_campaign a.subscription_id cs ]) h

pub conflicts-none :
    (a : Start) (cs : List DunningCampaign)
    → conflicts a cs ≡ none
    → (campaign_by_key a.idempotency_key cs ≡ none) × (active_campaign a.subscription_id cs ≡ none)
conflicts-none a cs h =
    both_none (campaign_by_key a.idempotency_key cs) (active_campaign a.subscription_id cs) h

append_le :
    (p : DunningCampaign → Bool) (c : DunningCampaign) (cs : List DunningCampaign)
    → (p c ≡ true → count_rows p cs ≡ 0)
    → count_rows p cs ≤ 1
    → count_rows p (cs ++ c ∷ []) ≤ 1
append_le p c cs h le =
    rw (count_rows-append p cs (c ∷ []))
      (elim (Bool-cases (p c)) [ inl e ↦ rw e (omega (arith, h e)) | inr e ↦ rw e (omega arith) ])

active_of : (c : DunningCampaign) (sub : ℕ) → is_active_for sub c ≡ true → c.subscription_id ≡ sub
active_of c sub h = ground arith

-- A campaign after rows that leave its id, and its subscription, free.
pub append-OneActive :
    (c : DunningCampaign) (cs : List DunningCampaign)
    → count_rows (campaign_has_id c.id) cs ≡ 0
    → active_campaign c.subscription_id cs ≡ none
    → OneActive cs
    → OneActive (cs ++ c ∷ [])
append-OneActive c cs fresh free one = (
  λ sub.
      append_le (is_active_for sub) c cs
        (λ is_on.
          subst (λ n. count_rows (is_active_for n) cs ≡ 0) (active_of c sub is_on)
            (find_row-count_rows (is_active_for c.subscription_id) (is_active_for c.subscription_id)
              c cs free))
        (one.0 sub),
  λ id.
      append_le (campaign_has_id id) c cs
        (λ same. subst (λ i. count_rows (campaign_has_id i) cs ≡ 0) ((eq_iff c.id id).0 same) fresh)
        (one.1 id),
)

pub prefix-OneActive : (cs rivals : List DunningCampaign) → OneActive (cs ++ rivals) → OneActive cs
prefix-OneActive cs rivals one = (
  λ sub. omega (arith, one.0 sub, count_rows-append (is_active_for sub) cs rivals),
  λ id. omega (arith, one.1 id, count_rows-append (campaign_has_id id) cs rivals),
)

inserted-found :
    (a : Start) (x : Subscription) (plan : Plan) (id : String) (at : ℕ) (cs : List DunningCampaign)
    → conflicts a cs ≡ none
    → conflicts a (cs ++ campaign_of a x plan id at ∷ []) ≡ some (campaign_of a x plan id at)
inserted-found a x plan id at cs h = conflicts-by_key a (cs ++ campaign_of a x plan id at ∷ []) (
    find_row-append (campaign_has_key a.idempotency_key) cs (campaign_of a x plan id at)
      (conflicts-none a cs h).0
    ∙ rw (eq_refl a.idempotency_key) refl)

-- A successful start: the campaign that its lookups find from now on, either there before or new.
abbrev pub Inserted : List DunningCampaign → Start → String → DunningCampaign → Session → Type 0
Inserted cs a id c s' =
    (s'.tables.campaigns ≡ cs ++ c ∷ [])
    × (c.id ≡ id)
    × (c.subscription_id ≡ a.subscription_id)
    × (conflicts a cs ≡ none)

abbrev pub Started :
    List DunningCampaign → Start → String → Result DunningCampaign → Session → Type 0
Started cs a id r s' =
    (c : DunningCampaign) × (r ≡ ok c)
    × (conflicts a s'.tables.campaigns ≡ some c)
    × ((s'.tables.campaigns ≡ cs) ⊎ Inserted cs a id c s')

insert_campaign-Started :
    (a : Start) (x : Subscription) (plan : Plan) (id : String) (at : ℕ) (s : Session)
    (o : Option DunningCampaign)
    → conflicts a s.tables.campaigns ≡ o
    → let (r, s') = insert_campaign a (campaign_of a x plan id at) o s in
      Started s.tables.campaigns a id r s'
unfolding insert_campaign schedule_campaign_attempts schedule_from
insert_campaign-Started a x plan id at s none h = (
  campaign_of a x plan id at,
  refl,
  inserted-found a x plan id at s.tables.campaigns h,
  inr (refl, refl, refl, h),
)
insert_campaign-Started a x plan id at s (some c) h =
    subst (λ (p : Result DunningCampaign × Session). Started s.tables.campaigns a id p.0 p.1)
      (sym (ap (λ o. or_raise o integrity_error s) h)) (c, refl, h, inl refl)

insert_at-Started :
    (rivals : List DunningCampaign) (a : Start) (x : Subscription) (plan : Plan) (at : ℕ)
    (s : Session)
    → let (r, s') = insert_at rivals a x plan at s in
      Started (s.tables.campaigns ++ rivals) a (s.host.uuid7 s.uuids) r s'
unfolding insert_at others_commit
insert_at-Started rivals a x plan at s =
    let s1 = (others_commit rivals (new_uuid s).1).1 in
    insert_campaign-Started a x plan (s.host.uuid7 s.uuids) at s1
      (conflicts a (s.tables.campaigns ++ rivals)) refl

start_new-Started :
    (rivals : List DunningCampaign) (a : Start) (x : Subscription) (plan : Plan) (s : Session)
    → let (r, s') = start_new rivals a (some (x, plan)) s in
      Started (s.tables.campaigns ++ rivals) a (s.host.uuid7 s.uuids) r s'
unfolding start_new
start_new-Started rivals a x plan s = elim (Option-cases a.started_at) [
  | inl now ↦ rw now (
      insert_at-Started rivals (record a { started_at = none }) x plan (s.host.clock s.readings)
        (record s { readings = s.readings + 1 }))
  | inr (at, given) ↦
      rw given (insert_at-Started rivals (record a { started_at = some at }) x plan at s)
]

pub absurd_result :
    {X : Type 0} {e : Error} {o : Option DunningCampaign}
    → Path (Result (Option DunningCampaign)) (err e) (ok o)
    → X
absurd_result h = cc

pub same_campaign :
    {o p : Option DunningCampaign} → Path (Result (Option DunningCampaign)) (ok o) (ok p) → o ≡ p
same_campaign h = cc

-- A call that found its campaign, one that has nothing to start from, and one that inserts.
pub start_found :
    (rivals : List DunningCampaign) (a : Start) (s : Session) {c : DunningCampaign}
    → conflicts a s.tables.campaigns ≡ some c
    → start_campaign true rivals a s ≡ (ok (some c), s)
unfolding start_campaign
start_found rivals a s {c} h = ap (λ o. (start_unless rivals a o >>= λ c'. pure (some c')) s) h

start_missing :
    (rivals : List DunningCampaign) (a : Start) (s : Session)
    → conflicts a s.tables.campaigns ≡ none
    → subscription_with_plan a.subscription_id a.organization_id s.tables ≡ none
    → start_campaign true rivals a s ≡ (err (value_error (missing_text a)), s)
unfolding start_campaign
start_missing rivals a s h k =
    ap (λ o. (start_unless rivals a o >>= λ c'. pure (some c')) s) h
    ∙ ap (λ o. (start_new rivals a o >>= λ c'. pure (some c')) s) k

start_fresh :
    (rivals : List DunningCampaign) (a : Start) (s : Session) {x : Subscription} {plan : Plan}
    → conflicts a s.tables.campaigns ≡ none
    → subscription_with_plan a.subscription_id a.organization_id s.tables ≡ some (x, plan)
    → start_campaign true rivals a s
      ≡ (start_new rivals a (some (x, plan)) >>= λ c. pure (some c)) s
unfolding start_campaign
start_fresh rivals a s h k =
    ap (λ o. (start_unless rivals a o >>= λ c'. pure (some c')) s) h
    ∙ ap (λ o. (start_new rivals a o >>= λ c'. pure (some c')) s) k

-- How a call ends: a refusal that leaves the session, or a campaign that the lookups find.
abbrev pub Ended :
    List DunningCampaign → Start → Session → Result (Option DunningCampaign) × Session → Type 0
Ended rivals a s (r, s') =
    ((r ≡ err (value_error (missing_text a))) × (s' ≡ s))
    ⊎ ((c : DunningCampaign) × (r ≡ ok (some c))
        × (conflicts a s'.tables.campaigns ≡ some c)
        × ((s'.tables.campaigns ≡ s.tables.campaigns)
            ⊎ ((s'.tables.campaigns ≡ s.tables.campaigns ++ rivals)
                ⊎ Inserted (s.tables.campaigns ++ rivals) a (s.host.uuid7 s.uuids) c s')))

fresh-Ended :
    (rivals : List DunningCampaign) (a : Start) (s : Session) (p : Result DunningCampaign × Session)
    → Started (s.tables.campaigns ++ rivals) a (s.host.uuid7 s.uuids) p.0 p.1
    → Ended rivals a s (continue p.0 (λ c. pure (some c)) p.1)
fresh-Ended rivals a s (r, s') (c, e, found, rows) = rw e (inr (c, refl, found, inr rows))

pub start_campaign-Ended :
    (rivals : List DunningCampaign) (a : Start) (s : Session)
    → Ended rivals a s (start_campaign true rivals a s)
start_campaign-Ended rivals a s = elim (Option-cases (conflicts a s.tables.campaigns)) [
  | inr (c, e) ↦
      subst (Ended rivals a s) (sym (start_found rivals a s e)) (inr (c, refl, e, inl refl))
  | inl e ↦
      elim (Option-cases (subscription_with_plan a.subscription_id a.organization_id s.tables)) [
        | inl k ↦ subst (Ended rivals a s) (sym (start_missing rivals a s e k)) (inl (refl, refl))
        | inr ((x, plan), k) ↦ subst (Ended rivals a s) (sym (start_fresh rivals a s e k)) (
            fresh-Ended rivals a s (start_new rivals a (some (x, plan)) s)
              (start_new-Started rivals a x plan s))
      ]
]
