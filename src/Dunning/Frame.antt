-- ===== src/Dunning/Frame.antt =====
-- Starting a campaign writes campaigns and attempts only: src/billing_platform/services/dunning.py.
use saas_billing_entitlement.Prelude.{
  ℕ, suc, refl, Bool, true, false, Option, none, some, List, [], ◌∷◌,
}
use saas_billing_entitlement.Db.Rows.{Subscription, Plan, DunningCampaign, Tables}
use saas_billing_entitlement.Db.Keeps.{Keeps, keeps, pure-Keeps, raise-Keeps, now_utc-Keeps}
use saas_billing_entitlement.Dunning.Campaigns.{
  Start, start_campaign, start_unless, start_new, insert_at, insert_campaign, or_now, others_commit,
  schedule_campaign_attempts, schedule_from,
}

-- All but what dunning owns.
abbrev pub besides_dunning : Tables → Tables
besides_dunning t = record t { campaigns = []; attempts = [] }

schedule-Keeps :
    (c : DunningCampaign) (n : ℕ) (offsets : List ℕ)
    → Keeps besides_dunning (schedule_from c n offsets)
unfolding schedule_from
schedule-Keeps c n [] = pure-Keeps besides_dunning tt
schedule-Keeps c n (offset ∷ rest) = record { at = λ s. (schedule-Keeps c (suc n) rest).at _ }

insert_campaign-Keeps :
    (a : Start) (c : DunningCampaign) (o : Option DunningCampaign)
    → Keeps besides_dunning (insert_campaign a c o)
unfolding insert_campaign schedule_campaign_attempts schedule_from
insert_campaign-Keeps a c none = record { at = λ s. refl }
insert_campaign-Keeps a c (some conflict) = search (keeps) depth 10

others-Keeps : (rivals : List DunningCampaign) → Keeps besides_dunning (others_commit rivals)
unfolding others_commit
others-Keeps rivals = record { at = λ s. refl }

or_now-Keeps : (o : Option ℕ) → Keeps besides_dunning (or_now o)
or_now-Keeps none = now_utc-Keeps besides_dunning
or_now-Keeps (some t) = pure-Keeps besides_dunning t

insert_at-Keeps :
    (rivals : List DunningCampaign) (a : Start) (x : Subscription) (plan : Plan) (t : ℕ)
    → Keeps besides_dunning (insert_at rivals a x plan t)
unfolding insert_at
insert_at-Keeps rivals a x plan t = search (keeps, others-Keeps, insert_campaign-Keeps) depth 20

start_new-Keeps :
    (rivals : List DunningCampaign) (a : Start) (o : Option (Subscription × Plan))
    → Keeps besides_dunning (start_new rivals a o)
unfolding start_new
start_new-Keeps rivals a none = raise-Keeps besides_dunning _
start_new-Keeps rivals a (some (x, plan)) = search (keeps, or_now-Keeps, insert_at-Keeps) depth 10

start_unless-Keeps :
    (rivals : List DunningCampaign) (a : Start) (o : Option DunningCampaign)
    → Keeps besides_dunning (start_unless rivals a o)
unfolding start_unless
start_unless-Keeps rivals a (some c) = pure-Keeps besides_dunning c
start_unless-Keeps rivals a none = search (keeps, start_new-Keeps) depth 10

pub start_campaign-Keeps :
    (enabled : Bool) (rivals : List DunningCampaign) (a : Start)
    → Keeps besides_dunning (start_campaign enabled rivals a)
unfolding start_campaign
start_campaign-Keeps false rivals a = pure-Keeps besides_dunning none
start_campaign-Keeps true rivals a = search (keeps, start_unless-Keeps) depth 10
