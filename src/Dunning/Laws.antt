-- ===== src/Dunning/Laws.antt =====
-- One active campaign for each subscription, in src/billing_platform/services/dunning.py.
use saas_billing_entitlement.Prelude.{
  ℕ, ◌≤◌, ◌==◌, ==_iff, ◌≡◌, refl, ap, sym, subst, ◌∙◌, true, ◌&&◌, Bool-cases, inl, inr, none,
  some, some_inj, Option-cases, String, List, [], ◌∷◌, arith, if◌then◌else◌, find_row,
  find_row-holds, update_rows, count_rows, find_row-count_rows, find_row_unique, count-update_le,
  count-update_suc, find_row_transfer,
}
use saas_billing_entitlement.Prelude.Text.{str_eq, eq_iff, eq_refl}
use saas_billing_entitlement.Db.Rows.{DunningCampaign, CampaignStatus, running, paused}
use saas_billing_entitlement.Db.Session.{Session}
use saas_billing_entitlement.Dunning.Campaigns.{
  is_status, is_active_for, active_campaign, campaign_has_id, get_campaign_by_id, audited,
  write_audited, pause_campaign, resume_checked, resume_found, resume_campaign,
}

-- No subscription has two active campaigns, and no id stands for two campaigns.
abbrev pub OneActive : List DunningCampaign → Type 0
OneActive cs =
    ((sub : ℕ) → count_rows (is_active_for sub) cs ≤ 1)
    × ((id : String) → count_rows (campaign_has_id id) cs ≤ 1)

abbrev pub overwrite : DunningCampaign → List DunningCampaign → List DunningCampaign
overwrite c = update_rows (campaign_has_id c.id) (λ _. c)

overwrite-id :
    (c x : DunningCampaign) (id : String)
    → str_eq (if campaign_has_id c.id x then c else x).id id ≡ str_eq x.id id
overwrite-id c x id = elim (Bool-cases (str_eq x.id c.id)) [
  | inl e ↦ rw (e, ap (λ i. str_eq i id) ((eq_iff x.id c.id).0 e)) refl
  | inr e ↦ rw e refl
]

overwrite-ids :
    (c : DunningCampaign) (cs : List DunningCampaign) (id : String)
    → count_rows (campaign_has_id id) (overwrite c cs) ≡ count_rows (campaign_has_id id) cs
overwrite-ids c [] id = refl
overwrite-ids c (x ∷ cs) id = rw (overwrite-id c x id, overwrite-ids c cs id) refl

-- A campaign written back that is active only if it was.
pub overwrite-OneActive :
    (c d : DunningCampaign) (cs : List DunningCampaign)
    → d.id ≡ c.id
    → find_row (campaign_has_id d.id) cs ≡ some c
    → ((sub : ℕ) → is_active_for sub d ≡ true → is_active_for sub c ≡ true)
    → OneActive cs
    → OneActive (overwrite d cs)
overwrite-OneActive c d cs e h f one = (
  λ sub. omega (
    arith,
    count-update_le (is_active_for sub) (campaign_has_id d.id) d cs h (one.1 d.id) (f sub),
    one.0 sub,
  ),
  λ id. rw (overwrite-ids d cs id) (one.1 id),
)

-- A campaign made active where no other one of its subscription is.
activate-OneActive :
    (c d : DunningCampaign) (cs : List DunningCampaign)
    → d.id ≡ c.id
    → d.subscription_id ≡ c.subscription_id
    → find_row (is_active_for c.subscription_id) cs ≡ none
    → find_row (campaign_has_id d.id) cs ≡ some c
    → OneActive cs
    → OneActive (overwrite d cs)
activate-OneActive c d cs e e' free h one = (
  λ sub. elim (Bool-cases (d.subscription_id == sub)) [
    | inl same ↦ omega (
      arith,
      count-update_suc (is_active_for sub) (campaign_has_id d.id) d cs (one.1 d.id),
      subst (λ n. count_rows (is_active_for n) cs ≡ 0)
          (sym e' ∙ (==_iff d.subscription_id sub).0 same)
          (find_row-count_rows (is_active_for c.subscription_id) (is_active_for c.subscription_id) d
            cs free),
    )
    | inr differs ↦ omega (
      arith,
      count-update_le (is_active_for sub) (campaign_has_id d.id) d cs h (one.1 d.id)
          (λ is_on. ground arith),
      one.0 sub,
    )
  ],
  λ id. rw (overwrite-ids d cs id) (one.1 id),
)

loaded_by_id :
    (id : String) (org : ℕ) (cs : List DunningCampaign) {c : DunningCampaign}
    → get_campaign_by_id id org cs ≡ some c
    → OneActive cs
    → find_row (campaign_has_id c.id) cs ≡ some c
loaded_by_id id org cs {c} h one =
    find_row_transfer (λ (x : DunningCampaign). str_eq x.id id && x.organization_id == org)
      (campaign_has_id c.id) c cs h (one.1 c.id) (eq_refl c.id)

-- The campaigns after `write_audited`.
write_audited-campaigns :
    (c : DunningCampaign) (status : CampaignStatus) (action actor : String) (s : Session)
    → (write_audited c status action actor s).1.tables.campaigns
      ≡ overwrite
          (audited c status action actor (s.host.isoformat_utc (s.host.clock s.readings)))
          s.tables.campaigns
unfolding write_audited
write_audited-campaigns c status action actor s = refl

paused-OneActive :
    (c : DunningCampaign) (actor : String) (s : Session)
    → find_row (campaign_has_id c.id) s.tables.campaigns ≡ some c
    → OneActive s.tables.campaigns
    → OneActive (write_audited c paused "pause" actor s).1.tables.campaigns
paused-OneActive c actor s h one =
    let at = s.host.isoformat_utc (s.host.clock s.readings) in
    subst OneActive (sym (write_audited-campaigns c paused "pause" actor s)) (
      overwrite-OneActive c (audited c paused "pause" actor at) s.tables.campaigns refl h
        (λ sub is_on. ground arith) one)

pause-OneActive :
    (id : String) (org : ℕ) (actor : String) (s : Session)
    → OneActive s.tables.campaigns
    → OneActive (pause_campaign id org actor s).1.tables.campaigns
unfolding pause_campaign
pause-OneActive id org actor s one =
    elim (Option-cases (get_campaign_by_id id org s.tables.campaigns)) [
      | inl e ↦ rw e one
      | inr (c, e) ↦ elim (Bool-cases (is_status c.status running)) [
        | inl found ↦
            rw (e, found)
              (paused-OneActive c actor s (loaded_by_id id org s.tables.campaigns e one) one)
        | inr refused ↦ rw (e, refused) one
      ]
    ]

-- A paused campaign is not the one found active.
absurd_active :
    {X : Type 0} (c d : DunningCampaign) (cs : List DunningCampaign)
    → c.status ≡ paused
    → find_row (campaign_has_id c.id) cs ≡ some c
    → OneActive cs
    → active_campaign c.subscription_id cs ≡ some d
    → str_eq d.id c.id ≡ true
    → X
absurd_active c d cs e h one on same =
    let d_is_c =
      find_row_unique (is_active_for c.subscription_id) (campaign_has_id c.id) c cs on h
        (one.1 c.id) same in
    let c_on =
      subst (λ x. is_active_for c.subscription_id x ≡ true) (some_inj d_is_c)
        (find_row-holds (is_active_for c.subscription_id) cs on) in
    ground arith

-- Resuming: no other campaign is active, or the one found has the same id, which cannot be.
resumed-OneActive :
    (c : DunningCampaign) (actor : String) (s : Session)
    → c.status ≡ paused
    → find_row (campaign_has_id c.id) s.tables.campaigns ≡ some c
    → OneActive s.tables.campaigns
    → OneActive (resume_checked c actor s).1.tables.campaigns
unfolding resume_checked
resumed-OneActive c actor s e h one =
    elim (Option-cases (active_campaign c.subscription_id s.tables.campaigns)) [
      | inl none_on ↦ rw none_on (
          activate-OneActive c
            (audited c running "resume" actor (s.host.isoformat_utc (s.host.clock s.readings)))
            s.tables.campaigns refl refl none_on h one)
      | inr (d, on) ↦ elim (Bool-cases (str_eq d.id c.id)) [
        | inl same ↦ absurd_active c d s.tables.campaigns e h one on same
        | inr other ↦ rw (on, other) one
      ]
    ]

status_of-paused : (x : CampaignStatus) → is_status x paused ≡ true → x ≡ paused
status_of-paused x h = ground arith

resume-OneActive :
    (id : String) (org : ℕ) (actor : String) (s : Session)
    → OneActive s.tables.campaigns
    → OneActive (resume_campaign id org actor s).1.tables.campaigns
unfolding resume_campaign resume_found
resume-OneActive id org actor s one =
    elim (Option-cases (get_campaign_by_id id org s.tables.campaigns)) [
      | inl e ↦ rw e one
      | inr (c, e) ↦ elim (Bool-cases (is_status c.status paused)) [
        | inl found ↦
            rw (e, found)
              (resumed-OneActive c actor s (status_of-paused c.status found)
                (loaded_by_id id org s.tables.campaigns e one) one)
        | inr refused ↦ rw (e, refused) one
      ]
    ]

-- `pause_campaign` and `resume_campaign`, whether they act or raise: if no subscription had two active
-- campaigns and no id two campaigns, that is still so.
pub pause_resume-OneActive :
    (id : String) (org : ℕ) (actor : String) (s : Session)
    → OneActive s.tables.campaigns
    → OneActive (pause_campaign id org actor s).1.tables.campaigns
      × OneActive (resume_campaign id org actor s).1.tables.campaigns
pause_resume-OneActive id org actor s one =
    (pause-OneActive id org actor s one, resume-OneActive id org actor s one)
