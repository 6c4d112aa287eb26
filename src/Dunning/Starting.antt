-- ===== src/Dunning/Starting.antt =====
-- What starting a campaign guarantees: src/billing_platform/services/dunning.py.
use saas_billing_entitlement.Prelude.{
  ◌≡◌, sym, subst, ◌∙◌, true, inl, inr, none, some, List, ◌++◌, count_rows,
}
use saas_billing_entitlement.Db.Rows.{DunningCampaign}
use saas_billing_entitlement.Db.Session.{Session, ok}
use saas_billing_entitlement.Dunning.Campaigns.{
  active_campaign, campaign_has_id, Start, start_campaign,
}
use saas_billing_entitlement.Dunning.Laws.{OneActive}
use saas_billing_entitlement.Dunning.Outcome.{
  conflicts-none, append-OneActive, prefix-OneActive, start_found, start_campaign-Ended,
  absurd_result, same_campaign,
}

-- `start_campaign` keeps at most one active campaign for each subscription and at most one campaign
-- for each id: if that holds of the campaigns with those that other transactions commit meanwhile,
-- and the new UUID is no id of theirs, it holds afterwards. Dunning is enabled.
pub start_campaign-OneActive :
    (rivals : List DunningCampaign) (a : Start) (s : Session)
    → OneActive (s.tables.campaigns ++ rivals)
    → count_rows (campaign_has_id (s.host.uuid7 s.uuids)) (s.tables.campaigns ++ rivals) ≡ 0
    → OneActive (start_campaign true rivals a s).1.tables.campaigns
start_campaign-OneActive rivals a s one fresh = elim (start_campaign-Ended rivals a s) [
  | inl (e, same) ↦
      subst (λ (t : Session). OneActive t.tables.campaigns) (sym same)
        (prefix-OneActive s.tables.campaigns rivals one)
  | inr (c, e, found, inl rows) ↦
      subst OneActive (sym rows) (prefix-OneActive s.tables.campaigns rivals one)
  | inr (c, e, found, inr (inl rows)) ↦ subst OneActive (sym rows) one
  | inr (c, e, found, inr (inr (rows, id, sub, free))) ↦ subst OneActive (sym rows) (
      append-OneActive c (s.tables.campaigns ++ rivals)
        (subst (λ i. count_rows (campaign_has_id i) (s.tables.campaigns ++ rivals) ≡ 0) (sym id)
          fresh)
        (subst (λ n. active_campaign n (s.tables.campaigns ++ rivals) ≡ none) (sym sub)
          (conflicts-none a (s.tables.campaigns ++ rivals) free).1)
        one)
]

-- A second `start_campaign` with the same arguments after one that returned a campaign returns that
-- campaign and changes nothing, whatever other transactions commit during either call. Dunning is
-- enabled.
start_campaign_again :
    (rivals later : List DunningCampaign) (a : Start) (s : Session) {c : DunningCampaign}
    → let (r, s') = start_campaign true rivals a s in
      r ≡ ok (some c) → start_campaign true later a s' ≡ (ok (some c), s')
start_campaign_again rivals later a s {c} h = elim (start_campaign-Ended rivals a s) [
  | inl (e, same) ↦ absurd_result (sym e ∙ h)
  | inr (d, e, found, rows) ↦
      start_found later a (start_campaign true rivals a s).1 (found ∙ same_campaign (sym e ∙ h))
]
