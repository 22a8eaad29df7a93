-- ===== src/Reports/Repeats.antt =====
-- Claims of a daily report that are sent again because their answer was lost.
use mathlib.Core.Path.{subst}
use rollpig_cloud.Base.{
  ℕ, ◌<◌, ◌≡◌, refl, sym, ap, ◌∙◌, inl, inr, true, false, ◌&&◌, ◌||◌, Option, some, none, List, leb,
  ◌==◌, ==_refl, if◌then◌else◌, is_some, find, update, arith, Bool-cases, Option-cases, find-passes,
  find-update, update-update,
}
use rollpig_cloud.Reports.{
  is_pending, is_claimed, DailyReportDelivery, max_attempts, is_key, is_due, is_stale,
  retry_deadline,
}
use rollpig_cloud.Reports.Claim.{
  DailyReportClaimRequest, DailyReportClaimItem, named, bot_of, claimed_row, claim_item,
  is_same_owner, visit, visit_group,
}

-- What a row that is handed out shows.
abbrev Holds : ℕ → ℕ → DailyReportDelivery → DailyReportClaimItem → DailyReportDelivery → Type 0
Holds instance bot r item r' =
    (is_claimed r'.status ≡ true)
    × (is_some r'.claim_token ≡ true)
    × (is_some r'.claimed_at ≡ true)
    × (r'.instance_id ≡ instance)
    × (r'.delivery_bot_id ≡ bot)
    × (claim_item r' ≡ item)
    × (r'.date_str ≡ r.date_str)
    × (r'.group_id ≡ r.group_id)

abbrev Hands :
    ℕ → ℕ → DailyReportDelivery → Option DailyReportClaimItem × DailyReportDelivery → Type 0
Hands instance bot r (none, r') = Unit {0}
Hands instance bot r (some item, r') = Holds instance bot r item r'

visit-Hands :
    (instance bot now token : ℕ) (r : DailyReportDelivery)
    → Hands instance bot r (visit instance bot now token r r)
unfolding visit claimed_row
visit-Hands instance bot now token r =
    elim (Bool-cases
      (leb (retry_deadline r.date_str) now && (is_pending r.status || is_claimed r.status))) [
        | inl late ↦ rw late tt
        | inr early ↦ rw early (elim (Bool-cases (is_same_owner instance bot now r)) [
          | inl own ↦ rw own (
            ground arith,
            ground arith,
            ground arith,
            ground arith,
            ground arith,
            refl,
            refl,
            refl,
          )
          | inr other ↦ rw other (elim (Bool-cases (is_due now r)) [
            | inr later ↦ rw later tt
            | inl due ↦ rw due (elim (Bool-cases (leb max_attempts r.attempt_count)) [
              | inl spent ↦ rw spent tt
              | inr few ↦
                  rw (few, ==_refl r.attempt_count) (refl, refl, refl, refl, refl, refl, refl, refl)
            ])
          ])
        ])
      ]

visit-again :
    (instance bot now token : ℕ) (r : DailyReportDelivery)
    → is_claimed r.status ≡ true
    → is_some r.claim_token ≡ true
    → is_some r.claimed_at ≡ true
    → is_stale now r.claimed_at ≡ false
    → now < retry_deadline r.date_str
    → visit instance bot now token r r ≡ (
      (if r.instance_id == instance && r.delivery_bot_id == bot then some (claim_item r) else none),
      r,
    )
unfolding visit is_due
visit-again instance bot now token r c t at fresh early = ground arith

-- A report that a claim hands out belongs to its holder while the lease runs: before the lease is
-- stale and before the deadline, the same instance and bot get the same item again with the same
-- token, any other instance or bot gets nothing, and the table stays as it is.
pub visit_group-held :
    (req again : DailyReportClaimRequest) (now now' token token' group : ℕ)
    (rows rows' : List DailyReportDelivery) (r' : DailyReportDelivery) (item : DailyReportClaimItem)
    → visit_group req now token group rows ≡ (some item, rows')
    → find (is_key req.date_str group) rows' ≡ some r'
    → again.date_str ≡ req.date_str
    → is_stale now' r'.claimed_at ≡ false
    → now' < retry_deadline req.date_str
    → visit_group again now' token' group rows' ≡ (
      (if req.instance_id == again.instance_id
            && bot_of group 0 (named req.candidates) == bot_of group 0 (named again.candidates)
          then some item
          else none),
      rows',
    )
unfolding visit_group
visit_group-held req again now now' token token' group rows rows' r' item e er same fresh early =
    elim (Option-cases (find (is_key req.date_str group) rows)) [
      | inl lost ↦ absurd (cc (rw (lost, visit_group) at e))
      | inr (r, found) ↦
          let bot = bot_of group 0 (named req.candidates) in
          let v = visit req.instance_id bot now token r r in
          let here : ◌≡◌ {A = Option DailyReportClaimItem × List DailyReportDelivery}
              (v.0, update (is_key req.date_str group) (λ _. v.1) rows) (some item, rows') =
            rw (found, visit_group) at e in
          let got : v ≡ (some item, v.1) = ap (λ z. (z.0, v.1)) here in
          let h : Holds req.instance_id bot r item v.1 =
            rw got at (visit-Hands req.instance_id bot now token r) in
          let key = is_key req.date_str group in
          let own : key v.1 ≡ true = ground (arith, h.6, h.7, find-passes key rows r found) in
          let w : update key (λ _. v.1) rows ≡ rows' = ap (λ z. z.1) here in
          let at : find key rows' ≡ some v.1 =
            ap (find key) (sym w) ∙ find-update key (λ _. v.1) rows r (λ x p. own) found in
          let is : v.1 ≡ r' = cc in
          let k : Holds req.instance_id bot r item r' = rw is at h in
          let w' : update key (λ _. r') rows ≡ rows' = rw is at w in
          let u : update key (λ _. r') rows' ≡ rows' =
            ap (update key (λ _. r')) (sym w') ∙ update-update key r' rows (rw is at own) ∙ w' in
          let er' : find (is_key again.date_str group) rows' ≡ some r' =
            ap (λ z. find (is_key z group) rows') same ∙ er in
          let u' : update (is_key again.date_str group) (λ _. r') rows' ≡ rows' =
            ap (λ z. update (is_key z group) (λ _. r') rows') same ∙ u in
          let day : r.date_str ≡ req.date_str = ground (arith, find-passes key rows r found) in
          let early' : now' < retry_deadline r'.date_str =
            subst (λ z. now' < retry_deadline z) (sym (k.6 ∙ day)) early in
          let va =
            visit-again again.instance_id (bot_of group 0 (named again.candidates)) now' token' r'
              k.0 k.1 k.2 fresh early' in
          rw (er', visit_group, va) (ground (arith, u', k.3, k.4, k.5))
    ]
