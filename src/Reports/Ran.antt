-- ===== src/Reports/Ran.antt =====
-- The row of one day and group before and after a change of the table of reports.
use rollpig_cloud.Base.{
  ℕ, ◌+◌, ◌≡◌, refl, sym, ap, ◌∙◌, inl, inr, true, ◌&&◌, some, List, ◌==◌, if◌then◌else◌, find,
  update, arith, Bool-cases, find-passes, find-update, find-update_other,
}
use rollpig_cloud.Reports.{DailyReportDelivery, is_key, failed_row}
use rollpig_cloud.Reports.Claim.{claimed_row}
use rollpig_cloud.Reports.Transition.{transited_row}
use rollpig_cloud.Reports.Lifecycle.{
  Moves, takes, fails, transits, Runs, done, step, starts, rejections,
}

Moves-keeps :
    (a b : DailyReportDelivery) → Moves a b → (b.date_str ≡ a.date_str) × (b.group_id ≡ a.group_id)
unfolding claimed_row failed_row transited_row
Moves-keeps a _ (takes _ _ _ _ _ _ _) = (refl, refl)
Moves-keeps a _ (fails _ _ _ _) = (refl, refl)
Moves-keeps a _ (transits _ _ _ _ _ _) = (refl, refl)

pub Runs-keeps :
    (a b : DailyReportDelivery) → Runs a b → (b.date_str ≡ a.date_str) × (b.group_id ≡ a.group_id)
Runs-keeps a _ (done _) = (refl, refl)
Runs-keeps a c (step _ b _ move run) =
    let here = Moves-keeps a b move in
    let there = Runs-keeps b c run in (there.0 ∙ here.0, there.1 ∙ here.1)

-- The row before is the row after, moved on with these counts.
abbrev pub Ran : DailyReportDelivery → DailyReportDelivery → ℕ → ℕ → Type 0
Ran a b s t = (run : Runs a b) × (starts run ≡ s) × (rejections run ≡ t)

Ran-trans :
    (a b c : DailyReportDelivery) (s t s' t' : ℕ)
    → Ran a b s t
    → Ran b c s' t'
    → Ran a c (s + s') (t + t')
Ran-trans a _ c s t s' t' (done _, es, et) (run, es', et') = (run, omega arith, omega arith)
Ran-trans a b c s t s' t' (step _ a' _ move rest, es, et) q =
    let (run, e, e') =
      Ran-trans a' b c (starts rest) (rejections rest) s' t' (rest, refl, refl) q in
    (step a a' c move run, omega arith, omega arith)

abbrev pub Served : ℕ → ℕ → ℕ → ℕ → List DailyReportDelivery → List DailyReportDelivery → Type 0
Served date group s t rows rows' =
    (r : DailyReportDelivery)
    → find (is_key date group) rows ≡ some r
    → (r' : DailyReportDelivery) × (find (is_key date group) rows' ≡ some r') × Ran r r' s t

pub Served-trans :
    (date group s t s' t' : ℕ) (rows₀ rows₁ rows₂ : List DailyReportDelivery)
    → Served date group s t rows₀ rows₁
    → Served date group s' t' rows₁ rows₂
    → Served date group (s + s') (t + t') rows₀ rows₂
Served-trans date group s t s' t' rows₀ rows₁ rows₂ h k r e =
    let (r₁, e₁, run₁) = h r e in
    let (r₂, e₂, run₂) = k r₁ e₁ in (r₂, e₂, Ran-trans r r₁ r₂ s t s' t' run₁ run₂)

pub Served-refl :
    (date group : ℕ) (rows : List DailyReportDelivery) → Served date group 0 0 rows rows
Served-refl date group rows r e = (r, e, (done r, refl, refl))

-- A row that is written back under its key.
pub replace-Served :
    (date group d g s t : ℕ) (rows : List DailyReportDelivery) (a b : DailyReportDelivery)
    → find (is_key d g) rows ≡ some a
    → Ran a b s t
    → Served date group
        (if d == date && g == group then s else 0)
        (if d == date && g == group then t else 0)
        rows
        (update (is_key d g) (λ _. b) rows)
replace-Served date group d g s t rows a b e ran r er =
    let keep = Runs-keeps a b ran.0 in
    let own = find-passes (is_key d g) rows a e in
    let own' : is_key d g b ≡ true = ground (arith, keep.0, keep.1, own) in
    elim (Bool-cases (d == date && g == group)) [
      | inl hit ↦
          let dd : d ≡ date = ground arith in
          let gg : g ≡ group = ground arith in
          let e' : find (is_key date group) rows ≡ some a =
            ap (λ z. find (is_key z group) rows) (sym dd)
            ∙ ap (λ z. find (is_key d z) rows) (sym gg)
            ∙ e in
          let same : a ≡ r = cc in
          let w : find (is_key date group) (update (is_key d g) (λ _. b) rows) ≡ some b =
            ap (λ z. find (is_key z group) (update (is_key d g) (λ _. b) rows)) (sym dd)
            ∙ ap (λ z. find (is_key d z) (update (is_key d g) (λ _. b) rows)) (sym gg)
            ∙ find-update (is_key d g) (λ _. b) rows a (λ x p. own') e in
          rw hit (b, w, rw (sym same) ran)
      | inr miss ↦
          let w : find (is_key date group) (update (is_key d g) (λ _. b) rows)
              ≡ find (is_key date group) rows =
            find-update_other (is_key d g) (is_key date group) (λ _. b) rows
              (λ x p. (ground arith, ground (arith, own'))) in
          rw miss (r, w ∙ er, (done r, refl, refl))
    ]
