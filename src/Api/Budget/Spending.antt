-- ===== src/Api/Budget/Spending.antt =====
-- Whom the budgets let through.
use mathlib.Core.Path.{subst}
use godwit.Base.{
  ℕ, ◌≡◌, ◌↔◌, refl, Bool, true, false, String, Option, none, some, Result, ok, err, if◌then◌else◌,
}
use godwit.Api.Responses.{budget_exceeded}
use godwit.Api.Budget.{
  Decimal, EndUser, Team, unwrap_or_zero, check_end_user_budget, check_team_budget, end_user_row,
  team_row, against_budget,
}

module _ (dec : Decimal) where
  -- There is a budget, and what was spent reaches it.
  abbrev pub Exhausted : Option dec.D → Result String (Option dec.D) → Type 0
  Exhausted budget spent =
      (b : dec.D) × (s : Option dec.D) × (budget ≡ some b)
      × (spent ≡ ok s)
      × (dec.ge (unwrap_or_zero dec s) b ≡ true)

  against_budget-Exhausted :
      (budget : Option dec.D) (spent : Result String (Option dec.D))
      → (against_budget dec budget spent ≡ err budget_exceeded) ↔ Exhausted budget spent
  against_budget-Exhausted none spent = (λ h. cc, λ p. cc p.2)
  against_budget-Exhausted (some b) (err e) = (λ h. cc, λ p. cc p.3)
  against_budget-Exhausted (some b) (ok s) = go (dec.ge (unwrap_or_zero dec s) b) refl
    where
      reached : Exhausted (some b) (ok s) → dec.ge (unwrap_or_zero dec s) b ≡ true
      reached (b', s', same_budget, same_sum, h) = cc (same_budget, same_sum, h)

      go :
          (c : Bool)
          → dec.ge (unwrap_or_zero dec s) b ≡ c
          → ((if c then err budget_exceeded else ok tt) ≡ err budget_exceeded)
            ↔ Exhausted (some b) (ok s)
      go true e = (λ h. (b, s, refl, refl, e), λ p. refl)
      go false e = (λ h. cc, λ p. cc (reached p, e))

  -- A request of an end user is refused for the budget exactly if there is a row of that user with a
  -- budget, and the costs summed for that user reach it.
  pub end_user_refused_iff :
      (fetch_end_user : ℕ → ℕ → Result String (Option (EndUser dec)))
      (fetch_spent : ℕ → ℕ → Result String (Option dec.D)) (user_id org_id : ℕ)
      → (check_end_user_budget dec fetch_end_user fetch_spent user_id org_id ≡ err budget_exceeded)
        ↔ ((end_user : EndUser dec) × (fetch_end_user user_id org_id ≡ ok (some end_user))
            × Exhausted end_user.max_budget_usd (fetch_spent user_id org_id))
  unfolding check_end_user_budget
  end_user_refused_iff fetch_end_user fetch_spent user_id org_id =
      go (fetch_end_user user_id org_id)
    where
      spent : Result String (Option dec.D)
      spent = fetch_spent user_id org_id

      go :
          (row : Result String (Option (EndUser dec)))
          → (end_user_row dec row spent ≡ err budget_exceeded) ↔ (
              (end_user : EndUser dec) × (row ≡ ok (some end_user))
              × Exhausted end_user.max_budget_usd spent)
      go (err e) = (λ h. cc, λ p. cc p.1)
      go (ok none) = (λ h. cc, λ p. cc p.1)
      go (ok (some eu)) =
          let (to, from) = against_budget-Exhausted eu.max_budget_usd spent in
          (
            λ h. (eu, refl, to h),
            λ (x, e, p).
                let same : x ≡ eu = cc e in
                from (subst (λ y. Exhausted y.max_budget_usd spent) same p),
          )

  -- A request of a team is refused for the budget exactly if the team has a row with a budget, and the
  -- costs summed for the team reach it.
  pub team_refused_iff :
      (fetch_team : ℕ → Result String (Option (Team dec)))
      (fetch_spent : ℕ → Result String (Option dec.D)) (team_id : ℕ)
      → (check_team_budget dec fetch_team fetch_spent team_id ≡ err budget_exceeded) ↔ (
          (team : Team dec) × (fetch_team team_id ≡ ok (some team))
          × Exhausted team.max_budget_usd (fetch_spent team_id))
  unfolding check_team_budget
  team_refused_iff fetch_team fetch_spent team_id = go (fetch_team team_id)
    where
      spent : Result String (Option dec.D)
      spent = fetch_spent team_id

      go :
          (row : Result String (Option (Team dec)))
          → (team_row dec row spent ≡ err budget_exceeded)
            ↔ ((team : Team dec) × (row ≡ ok (some team)) × Exhausted team.max_budget_usd spent)
      go (err e) = (λ h. cc, λ p. cc p.1)
      go (ok none) = (λ h. cc, λ p. cc p.1)
      go (ok (some t)) =
          let (to, from) = against_budget-Exhausted t.max_budget_usd spent in
          (
            λ h. (t, refl, to h),
            λ (x, e, p).
                let same : x ≡ t = cc e in
                from (subst (λ y. Exhausted y.max_budget_usd spent) same p),
          )
