-- ===== src/Api/BatchParser/Totals.antt =====
-- What the estimate of a batch consists of.
use mathlib.Core.Path.{subst}
use godwit.Base.{◌≡◌, refl, ap, String, List, [], ◌∷◌, map, Result, ok, err}
use godwit.Base.Dict.{Dict}
use godwit.Core.Json.{Json}
use godwit.Providers.Adapter.{UsageReport}
use godwit.Base.{Option}
use godwit.Api.BatchParser.{
  BatchParseError, BatchRequest, ParsedBatchLine, BatchParseResult, line_cost, costed, then_line,
  with_line, estimate_from, estimate_cost,
}

ok_inj : {A : Type 0} (a b : A) → ◌≡◌ {A = Result BatchParseError A} (ok a) (ok b) → a ≡ b
ok_inj a b e = cc e

module _ {D Pricing : Type 0} (js : Json) (zero_d : D) (add : D → D → D)
    (compute_cost : Pricing → UsageReport → Option D) (catalog : Dict String Pricing) where
  abbrev cost_line : BatchRequest js.J → Result BatchParseError D
  cost_line = line_cost js zero_d add compute_cost catalog

  -- The request that a line was made of.
  abbrev pub request_of : ParsedBatchLine js.J D → BatchRequest js.J
  request_of l = record { custom_id = l.custom_id; method = l.method; url = l.url; body = l.body }

  -- The sum of costs, in the order of the lines, from a given one.
  pub total_of : D → List (ParsedBatchLine js.J D) → D
  total_of total [] = total
  total_of total (l ∷ ls) = total_of (add total l.estimated_cost) ls

  -- Each line is priced as its request alone is.
  abbrev pub Priced : List (ParsedBatchLine js.J D) → Type 0
  Priced [] = Unit
  Priced (l ∷ ls) = (cost_line (request_of l) ≡ ok l.estimated_cost) × Priced ls

  -- The result has a line for each request, in order, each with its own cost, and their sum.
  pub record IsEstimateOf (total : D) (requests : List (BatchRequest js.J))
      (r : BatchParseResult js.J D) : Type 0 where
    pub same_requests : map request_of r.lines ≡ requests
    pub own_costs : Priced r.lines
    pub sum : r.total_estimated_cost ≡ total_of total r.lines

  estimate_from-IsEstimateOf :
      (total : D) (requests : List (BatchRequest js.J)) (r : BatchParseResult js.J D)
      → estimate_from js zero_d add compute_cost catalog total requests ≡ ok r
      → IsEstimateOf total requests r
  unfolding estimate_from total_of
  estimate_from-IsEstimateOf total [] r e =
      subst (IsEstimateOf total [])
        (ok_inj (record { lines = []; total_estimated_cost = total }) r e)
        (record { same_requests = refl; own_costs = tt; sum = refl })
  estimate_from-IsEstimateOf total (q ∷ qs) r e =
      on_cost (cost_line q) refl e
        (λ cost rest h. estimate_from-IsEstimateOf (add total cost) qs rest h)
    where
      rest_of : D → Result BatchParseError (BatchParseResult js.J D)
      rest_of cost = estimate_from js zero_d add compute_cost catalog (add total cost) qs

      on_rest :
          (cost : D) (x : Result BatchParseError (BatchParseResult js.J D))
          → cost_line q ≡ ok cost
          → rest_of cost ≡ x
          → then_line js zero_d add compute_cost catalog q cost x ≡ ok r
          → ((rest : BatchParseResult js.J D)
              → rest_of cost ≡ ok rest
              → IsEstimateOf (add total cost) qs rest)
          → IsEstimateOf total (q ∷ qs) r
      on_rest cost (err x) c h e' ih = cc
      on_rest cost (ok rest) c h e' ih =
          let est = ih rest h in
          subst (IsEstimateOf total (q ∷ qs))
            (ok_inj (with_line js zero_d add compute_cost catalog q cost rest) r e')
            (record {
              same_requests = ap (λ l. q ∷ l) est.same_requests;
              own_costs = (c, est.own_costs);
              sum = est.sum;
            })

      on_cost :
          (x : Result BatchParseError D)
          → cost_line q ≡ x
          → costed js zero_d add compute_cost catalog q x rest_of ≡ ok r
          → ((cost : D) (rest : BatchParseResult js.J D)
              → rest_of cost ≡ ok rest
              → IsEstimateOf (add total cost) qs rest)
          → IsEstimateOf total (q ∷ qs) r
      on_cost (err x) c e' ih = cc
      on_cost (ok cost) c e' ih = on_rest cost (rest_of cost) c refl e' (λ rest h. ih cost rest h)

  -- An estimate of a batch has a line for each request, in their order, priced as that request alone
  -- is, and its total is the sum of the costs of the lines.
  pub estimate_cost-IsEstimateOf :
      (requests : List (BatchRequest js.J)) (r : BatchParseResult js.J D)
      → estimate_cost js zero_d add compute_cost catalog requests ≡ ok r
      → IsEstimateOf zero_d requests r
  unfolding estimate_cost
  estimate_cost-IsEstimateOf requests r e = estimate_from-IsEstimateOf zero_d requests r e
