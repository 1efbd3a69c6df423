-- ===== src/Metrics/Accounting.antt =====
-- `Metrics` at the head of a chain counts every request, and the successes among them.
use proc_mw.Common.{
  ℕ, suc, ◌+◌, ◌-◌, ◌^◌, ◌≤◌, ◌<◌, ◌≡◌, ap, ◌∙◌, Bool, some, List, [], ◌∷◌, length, arith,
}
use proc_mw.Int.{ℤ}
use proc_mw.Effect.{Ended, ok, err, panicked, Act, then_run, ◌>>◌, run_hook}
use proc_mw.Cell.{Cell, modify}
use proc_mw.Dispatch.{
  Ctx, new_ctx, MwError, Host, Node, dyn, enter, exit, set_output, get_output, chain_exec_ctx,
  chain_exec,
}
use proc_mw.Dispatch.Refines.{chain_exec_ctx-cons}
use proc_mw.Metrics.{Counts, count_call, count_success, errors, reset, metrics}

-- What a call leaves in the counters, by how it ended.
abbrev pub counted : {A : Type 0} → Ended MwError A → Counts → Counts
counted (ok _) s = count_success (count_call s)
counted (err _) s = count_call s
counted panicked s = count_call s

-- How many of the results are successes.
abbrev pub oks : {A : Type 0} → List (Ended MwError A) → ℕ
oks [] = 0
oks (ok _ ∷ rs) = oks rs + 1
oks (_ ∷ rs) = oks rs

module _ {W : Type 0} (host : Host W) (cell : Cell W Counts) (rest : List (Node W))
    (core : Act W Ctx MwError ℤ) where
  -- The rest of the chain and the core do not write these counters.
  abbrev pub IsApart : Type 0
  IsApart = (c : Ctx) (w : W) → cell.get (chain_exec_ctx host rest core c w).2 ≡ cell.get w

  -- One request through the chain.
  abbrev pub request : ℤ → W → Ended MwError ℤ × W
  request input w = chain_exec host (dyn (metrics cell) ∷ rest) core input w

  request-counted :
      (input : ℤ) (w : W)
      → IsApart
      → cell.get (request input w).1 ≡ counted (request input w).0 (cell.get w)
  unfolding chain_exec enter exit
  request-counted input w apart = rw (chain_exec_ctx-cons host (dyn (metrics cell)) rest core) (
      after (chain_exec_ctx host rest core (new_ctx input) entered) (apart (new_ctx input) entered))
    where
      entered : W
      entered = modify cell count_call w

      after :
          (r : Ended MwError ℤ × Ctx × W)
          → cell.get r.2 ≡ cell.get entered
          → let r' =
              then_run
                (λ (v : ℤ). set_output v >> run_hook (exit (dyn (metrics cell))) >> get_output)
                r in
            cell.get r'.2 ≡ counted r'.0 (cell.get w)
      after (ok v, c, w') h = cell.get-set _ w' ∙ ap count_success (h ∙ cell.get-set _ w)
      after (err e, c, w') h = h ∙ cell.get-set _ w
      after (panicked, c, w') h = h ∙ cell.get-set _ w

  -- Requests one after the other.
  unfoldable pub serve : List ℤ → W → List (Ended MwError ℤ) × W
  serve [] w = ([], w)
  serve (input ∷ inputs) w =
      let (r, w') = request input w in let (rs, w'') = serve inputs w' in (r ∷ rs, w'')

  serve-counted :
      (inputs : List ℤ) (n k : ℕ) (w : W)
      → IsApart
      → cell.get w ≡ record { calls = n; successes = k }
      → n + length inputs < 2 ^ 64
      → k ≤ n
      → cell.get (serve inputs w).1
        ≡ record { calls = n + length inputs; successes = k + oks (serve inputs w).0 }
  unfolding serve
  serve-counted [] n k w apart e small le = e ∙ ground arith
  serve-counted (input ∷ inputs) n k w apart e small le =
      step (request input w).0 (request input w).1
        (request-counted input w apart ∙ ap (counted (request input w).0) e)
        (λ k' e' le'.
          serve-counted inputs (n + 1) k' (request input w).1 apart e' (omega arith) le')
    where
      step :
          (r : Ended MwError ℤ) (w₁ : W)
          → cell.get w₁ ≡ counted r (record { calls = n; successes = k })
          → ((k' : ℕ)
              → cell.get w₁ ≡ record { calls = n + 1; successes = k' }
              → k' ≤ n + 1
              → cell.get (serve inputs w₁).1 ≡ record {
                calls = n + 1 + length inputs;
                successes = k' + oks (serve inputs w₁).0;
              })
          → cell.get (serve inputs w₁).1 ≡ record {
            calls = n + suc (length inputs);
            successes = k + oks (r ∷ (serve inputs w₁).0);
          }
      step (ok v) w₁ h ih = ih (k + 1) (h ∙ ground arith) (omega arith) ∙ ground arith
      step (err _) w₁ h ih = ih k (h ∙ ground arith) (omega arith) ∙ ground arith
      step panicked w₁ h ih = ih k (h ∙ ground arith) (omega arith) ∙ ground arith

  oks-cons-le : (r : Ended MwError ℤ) (rs : List (Ended MwError ℤ)) → oks (r ∷ rs) ≤ oks rs + 1
  oks-cons-le (ok _) rs = omega arith
  oks-cons-le (err _) rs = omega arith
  oks-cons-le panicked rs = omega arith

  oks-serve-le : (inputs : List ℤ) (w : W) → oks (serve inputs w).0 ≤ length inputs
  unfolding serve
  oks-serve-le [] w = omega arith
  oks-serve-le (input ∷ inputs) w = omega (
    arith,
    oks-serve-le inputs (request input w).1,
    oks-cons-le (request input w).0 (serve inputs (request input w).1).0,
  )

  -- After a reset, let requests run one after the other through a chain with `Metrics` at its head,
  -- whose other nodes and core leave its counters alone, fewer than 2 ^ 64 of them: then `calls` is
  -- their number, `successes` the number that returned `Ok`, and `errors` the number of all others.
  pub metrics_account :
      (inputs : List ℤ) (w : W) (checked : Bool)
      → IsApart
      → length inputs < 2 ^ 64
      → let (rs, w') = serve inputs (reset cell w) in
        ((cell.get w').calls ≡ length inputs)
        × ((cell.get w').successes ≡ oks rs)
        × (errors checked (cell.get w') (cell.get w') ≡ some (length inputs - oks rs))
  unfolding reset errors
  metrics_account inputs w checked apart small =
      let e =
        serve-counted inputs 0 0 (reset cell w) apart (cell.get-set _ w) (omega arith)
          (omega arith) in
      let few = oks-serve-le inputs (reset cell w) in
      (
        ap (λ (s : Counts). s.calls) e ∙ omega arith,
        ap (λ (s : Counts). s.successes) e ∙ omega arith,
        rw e (ground arith),
      )
