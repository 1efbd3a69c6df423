-- ===== src/Async/Loop.antt =====
-- An async function of a loop and a rest, run to its end.
use proc_mw.Common.{
  ℕ, zero, suc, ◌+◌, ◌*◌, ◌≤◌, ◌<◌, ◌≡◌, refl, ap, sym, ◌∙◌, ⊤, some, List, [], ◌∷◌, length, arith,
}
use proc_mw.Effect.{Ended, ok, err, panicked, Act, pure, then_run, ◌>>◌}
use proc_mw.Effect.Laws.{bind_assoc}
use proc_mw.Async.{
  Poll, ready, pending, block_on, go_on_polling, Stage, unpolled, advance, begin_each, resume_each,
  finish_by, loop_then,
}

abbrev pub run_each : {W S E : Type 0} → List (Act W S E ⊤) → Act W S E ⊤
run_each [] = pure tt
run_each (a ∷ acts) = a >> run_each acts

module _ {W S P E : Type 0} (idle : W → W) where
  -- Whatever the request and the shared state are, the stage's future is ready after the first poll and
  -- `k` more, and comes to what `act` does.
  abbrev pub Finishes : ℕ → Stage W S P E → Act W S E ⊤ → Type 0
  Finishes k st act =
      (s : S) (w : W) → go_on_polling idle st.resume k (st.begin s w) ≡ some (act s w)

  abbrev pub AllFinish : ℕ → List (Stage W S P E) → List (Act W S E ⊤) → Type 0
  AllFinish k [] [] = ⊤
  AllFinish k (st ∷ sts) (a ∷ acts) = Finishes k st a × AllFinish k sts acts
  AllFinish k _ _ = ⊥

  module _ {A : Type 0} (all : List (Stage W S P E)) (rest : Act W S E A) where
    -- One stage, of which `x` is what the last poll came to.
    stage_finishes :
        (k j n : ℕ) (st : Stage W S P E) (sts : List (Stage W S P E)) (acts : List (Act W S E ⊤))
        (x : Poll P E ⊤ × S × W) (res : Ended E ⊤ × S × W)
        → ((s : S) (w : W) (m : ℕ)
            → k * length sts ≤ m
            → go_on_polling idle (loop_then all rest) m (finish_by rest (begin_each sts s w))
              ≡ some ((run_each acts >> rest) s w))
        → go_on_polling idle st.resume j x ≡ some res
        → j + k * length sts ≤ n
        → go_on_polling idle
            (loop_then all rest)
            n
            (finish_by rest (advance (begin_each sts) st sts x))
          ≡ some (then_run (λ _. run_each acts >> rest) res)
    unfolding block_on loop_then resume_each
    stage_finishes k j n st sts acts (ready (ok _), s, w) res ih e le =
        ih s w n (omega arith) ∙ ground (arith, e)
    stage_finishes k j n st sts acts (ready (err x), s, w) res ih e le = ground (arith, e)
    stage_finishes k j n st sts acts (ready panicked, s, w) res ih e le = ground (arith, e)
    stage_finishes k zero n st sts acts (pending p, s, w) res ih e le = absurd (ground (arith, e))
    stage_finishes k (suc j) zero st sts acts (pending p, s, w) res ih e le = absurd (omega arith)
    stage_finishes k (suc j) (suc n) st sts acts (pending p, s, w) res ih e le =
        stage_finishes k j n st sts acts (st.resume p s (idle w)) res ih e (omega (arith, le))

    loop_finishes :
        (k : ℕ) (sts : List (Stage W S P E)) (acts : List (Act W S E ⊤)) (s : S) (w : W) (n : ℕ)
        → AllFinish k sts acts
        → k * length sts ≤ n
        → go_on_polling idle (loop_then all rest) n (finish_by rest (begin_each sts s w))
          ≡ some ((run_each acts >> rest) s w)
    unfolding begin_each
    loop_finishes k [] [] s w n _ le = refl
    loop_finishes k [] (a ∷ acts) s w n f le = absurd f
    loop_finishes k (st ∷ sts) [] s w n f le = absurd f
    loop_finishes k (st ∷ sts) (a ∷ acts) s w n (f, fs) le =
        stage_finishes k k n st sts acts (st.begin s w) (a s w)
          (λ s' w' m le'. loop_finishes k sts acts s' w' m fs le') (f s w) (omega arith)
        ∙ ap (λ (m : Act W S E A). some (m s w))
            (sym (bind_assoc a (λ _. run_each acts) (λ _. rest)))

  -- An async function that is a loop over stages and a rest is ready after at most one poll and `k` more
  -- for each stage, if each stage's future is ready after at most one poll and `k` more; and it comes
  -- to what the stages do one after the other, and then the rest.
  pub loop_then_finishes :
      {A : Type 0} (k n : ℕ) (sts : List (Stage W S P E)) (acts : List (Act W S E ⊤))
      (rest : Act W S E A) (s : S) (w : W)
      → AllFinish k sts acts
      → k * length sts < n
      → block_on idle (loop_then sts rest) n unpolled s w ≡ some ((run_each acts >> rest) s w)
  unfolding block_on loop_then
  loop_then_finishes k zero sts acts rest s w fs le = absurd (omega arith)
  loop_then_finishes k (suc n) sts acts rest s w fs le =
      loop_finishes sts rest k sts acts s w n fs (omega arith)
