-- ===== src/Onion/TwoPass.antt =====
-- Two loops make an onion: enter every layer in order, run the core, exit every layer in reverse.
use mathlib.Core.List.{reverse-cons}
use proc_mw.Common.{⊤, ◌≡◌, ap, sym, ◌∙◌, fun_ext, List, [], ◌∷◌, ◌++◌, reverse, ◌≡⟨◌⟩◌, ◌∎}
use proc_mw.Effect.{Act, pure, ◌>>=◌, ◌>>◌}
use proc_mw.Effect.Laws.{bind_assoc, bind-pure}
use proc_mw.Onion.{Layer, onion}

module _ {W S E : Type 0} where
  unfoldable pub enter_layers : List (Layer W S E) → Act W S E ⊤
  enter_layers [] = pure tt
  enter_layers (l ∷ ls) = l.enter >> enter_layers ls

  unfoldable pub exit_layers : List (Layer W S E) → Act W S E ⊤
  exit_layers [] = pure tt
  exit_layers (l ∷ ls) = l.exit >> exit_layers ls

  abbrev pub two_pass : {A : Type 0} → List (Layer W S E) → Act W S E A → Act W S E A
  two_pass ls core = do enter_layers ls; a ← core; exit_layers (reverse ls); pure a

  exit_layers-concat :
      {A : Type 0} (ls : List (Layer W S E)) (l : Layer W S E) (k : Act W S E A)
      → (exit_layers (ls ++ l ∷ []) >> k) ≡ (exit_layers ls >> (l.exit >> k))
  unfolding exit_layers
  exit_layers-concat {A} [] l k = bind_assoc l.exit (λ _. pure tt) (λ _. k)
  exit_layers-concat {A} (x ∷ xs) l k =
      (x.exit >> exit_layers (xs ++ l ∷ []) >> k)
      ≡⟨ bind_assoc x.exit (λ _. exit_layers (xs ++ l ∷ [])) (λ _. k) ⟩
        (x.exit >> (exit_layers (xs ++ l ∷ []) >> k))
      ≡⟨ ap (λ (m : Act W S E A). x.exit >> m) (exit_layers-concat xs l k) ⟩
        (x.exit >> (exit_layers xs >> (l.exit >> k)))
      ≡⟨ sym (bind_assoc x.exit (λ _. exit_layers xs) (λ _. l.exit >> k)) ⟩
        (x.exit >> exit_layers xs >> (l.exit >> k)) ∎

  after_two_pass :
      {A : Type 0} (l : Layer W S E) (ls : List (Layer W S E)) (core : Act W S E A)
      → (do a ← two_pass ls core; l.exit; pure a)
        ≡ (do enter_layers ls; a ← core; exit_layers (reverse ls ++ l ∷ []); pure a)
  after_two_pass {A} l ls core =
      let leave = λ (a : A). l.exit >> pure {W = W} {S = S} {E = E} a in
      let close = λ (a : A). exit_layers (reverse ls) >> pure {W = W} {S = S} {E = E} a in
      bind_assoc (enter_layers ls) (λ _. core >>= close) leave
      ∙ ap (λ (m : Act W S E A). enter_layers ls >> m)
          (bind_assoc core close leave
            ∙ ap (λ (f : A → Act W S E A). core >>= f)
                (fun_ext λ a.
                  bind_assoc (exit_layers (reverse ls)) (λ _. pure a) leave
                  ∙ sym (exit_layers-concat (reverse ls) l (pure a))))

  pub two_pass-eq-onion :
      {A : Type 0} (ls : List (Layer W S E)) (core : Act W S E A) → two_pass ls core ≡ onion ls core
  unfolding onion enter_layers exit_layers
  two_pass-eq-onion [] core = bind-pure core
  two_pass-eq-onion {A} (l ∷ ls) core =
      rw (reverse-cons, ← two_pass-eq-onion ls core, bind_assoc)
        (ap (λ (m : Act W S E A). l.enter >> m) (sym (after_two_pass l ls core)))
