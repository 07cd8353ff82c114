-- ===== src/Swarm/Examples/Demo.antt =====
-- The demonstration's theorem at a concrete input.
use gole.Base.{[], ◌∷◌, codes, refl, arith}
use gole.Base.Int.{pos}
use gole.Swarm.Demo.{run_demo}
use gole.Swarm.Demo.ZeroTouch.{Finishes, default_input, run_demo-Finishes}
use gole.Swarm.Paseto.Toy.{toy, toy_marshal, toy-CryptoLaws}
use gole.Swarm.Examples.Setup.{secret, key}

run_demo-Finishes_example : Finishes (
    run_demo toy
      (default_input secret key (codes "fp") (1 ∷ []) (9 ∷ []) (pos 10) (pos 3600000000010) []))
unfolding toy_marshal
run_demo-Finishes_example =
    run_demo-Finishes toy secret key (codes "fp") (1 ∷ []) (9 ∷ []) _ (pos 10) (pos 3600000000010)
      [] toy-CryptoLaws (λ h. absurd (ground (arith, h))) (omega arith, (omega arith, tt)) refl refl
      refl
