-- ===== src/Lazy/Examples.antt =====
-- Two threads run the closure, and the one that is second to finish gets the value of the first; so does
-- a third one, while the first has not yet dropped the closure.
use idris2_rc.Prelude.{ℕ, ◌≡◌, ◌≢◌, ◌⊎◌, true, refl, List, [], ◌∷◌}
use idris2_rc.Lazy.{
  forced, misread, force_run, force_step, at_phase, first_section, second_section, mk_lazy,
}
use idris2_rc.Lazy.Agree.{about_to_drop, force_run-agree}

abbrev race : List (ℕ × ℕ)
race =
    (0, 0)
    ∷ (1, 0)
    ∷ (0, 0)
    ∷ (1, 0)
    ∷ (0, 5)
    ∷ (1, 6)
    ∷ (1, 0)
    ∷ (0, 0)
    ∷ (1, 0)
    ∷ (0, 0)
    ∷ (2, 0)
    ∷ (2, 0)
    ∷ (1, 0)
    ∷ (0, 0)
    ∷ []

abbrev won : ℕ
won = 6

first_gets : (force_run race mk_lazy).threads 0 ≡ forced won
unfolding force_run force_step at_phase first_section second_section
first_gets = refl

late_gets : (force_run race mk_lazy).threads 2 ≡ forced won
unfolding force_run force_step at_phase first_section second_section
late_gets = refl

force_run-agree_example :
    (won ≡ won)
    × ((force_run race mk_lazy).threads 1 ≢ misread)
    × (((force_run race mk_lazy).closure_drops ≡ 1)
        ⊎ ((force_run race mk_lazy).closure_drops ≡ 0)
          × (n : ℕ) × (about_to_drop ((force_run race mk_lazy).threads n) ≡ true))
force_run-agree_example = force_run-agree race 0 2 1 won won first_gets late_gets
