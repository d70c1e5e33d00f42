-- ===== src/Obs/Reservoir/Tests.antt =====
-- Two places, three items.
use riftgate.Base.{ℕ, ◌≡◌, refl, [], ◌∷◌}
use riftgate.Obs.Reservoir.{new, add}
use riftgate.Obs.Reservoir.Samples.{add_all}

replaced : (add_all (new {A = ℕ} 2) ((0, 7) ∷ (0, 8) ∷ (1, 9) ∷ [])).items ≡ 7 ∷ 9 ∷ []
unfolding add_all add
replaced = refl
