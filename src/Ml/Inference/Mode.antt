-- ===== src/Ml/Inference/Mode.antt =====
-- The mode of the network.
use gen.Prelude.{Bool, false, Option, none, some, ◌≡◌, refl}
use gen.Schemas.{TemporalFeatures, DepthMatrix}
use gen.Ml.Inference.{Network, evaluate_spread, get_model}

module _ {F N : Type 0} (network : Network F N)
    (training-train : (mode : Bool) (n : N) → network.training (network.train mode n) ≡ mode) where
  -- An evaluation leaves the mode of the network as it was, whether it returns or raises.
  evaluate_spread_mode :
      (temporal : TemporalFeatures F) (depth : DepthMatrix F) (model : N)
      → network.training (evaluate_spread network temporal depth model).1 ≡ network.training model
  unfolding evaluate_spread
  evaluate_spread_mode temporal depth model =
      training-train (network.training model) (network.train false model)

-- The instance is constructed once: who asks again gets the same one, and nothing changes.
get_model_shared :
    {F N C : Type 0} (network : Network F N) (construct construct' : C → N × C) (s : Option N × C)
    → let (model, s') = get_model network construct s in
      get_model network construct' s' ≡ (model, s')
unfolding get_model
get_model_shared network construct construct' (some model, c) = refl
get_model_shared network construct construct' (none, c) = refl
