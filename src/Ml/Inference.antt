-- ===== src/Ml/Inference.antt =====
-- backend/ml/inference.py and backend/ml/model_cache.py: one evaluation of the network, and the instance
-- that all callers share. torch and the network are code outside of these files.
pub mod Mode
use gen.Prelude.{Bool, true, false, Option, none, some, ◌≡◌}
use gen.Errors.{Result, ok, raised}
use gen.Exec.{Exec}
use gen.Schemas.{TemporalFeatures, DepthMatrix, ArbitrageSignal}

-- The heads of the network, after `item()`.
pub record Outputs (F : Type 0) : Type 0 where
  pub execution_probability : F
  pub expected_alpha_bps : F
  pub adverse_hazard : F

pub record Network (F N : Type 0) : Type 0 where
  pub training : N → Bool
  -- `train(mode)`; `eval()` is `train(False)`
  pub train : Bool → N → N
  -- the tensors of the inputs, and the call of the model without gradients
  pub forward : TemporalFeatures F → DepthMatrix F → N → Result (Outputs F)

module _ {F N : Type 0} (network : Network F N) where
  unfoldable pub signal_of : Result (Outputs F) → Result (ArbitrageSignal F)
  signal_of (ok outputs) = ok (record {
    execution_probability = outputs.execution_probability;
    expected_alpha_bps = outputs.expected_alpha_bps;
    adverse_hazard = outputs.adverse_hazard;
  })
  signal_of (raised e) = raised e

  -- The mode is set back however the evaluation ends.
  unfoldable pub evaluate_spread : TemporalFeatures F → DepthMatrix F → Exec N (ArbitrageSignal F)
  unfolding signal_of
  evaluate_spread temporal depth model =
      let was_training = network.training model in
      let evaluating = network.train false model in
      (signal_of (network.forward temporal depth evaluating), network.train was_training evaluating)

  -- `get_model`, with `BimodalArbitrageNet()` and the instance that is kept.
  unfoldable pub get_model : {C : Type 0} → (C → N × C) → Option N × C → N × (Option N × C)
  get_model construct (some model, c) = (model, (some model, c))
  get_model construct (none, c) =
      let (model, c') = construct c in
      let evaluating = network.train false model in (evaluating, (some evaluating, c'))
