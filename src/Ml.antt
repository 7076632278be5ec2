-- ===== src/Ml.antt =====
-- backend/ml/: the estimates that stand in for the neural network.
pub mod DepthSignal
pub mod Heuristic
pub mod Inference
