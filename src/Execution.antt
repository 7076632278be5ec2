-- ===== src/Execution.antt =====
-- backend/execution/: the risk gate, the kill switch, the alpha formulas, and the placing of orders.
pub mod Alpha
pub mod Decision
pub mod KillSwitch
pub mod Exchange
pub mod BrokenLeg
pub mod Triangular
pub mod PaperExchange
