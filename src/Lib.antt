-- ===== src/Lib.antt =====
-- The core of the arbitrage engine under backend/: its data, its formulas, its risk gate and its
-- execution engines, and theorems on them.
--
-- The parts and their files:
-- Schemas: backend/schemas.py, the data that all parts exchange.
-- MarketData/Microstructure: backend/marketdata/microstructure.py, the average price of a walk
--   through an order book, the micro price and the order flow imbalance.
-- Execution/Alpha: backend/execution/alpha.py, the net gain of two legs and of a cycle of three.
-- Execution/Decision: backend/execution/decision.py, the risk gate, which reads the gain, the
--   signal, the limits and the notional and answers with a verdict and a reason.
-- Execution/KillSwitch: backend/execution/kill_switch.py, the flag that the limits carry into the
--   gate, and its file.
-- Execution/Exchange, Execution/BrokenLeg: backend/execution/broken_leg.py, the two concurrent
--   orders of an approved trade and the hedge of a leg left open.
-- Execution/Triangular: backend/execution/triangular.py, the three concurrent orders of a cycle and
--   the sale of what a partial fill left.
-- Execution/PaperExchange: backend/execution/paper_exchange.py, the simulated client that both
--   engines run over.
-- Security/KeyValidation: backend/security/key_validation.py, the gate before an API key is stored.
-- MarketData/Features: backend/marketdata/features.py, the rolling inputs of the network.
-- MarketData/OrderbookCache: backend/marketdata/orderbook_cache.py, the snapshots in Redis.
-- MarketData/Feed: backend/marketdata/ws_ingestion.py, the books of ccxt (Books), the exchanges that
--   the feeds share (Exchanges), and the loop of a feed.
-- MarketData/SampleLogger: backend/marketdata/sample_logger.py, the log of the inputs.
-- MarketData/Runner: backend/marketdata/runner.py, `PairMonitor`: what an evaluation decides and does,
--   the callbacks that compose it (Tick) and a run of the two feeds (Run). Ledger is what
--   the monitor has spent and Charge what an evaluation shows for a trade; Traded, Evaluated and
--   Safety follow them through the gate, an evaluation and a callback.
-- MarketData/TriangleRunner: the same of `TriangleMonitor`. MarketData/Fleet: `run_forever`.
-- RuntimeState: backend/runtime_state.py. Config, Config/Parse: backend/config.py.
-- Ml/DepthSignal, Ml/Heuristic: backend/ml/depth_signal.py and backend/ml/heuristic.py, the hazard
--   of a thin book and the signal from recent gains and returns, which the gate reads.
-- Ml/Inference: backend/ml/inference.py and backend/ml/model_cache.py, the network as a parameter.
-- Api/RateLimit: backend/api/rate_limit.py, the token bucket of each user.
-- Api/Auth, Api/Intent: backend/api/auth.py, backend/api/contracts.py and the endpoint of
--   backend/api/main.py. Api/Dashboard: the JSON endpoints of backend/api/dashboard.py.
-- Security/Envelope, Security/Ephemeral, Security/Kms: backend/security/envelope.py, ephemeral.py and
--   kms.py, the encryption of keys, the buffer that is zeroed, and the choice of the master key.
-- Db/Models, Db/Repository: backend/db/models.py and backend/db/repository.py.
--
-- How the code is written here. Python's `float` is a parameter, the record Num.Float: theorems
-- that need an order or exact arithmetic take Num.Order.IsOrdered or Num.Exact.IsExact as a named
-- hypothesis, which the integers of Num.Int satisfy. IsExact says nothing about rounding: it describes
-- the formulas, not IEEE 754. An exception is a value of Errors.Exception, without its message. A method of an object with state S
-- is an Exec S (Exec): it returns or raises, with the state that is left in both cases.
-- `asyncio.gather` is `gather` or `gather_three`, whose argument says the order in which the calls took effect.
-- Code outside the repository (exchanges, the file system, json) is a parameter: a record of the
-- functions the code calls, with what the code relies on as fields or hypotheses. Loops are
-- recursion on their list or on their counted number of rounds. The loop of a feed alone may not
-- end: it takes fuel, one for each pass and one for the end, and its theorem says that more fuel than
-- snapshots is enough. What runs at once in a monitor, and all monitors together, is a sequence of
-- events: the snapshots and failures of the feeds, and the dashboard's settings of the kill switch, in
-- the order in which they are handled. Such an event is handled whole: the awaits inside a callback, as
-- between the gate and the fills, are no points of interleaving here.
--
-- Not modelled: the layers of the neural network and its training (torch), the HTML of the dashboard, the engine of
-- the database and its migrations, the validation of a request's body, log lines, and the texts of
-- messages.
pub mod Prelude
pub mod Errors
pub mod Exec
pub mod Num
pub mod Schemas
pub mod Execution
pub mod MarketData
pub mod Security
pub mod Ml
pub mod Api
pub mod RuntimeState
pub mod Config
pub mod Db
