-- ===== src/MarketData/SampleLogger.antt =====
-- backend/marketdata/sample_logger.py: a line of JSON per evaluated tick. The clock, `json.dumps` and
-- the file are code outside the repository.
use Prim.Native.String.{◌++◌ as concat}
use gen.Prelude.{List, String}
use gen.Exec.{Exec}
use gen.Schemas.{TemporalFeatures, DepthMatrix}

pub record Sample (F : Type 0) : Type 0 where
  pub timestamp : F
  pub symbol : String
  pub exchange_buy : String
  pub exchange_sell : String
  pub net_alpha_bps : F
  pub temporal_window : List (List F)
  pub depth_grid : List (List F)

pub record SampleFile (F C : Type 0) : Type 0 where
  -- `time.time()`
  pub clock : C → F × C
  pub dumps : Sample F → String
  -- `write` to the file opened for appending
  pub append_text : String → Exec C (Unit {0})

-- `SampleLogger.log`
unfoldable pub log :
    {F C : Type 0}
    → SampleFile F C
    → String
    → String
    → String
    → TemporalFeatures F
    → DepthMatrix F
    → F
    → Exec C (Unit {0})
log file symbol exchange_buy exchange_sell temporal depth net_alpha_bps c =
    let (now, c') = file.clock c in
    file.append_text
      (concat
        (file.dumps (record {
          timestamp = now;
          symbol = symbol;
          exchange_buy = exchange_buy;
          exchange_sell = exchange_sell;
          net_alpha_bps = net_alpha_bps;
          temporal_window = temporal.window;
          depth_grid = depth.grid;
        }))
        "\n")
      c'
