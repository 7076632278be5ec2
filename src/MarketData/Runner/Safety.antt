-- ===== src/MarketData/Runner/Safety.antt =====
-- What the callbacks of the monitor of a pair do to its ledger.
use gen.Prelude.{Bool, true, not, ◌&&◌, if◌then◌else◌}
use gen.Errors.{ok}
use gen.Exec.{Exec}
use gen.Num.{Float}
use gen.Schemas.{OrderBookSnapshot}
use gen.Execution.BrokenLeg
use gen.Execution.BrokenLeg.{PairedOrders, execute_paired_orders}
use gen.MarketData.Features.{window_is_ready, depth_is_ready}
use gen.MarketData.Runner.{World}
use gen.MarketData.Runner.Charge.{ledger, PairCharge}
use gen.MarketData.Runner.Evaluated.{evaluate_once-Trades}
use gen.MarketData.Runner.Ledger.{none_at, KeepsTo, bind-Respects, if-Respects}
use gen.MarketData.Runner.Tick.{
  Outside, outside, evaluate_once, locked, maybe_evaluate, feed_window, feed_depth, on_buy_snapshot,
  on_sell_snapshot,
}

module _ {F C : Type 0} ⦃fl : Float F⦄ (out : Outside F C BrokenLeg.Reason) where
  abbrev Respects : {A : Type 0} → Exec (World F C) A → Type 0
  Respects m = KeepsTo (PairCharge out) ledger m

  outside-Respects : {A : Type 0} (e : Exec C A) → Respects (outside e)
  unfolding outside
  outside-Respects e (m, state, c) = none_at

  module _ (swapped : Bool) where
    locked-Respects :
        (body : Exec (World F C) (Unit {0})) → Respects body → Respects (locked out swapped body)
    unfolding locked
    locked-Respects body h (m, state, c) = h (record m { evaluating = true }, state, c)

    maybe_evaluate-Respects : Respects (maybe_evaluate out swapped)
    unfolding maybe_evaluate
    maybe_evaluate-Respects w =
        let evaluated = locked out swapped (evaluate_once out swapped) w in
        if-Respects (PairCharge out) ledger
          (not (window_is_ready w.0.temporal_window && depth_is_ready w.0.depth_builder)) w
          (ok tt, w) (if w.0.evaluating then (ok tt, w) else evaluated) none_at
          (if-Respects (PairCharge out) ledger w.0.evaluating w (ok tt, w) evaluated none_at
            (locked-Respects (evaluate_once out swapped) (evaluate_once-Trades out swapped) w))

    feed_window-Respects : (s : OrderBookSnapshot F) → Respects (feed_window out swapped s)
    unfolding feed_window
    feed_window-Respects s (m, state, c) = none_at

    feed_depth-Respects : (s : OrderBookSnapshot F) → Respects (feed_depth out swapped s)
    unfolding feed_depth
    feed_depth-Respects s (m, state, c) = none_at

    pub on_buy_snapshot-Respects :
        (s : OrderBookSnapshot F) → Respects (on_buy_snapshot out swapped s)
    unfolding on_buy_snapshot
    on_buy_snapshot-Respects s =
        bind-Respects (PairCharge out) ledger (outside (out.set_snapshot s)) _
          (outside-Respects (out.set_snapshot s))
          λ _.
            bind-Respects (PairCharge out) ledger (feed_window out swapped s) _
              (feed_window-Respects s)
              λ _.
                bind-Respects (PairCharge out) ledger (feed_depth out swapped s) _
                  (feed_depth-Respects s) λ _. maybe_evaluate-Respects

    pub on_sell_snapshot-Respects :
        (s : OrderBookSnapshot F) → Respects (on_sell_snapshot out swapped s)
    unfolding on_sell_snapshot
    on_sell_snapshot-Respects s = outside-Respects (out.set_snapshot s)
