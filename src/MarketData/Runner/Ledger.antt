-- ===== src/MarketData/Runner/Ledger.antt =====
-- What a monitor may do to its ledger: the paper fills and the daily notional, beside the kill switch
-- that it reads.
use gen.Prelude.{Bool, true, false, ◌≡◌, refl, sym, ap, ◌∙◌, List, ◌++◌, some, if◌then◌else◌}
use mathlib.Core.Path.{subst}
use gen.Errors.{Result, ok, raised}
use gen.Exec.{Exec, lift, continue, ◌>>=◌}
use gen.Num.{Float, ◌⊕◌}
use gen.Schemas.{ArbitrageSignal, default_limits}
use gen.Execution.Decision.{should_execute}
use gen.Execution.Decision.Laws.{kill_switch_blocks}
use gen.Execution.KillSwitch.{KillSwitch, apply}
use gen.Execution.PaperExchange.{Fill}

-- `terms` is what the monitor was configured with, `notional` the configured size of a trade.
pub record Ledger (F P : Type 0) : Type 0 where
  pub fills : List (Fill F)
  pub daily : F
  pub kill_switch : KillSwitch
  pub notional : F
  pub terms : P

module _ {F P : Type 0} ⦃fl : Float F⦄
    (Charge : Ledger F P → F → ArbitrageSignal F → List (Fill F) → F → Type 0) where
  -- One trade: the gate authorizes the alpha and the signal for the notional and the daily notional
  -- so far, under the limits that the kill switch passes on; the fills grow, and the daily notional
  -- by a volume. `Charge` relates the alpha, the signal, the new fills and the volume.
  pub record IsTrade (a b : Ledger F P) : Type 0 where
    pub alpha : F
    pub signal : ArbitrageSignal F
    pub authorized :
        (should_execute alpha signal
          (apply a.kill_switch default_limits)
          (some a.notional)
          a.daily).0
        ≡ true
    pub volume : F
    pub charged : b.daily ≡ a.daily ⊕ volume
    pub extra : List (Fill F)
    pub charge : Charge a alpha signal extra volume
    pub filled : b.fills ≡ a.fills ++ extra
    pub same_switch : b.kill_switch ≡ a.kill_switch
    pub same_notional : b.notional ≡ a.notional
    pub same_terms : b.terms ≡ a.terms

  -- Any number of trades, one after the other.
  pub data Trades (a : Ledger F P) : Ledger F P → Type 0 where
    none_at : Trades a a
    then_trade : {b : Ledger F P} (c : Ledger F P) → Trades a b → IsTrade b c → Trades a c

  pub Trades-trans : {a b c : Ledger F P} → Trades a b → Trades b c → Trades a c
  Trades-trans h none_at = h
  Trades-trans h (then_trade c k trade) = then_trade c (Trades-trans h k) trade

  pub not-IsTrade_engaged : (a b : Ledger F P) → a.kill_switch.engaged ≡ true → ¬ IsTrade a b
  unfolding apply
  not-IsTrade_engaged a b e trade = cc (
    trade.authorized,
    kill_switch_blocks trade.alpha trade.signal (apply a.kill_switch default_limits)
        (some a.notional) a.daily e,
  )

  -- While the kill switch is engaged nothing is traded.
  pub Trades-engaged : {a b : Ledger F P} → Trades a b → a.kill_switch.engaged ≡ true → b ≡ a
  Trades-engaged none_at e = refl
  Trades-engaged (then_trade {b} c h trade) e =
      absurd
        (not-IsTrade_engaged b c (ap (λ l. l.kill_switch.engaged) (Trades-engaged h e) ∙ e) trade)

module _ {F P W : Type 0} ⦃fl : Float F⦄
    (Charge : Ledger F P → F → ArbitrageSignal F → List (Fill F) → F → Type 0)
    (ledger : W → Ledger F P) where
  -- A method of an object with state `W` that changes the ledger by trades only.
  abbrev pub KeepsTo : {A : Type 0} → Exec W A → Type 0
  KeepsTo m = (w : W) → Trades Charge (ledger w) (ledger (m w).1)

  pub bind-Respects :
      {A B : Type 0} (m : Exec W A) (f : A → Exec W B)
      → KeepsTo m
      → ((a : A) → KeepsTo (f a))
      → KeepsTo (m >>= f)
  bind-Respects m f hm hf w = Trades-trans Charge (hm w) (after (m w).0 (m w).1)
    where
      after : (r : Result _) (u : W) → Trades Charge (ledger u) (ledger (continue r f u).1)
      after (ok a) u = hf a u
      after (raised e) u = none_at

  pub lift-Respects : {A : Type 0} (r : Result A) → KeepsTo (lift r)
  lift-Respects r w = none_at

  pub if-Respects :
      {A : Type 0} (b : Bool) (w : W) (x y : Result A × W)
      → Trades Charge (ledger w) (ledger x.1)
      → Trades Charge (ledger w) (ledger y.1)
      → Trades Charge (ledger w) (ledger (if b then x else y).1)
  if-Respects true w x y h k = h
  if-Respects false w x y h k = k

  -- After a step that leaves the ledger alone, what follows may use the value of the step.
  pub quiet-bind :
      {A B : Type 0} (l : Ledger F P) (m : Exec W A) (f : A → Exec W B) (w : W)
      → ledger w ≡ l
      → ledger (m w).1 ≡ ledger w
      → ((a : A) → (m w).0 ≡ ok a → ledger (m w).1 ≡ l → Trades Charge l (ledger (f a (m w).1).1))
      → Trades Charge l (ledger ((m >>= f) w).1)
  quiet-bind l m f w e quiet rest = after (m w).0 refl
    where
      after : (r : Result _) → (m w).0 ≡ r → Trades Charge l (ledger (continue r f (m w).1).1)
      after (ok a) v = rest a v (quiet ∙ e)
      after (raised x) v = subst (λ k. Trades Charge l k) (sym (quiet ∙ e)) none_at
