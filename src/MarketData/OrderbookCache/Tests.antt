-- ===== src/MarketData/OrderbookCache/Tests.antt =====
-- A Redis of one value.
use Prim.Native.String.{◌∷◌, count}
use text.Mathlib.TextLemmas.{length-cons}
use gen.Prelude.{
  ℕ, zero, suc, ◌≡◌, refl, ap, ◌∙◌, str_eq_iff, Option, none, some, String, str_eq, if◌then◌else◌,
}
use gen.Errors.{Result, ok}
use gen.Num.Int.{ℤ}
use gen.MarketData.Features.Tests.{snapshot}
use gen.MarketData.OrderbookCache.{Redis, default_ttl_seconds, set_snapshot, get_snapshot}
use gen.MarketData.OrderbookCache.Payload.{SnapshotPayload, SnapshotJson, IsoTime}
use gen.MarketData.OrderbookCache.RoundTrip.{Keeps, get_snapshot-set_snapshot}

abbrev Value : Type 0
Value = SnapshotPayload ℤ

abbrev get_one : String → Option (String × Value) → Result (Option Value) × Option (String × Value)
get_one key none = (ok none, none)
get_one key (some (k, v)) = (ok (if str_eq k key then some v else none), some (k, v))

abbrev one_value : Redis Value (Option (String × Value))
one_value = record { set = λ key v seconds c. (ok tt, some (key, v)); get = get_one }

abbrev json : SnapshotJson ℤ Value
json = record { dumps = λ p. p; loads = λ p. ok p; loads-dumps = λ p. refl }

-- A time is written as so many strokes.
strokes : ℕ → String
strokes zero = ""
strokes (suc n) = "i" ∷ strokes n

count-strokes : (n : ℕ) → count (strokes n) ≡ n
unfolding strokes
count-strokes zero = refl
count-strokes (suc n) = length-cons "i" (strokes n) ∙ ap suc (count-strokes n)

abbrev iso : IsoTime
iso = record {
  isoformat = strokes;
  fromisoformat = λ s. ok (count s);
  fromisoformat-isoformat = λ n. ap ok (count-strokes n);
}

one_value-Keeps : Keeps one_value json iso
one_value-Keeps key value seconds c c' h =
    let state : some (key, value) ≡ c' = ap (λ s. s.1) h in
    rw (← state, (str_eq_iff key key).1 refl) refl

get_snapshot-set_snapshot_example :
    get_snapshot one_value json iso "kraken" "BTC/USDT"
      (set_snapshot one_value json iso default_ttl_seconds snapshot none).1
    ≡ (ok (some snapshot), (set_snapshot one_value json iso default_ttl_seconds snapshot none).1)
unfolding set_snapshot
get_snapshot-set_snapshot_example =
    get_snapshot-set_snapshot one_value json iso one_value-Keeps default_ttl_seconds snapshot none
      (set_snapshot one_value json iso default_ttl_seconds snapshot none).1 refl
