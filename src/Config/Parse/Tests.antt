-- ===== src/Config/Parse/Tests.antt =====
-- Lists of the environment.
use gen.Prelude.{◌≡◌, refl, List, [], ◌∷◌, map}
use gen.Errors.{ok, raised, value_error}
use gen.Execution.Triangular.{TriangleConfig}
use gen.Config.{PairConfig}
use gen.Config.Parse.{is_space, parse_monitored_pairs, parse_monitored_triangles}
use gen.Config.Parse.RoundTrip.{
  joined, pair_fields, triangle_fields, parse_monitored_pairs-joined,
  parse_monitored_triangles-joined,
}

abbrev pairs : List PairConfig
pairs =
    record { symbol = "BTC/USDT"; exchange_buy = "binance"; exchange_sell = "kraken" }
    ∷ record { symbol = "ETH/USDT"; exchange_buy = "binance"; exchange_sell = "bybit" }
    ∷ []

abbrev triangles : List TriangleConfig
triangles = record { exchange = "binance"; quote = "USDT"; bridge = "BTC"; target = "ETH" } ∷ []

-- White space around an entry and empty entries are skipped.
loosely_written :
    parse_monitored_pairs " BTC/USDT:binance:kraken ,, ETH/USDT:binance:bybit," ≡ ok pairs
unfolding parse_monitored_pairs is_space
loosely_written = refl

two_parts : parse_monitored_pairs "BTC/USDT:binance" ≡ raised value_error
unfolding parse_monitored_pairs is_space
two_parts = refl

parse_monitored_pairs-joined_example :
    parse_monitored_pairs (joined "," (map (λ p. joined ":" (pair_fields p)) pairs)) ≡ ok pairs
unfolding is_space
parse_monitored_pairs-joined_example =
    parse_monitored_pairs-joined pairs
      ((refl, (refl, (refl, tt))), ((refl, (refl, (refl, tt))), tt))

parse_monitored_triangles-joined_example :
    parse_monitored_triangles (joined "," (map (λ t. joined ":" (triangle_fields t)) triangles))
    ≡ ok triangles
unfolding is_space
parse_monitored_triangles-joined_example =
    parse_monitored_triangles-joined triangles ((refl, (refl, (refl, (refl, tt)))), tt)
