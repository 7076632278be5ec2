-- ===== src/Config/Parse.antt =====
-- backend/config.py: the lists of monitored pairs and triangles, and the settings of the runner.
-- `split` and `strip` are Python's; `float` of a text and `lower` are arguments.
pub mod RoundTrip
pub mod Tests
use Prim.Native.Char.{Char, code}
use Prim.Native.String.{[], ◌∷◌}
use gen.Prelude.{
  ℕ, Bool, true, false, ◌&&◌, ◌||◌, List, [], ◌∷◌, Option, none, some, String, str_eq, leb, ◌==◌,
  if◌then◌else◌,
}
use gen.Errors.{Result, ok, raised, value_error, ◌>>=◌}
use gen.Num.{Float}
use gen.Execution.Triangular.{TriangleConfig}
use gen.Config.{PairConfig, RunnerConfig}

-- `str.isspace` of one character, by its code point.
unfoldable pub is_space : ℕ → Bool
is_space n =
    (leb 9 n && leb n 13)
    || (leb 28 n && leb n 32)
    || n == 133
    || n == 160
    || n == 5760
    || (leb 8192 n && leb n 8202)
    || n == 8232
    || n == 8233
    || n == 8239
    || n == 8287
    || n == 12288

unfoldable pub lstrip : String → String
lstrip [] = []
lstrip (c ∷ s) = let rest = lstrip s in if is_space (code c) then rest else c ∷ s

abbrev pub is_empty : String → Bool
is_empty [] = true
is_empty (c ∷ s) = false

unfoldable pub rstrip : String → String
rstrip [] = []
rstrip (c ∷ s) = let rest = rstrip s in if is_empty rest && is_space (code c) then [] else c ∷ rest

unfoldable pub strip : String → String
unfolding lstrip rstrip
strip s = lstrip (rstrip s)

unfoldable pub longer : Char → List String → List String
longer c [] = (c ∷ []) ∷ []
longer c (part ∷ parts) = (c ∷ part) ∷ parts

-- `split` at a character, given by its code point.
unfoldable pub split : ℕ → String → List String
unfolding longer
split sep [] = "" ∷ []
split sep (c ∷ s) = let parts = split sep s in if code c == sep then "" ∷ parts else longer c parts

unfoldable pub pair_of : List String → Result PairConfig
pair_of (symbol ∷ exchange_buy ∷ exchange_sell ∷ []) =
    ok (record { symbol = symbol; exchange_buy = exchange_buy; exchange_sell = exchange_sell })
pair_of _ = raised value_error

unfoldable pub triangle_of : List String → Result TriangleConfig
triangle_of (quote ∷ bridge ∷ target ∷ exchange ∷ []) =
    ok (record { exchange = exchange; quote = quote; bridge = bridge; target = target })
triangle_of _ = raised value_error

-- The loop over the chunks, which both parsers have.
unfoldable pub parse_chunks :
    {A : Type 0} → (List String → Result A) → List String → Result (List A)
unfolding strip split
parse_chunks entry [] = ok []
parse_chunks entry (raw ∷ rest) =
    let chunk = strip raw in
    let others = parse_chunks entry rest in
    let kept = entry (split 58 chunk) >>= λ x. others >>= λ xs. ok (x ∷ xs) in
    if is_empty chunk then others else kept

-- `_parse_monitored_pairs`
unfoldable pub parse_monitored_pairs : String → Result (List PairConfig)
unfolding parse_chunks pair_of split
parse_monitored_pairs raw = parse_chunks pair_of (split 44 raw)

-- `_parse_monitored_triangles`
unfoldable pub parse_monitored_triangles : String → Result (List TriangleConfig)
unfolding parse_chunks triangle_of split
parse_monitored_triangles raw = parse_chunks triangle_of (split 44 raw)

-- `os.environ.get(name, text)`
unfoldable pub setting : (String → Option String) → String → String → String
setting environ name text = or_text (environ name)
  where
    or_text : Option String → String
    or_text none = text
    or_text (some s) = s

-- `text.lower() in ("1", "true", "yes")`
unfoldable pub is_set : (String → String) → String → Bool
is_set lower text =
    str_eq (lower text) "1" || str_eq (lower text) "true" || str_eq (lower text) "yes"

unfoldable pub load_runner_config :
    {F : Type 0}
    → (String → Option String)
    → (String → String)
    → (String → Result F)
    → Result (RunnerConfig F)
unfolding parse_monitored_pairs parse_monitored_triangles setting is_set
load_runner_config environ lower float =
    parse_monitored_pairs (setting environ "MONITORED_PAIRS" "") >>= λ pairs.
    parse_monitored_triangles (setting environ "MONITORED_TRIANGLES" "") >>= λ triangles.
    float (setting environ "NOTIONAL_PER_TRADE_USD" "50.0") >>= λ notional.
    float (setting environ "DEFAULT_TAKER_FEE_BPS" "10.0") >>= λ fee.
    float (setting environ "POLL_INTERVAL_S" "2.0") >>= λ interval. ok (record {
      monitored_pairs = pairs;
      monitored_triangles = triangles;
      notional_per_trade_usd = notional;
      default_taker_fee_bps = fee;
      poll_interval_s = interval;
      local_user_email = setting environ "LOCAL_USER_EMAIL" "local@paper-trading.dev";
      redis_url = setting environ "REDIS_URL" "redis://localhost:6379/0";
      enabled = is_set lower (setting environ "RUNNER_ENABLED" "true");
      sample_logging_enabled = is_set lower (setting environ "SAMPLE_LOGGING_ENABLED" "true");
      sample_log_path = setting environ "SAMPLE_LOG_PATH" "data/training_samples.jsonl";
    })
