-- ===== src/MarketData/Features/Shape.antt =====
-- The shapes of the two inputs that backend/marketdata/features.py builds.
use gen.Prelude.{
  ℕ, ◌-◌, ◌≤◌, true, ◌≡◌, refl, List, [], ◌∷◌, ◌++◌, some, length, All, All-append, All-drop,
  Bool-cases, inl, inr, ◌==◌, arith,
}
use gen.Errors.{Result, ok, raised}
use gen.Num.{Float}
use gen.Schemas.{OrderBookLevel, OrderBookSnapshot, TemporalFeatures, window_size, feature_count}
use gen.Ml.Heuristic.{append}
use gen.Ml.Heuristic.Bounds.{length-append_deque}
use gen.MarketData.Features.{
  Previous, TemporalFeatureWindow, Drift, measure, row_of, push_row, update_sides, update_window,
  window_is_ready, to_temporal_features,
}

-- A result that was returned satisfies the predicate.
abbrev Holds : {A : Type 0} → (A → Type 0) → Result A → Type 0
Holds P (ok a) = P a
Holds P (raised e) = Unit

-- At most `most` rows, all of the width.
abbrev pub IsShaped : {F : Type 0} → ℕ → ℕ → List (List F) → Type 0
IsShaped most width rows = (length rows ≤ most) × All (λ row. length row ≡ width) rows

append-IsShaped :
    {F : Type 0} (most width : ℕ) (rows : List (List F)) (row : List F)
    → length row ≡ width
    → IsShaped most width rows
    → IsShaped most width (append most rows row)
unfolding append
append-IsShaped {F} most width rows row e h =
    let P : List F → Type 0 = λ r. length r ≡ width in
    (
      omega (arith, length-append_deque most rows row),
      All-drop P (length (rows ++ row ∷ []) - most) (rows ++ row ∷ [])
          (All-append P rows (row ∷ []) h.1 (e, tt)),
    )

full_length : (n m : ℕ) → (n == m) ≡ true → n ≡ m
full_length n m e = ground arith

module _ {F : Type 0} ⦃fl : Float F⦄ where
  push_row-IsShaped :
      (w : TemporalFeatureWindow F) (r : Result (Previous F × F × F × Drift F))
      → IsShaped window_size feature_count w.rows
      → IsShaped window_size feature_count (push_row w r).1.rows
  unfolding push_row
  push_row-IsShaped w (ok m) h = append-IsShaped window_size feature_count w.rows (row_of m) refl h
  push_row-IsShaped w (raised x) h = h

  update_sides-IsShaped :
      (snapshot : OrderBookSnapshot F) (w : TemporalFeatureWindow F)
      (bids asks : List (OrderBookLevel F))
      → IsShaped window_size feature_count w.rows
      → IsShaped window_size feature_count (update_sides snapshot w bids asks).1.rows
  unfolding update_sides
  update_sides-IsShaped snapshot w [] asks h = h
  update_sides-IsShaped snapshot w (b ∷ bids) [] h = h
  update_sides-IsShaped snapshot w (b ∷ bids) (a ∷ asks) h =
      push_row-IsShaped w (measure w.notional_quantity w.prev snapshot b a) h

  -- A window holds at most WINDOW_SIZE rows of twelve features after an update by any snapshot, one
  -- that raises included, and the features it gives out are exactly WINDOW_SIZE such rows.
  pub update_window-IsShaped :
      (snapshot : OrderBookSnapshot F) (w : TemporalFeatureWindow F)
      → IsShaped window_size feature_count w.rows
      → let w' = (update_window snapshot w).1 in
        IsShaped window_size feature_count w'.rows
        × ((features : TemporalFeatures F)
            → to_temporal_features w' ≡ some features
            → (length features.window ≡ window_size)
              × All (λ row. length row ≡ feature_count) features.window)
  unfolding to_temporal_features update_window
  update_window-IsShaped snapshot w h =
      let kept = update_sides-IsShaped snapshot w snapshot.bids snapshot.asks h in
      (kept, given (update_window snapshot w).1 kept)
    where
      given :
          (w' : TemporalFeatureWindow F)
          → IsShaped window_size feature_count w'.rows
          → (features : TemporalFeatures F) → to_temporal_features w' ≡ some features
          → (length features.window ≡ window_size)
            × All (λ row. length row ≡ feature_count) features.window
      given w' k features e = elim (Bool-cases (window_is_ready w')) [
        | inl ready ↦
            let same : w'.rows ≡ features.window = cc (rw ready at e) in
            rw (← same) (full_length (length w'.rows) window_size ready, k.1)
        | inr early ↦ absurd (cc (rw early at e))
      ]
