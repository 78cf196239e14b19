-- ===== src/Director/Quality/Ladder.antt =====
-- The choice of `getVideoQualityLimits` in bridge/engine/EngineStreamDirector.h.
use symphony_media_bridge.Common.{
  ℕ, zero, suc, some, get_elem?, ◌≤◌, ◌<◌, ◌≡◌, refl, List, [], ◌∷◌, arith, u32_mod, ◌⊎◌, inl, inr,
}
use symphony_media_bridge.Director.State.{Director, ParticipantStreams}
use symphony_media_bridge.Director.Quality.{
  ConfigRow, top_row, config_ladder, max_receiving_video_streams, config_cost, best_config,
  uplink_of, slides_allocation, get_video_quality_limits,
}

module _ (streams slides estimate : ℕ) where
  -- Each row that fits costs at most `limit`.
  abbrev pub AllAtMost : ℕ → List ConfigRow → Type 0
  AllAtMost limit [] = Unit
  AllAtMost limit (r ∷ rs) =
      (config_cost streams slides r ≤ estimate → config_cost streams slides r ≤ limit)
      × AllAtMost limit rs

  -- Some row fits.
  abbrev pub SomeFits : List ConfigRow → Type 0
  SomeFits [] = ⊥
  SomeFits (r ∷ rs) = (config_cost streams slides r ≤ estimate) ⊎ SomeFits rs

  -- No row fits.
  abbrev pub NoneFits : List ConfigRow → Type 0
  NoneFits [] = Unit
  NoneFits (r ∷ rs) = (estimate < config_cost streams slides r) × NoneFits rs

  -- From a row that fits, the loop ends with one that fits and costs at least as much as that row
  -- and as each fitting row that was left.
  best_config_from :
      (best : ConfigRow) (best_cost : ℕ) (rs : List ConfigRow)
      → best_cost ≡ config_cost streams slides best
      → best_cost ≤ estimate
      → let r = best_config streams slides estimate best best_cost rs in
        (config_cost streams slides r ≤ estimate)
        × (best_cost ≤ config_cost streams slides r)
        × AllAtMost (config_cost streams slides r) rs
  unfolding best_config
  best_config_from best best_cost [] e h = ground arith
  best_config_from best best_cost (r ∷ rs) e h = ground (
    arith,
    best_config_from best best_cost rs e h,
    best_config_from r (config_cost streams slides r) rs refl,
  )

  best_config_first :
      (best : ConfigRow) (rs : List ConfigRow)
      → SomeFits rs
      → let r = best_config streams slides estimate best 0 rs in
        (config_cost streams slides r ≤ estimate) × AllAtMost (config_cost streams slides r) rs
  unfolding best_config
  best_config_first best [] h = absurd h
  best_config_first best (r ∷ rs) h =
      ground (
        arith,
        best_config_first best rs,
        best_config_from r (config_cost streams slides r) rs refl,
      )

  best_config_none :
      (best : ConfigRow) (rs : List ConfigRow)
      → NoneFits rs
      → best_config streams slides estimate best 0 rs ≡ best
  unfolding best_config
  best_config_none best [] h = refl
  best_config_none best (r ∷ rs) h = ground (arith, best_config_none best rs h.1)

  SomeFits-of_row :
      (rs : List ConfigRow) (i : ℕ) {r : ConfigRow}
      → get_elem? rs i ≡ some r
      → config_cost streams slides r ≤ estimate
      → SomeFits rs
  SomeFits-of_row [] i e h = cc
  SomeFits-of_row (x ∷ rs) zero {r} e h = inl (ground arith)
  SomeFits-of_row (x ∷ rs) (suc i) e h = inr (SomeFits-of_row rs i e h)

  AllAtMost-at :
      (limit : ℕ) (rs : List ConfigRow) (i : ℕ) {r : ConfigRow}
      → AllAtMost limit rs
      → get_elem? rs i ≡ some r
      → config_cost streams slides r ≤ estimate
      → config_cost streams slides r ≤ limit
  AllAtMost-at limit [] i a e h = cc
  AllAtMost-at limit (x ∷ rs) zero a e h = ground arith
  AllAtMost-at limit (x ∷ rs) (suc i) a e h = AllAtMost-at limit rs i a.1 e h

module _ (d : Director) (p : ParticipantStreams) where
  -- If the estimated uplink covers a row of the ladder, `getVideoQualityLimits` gives the qualities
  -- of a row that the uplink covers and that costs at least as much.
  pub get_video_quality_limits_best :
      (i : ℕ) {other : ConfigRow}
      → get_elem? config_ladder i ≡ some other
      → config_cost (max_receiving_video_streams d p) (slides_allocation d p) other ≤ uplink_of d p
      → let n = max_receiving_video_streams d p in
        let r = get_video_quality_limits d p in
        (config_cost n (slides_allocation d p) r ≤ uplink_of d p)
        × (config_cost n (slides_allocation d p) other ≤ config_cost n (slides_allocation d p) r)
  unfolding get_video_quality_limits
  get_video_quality_limits_best i {other} e fits =
      let n = max_receiving_video_streams d p in
      let s = slides_allocation d p in
      let best =
        best_config_first n s (uplink_of d p) top_row config_ladder
          (SomeFits-of_row n s (uplink_of d p) config_ladder i e fits) in
      (best.0, AllAtMost-at n s (uplink_of d p) _ config_ladder i best.1 e fits)

  -- If the slides alone take more than the estimated uplink, no row fits and the qualities are
  -- those of the first row, the highest of the ladder. The streams are at most 2 ^ 32 here, as they
  -- are unless `lastN` is 0.
  get_video_quality_limits_overloaded :
      uplink_of d p < slides_allocation d p
      → slides_allocation d p < u32_mod
      → max_receiving_video_streams d p ≤ u32_mod
      → get_video_quality_limits d p ≡ top_row
  unfolding get_video_quality_limits config_cost
  get_video_quality_limits_overloaded h small few =
      best_config_none (max_receiving_video_streams d p) (slides_allocation d p) (uplink_of d p)
        top_row config_ladder (omega arith)
