-- ===== src/Snapshot/Estimate.antt =====
-- Durations, their bands, and how figures are printed (internal/snapshot/estimate.go).
use reversibility_engine.Prelude.Format.{format}
use reversibility_engine.Prelude.Text.{Text, text}
use reversibility_engine.Prelude.Int.{ℤ, pos, ltb_ℤ}
use reversibility_engine.Prelude.{
  ℕ, ◌*◌, not, ◌||◌, Option, none, some, List, [], ◌∷◌, ◌++◌, ltb, if◌then◌else◌,
}
use reversibility_engine.Domain.Verdict.{LockHazard, lock_full_scan, lock_table_rewrite, at_least}
use reversibility_engine.Domain.Finding.{
  LockDurationBand, band_negligible, band_noticeable, band_disruptive, band_outage,
}
use reversibility_engine.Postgres.Statement.{signed_decimal}
use reversibility_engine.Snapshot.Float.{Floats, is_not_positive}

-- `rewriteBytesPerSecond` and `scanBytesPerSecond`.
abbrev pub rewrite_bytes_per_second : ℕ
rewrite_bytes_per_second = 50 * 1048576

abbrev pub scan_bytes_per_second : ℕ
scan_bytes_per_second = 200 * 1048576

-- `time.Second`, in nanoseconds.
abbrev pub second : ℕ
second = 1000000000

-- `rateFor`.
unfoldable pub rate_for : LockHazard → Option ℕ
rate_for lock_table_rewrite = some rewrite_bytes_per_second
rate_for lock_full_scan = some scan_bytes_per_second
rate_for _ = none

-- The band of a duration in nanoseconds.
unfoldable pub band_of : ℤ → LockDurationBand
band_of d =
    if ltb_ℤ d (pos (1 * second))
    then band_negligible
    else (if ltb_ℤ d (pos (30 * second))
        then band_noticeable
        else (if ltb_ℤ d (pos (300 * second)) then band_disruptive else band_outage))

module _ {F : Type 0} (fl : Floats F) where
  abbrev int : ℕ → F
  int n = fl.of_int (pos n)

  -- `time.Duration(float64(sizeBytes) / float64(rate) * float64(time.Second))`.
  unfoldable pub duration : ℤ → ℕ → ℤ
  duration size rate = fl.to_int (fl.times (fl.divide (fl.of_int size) (int rate)) (int second))

  rated_band : Option ℕ → ℤ → LockDurationBand
  unfolding band_of duration
  rated_band none size = LockDurationBand.other []
  rated_band (some rate) size = band_of (duration size rate)

  -- `bandFor`: no band for a lighter lock, an unknown size or a lock without a rate.
  unfoldable pub band_for : ℤ → LockHazard → LockDurationBand
  unfolding at_least rated_band rate_for
  band_for size lock =
      if not (at_least lock lock_full_scan) || is_not_positive size
      then LockDurationBand.other []
      else rated_band (rate_for lock) size

  rounded : F → Text
  unfolding signed_decimal
  rounded x = signed_decimal (fl.to_int (fl.round x))

  hours_text : F → Text
  unfolding format rounded text
  hours_text hours =
      if fl.less hours (int 10)
      then format (text "~%sh") (fl.fixed_1 hours ∷ [])
      else format (text "~%sh") (rounded hours ∷ [])

  -- `estimate`.
  unfoldable pub estimate : ℤ → ℕ → Text
  unfolding format rounded hours_text text
  estimate size rate =
      let seconds = fl.divide (fl.of_int size) (int rate) in
      if is_not_positive size || ltb rate 1
      then []
      else (if fl.less seconds (int 1)
          then text "~<1s"
          else (if fl.less seconds (int 90)
              then format (text "~%ss") (rounded seconds ∷ [])
              else (if fl.less seconds (int 5400)
                  then format (text "~%sm") (rounded (fl.divide seconds (int 60)) ∷ [])
                  else hours_text (fl.divide seconds (int 3600)))))

  rated_estimate : Option ℕ → ℤ → Text
  unfolding estimate
  rated_estimate none size = []
  rated_estimate (some rate) size = estimate size rate

  -- `estimateFor`.
  unfoldable pub estimate_for : ℤ → LockHazard → Text
  unfolding rated_estimate rate_for
  estimate_for size lock = rated_estimate (rate_for lock) size

  -- The value in the first unit in which it is below 1024, or in the last.
  in_unit : F → Text → List Text → F × Text
  in_unit value unit [] = (value, unit)
  in_unit value unit (u ∷ us) =
      let smaller = fl.divide value (int 1024) in
      let rest = in_unit smaller u us in if fl.less smaller (int 1024) then (smaller, u) else rest

  -- `formatBytes`.
  unfoldable pub format_bytes : ℤ → Text
  unfolding format in_unit signed_decimal text
  format_bytes b =
      let r =
        in_unit (fl.of_int b) []
          (text "KiB" ∷ text "MiB" ∷ text "GiB" ∷ text "TiB" ∷ text "PiB" ∷ []) in
      if ltb_ℤ b (pos 0)
      then text "an unknown size"
      else (if ltb_ℤ b (pos 1024)
          then format (text "%s B") (signed_decimal b ∷ [])
          else (if fl.at_most (int 100) r.0
              then format (text "%s %s") (fl.fixed_0 r.0 ∷ r.1 ∷ [])
              else format (text "%s %s") (fl.fixed_1 r.0 ∷ r.1 ∷ [])))

  -- `trimZero`.
  unfoldable pub trim_zero : F → Text
  trim_zero v = if fl.at_most (int 100) v then fl.fixed_0 v else fl.fixed_1 v

  -- `formatRows`.
  unfoldable pub format_rows : ℤ → Text
  unfolding format trim_zero signed_decimal text
  format_rows n =
      if ltb_ℤ n (pos 0)
      then text "an unknown number of"
      else (if ltb_ℤ n (pos 1000)
          then signed_decimal n
          else (if ltb_ℤ n (pos 1000000)
              then format (text "%sK") (fl.fixed_0 (fl.divide (fl.of_int n) (int 1000)) ∷ [])
              else (if ltb_ℤ n (pos 1000000000)
                  then trim_zero (fl.divide (fl.of_int n) (int 1000000)) ++ text "M"
                  else trim_zero (fl.divide (fl.of_int n) (int 1000000000)) ++ text "B")))

  -- `formatPercent`.
  unfoldable pub format_percent : F → Text
  unfolding text
  format_percent f =
      if fl.at_most f (int 0)
      then text "0%"
      else (if fl.less f (fl.divide (int 1) (int 10000))
          then text "<0.01%"
          else (if fl.less f (fl.divide (int 1) (int 100))
              then fl.fixed_2 (fl.times f (int 100)) ++ text "%"
              else fl.fixed_0 (fl.times f (int 100)) ++ text "%"))
