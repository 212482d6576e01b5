-- ===== src/Transfer/Stats/Window.antt =====
-- core/transfer-engine/src/progress.rs: the sliding window of `Stats`.
use air_ferry_i_os_source.Prelude.{
  ℕ, ◌-◌, ◌≤◌, ◌<◌, ◌≡◌, refl, ap, ◌∙◌, arith, inl, inr, List, [], ◌∷◌, ◌++◌, ◌&&◌, length, ltb,
  if◌then◌else◌, Bool-cases, length-append,
}
use air_ferry_i_os_source.Transfer.Stats.{
  RateSample, Stats, evict_old, evict_excess, push_sample_at, stats_window_ms, stats_max_samples,
}

-- The samples that are not older than `cutoff`.
unfoldable pub live : ℕ → List RateSample → List RateSample
live cutoff [] = []
live cutoff (s ∷ window) = if ltb s.t_ms cutoff then live cutoff window else s ∷ live cutoff window

evict_excess-bound : (w : List RateSample) → length (evict_excess w) ≤ 4096
unfolding evict_excess
evict_excess-bound [] = omega arith
evict_excess-bound (s ∷ w) = elim (Bool-cases (ltb stats_max_samples (length (s ∷ w)))) [
  | inl y ↦ rw y (evict_excess-bound w)
  | inr n ↦ rw n (ground arith)
]

evict_excess-fits : (w : List RateSample) → length w ≤ 4096 → evict_excess w ≡ w
unfolding evict_excess
evict_excess-fits [] h = refl
evict_excess-fits (s ∷ w) h = ground arith

live-evict_old :
    (cutoff : ℕ) (w : List RateSample) → live cutoff (evict_old cutoff w) ≡ live cutoff w
unfolding evict_old live
live-evict_old cutoff [] = refl
live-evict_old cutoff (s ∷ w) = elim (Bool-cases (ltb 2 (length (s ∷ w)) && ltb s.t_ms cutoff)) [
  | inl y ↦ rw y (live-evict_old cutoff w ∙ ground arith)
  | inr n ↦ rw n refl
]

-- A push keeps at most 4096 samples.
pub push_sample_at-bound :
    (s : Stats) (t_ms bytes : ℕ) → length (push_sample_at s t_ms bytes).window ≤ 4096
unfolding push_sample_at
push_sample_at-bound s t_ms bytes =
    evict_excess-bound (
      evict_old (t_ms - stats_window_ms) (s.window ++ (record { t_ms = t_ms; bytes = bytes } ∷ [])))

length-evict_old : (cutoff : ℕ) (w : List RateSample) → length (evict_old cutoff w) ≤ length w
unfolding evict_old
length-evict_old cutoff [] = omega arith
length-evict_old cutoff (s ∷ w) = ground (arith, length-evict_old cutoff w)

live-append :
    (cutoff : ℕ) (w v : List RateSample) → live cutoff (w ++ v) ≡ live cutoff w ++ live cutoff v
unfolding live
live-append cutoff [] v = refl
live-append cutoff (s ∷ w) v = elim (Bool-cases (ltb s.t_ms cutoff)) [
  | inl y ↦ rw y (live-append cutoff w v)
  | inr n ↦ rw n (ap (λ t. s ∷ t) (live-append cutoff w v))
]

-- With fewer than 4096 samples in the window, a push at time `t_ms` keeps every sample of the last three seconds,
-- in their order, and adds its own behind them.
pub push_sample_at-live :
    (s : Stats) (t_ms bytes : ℕ)
    → length s.window < 4096
    → live (t_ms - 3000) (push_sample_at s t_ms bytes).window
      ≡ live (t_ms - 3000) s.window ++ (record { t_ms = t_ms; bytes = bytes } ∷ [])
unfolding push_sample_at live
push_sample_at-live s t_ms bytes h =
    let new : List RateSample = record { t_ms = t_ms; bytes = bytes } ∷ [] in
    let cutoff : ℕ = t_ms - 3000 in
    let short = length-evict_old cutoff (s.window ++ new) in
    let fits =
      evict_excess-fits (evict_old cutoff (s.window ++ new))
        (omega (arith, length-append s.window new)) in
    let own : live cutoff new ≡ new = ground arith in
    ap (live cutoff) fits
    ∙ live-evict_old cutoff (s.window ++ new)
    ∙ live-append cutoff s.window new
    ∙ ap (λ t. live cutoff s.window ++ t) own
