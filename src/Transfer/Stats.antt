-- ===== src/Transfer/Stats.antt =====
-- core/transfer-engine/src/progress.rs: `Stats`. A rate is a fraction, numerator first; the rounding of `f64`
-- is left out. The clock is the argument `now`.
pub mod Window
pub mod Rates
use air_ferry_i_os_source.Prelude.{
  ℕ, ◌+◌, ◌-◌, ◌*◌, ◌%◌, ◌^◌, List, ◌∷◌, ◌++◌, Option, none, some, Bool, true, false, ◌&&◌, ◌||◌,
  length, ltb, leb, ◌==◌, if◌then◌else◌,
}

abbrev pub stats_window_ms : ℕ
stats_window_ms = 3000

abbrev pub stats_max_samples : ℕ
stats_max_samples = 4096

pub record RateSample : Type 0 where
  pub t_ms : ℕ
  pub bytes : ℕ

-- The front of the queue is the head of the list.
pub record Stats : Type 0 where
  pub bytes : ℕ
  pub frames : ℕ
  pub elapsed_ms : ℕ
  pub window : List RateSample

-- The two loops of `push_sample_at`.
unfoldable pub evict_old : ℕ → List RateSample → List RateSample
evict_old cutoff List.[] = List.[]
evict_old cutoff (s ∷ window) =
    let rest = evict_old cutoff window in
    if ltb 2 (length (s ∷ window)) && ltb s.t_ms cutoff then rest else s ∷ window

unfoldable pub evict_excess : List RateSample → List RateSample
evict_excess List.[] = List.[]
evict_excess (s ∷ window) =
    let rest = evict_excess window in
    if ltb stats_max_samples (length (s ∷ window)) then rest else s ∷ window

unfoldable pub push_sample_at : Stats → ℕ → ℕ → Stats
unfolding evict_old evict_excess
push_sample_at s t_ms bytes =
    let pushed : List RateSample = s.window ++ (record { t_ms = t_ms; bytes = bytes } ∷ List.[]) in
    record s { window = evict_excess (evict_old (t_ms - stats_window_ms) pushed) }

unfoldable pub record_sent : Stats → ℕ → ℕ → Stats
unfolding push_sample_at
record_sent s now payload_bytes =
    push_sample_at
      (record s { bytes = (s.bytes + payload_bytes) % 2 ^ 64; frames = (s.frames + 1) % 2 ^ 64 })
      now payload_bytes

unfoldable pub record_received : Stats → ℕ → ℕ → Bool → Stats
unfolding push_sample_at
record_received s now payload_bytes unique =
    let counted = if unique then payload_bytes else 0 in
    push_sample_at
      (record s {
        bytes = if unique then (s.bytes + payload_bytes) % 2 ^ 64 else s.bytes;
        frames = (s.frames + 1) % 2 ^ 64;
      })
      now counted

-- What the loop of `window_rates` keeps.
pub record Tally : Type 0 where
  pub first : Option ℕ
  pub last : Option ℕ
  pub frames : ℕ
  pub bytes : ℕ

abbrev pub or_else : Option ℕ → ℕ → Option ℕ
or_else none t = some t
or_else (some f) t = some f

abbrev pub count_in : Tally → RateSample → Tally
count_in acc s = record {
  first = or_else acc.first s.t_ms;
  last = some s.t_ms;
  frames = (acc.frames + 1) % 2 ^ 64;
  bytes = (acc.bytes + s.bytes) % 2 ^ 64;
}

unfoldable pub tally : ℕ → Tally → List RateSample → Tally
tally cutoff acc List.[] = acc
tally cutoff acc (s ∷ window) =
    tally cutoff (if ltb s.t_ms cutoff then acc else count_in acc s) window

abbrev pub no_tally : Tally
no_tally = record { first = none; last = none; frames = 0; bytes = 0 }

abbrev pub span : Option ℕ → Option ℕ → ℕ
span (some f) (some l) = if ltb f l then l - f else 0
span _ _ = 0

unfoldable pub window_rates : Stats → ℕ → ℕ × ℕ × ℕ
unfolding tally
window_rates s now =
    let t = tally (now - stats_window_ms) no_tally s.window in
    (span t.first t.last, t.frames, t.bytes)

unfoldable pub cumulative_fps : Stats → ℕ × ℕ
cumulative_fps s = if s.elapsed_ms == 0 then (0, 1) else (s.frames * 1000, s.elapsed_ms)

unfoldable pub cumulative_throughput_bps : Stats → ℕ × ℕ
cumulative_throughput_bps s = if s.elapsed_ms == 0 then (0, 1) else (s.bytes * 1000, s.elapsed_ms)

unfoldable pub fps_at : Stats → ℕ → ℕ × ℕ
unfolding window_rates cumulative_fps
fps_at s now =
    let (span_ms, frames, bytes) = window_rates s now in
    if ltb frames 2 || (span_ms == 0) then cumulative_fps s else (frames * 1000, span_ms)

unfoldable pub throughput_bps_at : Stats → ℕ → ℕ × ℕ
unfolding window_rates cumulative_throughput_bps
throughput_bps_at s now =
    let (span_ms, frames, bytes) = window_rates s now in
    if (bytes == 0) || (span_ms == 0) then cumulative_throughput_bps s else (bytes * 1000, span_ms)
