-- ===== src/Transfer/Stats/Rates.antt =====
-- core/transfer-engine/src/progress.rs, `window_rates`: the loop against sums over the live samples.
use native.Mathlib.Nat.{zero-add}
use air_ferry_i_os_source.Prelude.{
  ℕ, ◌+◌, ◌-◌, ◌%◌, ◌^◌, ◌<◌, ◌≡◌, refl, ◌∙◌, arith, inl, inr, List, [], ◌∷◌, Option, none, some,
  length, ltb, Bool-cases,
}
use air_ferry_i_os_source.Transfer.Stats.{
  RateSample, Stats, Tally, tally, count_in, no_tally, or_else, span, window_rates,
}
use air_ferry_i_os_source.Transfer.Stats.Window.{live}

-- The times of the first and the last of some samples, and the bytes of all.
pub first_of : List RateSample → Option ℕ
first_of [] = none
first_of (s ∷ w) = some s.t_ms

abbrev pub or_before : Option ℕ → Option ℕ → Option ℕ
or_before t none = t
or_before t (some l) = some l

pub last_of : List RateSample → Option ℕ
last_of [] = none
last_of (s ∷ w) = or_before (some s.t_ms) (last_of w)

pub sum_bytes : List RateSample → ℕ
sum_bytes [] = 0
sum_bytes (s ∷ w) = s.bytes + sum_bytes w

or_before-none : (o : Option ℕ) → o ≡ or_before none o
or_before-none none = refl
or_before-none (some t) = refl

or_before-or_else :
    (o : Option ℕ) (t : ℕ) (p : Option ℕ) → or_before p (or_else o t) ≡ or_before (some t) o
or_before-or_else none t p = refl
or_before-or_else (some f) t p = refl

or_before-latest :
    (o : Option ℕ) (t : ℕ) (l : Option ℕ)
    → or_before (some t) l ≡ or_before o (or_before (some t) l)
or_before-latest o t none = refl
or_before-latest o t (some l) = refl

tally-first :
    (cutoff : ℕ) (acc : Tally) (w : List RateSample)
    → (tally cutoff acc w).first ≡ or_before (first_of (live cutoff w)) acc.first
unfolding tally live first_of
tally-first cutoff acc [] = or_before-none acc.first
tally-first cutoff acc (s ∷ w) = elim (Bool-cases (ltb s.t_ms cutoff)) [
  | inl y ↦ rw (tally, live, y) (tally-first cutoff acc w)
  | inr n ↦
      rw (tally, live, n)
        (tally-first cutoff (count_in acc s) w
          ∙ or_before-or_else acc.first s.t_ms (first_of (live cutoff w)))
]

tally-last :
    (cutoff : ℕ) (acc : Tally) (w : List RateSample)
    → (tally cutoff acc w).last ≡ or_before acc.last (last_of (live cutoff w))
unfolding tally live last_of
tally-last cutoff acc [] = refl
tally-last cutoff acc (s ∷ w) = elim (Bool-cases (ltb s.t_ms cutoff)) [
  | inl y ↦ rw (tally, live, y) (tally-last cutoff acc w)
  | inr n ↦
      rw (tally, live, n)
        (tally-last cutoff (count_in acc s) w
          ∙ or_before-latest acc.last s.t_ms (last_of (live cutoff w)))
]

tally-frames :
    (cutoff : ℕ) (acc : Tally) (w : List RateSample)
    → acc.frames < 2 ^ 64
    → (tally cutoff acc w).frames ≡ (acc.frames + length (live cutoff w)) % 2 ^ 64
unfolding tally live
tally-frames cutoff acc [] h = omega arith
tally-frames cutoff acc (s ∷ w) h = elim (Bool-cases (ltb s.t_ms cutoff)) [
  | inl y ↦ rw (tally, live, y) (tally-frames cutoff acc w h)
  | inr n ↦ rw (tally, live, n) (tally-frames cutoff (count_in acc s) w (omega arith) ∙ omega arith)
]

tally-bytes :
    (cutoff : ℕ) (acc : Tally) (w : List RateSample)
    → acc.bytes < 2 ^ 64
    → (tally cutoff acc w).bytes ≡ (acc.bytes + sum_bytes (live cutoff w)) % 2 ^ 64
unfolding tally live sum_bytes
tally-bytes cutoff acc [] h = omega arith
tally-bytes cutoff acc (s ∷ w) h = elim (Bool-cases (ltb s.t_ms cutoff)) [
  | inl y ↦ rw (tally, live, y) (tally-bytes cutoff acc w h)
  | inr n ↦ rw (tally, live, n) (tally-bytes cutoff (count_in acc s) w (omega arith) ∙ omega arith)
]

abbrev pub or_zero : Option ℕ → ℕ
or_zero none = 0
or_zero (some t) = t

span-some :
    (f : ℕ) (l : Option ℕ)
    → span (some f) (or_before (some f) l) ≡ or_zero (or_before (some f) l) - f
span-some f none = ground arith
span-some f (some l) = ground arith

-- The subtraction stops at 0.
span_lem :
    (w : List RateSample)
    → span (first_of w) (last_of w) ≡ or_zero (last_of w) - or_zero (first_of w)
unfolding first_of last_of
span_lem [] = refl
span_lem (s ∷ w) = span-some s.t_ms (last_of w)

-- The rates at time `now` are those of the samples of the last three seconds: the time from the first to the last of
-- them (0 if the clock went back), their number and the sum of their bytes, both modulo 2 ^ 64.
pub window_rates_lem :
    (s : Stats) (now : ℕ)
    → window_rates s now ≡ (
      or_zero (last_of (live (now - 3000) s.window))
          - or_zero (first_of (live (now - 3000) s.window)),
      length (live (now - 3000) s.window) % 2 ^ 64,
      sum_bytes (live (now - 3000) s.window) % 2 ^ 64,
    )
unfolding window_rates
window_rates_lem s now =
    let cutoff : ℕ = now - 3000 in
    rw
      (
        tally-first cutoff no_tally s.window,
        tally-last cutoff no_tally s.window,
        tally-frames cutoff no_tally s.window (omega arith),
        tally-bytes cutoff no_tally s.window (omega arith),
        ← or_before-none (last_of (live cutoff s.window)),
        zero-add (length (live cutoff s.window)),
        zero-add (sum_bytes (live cutoff s.window)),
        span_lem (live cutoff s.window),
      )
      refl
