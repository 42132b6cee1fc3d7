-- ===== src/Service/Request/Bounds.antt =====
-- The pause between two attempts of a request.
use cluster_api_provider_ucl.Prelude.{
  ℕ, zero, suc, ◌+◌, ◌*◌, ◌^◌, ◌≤◌, ◌<◌, Bool-cases, inl, inr, ltb, arith,
}
use cluster_api_provider_ucl.Service.Request.{get_exp_backoff_delay}

abbrev IsPause : ℕ → Type 0
IsPause d = (100 ≤ d) × (d < 3276800)

small : (n jitter : ℕ) → n ≤ 7 → jitter < 100 → IsPause (2 ^ (n * 2) * (jitter + 100))
small zero jitter le lt = (omega arith, omega arith)
small (suc zero) jitter le lt = (omega arith, omega arith)
small (suc (suc zero)) jitter le lt = (omega arith, omega arith)
small (suc (suc (suc zero))) jitter le lt = (omega arith, omega arith)
small (suc (suc (suc (suc zero)))) jitter le lt = (omega arith, omega arith)
small (suc (suc (suc (suc (suc zero))))) jitter le lt = (omega arith, omega arith)
small (suc (suc (suc (suc (suc (suc zero)))))) jitter le lt = (omega arith, omega arith)
small (suc (suc (suc (suc (suc (suc (suc zero))))))) jitter le lt = (omega arith, omega arith)
small (suc (suc (suc (suc (suc (suc (suc (suc n)))))))) jitter le lt = absurd (omega arith)

-- For a jitter below 100, as `rand.Intn(100)` gives it, the pause before any further attempt lies
-- between a tenth of a second and 3276.8 seconds: the cap on the count keeps it from growing on.
pub get_exp_backoff_delay-IsPause :
    (retry_count jitter : ℕ)
    → jitter < 100
    → (100 ≤ get_exp_backoff_delay retry_count jitter)
      × (get_exp_backoff_delay retry_count jitter < 3276800)
get_exp_backoff_delay-IsPause n jitter lt = elim (Bool-cases (ltb 7 n)) [
  | inl e ↦ rw e (small 7 jitter (omega arith) lt)
  | inr e ↦ rw e (small n jitter (ground arith) lt)
]
