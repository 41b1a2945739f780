-- ===== src/Worker/Retry.antt =====
-- How often a job is attempted, and how long a retry waits.
use email_proxy.Prelude.{ℕ, ◌*◌, ◌^◌, ◌≤◌, ◌<◌, ◌≡◌, refl, arith}
use email_proxy.Worker.{backoff}
use native.Mathlib.Nat.{pow-le-pow_right}

-- The delay doubles with each retry and the int64 that holds it does not wrap, for every retry
-- count up to 33.
pub backoff_exact : (n : ℕ) → n ≤ 33 → (backoff n ≡ 1000000000 * 2 ^ n) × (backoff n < 2 ^ 63)
unfolding backoff
backoff_exact n h =
    let small : 2 ^ n ≤ 2 ^ 33 = pow-le-pow_right {n = 2} (omega arith) h in
    (omega arith, omega arith)

-- From the 34th retry on it does:
backoff_34 : backoff 34 ≡ 17179869184000000000
unfolding backoff
backoff_34 = refl
