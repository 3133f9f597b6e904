-- ===== src/Indexer/Poller/Delays.antt =====
-- The capped exponential backoff of the poll loop.
use cellora.Prelude.{ℕ, zero, suc, ◌*◌, ◌^◌, ◌≡◌, refl, min, arith}
use native.Mathlib.Nat.{pow-suc}
use cellora.Indexer.Poller.{Backoff, fresh, next_delay}

-- the state after `k` failures in a row
abbrev pub after_failures : ℕ → Backoff → Backoff
after_failures zero b = b
after_failures (suc k) b = (next_delay (after_failures k b)).1

current-after_failures : (k : ℕ) → (after_failures k fresh).current ≡ min (1000 * 2 ^ k) 30000
unfolding next_delay fresh
current-after_failures zero = refl
current-after_failures (suc k) =
    let ih = current-after_failures k in let e = pow-suc 2 k in omega arith

-- From a fresh backoff the delay after `k` failures in a row is 2 ^ k seconds, capped at 30 seconds.
pub next_delay-doubles :
    (k : ℕ) → (next_delay (after_failures k fresh)).0 ≡ min (1000 * 2 ^ k) 30000
unfolding next_delay
next_delay-doubles k = current-after_failures k
