-- ===== src/Desktop/Service/Backoff.antt =====
-- The delays of `scheduleReconnect`.
use native.Mathlib.Nat.{pow-suc}
use agentunited.Prelude.{ℕ, zero, suc, ◌*◌, ◌^◌, ◌≤◌, ◌≡◌, min, arith}
use agentunited.Desktop.Service.{Config, delay_of}

double-pow : (i k : ℕ) → i * 2 ^ suc k ≡ 2 * (i * 2 ^ k)
double-pow i k = rw (pow-suc 2 k) (omega arith)

at_least : (i k : ℕ) → i ≤ i * 2 ^ k
at_least i zero = omega arith
at_least i (suc k) = omega (arith, double-pow i k, at_least i k)

-- Each failed attempt doubles the delay before the next one, up to 30 seconds, and the first
-- delay is the configured interval, cut at 30 seconds.
delay_of_doubles :
    (c : Config) (k : ℕ)
    → (delay_of c 0 ≡ min c.reconnect_interval 30000)
      × (delay_of c (suc k) ≡ min (2 * delay_of c k) 30000)
unfolding delay_of
delay_of_doubles c k = (omega arith, omega (arith, double-pow c.reconnect_interval k))

-- With an interval of at most 30 seconds no delay is shorter than the interval, none is longer
-- than 30 seconds, and no attempt waits less than the one before it.
pub delay_of_bounds :
    (c : Config) (k : ℕ)
    → c.reconnect_interval ≤ 30000
    → (c.reconnect_interval ≤ delay_of c k)
      × (delay_of c k ≤ 30000)
      × (delay_of c k ≤ delay_of c (suc k))
unfolding delay_of
delay_of_bounds c k h =
    ground (arith, double-pow c.reconnect_interval k, at_least c.reconnect_interval k)
