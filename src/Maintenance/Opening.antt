-- ===== src/Maintenance/Opening.antt =====
-- internal/maintenance/window.go: when a window opens and closes.
use eth_node_operator.Common.{ℕ, suc, ◌+◌, ◌-◌, ◌%◌, ◌≤◌, ◌<◌, ◌≡◌, true, false, arith}
use eth_node_operator.Common.Int.{pos}
use eth_node_operator.Maintenance.{Window, Time, is_open, minute_of, clock}

-- The time that stands so many minutes later.
abbrev pub later : ℕ → Time → Time
later n t = record t { minutes = t.minutes + n }

-- The clock of the location runs without a change over the week that follows: no summer time starts or ends.
abbrev pub IsSteady : Time → Type 0
IsSteady t = (n : ℕ) → n ≤ 10080 → t.location (t.minutes + n) ≡ clock t + n

-- `k` is the number of whole minutes before the first open minute after `t`.
pub record IsFirst (w : Window) (t : Time) (k : ℕ) : Type 0 where
  pub opens : is_open w (later (suc k) t) ≡ true
  pub closed : (j : ℕ) → j < k → is_open w (later (suc j) t) ≡ false

next_hour : (x m : ℕ) → x % 60 ≡ m → 0 < m → (x + (60 - m)) % 60 ≡ 0
next_hour x m e p = omega arith

-- A window whose minute is not 0 closes at the end of the hour in which it opens, less than an hour later,
-- if its clock runs without a change until then.
closes_early :
    (w : Window) (t : Time) (m : ℕ)
    → w.parsed.minute ≡ pos m
    → 0 < m
    → minute_of t ≡ m
    → is_open w t ≡ true
    → t.location (t.minutes + (60 - m)) ≡ clock t + (60 - m)
    → is_open w (later (60 - m) t) ≡ false
closes_early w t m e p o h steady = ground (arith, next_hour (clock t) m o p, e, steady)
