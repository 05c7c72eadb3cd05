-- ===== src/Model/Env.antt =====
-- What the code takes from outside: the settings that it reads (libs/common/config.py), the clock,
-- and the functions of Python's libraries that it calls. One transaction reads the clock as one
-- value.
use devnest.Base.{ℕ, ◌≤◌, Option, Text}

pub record Settings : Type 0 where
  pub workspace_job_max_attempts : ℕ
  pub workspace_job_retry_backoff_seconds : ℕ
  pub workspace_capacity_retry_timeout_seconds : ℕ
  pub workspace_capacity_retry_backoff_seconds : ℕ
  pub workspace_job_stuck_timeout_seconds : ℕ
  pub workspace_session_ttl_seconds : ℕ
  pub devnest_reconcile_lease_ttl_seconds : ℕ
  pub devnest_workspace_required_cpu : ℕ
  pub devnest_workspace_required_memory_mb : ℕ
  pub devnest_workspace_required_disk_mb : ℕ
  pub devnest_workspace_required_slots : ℕ

pub record Env : Type 0 where
  pub settings : Settings
  pub now : ℕ
  -- `random.randint`
  pub randint : ℕ → ℕ → ℕ
  -- the port that `urllib.parse.urlsplit` finds in a route target
  pub route_target_port : Option Text → Option ℕ
  -- the first second of the month that a time lies in
  pub month_start : ℕ → ℕ
  -- `str` of a number
  pub show : ℕ → Text
  -- the key that the regular expression for node keys finds in a message
  pub node_key_from_error_message : Text → Option Text

-- `random.randint(a, b)` returns a number from `a` to `b`.
abbrev pub RandintInRange : Env → Type 0
RandintInRange e = (a b : ℕ) → a ≤ b → (a ≤ e.randint a b) × (e.randint a b ≤ b)
