-- ===== src/Service/Timer.antt =====
-- Go's `time.Timer` as cloud/services/uhost.go uses it, with the channel of one element that it has
-- up to Go 1.22 (go.mod asks for 1.13): a value that the timer has sent stays in the channel through
-- `Stop` and `Reset` until it is received. Times are in milliseconds.
use cluster_api_provider_ucl.Prelude.{
  ℕ, ◌+◌, Bool, true, false, Option, none, some, leb, if◌then◌else◌,
}

abbrev pub second : ℕ
second = 1000

abbrev pub minute : ℕ
minute = 60000

-- `deadline` is there while the timer runs; `sent` says that the channel holds a value.
pub record Timer : Type 0 where
  pub deadline : Option ℕ
  pub sent : Bool

-- What the runtime has done by the time `now`.
abbrev pub settle : ℕ → Timer → Timer
settle now t = elim t.deadline [
  | none ↦ t
  | some d ↦ if leb d now then record { deadline = none; sent = true } else t
]

unfoldable pub new_timer : ℕ → ℕ → Timer
new_timer duration now = record { deadline = some (now + duration); sent = false }

unfoldable pub stop : ℕ → Timer → Timer
stop now t = record (settle now t) { deadline = none }

unfoldable pub reset : ℕ → ℕ → Timer → Timer
reset duration now t = record (settle now t) { deadline = some (now + duration) }

-- `case <-timer.C:` of a `select` with a default: is there a value to receive?
unfoldable pub fired : ℕ → Timer → Bool
fired now t = (settle now t).sent

-- The timer after the default case, or after a value was received.
unfoldable pub drained : ℕ → Timer → Timer
drained now t = record (settle now t) { sent = false }
