-- ===== src/Events/Timers.antt =====
-- content/exercises/c4: the timeouts of 01-timeout-manager, the debouncer of 02-debounce, the token
-- bucket of 03-token-bucket and the state machine of 04-shutdown-fsm, as they stand. Numbers of type
-- uint64_t are natural numbers.
use cppcourse.Base.{ℕ, ltb, Bool, false, List, [], if◌then◌else◌}
use cppcourse.Base.Int.{ℤ, pos}

pub record Node : Type 0 where
  pub deadline : ℕ
  pub id : ℕ

-- `Cmp`, by which the queue puts the nearest deadline on top.
unfoldable pub cmp : Node → Node → Bool
cmp a b = ltb b.deadline a.deadline

-- The nodes in the queue and the ids in `cancelled_`, in no particular order.
pub record TimeoutManager : Type 0 where
  pub heap : List Node
  pub cancelled : List ℕ

unfoldable pub tm_create : TimeoutManager
tm_create = record { heap = []; cancelled = [] }

unfoldable pub add : ℕ → ℕ → TimeoutManager → TimeoutManager
add id deadline t = t

unfoldable pub cancel : ℕ → TimeoutManager → TimeoutManager
cancel id t = t

-- With what `*out` holds afterwards.
unfoldable pub next_deadline : ℕ → TimeoutManager → TimeoutManager × ℕ × Bool
next_deadline out t = (t, out, false)

-- With what `out_ids` holds afterwards.
unfoldable pub expire : ℕ → List ℕ → ℕ → TimeoutManager → TimeoutManager × List ℕ × ℕ
expire now out_ids max t = (t, out_ids, 0)

unfoldable pub tm_add : TimeoutManager → ℕ → ℕ → TimeoutManager
tm_add t id dl = add id dl t

unfoldable pub tm_cancel : TimeoutManager → ℕ → TimeoutManager
tm_cancel t id = cancel id t

unfoldable pub tm_next : TimeoutManager → ℕ → TimeoutManager × ℕ × ℕ
tm_next t out = let (t', out', found) = next_deadline out t in (t', out', if found then 1 else 0)

unfoldable pub tm_expire : TimeoutManager → ℕ → List ℕ → ℕ → TimeoutManager × List ℕ × ℕ
tm_expire t now out max = expire now out max t

pub record Debouncer : Type 0 where
  pub quiet : ℕ
  pub last_event : ℕ
  pub pending : Bool

unfoldable pub db_create : ℕ → Debouncer
db_create quiet_ms = record { quiet = quiet_ms; last_event = 0; pending = false }

unfoldable pub event : ℕ → Debouncer → Debouncer
event now d = d

unfoldable pub poll : ℕ → ℕ → Debouncer → Debouncer × ℕ × Bool
poll now fire_time d = (d, fire_time, false)

unfoldable pub next_fire : ℕ → Debouncer → ℕ × Bool
next_fire out d = (out, false)

unfoldable pub db_event : Debouncer → ℕ → Debouncer
db_event d now = event now d

unfoldable pub db_poll : Debouncer → ℕ → ℕ → Debouncer × ℕ × ℕ
db_poll d now ft = let (d', ft', fired) = poll now ft d in (d', ft', if fired then 1 else 0)

unfoldable pub db_next : Debouncer → ℕ → ℕ × ℕ
db_next d out = let (out', found) = next_fire out d in (out', if found then 1 else 0)

pub record Daemon : Type 0 where
  pub state : ℤ
  pub reloads : ℤ

unfoldable pub dmn_create : Daemon
dmn_create = record { state = pos 0; reloads = pos 0 }

unfoldable pub on_event : ℤ → Daemon → Daemon
on_event e d = d

unfoldable pub dmn_on : Daemon → ℤ → Daemon
dmn_on d ev = on_event ev d

unfoldable pub dmn_state : Daemon → ℤ
dmn_state d = d.state

unfoldable pub dmn_reloads : Daemon → ℤ
dmn_reloads d = d.reloads

-- The token bucket of 03-token-bucket, over any type of the values of `double`; `per_ms` is the division by
-- 1000.0.
pub record TokenBucket {ℓ} (Double : Type ℓ) : Type ℓ where
  pub cap : Double
  pub rate_per_ms : Double
  pub tokens : Double
  pub last_ms : ℕ

module _ {ℓ} {Double : Type ℓ} where
  unfoldable pub tb_create : (per_ms : Double → Double) → Double → Double → TokenBucket Double
  tb_create per_ms cap rate_per_sec = record {
    cap = cap;
    rate_per_ms = per_ms rate_per_sec;
    tokens = cap;
    last_ms = 0;
  }

  unfoldable pub allow : ℕ → TokenBucket Double → TokenBucket Double × Bool
  allow now b = (b, false)

  unfoldable pub tb_allow : TokenBucket Double → ℕ → TokenBucket Double × ℕ
  tb_allow b now = let (b', granted) = allow now b in (b', if granted then 1 else 0)
