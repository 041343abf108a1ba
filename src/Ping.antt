-- ===== src/Ping.antt =====
-- services/ping_service.py: `run_ping_cmd` on the output of the ping command, and `ping_device_async`,
-- how the result of a ping changes a device that exists and has an address. The two sessions of a ping
-- are one step, as one ping of a device runs at a time.
pub mod Laws
use atm_monitoring_agent.Prelude.{
  ℕ, ◌+◌, Bool, true, false, ◌||◌, Option, none, some, List, [], ◌∷◌, if◌then◌else◌, ◌==◌, any,
  get_or, ltb,
}
use atm_monitoring_agent.ParserModels.{Text}
use atm_monitoring_agent.TextOps.{text, is_digit, int}
use atm_monitoring_agent.TextOps.Pattern.{◌>>=◌, lit, run1, search_for}

-- The columns of `Device` that a ping reads or writes.
pub record Device : Type 0 where
  pub is_online : ℕ
  pub last_ping_time : Option Text
  pub last_latency : Option ℕ
  pub last_packet_loss : Option ℕ
  pub consecutive_failures : ℕ
  pub down_since : Option Text
  pub updated_at : Option Text

-- `(\d+)` behind one literal and before another, at a place
abbrev number_between : Text → Text → Text → Option ℕ
number_between before behind t = do
  inner ← lit before t
  (digits, rest) ← run1 is_digit inner
  after ← lit behind rest
  some (int digits)

abbrev loss_at : Text → Option ℕ
loss_at = number_between [] (text "% loss")

abbrev average_at : Text → Option ℕ
average_at = number_between (text "Average = ") (text "ms")

-- `time[=<](\d+)ms`
abbrev time_at : Text → Option ℕ
time_at t = elim (number_between (text "time=") (text "ms") t) [
  | some n ↦ some n
  | none ↦ number_between (text "time<") (text "ms") t
]

abbrev latency_in : Bool → Text → Option ℕ
latency_in is_online out = elim (search_for average_at out) [
  | some n ↦ some n
  | none ↦ if is_online then some (get_or (search_for time_at out) 5) else none
]

-- Whether the device is online, the latency and the loss; no output if the command raises.
unfoldable pub run_ping_cmd : Option Text → Bool × Option ℕ × ℕ
run_ping_cmd none = (false, none, 100)
run_ping_cmd (some out) =
    let loss = get_or (search_for loss_at out) 100 in
    (ltb loss 100, latency_in (ltb loss 100) out, loss)

-- The output of the ping command, and which ports open; `now_str` is the time as it is written.
pub record Reply : Type 0 where
  pub output : Option Text
  pub opens : ℕ → Bool
  pub now_str : Text

abbrev pub ports_to_try : List ℕ
ports_to_try = 80 ∷ 8000 ∷ 443 ∷ 554 ∷ 23 ∷ []

-- `is_online`, `latency` and `loss` behind the fallback to the ports
abbrev pub measured : Reply → Bool × Option ℕ × ℕ
measured r =
    let (ping_online, latency, loss) = run_ping_cmd r.output in
    if ping_online
    then (true, latency, loss)
    else if any r.opens ports_to_try
    then (true, some 5, 0)
    else (false, latency, loss)

unfoldable pub ping_device : Reply → Device → Device
ping_device r d =
    let (is_online, latency, loss) = measured r in
    if is_online
    then record {
      is_online = 1;
      last_ping_time = some r.now_str;
      last_latency = latency;
      last_packet_loss = some loss;
      consecutive_failures = 0;
      down_since = none;
      updated_at = some r.now_str;
    }
    else record {
      is_online = 0;
      last_ping_time = some r.now_str;
      last_latency = none;
      last_packet_loss = some 100;
      consecutive_failures = d.consecutive_failures + 1;
      down_since = if d.is_online == 1 then some r.now_str else d.down_since;
      updated_at = some r.now_str;
    }
