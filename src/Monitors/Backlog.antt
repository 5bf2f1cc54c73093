-- ===== src/Monitors/Backlog.antt =====
-- apps/eddn-listener/src/queueMonitor.ts. BullMQ's counts are arguments of a check.
use elitehub_vault.Base.{
  ℕ, ◌-◌, ◌++◌, Text, codes, decimal, text_eq, nat_eq, List, [], ◌∷◌, Option, none, some, Bool,
  true, false, not, ◌&&◌, ◌||◌, ◌≡◌, arith, ltb, leb, ◌==◌, if◌then◌else◌, or_else,
}
use elitehub_vault.Monitors.{
  Notice, status, opened, recovered, failure, alert_behind, alert_behind-append,
}

abbrev pub waiting_jobs_alert_threshold : ℕ
waiting_jobs_alert_threshold = 3000

-- `getJobCounts`, with the counts that it leaves out, and the time of the oldest waiting job.
pub record QueueReading : Type 0 where
  pub waiting : Option ℕ
  pub active : Option ℕ
  pub delayed : Option ℕ
  pub oldest_timestamp : Option ℕ

pub record Backlog : Type 0 where
  pub backlog_alert_open : Bool
  pub last_logged_state : Option Text
  pub notices : List Notice

unfoldable pub oldest_waiting_job_age_ms : ℕ → Option ℕ → ℕ
oldest_waiting_job_age_ms now none = 0
oldest_waiting_job_age_ms now (some timestamp) = now - timestamp

unfoldable pub state_key : ℕ → ℕ → ℕ → ℕ → Text
unfolding decimal
state_key waiting active delayed age =
    decimal waiting
    ++ (codes ":"
        ++ (decimal active ++ (codes ":" ++ (decimal delayed ++ (codes ":" ++ decimal age)))))

-- Only what is not idle, or is new, is logged.
unfoldable pub log_health : Bool → Text → Backlog → Backlog
log_health is_idle key b =
    if not is_idle || not (or_else b.last_logged_state [] == key)
    then record b { last_logged_state = some key; notices = b.notices ++ (status ∷ []) }
    else b

unfoldable pub judge_backlog : ℕ → Backlog → Backlog
judge_backlog waiting b =
    if ltb waiting_jobs_alert_threshold waiting && not b.backlog_alert_open
    then record b { backlog_alert_open = true; notices = b.notices ++ (opened ∷ []) }
    else if leb waiting waiting_jobs_alert_threshold && b.backlog_alert_open
    then record b { backlog_alert_open = false; notices = b.notices ++ (recovered ∷ []) }
    else b

unfoldable pub monitor_queue_health : ℕ → QueueReading → Backlog → Backlog
unfolding oldest_waiting_job_age_ms state_key log_health judge_backlog
monitor_queue_health now reading b =
    let waiting = or_else reading.waiting 0 in
    let active = or_else reading.active 0 in
    let delayed = or_else reading.delayed 0 in
    let age = if waiting == 0 then 0 else oldest_waiting_job_age_ms now reading.oldest_timestamp in
    let is_idle = waiting == 0 && (active == 0 && delayed == 0) in
    judge_backlog waiting (log_health is_idle (state_key waiting active delayed age) b)

-- `runMonitor`: a reading that throws is reported, and changes nothing else.
unfoldable pub run_monitor : ℕ → Option QueueReading → Backlog → Backlog
unfolding monitor_queue_health
run_monitor now none b = record b { notices = b.notices ++ (failure ∷ []) }
run_monitor now (some reading) b = monitor_queue_health now reading b

unfoldable pub run_monitors : List (ℕ × Option QueueReading) → Backlog → Backlog
unfolding run_monitor
run_monitors [] b = b
run_monitors ((now, reading) ∷ rest) b = run_monitors rest (run_monitor now reading b)

abbrev pub IsBacklogTold : Backlog → Type 0
IsBacklogTold b = alert_behind false b.notices ≡ some b.backlog_alert_open

log_health-IsBacklogTold :
    (is_idle : Bool) (key : Text) (b : Backlog)
    → IsBacklogTold b
    → IsBacklogTold (log_health is_idle key b)
unfolding log_health alert_behind
log_health-IsBacklogTold is_idle key b t =
    ground (arith, alert_behind-append false b.backlog_alert_open b.notices (status ∷ []) t)

judge_backlog-IsBacklogTold :
    (waiting : ℕ) (b : Backlog) → IsBacklogTold b → IsBacklogTold (judge_backlog waiting b)
unfolding judge_backlog alert_behind
judge_backlog-IsBacklogTold waiting b t = ground (
  arith,
  t,
  alert_behind-append false b.backlog_alert_open b.notices (opened ∷ []) t,
  alert_behind-append false b.backlog_alert_open b.notices (recovered ∷ []) t,
)

run_monitor-IsBacklogTold :
    (now : ℕ) (reading : Option QueueReading) (b : Backlog)
    → IsBacklogTold b
    → IsBacklogTold (run_monitor now reading b)
unfolding run_monitor monitor_queue_health alert_behind
run_monitor-IsBacklogTold now none b t =
    alert_behind-append false b.backlog_alert_open b.notices (failure ∷ []) t
run_monitor-IsBacklogTold now (some reading) b t =
    judge_backlog-IsBacklogTold (or_else reading.waiting 0) _ (log_health-IsBacklogTold _ _ b t)

-- From a flag that agrees with the notices: no run of readings, with those that throw, opens the
-- alert of the queue twice or closes it twice, and the flag is what the notices leave open.
pub run_monitors-IsBacklogTold :
    (readings : List (ℕ × Option QueueReading)) (b : Backlog)
    → IsBacklogTold b
    → IsBacklogTold (run_monitors readings b)
unfolding run_monitors
run_monitors-IsBacklogTold [] b t = t
run_monitors-IsBacklogTold ((now, reading) ∷ rest) b t =
    run_monitors-IsBacklogTold rest (run_monitor now reading b)
      (run_monitor-IsBacklogTold now reading b t)

-- A reading leaves the alert open exactly when more jobs wait than the threshold.
pub monitor_queue_health-alert :
    (now : ℕ) (reading : QueueReading) (b : Backlog)
    → (monitor_queue_health now reading b).backlog_alert_open
      ≡ ltb waiting_jobs_alert_threshold (or_else reading.waiting 0)
unfolding monitor_queue_health judge_backlog
monitor_queue_health-alert now reading b = ground arith
