-- ===== src/Monitors/Heartbeat.antt =====
-- apps/eddn-listener/src/enqueueHeartbeatMonitor.ts. A check runs up to the wait for the push and
-- goes on behind it; other checks and enqueues may come in between.
use elitehub_vault.Base.{
  ℕ, ◌+◌, ◌-◌, ◌*◌, ◌++◌, Text, codes, decimal, text_eq, List, [], ◌∷◌, Option, none, some, Bool,
  true, false, not, ◌&&◌, ◌||◌, ◌≡◌, arith, ltb, leb, ◌==◌, if◌then◌else◌,
}
use elitehub_vault.Monitors.{
  Notice, status, opened, recovered, failure, alert_behind, alert_behind-append,
}

pub record Settings : Type 0 where
  pub gap_threshold_ms : ℕ
  pub status_log_interval_ms : ℕ
  pub kuma_push_interval_ms : ℕ
  pub kuma_push_url : Option Text

abbrev pub default_settings : Option Text → Settings
default_settings url = record {
  gap_threshold_ms = 2 * 60000;
  status_log_interval_ms = 60000;
  kuma_push_interval_ms = 60000;
  kuma_push_url = url;
}

pub record Heartbeat : Type 0 where
  pub last_successful_enqueue_at : ℕ
  pub enqueue_gap_alert_open : Bool
  pub has_seen_successful_enqueue : Bool
  pub is_scheduled : Bool
  pub last_status_log_at : ℕ
  pub last_kuma_push_at : ℕ
  pub notices : List Notice

-- `url.endsWith('ping=')`.
unfoldable pub ends_with_ping : Text → Bool
ends_with_ping [] = false
ends_with_ping (c ∷ s) =
    let rest = ends_with_ping s in if (c ∷ s) == codes "ping=" then true else rest

-- No URL, and an empty one, is `null`.
unfoldable pub build_kuma_push_url : Option Text → ℕ → Option Text
unfolding ends_with_ping decimal
build_kuma_push_url none since = none
build_kuma_push_url (some []) since = none
build_kuma_push_url (some (c ∷ url)) since =
    some (if ends_with_ping (c ∷ url) then (c ∷ url) ++ decimal since else c ∷ url)

-- A check behind its start: its time, the time since the last job, and the URL that it pushes to.
pub record Check : Type 0 where
  pub now : ℕ
  pub since : ℕ
  pub push_url : Option Text

-- What became of the push of a check.
pub data Push : Type 0 where
  skipped succeeded failed : Push

-- What happens to a monitor.
pub data Beat : Type 0 where
  starts marks begins : ℕ → Beat
  ends : Check → Push → Beat
  stops : Beat

module _ (settings : Settings) where
  -- The URL that `pushUptimeKumaHeartbeat` fetches, if it does.
  unfoldable pub push_target : ℕ → ℕ → Heartbeat → Option Text
  unfolding build_kuma_push_url
  push_target now since h = elim (build_kuma_push_url settings.kuma_push_url since) [
    | none ↦ none
    | some url ↦
        if not h.has_seen_successful_enqueue
          || (leb settings.gap_threshold_ms since
              || ltb now (h.last_kuma_push_at + settings.kuma_push_interval_ms))
        then none
        else some url
  ]

  -- `monitorEnqueueHeartbeat` up to the wait for the push.
  unfoldable pub begin_check : ℕ → Heartbeat → Check × Heartbeat
  unfolding push_target
  begin_check now h =
      let since = now - h.last_successful_enqueue_at in
      let logged =
        if leb (h.last_status_log_at + settings.status_log_interval_ms) now
        then record h { last_status_log_at = now; notices = h.notices ++ (status ∷ []) }
        else h in
      (record { now = now; since = since; push_url = push_target now since logged }, logged)

  unfoldable pub end_push : Check → Push → Heartbeat → Heartbeat
  end_push check skipped h = h
  end_push check succeeded h = record h { last_kuma_push_at = check.now }
  end_push check failed h = record h { notices = h.notices ++ (failure ∷ []) }

  -- The two tests of `monitorEnqueueHeartbeat` behind the wait.
  unfoldable pub end_alert : Check → Heartbeat → Heartbeat
  end_alert check h =
      if leb settings.gap_threshold_ms check.since && not h.enqueue_gap_alert_open
      then record h { enqueue_gap_alert_open = true; notices = h.notices ++ (opened ∷ []) }
      else if ltb check.since settings.gap_threshold_ms && h.enqueue_gap_alert_open
      then record h { enqueue_gap_alert_open = false; notices = h.notices ++ (recovered ∷ []) }
      else h

  unfoldable pub end_check : Check → Push → Heartbeat → Heartbeat
  unfolding end_push end_alert
  end_check check push h = end_alert check (end_push check push h)

  unfoldable pub mark_enqueue_success : ℕ → Heartbeat → Heartbeat
  mark_enqueue_success now h = record h {
    last_successful_enqueue_at = now;
    has_seen_successful_enqueue = true;
  }

  -- `start` up to its first check.
  unfoldable pub start_heartbeat : ℕ → Heartbeat → Heartbeat
  start_heartbeat now h = record h {
    last_status_log_at = now;
    last_kuma_push_at = now;
    is_scheduled = true;
  }

  unfoldable pub stop_heartbeat : Heartbeat → Heartbeat
  stop_heartbeat h = record h { is_scheduled = false }

  unfoldable pub beat : Beat → Heartbeat → Heartbeat
  unfolding begin_check end_check mark_enqueue_success start_heartbeat stop_heartbeat
  beat (starts now) h = start_heartbeat now h
  beat (marks now) h = mark_enqueue_success now h
  beat (begins now) h = (begin_check now h).1
  beat (ends check push) h = end_check check push h
  beat stops h = stop_heartbeat h

  unfoldable pub beats : List Beat → Heartbeat → Heartbeat
  unfolding beat
  beats [] h = h
  beats (b ∷ bs) h = beats bs (beat b h)

  -- The flag is what the notices have made of it.
  abbrev pub IsTold : Heartbeat → Type 0
  IsTold h = alert_behind false h.notices ≡ some h.enqueue_gap_alert_open

  end_push-IsTold :
      (check : Check) (push : Push) (h : Heartbeat) → IsTold h → IsTold (end_push check push h)
  unfolding end_push alert_behind
  end_push-IsTold check skipped h t = t
  end_push-IsTold check succeeded h t = t
  end_push-IsTold check failed h t =
      alert_behind-append false h.enqueue_gap_alert_open h.notices (failure ∷ []) t

  end_alert-IsTold : (check : Check) (h : Heartbeat) → IsTold h → IsTold (end_alert check h)
  unfolding end_alert alert_behind
  end_alert-IsTold check h t = ground (
    arith,
    t,
    alert_behind-append false h.enqueue_gap_alert_open h.notices (opened ∷ []) t,
    alert_behind-append false h.enqueue_gap_alert_open h.notices (recovered ∷ []) t,
  )

  beat-IsTold : (b : Beat) (h : Heartbeat) → IsTold h → IsTold (beat b h)
  unfolding beat alert_behind
  beat-IsTold (starts now) h t = t
  beat-IsTold (marks now) h t = t
  beat-IsTold stops h t = t
  beat-IsTold (begins now) h t =
      ground (arith, t, alert_behind-append false h.enqueue_gap_alert_open h.notices (status ∷ []))
  beat-IsTold (ends check push) h t =
      end_alert-IsTold check (end_push check push h) (end_push-IsTold check push h t)

  -- Whatever the events and however the checks interleave: from a flag that agrees with the notices,
  -- no alert is opened twice or closed twice, and the flag is what the notices leave open.
  pub beats-IsTold : (bs : List Beat) (h : Heartbeat) → IsTold h → IsTold (beats bs h)
  unfolding beats
  beats-IsTold [] h t = t
  beats-IsTold (b ∷ bs) h t = beats-IsTold bs (beat b h) (beat-IsTold b h t)

  -- A check leaves the alert open exactly when the time since the last job, as the check has read
  -- it, has reached the threshold.
  pub end_check-alert :
      (check : Check) (push : Push) (h : Heartbeat)
      → (end_check check push h).enqueue_gap_alert_open ≡ leb settings.gap_threshold_ms check.since
  unfolding end_check end_alert
  end_check-alert check push h = ground arith
