-- ===== src/Monitors.antt =====
-- apps/eddn-listener/src: the two monitors of the listener, enqueueHeartbeatMonitor.ts (Heartbeat)
-- and queueMonitor.ts (Backlog). Each opens an alert and closes it again. The clock does not go back.
pub mod Heartbeat
pub mod Backlog
use elitehub_vault.Base.{
  List, [], ◌∷◌, ◌++◌, Option, none, some, Bool, true, false, ◌≡◌, refl, if◌then◌else◌, arith,
}

-- What a monitor tells the log and Sentry.
pub data Notice : Type 0 where
  status opened recovered failure : Notice

-- Whether an alert is open behind the notices, given whether one was before; `none` where one is
-- opened twice or closed twice.
unfoldable pub alert_behind : Bool → List Notice → Option Bool
alert_behind is_open [] = some is_open
alert_behind is_open (status ∷ ns) = alert_behind is_open ns
alert_behind is_open (failure ∷ ns) = alert_behind is_open ns
alert_behind false (opened ∷ ns) = alert_behind true ns
alert_behind true (opened ∷ ns) = none
alert_behind true (recovered ∷ ns) = alert_behind false ns
alert_behind false (recovered ∷ ns) = none

pub alert_behind-append :
    (is_open is_open' : Bool) (xs ys : List Notice)
    → alert_behind is_open xs ≡ some is_open'
    → alert_behind is_open (xs ++ ys) ≡ alert_behind is_open' ys
unfolding alert_behind
alert_behind-append is_open is_open' [] ys h = ground (arith, h)
alert_behind-append is_open is_open' (status ∷ xs) ys h =
    alert_behind-append is_open is_open' xs ys h
alert_behind-append is_open is_open' (failure ∷ xs) ys h =
    alert_behind-append is_open is_open' xs ys h
alert_behind-append false is_open' (opened ∷ xs) ys h = alert_behind-append true is_open' xs ys h
alert_behind-append true is_open' (opened ∷ xs) ys h = absurd (ground (arith, h))
alert_behind-append true is_open' (recovered ∷ xs) ys h = alert_behind-append false is_open' xs ys h
alert_behind-append false is_open' (recovered ∷ xs) ys h = absurd (ground (arith, h))
