-- ===== src/Service/Accounts.antt =====
-- apps/api/src/realtime/sse/sseService.ts: how often a session makes its calls, and what they add up
-- to.
use elitehub_vault.Base.{
  ℕ, ◌+◌, ◌≤◌, List, [], ◌∷◌, ◌++◌, none, Bool, true, false, ◌≡◌, ◌≢◌, refl, arith, if◌then◌else◌,
}
use elitehub_vault.Service.{
  Call, opened, closed, released, cleaned_up, Phase, answered, registering, serving, failed,
  Session, release_quota,
}

-- How often a call was made.
pub record Tally : Type 0 where
  pub opens : ℕ
  pub closes : ℕ
  pub releases : ℕ
  pub cleanups : ℕ

abbrev pub tally : List Call → Tally
tally [] = record { opens = 0; closes = 0; releases = 0; cleanups = 0 }
tally (opened ∷ calls) = let t = tally calls in record t { opens = t.opens + 1 }
tally (closed ∷ calls) = let t = tally calls in record t { closes = t.closes + 1 }
tally (released ∷ calls) = let t = tally calls in record t { releases = t.releases + 1 }
tally (cleaned_up id reason ∷ calls) = let t = tally calls in record t { cleanups = t.cleanups + 1 }

abbrev pub one_if : Bool → ℕ
one_if true = 1
one_if false = 0

abbrev pub is_started : Phase → Bool
is_started (answered n) = false
is_started registering = true
is_started serving = true
is_started failed = true

-- The limiter has counted the session once if it was started, has counted it out and released its lease
-- exactly if the quota is marked released, and then the heartbeat has stopped; the broker is told to
-- clean up at most once, and only after the release.
pub record IsAccounted (s : Session) : Type 0 where
  pub opens : (tally s.calls).opens ≡ one_if (is_started s.phase)
  pub closes : (tally s.calls).closes ≡ one_if s.quota_released
  pub releases : (tally s.calls).releases ≡ one_if s.quota_released
  pub beats : is_started s.phase ≡ true → s.heartbeat ≡ false → s.quota_released ≡ true
  pub stopped : s.quota_released ≡ true → s.heartbeat ≡ false
  pub cleanups : (tally s.calls).cleanups ≤ one_if s.quota_released
  pub none_before : s.phase ≡ registering → (tally s.calls).cleanups ≡ 0
  pub cleanup_left : s.connection_id ≢ none → (tally s.calls).cleanups ≡ 0

-- The calls of two parts add up.
pub tally-append :
    (xs ys : List Call)
    → ((tally (xs ++ ys)).opens ≡ (tally xs).opens + (tally ys).opens)
      × ((tally (xs ++ ys)).closes ≡ (tally xs).closes + (tally ys).closes)
      × ((tally (xs ++ ys)).releases ≡ (tally xs).releases + (tally ys).releases)
      × ((tally (xs ++ ys)).cleanups ≡ (tally xs).cleanups + (tally ys).cleanups)
tally-append [] ys = (omega arith, omega arith, omega arith, omega arith)
tally-append (opened ∷ xs) ys = ground (arith, tally-append xs ys)
tally-append (closed ∷ xs) ys = ground (arith, tally-append xs ys)
tally-append (released ∷ xs) ys = ground (arith, tally-append xs ys)
tally-append (cleaned_up id reason ∷ xs) ys = ground (arith, tally-append xs ys)

abbrev pub released_session : Session → Session
released_session s = record s {
  quota_released = true;
  heartbeat = false;
  calls = s.calls ++ (closed ∷ released ∷ []);
}

pub release_quota-IsAccounted :
    (s : Session) → is_started s.phase ≡ true → IsAccounted s → IsAccounted (release_quota s)
unfolding release_quota
release_quota-IsAccounted s started h = go s.quota_released refl
  where
    go : (b : Bool) → s.quota_released ≡ b → IsAccounted (if b then s else released_session s)
    go true e = h
    go false e =
        let t = tally-append s.calls (closed ∷ released ∷ []) in
        record {
          opens = ground (arith, t.0, h.opens);
          closes = ground (arith, t.1, h.closes, e);
          releases = ground (arith, t.2, h.releases, e);
          beats = λ a b. refl;
          stopped = λ a. refl;
          cleanups = ground (arith, t.3, h.cleanups, e);
          none_before = λ a. ground (arith, t.3, h.cleanups, e);
          cleanup_left = λ a. ground (arith, t.3, h.cleanups, e);
        }

pub release_quota-released : (s : Session) → (release_quota s).quota_released ≡ true
unfolding release_quota
release_quota-released s = go s.quota_released refl
  where
    go :
        (b : Bool)
        → s.quota_released ≡ b
        → (if b then s else released_session s).quota_released ≡ true
    go true e = e
    go false e = refl

pub release_quota-phase : (s : Session) → (release_quota s).phase ≡ s.phase
unfolding release_quota
release_quota-phase s = go s.quota_released
  where
    go : (b : Bool) → (if b then s else released_session s).phase ≡ s.phase
    go true = refl
    go false = refl
