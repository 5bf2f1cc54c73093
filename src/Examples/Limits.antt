-- ===== src/Examples/Limits.antt =====
-- Limiter and RateLimiter.
use elitehub_vault.Base.{
  decimal, ◌++◌, ℕ, ◌≤◌, ◌≡◌, refl, Text, codes, text_eq, nat_eq, List, [], ◌∷◌, some, true, arith,
  length, contains, lookup, IsUnique,
}
use elitehub_vault.Redis.{Key, missing, visible}
use elitehub_vault.Redis.Association.{association, above, least}
use elitehub_vault.Limiter.{try_open, refresh_lease, Store}
use elitehub_vault.Limiter.Quota.{
  Call, opens, releases, run, try_open_decision, run-IsWithinQuota, IsWithinQuota,
}
use elitehub_vault.Limiter.Leases.{granted_lease_refreshes}
use elitehub_vault.Limiter.Counting.{
  opened, closed, Change, counters_follow_changes, IsConsistent, count_changes, no_connections,
  active_of, tally,
}
use elitehub_vault.RateLimiter.{RateLimitHeaders, allowed, rate_limited, consume}
use elitehub_vault.RateLimiter.Headers.{Truthful, consume-Truthful, retry_allowed}
use elitehub_vault.RateLimiter.Window.{Request, requests, recent, requests_within_limit}

abbrev empty_store : Store association
empty_store name = missing association

abbrev two_each : Text → ℕ
two_each id = 2

try_open_decision_example :
    (try_open association 1000 (codes "k") (codes "a") 2 empty_store).0
    ≡ record { ok = true; active = 1; max = 2 }
unfolding visible above
try_open_decision_example = try_open_decision association 1000 (codes "k") (codes "a") 2 empty_store

abbrev three_opens : List Call
three_opens =
    opens 1000 (codes "k") (codes "a")
    ∷ opens 1001 (codes "k") (codes "b")
    ∷ opens 1002 (codes "k") (codes "c")
    ∷ []

run-IsWithinQuota_example :
    IsWithinQuota association two_each (run association two_each three_opens empty_store)
run-IsWithinQuota_example =
    run-IsWithinQuota association two_each three_opens empty_store (λ id. omega arith)

one-IsUnique : (member : Text) (score : ℕ) → IsUnique ((member, score) ∷ [])
unfolding lookup
one-IsUnique member score = (refl, tt)

abbrev held : Key association.Z
held = record {
  members = ((codes "a", 91000) ∷ [], one-IsUnique (codes "a") 91000);
  deadline = some 91000;
}

first_open_ok : (try_open association 1000 (codes "k") (codes "a") 2 empty_store).0.ok ≡ true
unfolding try_open above
first_open_ok = refl

abbrev others : List Call
others = opens 1001 (codes "k") (codes "b") ∷ releases 1002 (codes "k") (codes "b") ∷ []

granted_lease_refreshes_example :
    (refresh_lease association 60000 (codes "k") (codes "a") (
      run association two_each others
        (try_open association 1000 (codes "k") (codes "a") 2 empty_store).1)).0
    ≡ true
granted_lease_refreshes_example =
    granted_lease_refreshes association two_each 1000 60000 2 (codes "k") (codes "a") others
      empty_store first_open_ok ((omega arith, omega arith), ((omega arith, refl), tt))
      (omega arith)

abbrev changes : List Change
changes = opened (codes "k") ∷ opened (codes "j") ∷ closed (codes "k") ∷ closed (codes "k") ∷ []

counters_follow_changes_example :
    IsConsistent (count_changes changes no_connections)
    × ((j : Text) → active_of j (count_changes changes no_connections) ≡ tally j 0 changes)
counters_follow_changes_example = counters_follow_changes changes

abbrev window_key : Key association.Z
window_key = record {
  members = ((codes "100000:a", 100000) ∷ [], one-IsUnique (codes "100000:a") 100000);
  deadline = some 165000;
}

consume-Truthful_example :
    Truthful association 110000 1
      (decimal 110000 ++ (codes ":" ++ codes "b"))
      window_key
      (consume association true 110000 (codes "b") 1 window_key).0
consume-Truthful_example = consume-Truthful association 110000 1 (codes "b") window_key

abbrev refusal : RateLimitHeaders
refusal = record { limit = 1; remaining = 0; reset = 160; retry_after = some 50 }

refused_run : (consume association true 110000 (codes "b") 1 window_key).0 ≡ rate_limited refusal
unfolding consume above least
refused_run = refl

retry_allowed_example :
    (h : RateLimitHeaders) × ((consume association true 160000
        (codes "c")
        1
        (consume association true 110000 (codes "b") 1 window_key).1).0
      ≡ allowed h)
unfolding consume above
retry_allowed_example =
    retry_allowed association 110000 160000 1 50 (codes "b") (codes "c") window_key refusal
      (omega arith) (omega arith) refused_run refl (omega arith)

abbrev arrivals : List Request
arrivals = (100000, codes "a") ∷ (100001, codes "b") ∷ (150000, codes "c") ∷ []

requests_within_limit_example :
    length (
      recent association 2 160000
        (requests association 2 arrivals
          (record { key = missing association; granted = [] })).granted)
    ≤ 2
unfolding contains
requests_within_limit_example =
    requests_within_limit association 2 160000 arrivals (missing association)
      (omega arith, (omega arith, (omega arith, tt))) (refl, (refl, (refl, tt)))
      (omega arith, (omega arith, (omega arith, tt)))
