-- ===== src/Limiter/Counting.antt =====
-- apps/api/src/realtime/sse/connectionLimiter.ts: the counters of open connections.
use elitehub_vault.Base.{
  ℕ, ◌+◌, ◌-◌, ap, ◌∙◌, ◌≡◌, ◌≢◌, refl, Text, text_eq, List, [], ◌∷◌, some, arith, ◌==◌, ==_iff,
  if◌then◌else◌, lookup, or_else, total, total-insert, total-erase, IsUnique, insert-IsUnique,
  erase-IsUnique, lookup-insert, lookup-erase,
}
use elitehub_vault.Limiter.{Counters, on_open, on_close}

-- The total is the sum over the keys, no key stands twice, and no key is kept at zero.
pub record IsConsistent (c : Counters) : Type 0 where
  pub sum : c.active_total ≡ total c.active_by_api_key
  pub unique : IsUnique c.active_by_api_key
  pub positive : (k : Text) → lookup k c.active_by_api_key ≢ some 0

-- The connections that a key has open.
abbrev pub active_of : Text → Counters → ℕ
active_of k c = or_else (lookup k c.active_by_api_key) 0

active_of-on_open :
    (k j : Text) (c : Counters)
    → active_of j (on_open k c) ≡ (if k == j then active_of j c + 1 else active_of j c)
unfolding on_open
active_of-on_open k j c =
    ground (arith, lookup-insert k j (active_of k c + 1) c.active_by_api_key, ==_iff k j)

active_of-on_close :
    (k j : Text) (c : Counters)
    → active_of j (on_close k c) ≡ (if k == j then active_of j c - 1 else active_of j c)
unfolding on_close
active_of-on_close k j c = ground (
  arith,
  lookup-insert k j (active_of k c - 1) c.active_by_api_key,
  lookup-erase k j c.active_by_api_key,
  ==_iff k j,
)

on_open-IsConsistent : (k : Text) (c : Counters) → IsConsistent c → IsConsistent (on_open k c)
unfolding on_open
on_open-IsConsistent k c h = record {
  sum = omega (arith, h.sum, total-insert k (active_of k c + 1) c.active_by_api_key);
  unique = insert-IsUnique k (active_of k c + 1) c.active_by_api_key h.unique;
  positive = λ j e.
      ground (arith, lookup-insert k j (active_of k c + 1) c.active_by_api_key, h.positive j);
}

on_close-IsConsistent : (k : Text) (c : Counters) → IsConsistent c → IsConsistent (on_close k c)
unfolding on_close
on_close-IsConsistent k c h = record {
  sum = ground (
    arith,
    h.sum,
    total-insert k (active_of k c - 1) c.active_by_api_key,
    total-erase k c.active_by_api_key h.unique,
  );
  unique = ground (
    arith,
    h.unique,
    insert-IsUnique k (active_of k c - 1) c.active_by_api_key h.unique,
    erase-IsUnique k c.active_by_api_key h.unique,
  );
  positive = λ j e. ground (
    arith,
    lookup-insert k j (active_of k c - 1) c.active_by_api_key,
    lookup-erase k j c.active_by_api_key,
    h.positive j,
  );
}

pub data Change : Type 0 where
  opened closed : Text → Change

unfoldable pub count_change : Change → Counters → Counters
unfolding on_open on_close
count_change (opened k) c = on_open k c
count_change (closed k) c = on_close k c

unfoldable pub count_changes : List Change → Counters → Counters
unfolding count_change
count_changes [] c = c
count_changes (change ∷ rest) c = count_changes rest (count_change change c)

-- What opens and closes leave of a key's connections; a close without one changes nothing.
abbrev pub tally : Text → ℕ → List Change → ℕ
tally j n [] = n
tally j n (opened k ∷ rest) = tally j (if k == j then n + 1 else n) rest
tally j n (closed k ∷ rest) = tally j (if k == j then n - 1 else n) rest

active_of-count_changes :
    (j : Text) (changes : List Change) (c : Counters)
    → active_of j (count_changes changes c) ≡ tally j (active_of j c) changes
unfolding count_changes
active_of-count_changes j [] c = refl
active_of-count_changes j (opened k ∷ rest) c =
    active_of-count_changes j rest (on_open k c)
    ∙ ap (λ n. tally j n rest) (active_of-on_open k j c)
active_of-count_changes j (closed k ∷ rest) c =
    active_of-count_changes j rest (on_close k c)
    ∙ ap (λ n. tally j n rest) (active_of-on_close k j c)

count_changes-IsConsistent :
    (changes : List Change) (c : Counters) → IsConsistent c → IsConsistent (count_changes changes c)
unfolding count_changes
count_changes-IsConsistent [] c h = h
count_changes-IsConsistent (opened k ∷ rest) c h =
    count_changes-IsConsistent rest (on_open k c) (on_open-IsConsistent k c h)
count_changes-IsConsistent (closed k ∷ rest) c h =
    count_changes-IsConsistent rest (on_close k c) (on_close-IsConsistent k c h)

-- The counters of a process that has opened nothing.
abbrev pub no_connections : Counters
no_connections = record { active_by_api_key = []; active_total = 0 }

-- After any sequence of opens and closes, the counter of each key is what those of that key leave,
-- the total is the sum over the keys, no key stands twice, and no key is kept at zero.
pub counters_follow_changes :
    (changes : List Change)
    → IsConsistent (count_changes changes no_connections)
      × ((j : Text) → active_of j (count_changes changes no_connections) ≡ tally j 0 changes)
unfolding total lookup
counters_follow_changes changes = (
  count_changes-IsConsistent changes no_connections
      (record { sum = refl; unique = tt; positive = λ k e. ground arith }),
  λ j. active_of-count_changes j changes no_connections,
)
