-- ===== src/RateLimiter/Window.antt =====
-- apps/api/src/auth/apiRateLimiter.ts: runs of requests on one key.
use elitehub_vault.Base.{
  ℕ, ◌+◌, ◌-◌, ◌≤◌, ◌<◌, ◌≡◌, ◌≢◌, refl, Text, text_eq, nat_eq, List, [], ◌∷◌, map, none, some,
  false, arith, ltb, leb, ◌==◌, ==_refl, ==_iff, ltb→lt, if◌then◌else◌, or_else, Bool-cases, inl,
  inr, All, IsDistinct, contains, length, length-map,
}
use elitehub_vault.Redis.{SortedSets, Key, visible}
use elitehub_vault.RateLimiter.{window_ms, key_ttl_seconds, prune, sliding_window_script}
use elitehub_vault.RateLimiter.Headers.{in_window}

-- A request, or a granted one: its time and its member of the set.
abbrev pub Request : Type 0
Request = ℕ × Text

module _ (sets : SortedSets) (limit : ℕ) where
  pub record Log : Type 0 where
    pub key : Key sets.Z
    pub granted : List Request

  -- One request; a granted one is noted at the front.
  unfoldable pub request : Request → Log → Log
  unfolding sliding_window_script
  request (now, member) log =
      let r = sliding_window_script sets now limit member key_ttl_seconds log.key in
      record {
        key = r.1;
        granted = if r.0.flag == 1 then (now, member) ∷ log.granted else log.granted;
      }

  unfoldable pub requests : List Request → Log → Log
  unfolding request
  requests [] log = log
  requests (q ∷ qs) log = requests qs (request q log)

  -- The granted requests that a window ending at `now` holds.
  unfoldable pub recent : ℕ → List Request → List Request
  recent now [] = []
  recent now ((t, m) ∷ rest) =
      if ltb now (t + window_ms) then (t, m) ∷ recent now rest else recent now rest

  -- A granted request is in the set for as long as it is recent.
  abbrev IsKept : ℕ → Key sets.Z → Request → Type 0
  IsKept now key (t, m) =
      (t ≤ now)
      × (now < t + window_ms
          → (sets.score_of m key.members ≡ some t)
            × (t + window_ms ≤ or_else key.deadline (t + window_ms)))

  recent_mono :
      (now later : ℕ) (granted : List Request)
      → now ≤ later
      → length (recent later granted) ≤ length (recent now granted)
  unfolding recent
  recent_mono now later [] h = omega arith
  recent_mono now later ((t, m) ∷ rest) h = ground (arith, recent_mono now later rest h)

  recent-not_contains :
      (now : ℕ) (m : Text) (granted : List Request)
      → contains m (map (λ q. q.1) granted) ≡ false
      → contains m (map (λ q. q.1) (recent now granted)) ≡ false
  unfolding recent contains
  recent-not_contains now m [] h = refl
  recent-not_contains now m ((t, j) ∷ rest) h = elim (Bool-cases (ltb now (t + window_ms))) [
    | inl e ↦ rw e (ground (arith, recent-not_contains now m rest))
    | inr e ↦ rw e (recent-not_contains now m rest (ground arith))
  ]

  recent-IsDistinct :
      (now : ℕ) (granted : List Request)
      → IsDistinct (map (λ q. q.1) granted)
      → IsDistinct (map (λ q. q.1) (recent now granted))
  unfolding recent
  recent-IsDistinct now [] h = tt
  recent-IsDistinct now ((t, m) ∷ rest) h = elim (Bool-cases (ltb now (t + window_ms))) [
    | inl e ↦ rw e (recent-not_contains now m rest h.0, recent-IsDistinct now rest h.1)
    | inr e ↦ rw e (recent-IsDistinct now rest h.1)
  ]

  kept_members :
      (now : ℕ) (key : Key sets.Z) (granted : List Request)
      → All (IsKept now key) granted
      → All (λ m. sets.score_of m key.members ≢ none) (map (λ q. q.1) (recent now granted))
  unfolding recent
  kept_members now key [] h = tt
  kept_members now key ((t, m) ∷ rest) h = elim (Bool-cases (ltb now (t + window_ms))) [
    | inl e ↦ rw e (
      λ absent. ground (arith, (h.0.1 (ltb→lt now (t + window_ms) e)).0),
      kept_members now key rest h.1,
    )
    | inr e ↦ rw e (kept_members now key rest h.1)
  ]

  script-IsKept :
      (now next : ℕ) (member : Text) (key : Key sets.Z) (t : ℕ) (m : Text)
      → now ≤ next
      → (member == m) ≡ false
      → IsKept now key (t, m)
      → IsKept next (sliding_window_script sets next limit member key_ttl_seconds key).1 (t, m)
  unfolding sliding_window_script visible prune
  script-IsKept now next member key t m le ne h = (
    omega arith,
    λ young.
        let old = h.1 (omega arith) in
        ground (
          arith,
          old.0,
          old.1,
          sets.score_of-remove_up_to (next - window_ms) m key.members,
          sets.score_of-zadd next member m key.members,
          sets.score_of-zadd next member m (sets.remove_up_to (next - window_ms) key.members),
        ),
  )

  script-All-IsKept :
      (now next : ℕ) (member : Text) (key : Key sets.Z) (granted : List Request)
      → now ≤ next
      → contains member (map (λ q. q.1) granted) ≡ false
      → All (IsKept now key) granted
      → All
          (IsKept next (sliding_window_script sets next limit member key_ttl_seconds key).1)
          granted
  unfolding contains
  script-All-IsKept now next member key [] le fresh h = tt
  script-All-IsKept now next member key ((t, m) ∷ rest) le fresh h = (
    script-IsKept now next member key t m le (ground (arith, ==_iff m member, ==_iff member m)) h.0,
    script-All-IsKept now next member key rest le (ground arith) h.1,
  )

  -- A granted request is kept at once, and the set then has at most the limit.
  script-granted :
      (next : ℕ) (member : Text) (key : Key sets.Z)
      → (sliding_window_script sets next limit member key_ttl_seconds key).0.flag ≡ 1
      → IsKept next
          (sliding_window_script sets next limit member key_ttl_seconds key).1
          (next, member)
        × (sets.card (sliding_window_script sets next limit member key_ttl_seconds key).1.members
            ≤ limit)
  unfolding sliding_window_script
  script-granted next member key h =
      elim (Bool-cases (leb limit (sets.card (in_window sets next key)))) [
        | inl e ↦ absurd (ground arith)
        | inr e ↦ rw e (
          (omega arith, λ young. (rw (sets.score_of-zadd, ==_refl member) refl, omega arith)),
          ground (arith, sets.card-zadd-le next member (in_window sets next key)),
        )
      ]

  pub record Inv (now : ℕ) (log : Log) : Type 0 where
    pub kept : All (IsKept now log.key) log.granted
    pub distinct : IsDistinct (map (λ q. q.1) log.granted)
    pub bounded : (later : ℕ) → now ≤ later → length (recent later log.granted) ≤ limit

  granted-Inv :
      (now next : ℕ) (member : Text) (log : Log)
      → now ≤ next
      → contains member (map (λ q. q.1) log.granted) ≡ false
      → Inv now log
      → (sliding_window_script sets next limit member key_ttl_seconds log.key).0.flag ≡ 1
      → Inv next (record {
        key = (sliding_window_script sets next limit member key_ttl_seconds log.key).1;
        granted = (next, member) ∷ log.granted;
      })
  granted-Inv now next member log le fresh v flag =
      let key = (sliding_window_script sets next limit member key_ttl_seconds log.key).1 in
      let granted = (next, member) ∷ log.granted in
      let new = script-granted next member log.key flag in
      let all : All (IsKept next key) granted =
        (new.0, script-All-IsKept now next member log.key log.granted le fresh v.kept) in
      record {
        kept = all;
        distinct = (fresh, v.distinct);
        bounded = λ later le'. omega (
          arith,
          recent_mono next later granted le',
          sets.length-le-card (map (λ q. q.1) (recent next granted)) key.members
              (recent-IsDistinct next granted (fresh, v.distinct))
              (kept_members next key granted all),
          length-map {0, 0} (λ (q : Request). q.1) (recent next granted),
          new.1,
        );
      }

  request-Inv :
      (now next : ℕ) (member : Text) (log : Log)
      → now ≤ next
      → contains member (map (λ q. q.1) log.granted) ≡ false
      → Inv now log
      → Inv next (request (next, member) log)
  unfolding request
  request-Inv now next member log le fresh v =
      elim (Bool-cases
        ((sliding_window_script sets next limit member key_ttl_seconds log.key).0.flag == 1)) [
          | inl e ↦ rw e (granted-Inv now next member log le fresh v ((==_iff _ 1).0 e))
          | inr e ↦ rw e (record {
            kept = script-All-IsKept now next member log.key log.granted le fresh v.kept;
            distinct = v.distinct;
            bounded = λ later le'. v.bounded later (omega arith);
          })
        ]

  -- The times of the requests do not fall.
  abbrev pub Arrivals : ℕ → List Request → Type 0
  Arrivals now [] = Unit {0}
  Arrivals now ((t, m) ∷ qs) = (now ≤ t) × Arrivals t qs

  -- Members that the log does not hold yet.
  abbrev AreFresh : List Request → List Request → Type 0
  AreFresh granted [] = Unit {0}
  AreFresh granted ((t, m) ∷ qs) =
      (contains m (map (λ q. q.1) granted) ≡ false) × AreFresh granted qs

  AreFresh-cons :
      (t : ℕ) (m : Text) (granted qs : List Request)
      → contains m (map (λ q. q.1) qs) ≡ false
      → AreFresh granted qs
      → AreFresh ((t, m) ∷ granted) qs
  unfolding contains
  AreFresh-cons t m granted [] h f = tt
  AreFresh-cons t m granted ((s, j) ∷ qs) h f =
      (ground (arith, ==_iff m j, ==_iff j m, f.0), AreFresh-cons t m granted qs (ground arith) f.1)

  request-AreFresh :
      (t : ℕ) (m : Text) (log : Log) (qs : List Request)
      → contains m (map (λ q. q.1) qs) ≡ false
      → AreFresh log.granted qs
      → AreFresh (request (t, m) log).granted qs
  unfolding request
  request-AreFresh t m log qs h f =
      elim (Bool-cases
        ((sliding_window_script sets t limit m key_ttl_seconds log.key).0.flag == 1)) [
          | inl e ↦ rw e (AreFresh-cons t m log.granted qs h f)
          | inr e ↦ rw e f
        ]

  requests-bounded :
      (now later : ℕ) (qs : List Request) (log : Log)
      → Arrivals now qs
      → IsDistinct (map (λ q. q.1) qs)
      → AreFresh log.granted qs
      → All (λ q. q.0 ≤ later) qs
      → now ≤ later
      → Inv now log
      → length (recent later (requests qs log).granted) ≤ limit
  unfolding requests
  requests-bounded now later [] log a d f b le v = v.bounded later le
  requests-bounded now later ((t, m) ∷ qs) log a d f b le v =
      requests-bounded t later qs (request (t, m) log) a.1 d.1 (request-AreFresh t m log qs d.0 f.1)
        b.1 b.0 (request-Inv now t m log a.0 f.0 v)

  fresh_all : (qs : List Request) → AreFresh [] qs
  unfolding contains
  fresh_all [] = tt
  fresh_all ((t, m) ∷ qs) = (refl, fresh_all qs)

  -- In a run of requests whose times do not fall and whose members differ, whatever the key held
  -- before, the window that ends at any time after the last request holds at most `limit` of the
  -- requests that were granted, also where Redis has dropped the key in between.
  pub requests_within_limit :
      (later : ℕ) (qs : List Request) (key : Key sets.Z)
      → Arrivals 0 qs
      → IsDistinct (map (λ q. q.1) qs)
      → All (λ q. q.0 ≤ later) qs
      → length (recent later (requests qs (record { key = key; granted = [] })).granted) ≤ limit
  unfolding recent
  requests_within_limit later qs key a d b =
      requests-bounded 0 later qs (record { key = key; granted = [] }) a d (fresh_all qs) b
        (omega arith) (record { kept = tt; distinct = tt; bounded = λ s le. omega arith })
