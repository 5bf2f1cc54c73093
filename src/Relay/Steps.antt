-- ===== src/Relay/Steps.antt =====
-- apps/api/src/realtime/eventOutboxRelay.ts: what a step publishes and deletes.
use mathlib.Core.Path.{subst}
use mathlib.Core.List.{append-nil, append_assoc}
use elitehub_vault.Base.{
  ℕ, suc, Text, List, [], ◌∷◌, ◌++◌, map, Option, none, some, ◌≡◌, refl, sym, ap, ◌∙◌, ◌⊎◌, inl,
  inr, Bool, false, Bool-cases, or_else, text_eq,
}
use elitehub_vault.Contracts.{Platform}
use elitehub_vault.Contracts.Payloads.{Payload}
use elitehub_vault.Contracts.Targets.{Target, build_publish_targets_for_outbox_row}
use elitehub_vault.Registry.{event_type_in, event_types}
use elitehub_vault.Relay.{
  OutboxRow, OutboxDb, World, M, ◌>>◌, call, publish_targets, delete_outbox_row,
}

-- A step that started in `w` either ends, with all of the messages published and the tables as
-- `d`, or throws after a call that was not accepted, with a part of the messages published, from
-- the first one on.
abbrev pub Sends :
    {Db : Type 0}
    → (ℕ → Bool)
    → World Db
    → Option (Unit {0}) × World Db
    → List (Text × Text)
    → Db
    → Type 0
Sends accepts w r msgs d =
    ((r.0 ≡ some tt) × (r.1.published ≡ w.published ++ msgs) × (r.1.db ≡ d))
    ⊎ ((r.0 ≡ none)
        × (sent : List (Text × Text)) × (rest : List (Text × Text)) × (msgs ≡ sent ++ rest)
        × (r.1.published ≡ w.published ++ sent)
        × ((n : ℕ) × (accepts n ≡ false)))

pub >>_ended :
    {S B : Type 0} (m : M S (Unit {0})) (k : M S B) (w : S)
    → (m w).0 ≡ some tt
    → (m >> k) w ≡ k (m w).1
>>_ended m k w e = rw (e, ◌>>◌)

pub >>_thrown :
    {S B : Type 0} (m : M S (Unit {0})) (k : M S B) (w : S)
    → (m w).0 ≡ none
    → (m >> k) w ≡ (none, (m w).1)
>>_thrown m k w e = rw (e, ◌>>◌)

pub Sends-later :
    {Db : Type 0} (accepts : ℕ → Bool) (w v : World Db) (r : Option (Unit {0}) × World Db)
    (xs ys : List (Text × Text)) (d : Db)
    → v.published ≡ w.published ++ xs
    → Sends accepts v r ys d
    → Sends accepts w r (xs ++ ys) d
Sends-later accepts w v r xs ys d h (inl (e, p, q)) = inl (e, p ∙ rw (h, append_assoc), q)
Sends-later accepts w v r xs ys d h (inr (e, sent, rest, split, p, f)) =
    inr (e, xs ++ sent, rest, rw (split, append_assoc), p ∙ rw (h, append_assoc), f)

-- One step after another.
pub Sends-seq :
    {Db : Type 0} (accepts : ℕ → Bool) (m k : M (World Db) (Unit {0})) (w : World Db)
    (xs ys : List (Text × Text)) (d d' : Db)
    → Sends accepts w (m w) xs d
    → ((v : World Db) → v.db ≡ d → Sends accepts v (k v) ys d')
    → Sends accepts w ((m >> k) w) (xs ++ ys) d'
Sends-seq accepts m k w xs ys d d' (inr (e, sent, rest, split, p, f)) next =
    subst (λ r. Sends accepts w r (xs ++ ys) d') (sym (>>_thrown m k w e))
      (inr (refl, sent, rest ++ ys, rw (split, append_assoc), p, f))
Sends-seq accepts m k w xs ys d d' (inl (e, p, q)) next =
    subst (λ r. Sends accepts w r (xs ++ ys) d') (sym (>>_ended m k w e))
      (Sends-later accepts w (m w).1 (k (m w).1) xs ys d' p (next (m w).1 q))

module _ {J N D : Type 0} (platform : Platform J N D) (outbox : OutboxDb J D)
    (stringify : Payload J N → Text) where
  abbrev pub messages_of : List (Target J N) → List (Text × Text)
  messages_of = map (λ t. (t.channel, stringify t.payload))

  -- The powers of the system that a powerplay payload names.
  abbrev pub powers_of : outbox.Db → J → List Text
  powers_of db payload = elim (platform.parse_powerplay payload) [
    | none ↦ []
    | some parsed ↦ outbox.power_ids db parsed.system_id
  ]

  -- The targets that a row is to be published to: none for an event type that is not known.
  abbrev pub row_targets : outbox.Db → OutboxRow J D → List (Target J N)
  row_targets db row =
      or_else
        (build_publish_targets_for_outbox_row platform (event_type_in event_types row.event_type)
          row.payload row.created_at (some (powers_of db row.payload)))
        []

  abbrev pub row_messages : outbox.Db → OutboxRow J D → List (Text × Text)
  row_messages db row = messages_of (row_targets db row)

  module _ (accepts : ℕ → Bool) where
    pub publish_targets-Sends :
        (targets : List (Target J N)) (w : World outbox.Db)
        → Sends accepts w
            (publish_targets platform outbox stringify accepts targets w)
            (messages_of targets)
            w.db
    unfolding publish_targets call
    publish_targets-Sends [] w = inl (refl, sym (append-nil w.published), refl)
    publish_targets-Sends (t ∷ ts) w = elim (Bool-cases (accepts w.calls)) [
      | inr e ↦
          rw e
            (inr (refl, [], messages_of (t ∷ ts), refl, sym (append-nil w.published), (w.calls, e)))
      | inl e ↦ rw e (
          Sends-later accepts w
            (record w {
              published = w.published ++ ((t.channel, stringify t.payload) ∷ []);
              calls = suc w.calls;
            })
            (publish_targets platform outbox stringify accepts ts _)
            ((t.channel, stringify t.payload) ∷ []) (messages_of ts) w.db refl
            (publish_targets-Sends ts _))
    ]

    pub call-Sends :
        (w : World outbox.Db) → Sends accepts w (call platform outbox stringify accepts w) [] w.db
    unfolding call
    call-Sends w = elim (Bool-cases (accepts w.calls)) [
      | inl e ↦ rw e (inl (refl, sym (append-nil w.published), refl))
      | inr e ↦ rw e (inr (refl, [], [], refl, sym (append-nil w.published), (w.calls, e)))
    ]

    pub delete_outbox_row-Sends :
        (id : Text) (w : World outbox.Db)
        → Sends accepts w
            (delete_outbox_row platform outbox stringify accepts id w)
            []
            (outbox.delete_row id w.db)
    unfolding delete_outbox_row
    delete_outbox_row-Sends id w =
        Sends-seq accepts (call platform outbox stringify accepts)
          (λ v. (some tt, record v { db = outbox.delete_row id v.db })) w [] [] w.db
          (outbox.delete_row id w.db) (call-Sends w)
          (λ v e. inl (refl, sym (append-nil v.published), ap (outbox.delete_row id) e))
