-- ===== src/Worker/Links.antt =====
-- The tables of packages/db/src/schema.ts that link a system to its powers or its factions, and the two
-- statements that apps/eddn-worker/src/mq/queues/eddn/helpers runs on them: insert what is missing, then
-- delete what is not listed.
use elitehub_vault.Base.{
  Text, text_eq, List, [], ◌∷◌, Bool, false, not, ◌&&◌, ◌||◌, ◌≡◌, refl, ◌∙◌, arith, ◌==◌, ==_iff,
  if◌then◌else◌, keep, contains,
}

-- A row: the id of a system and that of a power or a faction.
abbrev pub Link : Type 0
Link = Text × Text

unfoldable pub is_linked : Text → Text → List Link → Bool
is_linked system id [] = false
is_linked system id ((s, i) ∷ links) = ((s == system) && (i == id)) || is_linked system id links

-- `insert … on conflict do nothing`.
unfoldable pub link_all : Text → List Text → List Link → List Link
unfolding is_linked
link_all system [] links = links
link_all system (id ∷ ids) links =
    link_all system ids (if is_linked system id links then links else (system, id) ∷ links)

unfoldable pub unlink_others : Text → List Text → List Link → List Link
unfolding keep contains
unlink_others system ids links = keep (λ l. not (l.0 == system) || contains l.1 ids) links

unfoldable pub sync_links : Text → List Text → List Link → List Link
unfolding link_all unlink_others
sync_links system ids links = unlink_others system ids (link_all system ids links)

is_linked-link_all :
    (system : Text) (ids : List Text) (links : List Link) (s i : Text)
    → is_linked s i (link_all system ids links)
      ≡ (is_linked s i links || ((system == s) && contains i ids))
unfolding link_all is_linked contains
is_linked-link_all system [] links s i = ground arith
is_linked-link_all system (id ∷ ids) links s i =
    is_linked-link_all system ids
      (if is_linked system id links then links else (system, id) ∷ links) s i
    ∙ ground (arith, ==_iff system s, ==_iff id i)

is_linked-unlink_others :
    (system : Text) (ids : List Text) (links : List Link) (s i : Text)
    → is_linked s i (unlink_others system ids links)
      ≡ (is_linked s i links && (not (system == s) || contains i ids))
unfolding unlink_others is_linked keep
is_linked-unlink_others system ids [] s i = refl
is_linked-unlink_others system ids ((t, j) ∷ links) s i = ground (
  arith,
  is_linked-unlink_others system ids links s i,
  ==_iff t s,
  ==_iff j i,
  ==_iff t system,
  ==_iff system s,
)

-- After the two statements a system is linked to exactly what is listed, and the links of every other
-- system are as they were.
pub is_linked-sync_links :
    (system : Text) (ids : List Text) (links : List Link) (s i : Text)
    → is_linked s i (sync_links system ids links)
      ≡ (if system == s then contains i ids else is_linked s i links)
unfolding sync_links
is_linked-sync_links system ids links s i = ground (
  arith,
  is_linked-unlink_others system ids (link_all system ids links) s i,
  is_linked-link_all system ids links s i,
)
