-- ===== src/Copilot/Groups.antt =====
-- server/app/services/platform.py, `copilot_answer`: the records in groups, as its dictionaries of
-- lists hold them.
use legal_bridge.Prelude.{Bool, List, [], ◌∷◌, ◌++◌, length, ltb, text_eq, text_le, if◌then◌else◌}
use legal_bridge.Store.Schema.{Text}
use legal_bridge.Extraction.Pages.{without}
use legal_bridge.Copilot.{PageRecord}

-- A dictionary of lists, in the order in which its keys came.
abbrev pub Groups : Type 0
Groups = List (Text × List PageRecord)

-- `groups.setdefault(key, []).extend(records)`
unfoldable pub extend_group : Text → List PageRecord → Groups → Groups
extend_group key records [] = (key, records) ∷ []
extend_group key records ((k, old) ∷ groups) =
    if text_eq k key
    then (k, old ++ records) ∷ groups
    else (k, old) ∷ extend_group key records groups

unfoldable pub group_records : (PageRecord → Text) → Groups → List PageRecord → Groups
unfolding extend_group
group_records key groups [] = groups
group_records key groups (r ∷ records) =
    group_records key (extend_group (key r) (r ∷ []) groups) records

abbrev pub by_key : List PageRecord → Groups
by_key = group_records (λ r. r.key) []

-- `len({...}) > 1`
abbrev pub several : List Text → Bool
several values = ltb 1 (length (without [] values))

abbrev pub value_of : PageRecord → Text
value_of r = r.value

abbrev pub group_le : (Text × List PageRecord) → (Text × List PageRecord) → Bool
group_le a b = text_le a.0 b.0
