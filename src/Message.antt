-- ===== src/Message.antt =====
-- The messages of the pages, as the lists of their parts before these are translated.
use antimoney.Prelude.{ℕ, Bool, true, false, String, List, [], ◌∷◌, ◌++◌, ◌==◌, if◌then◌else◌}
use antimoney.Types.{SyncResult}

pub data Part : Type 0 where
  -- `t(key)`
  key : String → Part
  -- `t(key) || other`
  key_or : String → String → Part
  -- `t(key).replace(place, value)`
  filled : String → String → String → Part
  counted : String → ℕ → Part
  plain : String → Part

abbrev part_if : Bool → String → List Part
part_if true k = plain " " ∷ key k ∷ []
part_if false k = []

-- `moreSuffix`
abbrev pub more_suffix : SyncResult → List Part
more_suffix result =
    part_if result.has_more "plaid.syncMore" ++ part_if result.in_progress "plaid.syncInProgress"

-- What a failed synchronisation shows: "reconnect_required" is the server's mark for a bank that
-- wants to be authorised again.
abbrev pub sync_failure : String → String → List Part
sync_failure message institution =
    if message == "reconnect_required"
    then key "plaid.reconnectNeeded" ∷ []
    else filled "plaid.syncError" "{{institution}}" institution ∷ []
