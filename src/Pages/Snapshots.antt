-- ===== src/Pages/Snapshots.antt =====
-- frontend/src/pages/Snapshots.tsx: the snapshots of the book, and when they are taken.
--
-- `t` translates a key, `trim` is the browser's. A handler that waits for the server is two
-- functions, as in the page of a register.
pub mod View
use antimoney.Prelude.{
  ℕ, Bool, true, false, not, ◌||◌, String, Option, none, some, List, [], ◌∷◌, filter, ◌==◌,
}
use mathlib.Core.Option
use antimoney.Prelude.Int.{ℤ, pos, negsuc}
use antimoney.Types.{SnapshotTrigger, manual, scheduled, active, SnapshotConfig, SnapshotSummary}
use antimoney.Pages.{Message, success, error}

abbrev pub trigger_key : SnapshotTrigger → String
trigger_key scheduled = "snapshots.triggerScheduled"
trigger_key active = "snapshots.triggerActive"
trigger_key manual = "snapshots.triggerManual"

-- The background and the colour of `triggerBadgeStyle`.
abbrev pub trigger_badge_style : SnapshotTrigger → String × String
trigger_badge_style scheduled = ("#3b82f620", "#3b82f6")
trigger_badge_style active = ("#22c55e20", "#22c55e")
trigger_badge_style manual = ("#64748b20", "#64748b")

pub record State : Type 0 where
  pub config : Option SnapshotConfig
  pub snapshots : List SnapshotSummary
  pub frequency_hours : ℕ
  pub ttl_hours : ℕ
  pub active_mode : Bool
  pub label : String
  pub saving : Bool
  pub taking : Bool
  pub restoring_id : Option String
  pub deleting_id : Option String
  pub message : Option Message

abbrev pub initial : State
initial = record {
  config = none;
  snapshots = [];
  frequency_hours = 0;
  ttl_hours = 0;
  active_mode = false;
  label = "";
  saving = false;
  taking = false;
  restoring_id = none;
  deleting_id = none;
  message = none;
}

pub data Call : Type 0 where
  upsert_config : ℕ → ℕ → Bool → Call
  take_snapshot : String → Call
  restore_snapshot : String → Call
  delete_snapshot : String → Call

abbrev pub with_config : Option SnapshotConfig → State → State
with_config none s = s
with_config (some config) s = record s {
  config = some config;
  frequency_hours = config.frequency_hours;
  ttl_hours = config.ttl_hours;
  active_mode = config.active_mode;
}

-- The effect that loads the page; each of the two requests may fail alone.
unfoldable pub load_done : Option SnapshotConfig → Option (List SnapshotSummary) → State → State
load_done config snaps s = record (with_config config s) { snapshots = Option.get_or snaps [] }

-- The function of the timer that `showMessage` starts.
unfoldable pub message_timeout : State → State
message_timeout s = record s { message = none }

-- `Math.max(0, parseInt(v) || 0)`, where `none` is NaN.
abbrev pub hours : Option ℤ → ℕ
hours none = 0
hours (some (pos n)) = n
hours (some (negsuc n)) = 0

abbrev pub type_frequency : Option ℤ → State → State
type_frequency v s = record s { frequency_hours = hours v }

abbrev pub type_ttl : Option ℤ → State → State
type_ttl v s = record s { ttl_hours = hours v }

-- `handleSaveConfig` up to its call.
unfoldable pub save_start : State → State × Call
save_start s =
    (record s { saving = true }, upsert_config s.frequency_hours s.ttl_hours s.active_mode)

-- `handleTakeSnapshot` up to its call.
unfoldable pub take_start : (String → String) → State → State × Call
take_start trim s = (record s { taking = true }, take_snapshot (trim s.label))

-- `handleRestore` up to its call; `confirmed` is the answer to the question.
unfoldable pub restore_start : Bool → String → State → State × Option Call
restore_start false id s = (s, none)
restore_start true id s = (record s { restoring_id = some id }, some (restore_snapshot id))

-- `handleDelete` up to its call.
unfoldable pub delete_start : Bool → String → State → State × Option Call
delete_start false id s = (s, none)
delete_start true id s = (record s { deleting_id = some id }, some (delete_snapshot id))

abbrev is_id : String → Option String → Bool
is_id id none = false
is_id id (some other) = other == id

-- `disabled` of the two buttons of a row.
unfoldable pub is_row_disabled : String → State → Bool
is_row_disabled id s = is_id id s.restoring_id || is_id id s.deleting_id

-- Whether the page is to be loaded again in a second.
abbrev pub Reload : Type 0
Reload = Bool

module _ (t : String → String) where
  -- `handleSaveConfig` after its call, with the `finally`; `none` is a failure.
  unfoldable pub save_done : Option SnapshotConfig → State → State
  save_done none s = record s { message = some (error (t "snapshots.configError")); saving = false }
  save_done (some config) s = record s {
    config = some config;
    message = some (success (t "snapshots.configSaved"));
    saving = false;
  }

  unfoldable pub take_done : Option SnapshotSummary → State → State
  take_done none s = record s {
    message = some (error (t "snapshots.snapshotError"));
    taking = false;
  }
  take_done (some row) s = record s {
    snapshots = row ∷ s.snapshots;
    label = "";
    message = some (success (t "snapshots.snapshotTaken"));
    taking = false;
  }

  unfoldable pub restore_done : Bool → State → State × Reload
  restore_done true s = (record s { message = some (success (t "snapshots.restoreSuccess")) }, true)
  restore_done false s =
      (record s { message = some (error (t "snapshots.restoreError")); restoring_id = none }, false)

  unfoldable pub delete_done : String → Bool → State → State
  delete_done id true s = record s {
    snapshots = filter (λ x. not (x.id == id)) s.snapshots;
    message = some (success (t "snapshots.deleteSuccess"));
    deleting_id = none;
  }
  delete_done id false s = record s {
    message = some (error (t "snapshots.deleteError"));
    deleting_id = none;
  }
