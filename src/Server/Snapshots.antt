-- ===== src/Server/Snapshots.antt =====
-- backend/internal/services/snapshot_service.go: the snapshots of one book, as rows of a table
-- in no particular order. A failure of the database, and the limit on snapshots in a day, are
-- failed requests: the rows stay as they are.
use antimoney.Prelude.{
  Ordering, not, String, Option, none, some, List, ◌∷◌, ◌==◌, any, filter, compare_text,
  if◌then◌else◌,
}
use antimoney.Prelude.Sorting.{sort}
use antimoney.Types.{SnapshotSummary, manual}

-- `ORDER BY created_at DESC`
abbrev pub newest_first : SnapshotSummary → SnapshotSummary → Ordering
newest_first a b = compare_text b.created_at a.created_at

unfoldable pub list_snapshots : List SnapshotSummary → List SnapshotSummary
list_snapshots rows = sort newest_first rows

-- The row that is written, with the id and the time that the database gives it.
abbrev pub new_row : String → String → String → String → SnapshotSummary
new_row id book label now = record {
  id = id;
  book_guid = book;
  label = label;
  trigger = manual;
  created_at = now;
}

-- The rows with a new one, for which the database gives the id and the time.
unfoldable pub take_snapshot :
    String
    → String
    → String
    → String
    → List SnapshotSummary
    → List SnapshotSummary × SnapshotSummary
take_snapshot id book label now rows = (new_row id book label now ∷ rows, new_row id book label now)

-- `none` is `ErrSnapshotNotFound`.
unfoldable pub delete_snapshot : String → List SnapshotSummary → Option (List SnapshotSummary)
delete_snapshot id rows =
    if any (λ s. s.id == id) rows then some (filter (λ s. not (s.id == id)) rows) else none
