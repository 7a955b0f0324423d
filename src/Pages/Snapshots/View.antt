-- ===== src/Pages/Snapshots/View.antt =====
-- frontend/src/pages/Snapshots.tsx with the server's table of snapshots: several requests may be
-- under way, and their answers come in any order.
use antimoney.Prelude.{
  ◌≡◌, refl, inl, inr, true, false, not, ◌&&◌, ◌||◌, ◌==◌, eq_iff, String, Option, none, some, List,
  [], ◌∷◌, map, any, filter, arith, Bool-cases, contains, delete, contains-delete,
}
use antimoney.Types.{SnapshotConfig, SnapshotSummary}
use antimoney.Server.Snapshots.{new_row}
use antimoney.Server.Snapshots
use antimoney.Pages.Snapshots.{
  State, Call, take_snapshot, save_start, save_done, message_timeout, take_start, take_done,
  delete_start, delete_done,
}

abbrev pub Rows : Type 0
Rows = List SnapshotSummary

-- The page, the rows of the table, and the answers that are on their way: rows that were written,
-- and the ids of rows that were deleted.
pub record System : Type 0 where
  pub page : State
  pub rows : Rows
  pub written : Rows
  pub deleted : List String

abbrev pub ids : Rows → List String
ids = map (λ x. x.id)

pub data Event : Type 0 where
  -- a request to take a snapshot that the server grants, with the id and the time of the row, and
  -- the answer to it
  take_granted : (id now : String) → Event
  take_answered : SnapshotSummary → Event
  -- one that it does not grant, or that never reaches it
  take_lost : Event
  take_failed : Event
  delete_asked : String → Event
  delete_answered : String → Event
  delete_failed : String → Event
  saved : Option SnapshotConfig → Event
  timed_out : Event

-- The label that is sent.
abbrev label_of : Call → String
label_of (take_snapshot label) = label
label_of _ = ""

abbrev with_deletion : String → System → Option Rows → System
with_deletion id s none = s
with_deletion id s (some fewer) = record s { rows = fewer; deleted = id ∷ s.deleted }

-- The parameters are the translation of keys, `trim`, and the book.
module _ (t trim : String → String) (book : String) where
  unfoldable pub step : Event → System → System
  step (take_granted id now) s =
      let (page, call) = take_start trim s.page in
      let (rows, row) = Snapshots.take_snapshot id book (label_of call) now s.rows in
      record s { page = page; rows = rows; written = row ∷ s.written }
  step (take_answered row) s = record s {
    page = take_done t (some row) s.page;
    written = filter (λ x. not (x.id == row.id)) s.written;
  }
  step take_lost s = record s { page = (take_start trim s.page).0 }
  step take_failed s = record s { page = take_done t none s.page }
  step (delete_asked id) s =
      with_deletion id (record s { page = (delete_start true id s.page).0 })
        (Snapshots.delete_snapshot id s.rows)
  step (delete_answered id) s = record s {
    page = delete_done t id true s.page;
    deleted = delete id s.deleted;
  }
  step (delete_failed id) s = record s { page = delete_done t id false s.page }
  step (saved answer) s = record s { page = save_done t answer (save_start s.page).0 }
  step timed_out s = record s { page = message_timeout s.page }

-- When an event can happen: a new row has an id that nothing has, an answer is on its way, and a
-- snapshot that is to be deleted is shown.
abbrev pub Allowed : Event → System → Type 0
Allowed (take_granted id now) s =
    (contains id (ids s.page.snapshots) ≡ false)
    × (contains id (ids s.written) ≡ false)
    × (contains id s.deleted ≡ false)
Allowed (take_answered row) s = contains row.id (ids s.written) ≡ true
Allowed (delete_asked id) s = contains id (ids s.page.snapshots) ≡ true
Allowed (delete_answered id) s = contains id s.deleted ≡ true
Allowed _ s = Unit

-- The rows are those on the page and those on their way to it, without those whose deletion is on
-- its way.
pub record IsView (s : System) : Type 0 where
  pub rows_are :
      (k : String)
      → contains k (ids s.rows) ≡ (
          (contains k (ids s.page.snapshots) || contains k (ids s.written))
          && not (contains k s.deleted))
  -- what is on its way is not shown yet, and is not deleted
  pub apart :
      (k : String)
      → contains k (ids s.written) ≡ true
      → (contains k (ids s.page.snapshots) ≡ false) × (contains k s.deleted ≡ false)

ids-filter_other :
    (k id : String) (l : Rows)
    → contains k (ids (filter (λ x. not (x.id == id)) l)) ≡ (contains k (ids l) && not (k == id))
ids-filter_other k id [] = refl
ids-filter_other k id (x ∷ l) =
    ground
      (arith, eq_iff x.id id, eq_iff k x.id, eq_iff x.id k, eq_iff k id, ids-filter_other k id l)

any-eq-contains : (id : String) (l : Rows) → any (λ x. x.id == id) l ≡ contains id (ids l)
any-eq-contains id [] = refl
any-eq-contains id (x ∷ l) = ground (arith, eq_iff x.id id, eq_iff id x.id, any-eq-contains id l)

module _ (t trim : String → String) (book : String) where
  granted-IsView :
      (id now : String) (s : System)
      → Allowed (take_granted id now) s
      → IsView s
      → IsView (step t trim book (take_granted id now) s)
  unfolding step take_start Snapshots.take_snapshot
  granted-IsView id now s a v = record {
    rows_are = λ k. ground (arith, v.rows_are k, v.rows_are id, eq_iff id k, eq_iff k id, a);
    apart = λ k h. ground (arith, v.apart k, eq_iff id k, eq_iff k id, a, h);
  }

  answered-IsView :
      (row : SnapshotSummary) (s : System)
      → Allowed (take_answered row) s
      → IsView s
      → IsView (step t trim book (take_answered row) s)
  unfolding step take_done
  answered-IsView row s a v = record {
    rows_are = λ k. ground (
      arith,
      v.rows_are k,
      v.apart row.id a,
      v.rows_are row.id,
      eq_iff k row.id,
      ids-filter_other k row.id s.written,
      a,
    );
    apart =
        λ k h. ground (arith, v.apart k, eq_iff k row.id, ids-filter_other k row.id s.written, h);
  }

  asked-IsView :
      (id : String) (s : System)
      → Allowed (delete_asked id) s
      → IsView s
      → IsView (step t trim book (delete_asked id) s)
  unfolding step delete_start Snapshots.delete_snapshot
  asked-IsView id s a v = elim (Bool-cases (any (λ x. x.id == id) s.rows)) [
    | inl there ↦ rw there (record {
      rows_are = λ k. ground (arith, v.rows_are k, ids-filter_other k id s.rows, eq_iff k id);
      apart = λ k h. ground (arith, v.apart k, eq_iff k id, a, h);
    })
    | inr missing ↦ rw missing (record { rows_are = v.rows_are; apart = v.apart })
  ]

  deleted-IsView :
      (id : String) (s : System)
      → Allowed (delete_answered id) s
      → IsView s
      → IsView (step t trim book (delete_answered id) s)
  unfolding step delete_done
  deleted-IsView id s a v = record {
    rows_are = λ k. ground (
      arith,
      v.rows_are k,
      v.apart k,
      ids-filter_other k id s.page.snapshots,
      contains-delete id k s.deleted,
      eq_iff k id,
      a,
    );
    apart = λ k h. ground (
      arith,
      v.apart k,
      ids-filter_other k id s.page.snapshots,
      contains-delete id k s.deleted,
      h,
    );
  }

  step-IsView : (e : Event) (s : System) → Allowed e s → IsView s → IsView (step t trim book e s)
  unfolding step take_start take_done delete_done save_start save_done message_timeout
  step-IsView (take_granted id now) s a v = granted-IsView id now s a v
  step-IsView (take_answered row) s a v = answered-IsView row s a v
  step-IsView take_lost s a v = record { rows_are = v.rows_are; apart = v.apart }
  step-IsView take_failed s a v = record { rows_are = v.rows_are; apart = v.apart }
  step-IsView (delete_asked id) s a v = asked-IsView id s a v
  step-IsView (delete_answered id) s a v = deleted-IsView id s a v
  step-IsView (delete_failed id) s a v = record { rows_are = v.rows_are; apart = v.apart }
  step-IsView (saved none) s a v = record { rows_are = v.rows_are; apart = v.apart }
  step-IsView (saved (some c)) s a v = record { rows_are = v.rows_are; apart = v.apart }
  step-IsView timed_out s a v = record { rows_are = v.rows_are; apart = v.apart }

  -- What can be reached from a state by events that can happen.
  pub data Reach (s : System) : System → Type 0 where
    here : Reach s s
    next : {r : System} → Reach s r → (e : Event) → Allowed e r → Reach s (step t trim book e r)

  Reach-IsView : {s r : System} → IsView s → Reach s r → IsView r
  Reach-IsView v here = v
  Reach-IsView v (next {r} before e a) = step-IsView e r a (Reach-IsView v before)

  -- Snapshots that are taken and deleted while other requests are under way: where the page begins
  -- with the rows of the server's table, however requests to take and to delete snapshots and
  -- their answers come between each other, granted or failed, once no answer of a request that the
  -- server granted is on its way the page shows exactly the ids of the table's rows. This from the
  -- answer to the list until the page is loaded again, where nobody else writes to the table, a
  -- new row has a new id, no such answer is lost, and what is deleted is shown.
  pub Reach-rows :
      {s r : System} (k : String)
      → ((id : String) → contains id (ids s.page.snapshots) ≡ contains id (ids s.rows))
      → s.written ≡ []
      → s.deleted ≡ []
      → Reach s r
      → r.written ≡ []
      → r.deleted ≡ []
      → contains k (ids r.page.snapshots) ≡ contains k (ids r.rows)
  Reach-rows {s} {r} k same no_written no_deleted reach settled settled' =
      let first : IsView s = record {
        rows_are = λ id. ground (arith, same id, no_written, no_deleted);
        apart = λ id h. ground (arith, no_written, h);
      } in
      ground (arith, (Reach-IsView first reach).rows_are k, settled, settled')
