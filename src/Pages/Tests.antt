-- ===== src/Pages/Tests.antt =====
-- Runs of the pages' operations, and their theorems at concrete inputs.
use antimoney.Server.Snapshots.{new_row, take_snapshot, delete_snapshot}
use antimoney.Prelude.{◌≡◌, refl, arith, contains, String, List, false, none, some, [], ◌∷◌}
use antimoney.Types.{SnapshotSummary, manual}
use antimoney.Pages.Snapshots
use antimoney.Pages.Snapshots.View
use antimoney.Pages.DataManagement.{Linked, Mappings, PlaidBankAccount, Reply, ok, refused, link}
use antimoney.Pages.DataManagement
use antimoney.Pages.DataManagement.Bank.{on_success_done, submit_start, chosen}
use antimoney.Pages.DataManagement.Bank.Mapping.{
  choose_all, choice_in, last_choice, submit_start-choice,
}
use antimoney.Pages.DataManagement.Invariant

abbrev item : Linked
item = record { guid = "item"; institution = "Bank" }

abbrev choices : Mappings
choices = ("chequing", "acc") ∷ ("savings", "acc") ∷ ("savings", "") ∷ []

submit_start-choice_example :
    let t = choose_all choices (on_success_done (some (item, [])) DataManagement.initial) in
    ((submit_start t).1 ≡ some (link "item" (chosen t.plaid_mappings) false))
    × (choice_in "savings" (chosen t.plaid_mappings) ≡ last_choice "savings" choices none)
submit_start-choice_example = submit_start-choice item [] choices DataManagement.initial "savings"

run-start-IsValid_example : Invariant.IsValid (
    Invariant.run
      (Invariant.import_asked "book.json"
        ∷ Invariant.connect_asked "pt"
        ∷ Invariant.imported (refused none "Bad Request")
        ∷ Invariant.connected (some "token")
        ∷ Invariant.exchanged (some (item, []))
        ∷ [])
      Invariant.start)
run-start-IsValid_example = Invariant.run-start-IsValid (
    Invariant.import_asked "book.json"
    ∷ Invariant.connect_asked "pt"
    ∷ Invariant.imported (refused none "Bad Request")
    ∷ Invariant.connected (some "token")
    ∷ Invariant.exchanged (some (item, []))
    ∷ [])

abbrev snapshot : String → SnapshotSummary
snapshot id = record {
  id = id;
  book_guid = "book";
  label = "";
  trigger = manual;
  created_at = "2026-05-01";
}

abbrev texts : String → String
texts s = s

-- A page that shows two snapshots.
abbrev two_shown : View.System
two_shown = record {
  page = record Snapshots.initial { snapshots = snapshot "a" ∷ snapshot "b" ∷ [] };
  rows = snapshot "b" ∷ snapshot "a" ∷ [];
  written = [];
  deleted = [];
}

-- One is taken and one deleted at once, and the answers come in the other order.
snapshots_run : Unit {0}
unfolding View.step Snapshots.take_start Snapshots.take_done Snapshots.delete_start
    Snapshots.delete_done
snapshots_run = tt

abbrev crossed : List View.Event
crossed =
    View.take_granted "c" "2026-05-02"
    ∷ View.delete_asked "a"
    ∷ View.delete_answered "a"
    ∷ View.take_answered (new_row "c" "book" "" "2026-05-02")
    ∷ []

abbrev run : List View.Event → View.System → View.System
run [] s = s
run (e ∷ es) s = run es (View.step texts texts "book" e s)

crossed-Reach : View.Reach texts texts "book" two_shown (run crossed two_shown)
unfolding snapshots_run take_snapshot delete_snapshot
crossed-Reach =
    View.next
      (View.next
        (View.next (View.next View.here (View.take_granted "c" "2026-05-02") (refl, refl, refl))
          (View.delete_asked "a") refl)
        (View.delete_answered "a") refl)
      (View.take_answered (new_row "c" "book" "" "2026-05-02")) refl

same_ids :
    (id : String)
    → contains id (View.ids two_shown.page.snapshots) ≡ contains id (View.ids two_shown.rows)
same_ids id = ground arith

all_answered : ((run crossed two_shown).written ≡ []) × ((run crossed two_shown).deleted ≡ [])
unfolding snapshots_run take_snapshot delete_snapshot
all_answered = (refl, refl)

Reach-rows_example :
    contains "c" (View.ids (run crossed two_shown).page.snapshots)
    ≡ contains "c" (View.ids (run crossed two_shown).rows)
Reach-rows_example =
    View.Reach-rows texts texts "book" "c" same_ids refl refl crossed-Reach all_answered.0
      all_answered.1
