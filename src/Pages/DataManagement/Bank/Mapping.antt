-- ===== src/Pages/DataManagement/Bank/Mapping.antt =====
-- The mapping of a bank's accounts: what is sent is what was chosen.
use antimoney.Prelude.{
  ◌≡◌, refl, ap, ◌∙◌, inl, inr, false, ◌||◌, String, Option, none, some, List, [], ◌∷◌, map, ◌==◌,
  eq_iff, arith, Bool-cases, contains, Distinct, if◌then◌else◌,
}
use antimoney.Pages.DataManagement.{Mappings, Linked, PlaidBankAccount, State, link}
use antimoney.Pages.DataManagement.Bank.{set_mapping, choose, chosen, on_success_done, submit_start}

abbrev pub choice_in : String → Mappings → Option String
choice_in id [] = none
choice_in id ((k, v) ∷ m) = if k == id then some v else choice_in id m

-- The choice of "" is none.
abbrev pub real : String → Option String
real v = if v == "" then none else some v

abbrev ids : Mappings → List String
ids m = map (λ (e : String × String). e.0) m

contains-set_mapping :
    (j id guid : String) (m : Mappings)
    → contains j (ids (set_mapping id guid m)) ≡ (contains j (ids m) || (j == id))
contains-set_mapping j id guid [] = ground arith
contains-set_mapping j id guid ((k, v) ∷ m) =
    ground (arith, eq_iff k id, eq_iff j k, eq_iff j id, contains-set_mapping j id guid m)

set_mapping-Distinct :
    (id guid : String) (m : Mappings) → Distinct (ids m) → Distinct (ids (set_mapping id guid m))
set_mapping-Distinct id guid [] d = (refl, tt)
set_mapping-Distinct id guid ((k, v) ∷ m) d = elim (Bool-cases (k == id)) [
  | inl here ↦ rw here d
  | inr other ↦ rw other (
    ground (arith, contains-set_mapping k id guid m, other, d.0),
    set_mapping-Distinct id guid m d.1,
  )
]

choice_absent :
    (id : String) (m : Mappings) → contains id (ids m) ≡ false → choice_in id (chosen m) ≡ none
unfolding chosen
choice_absent id [] h = refl
choice_absent id ((k, v) ∷ m) h = ground (arith, eq_iff k id, eq_iff id k, choice_absent id m, h)

-- What one choice changes of the mappings that would be sent.
choice-set_mapping :
    (j id guid : String) (m : Mappings)
    → Distinct (ids m)
    → choice_in j (chosen (set_mapping id guid m))
      ≡ (if id == j then real guid else choice_in j (chosen m))
unfolding chosen
choice-set_mapping j id guid [] d = ground arith
choice-set_mapping j id guid ((k, v) ∷ m) d = ground (
  arith,
  eq_iff k id,
  eq_iff id j,
  eq_iff k j,
  choice-set_mapping j id guid m d.1,
  choice_absent k m d.0,
)

abbrev pub choose_all : Mappings → State → State
choose_all [] s = s
choose_all ((id, guid) ∷ cs) s = choose_all cs (choose id guid s)

-- The last choice for the account, where `before` is what stood before the choices.
abbrev pub last_choice : String → Mappings → Option String → Option String
last_choice j [] before = before
last_choice j ((id, guid) ∷ cs) before = last_choice j cs (if id == j then real guid else before)

choice-choose_all :
    (j : String) (cs : Mappings) (s : State)
    → Distinct (ids s.plaid_mappings)
    → choice_in j (chosen (choose_all cs s).plaid_mappings)
      ≡ last_choice j cs (choice_in j (chosen s.plaid_mappings))
unfolding choose
choice-choose_all j [] s d = refl
choice-choose_all j ((id, guid) ∷ cs) s d =
    choice-choose_all j cs (choose id guid s) (set_mapping-Distinct id guid s.plaid_mappings d)
    ∙ ap (last_choice j cs) (choice-set_mapping j id guid s.plaid_mappings d)

item-choose_all : (cs : Mappings) (s : State) → (choose_all cs s).plaid_item ≡ s.plaid_item
unfolding choose
item-choose_all [] s = refl
item-choose_all ((id, guid) ∷ cs) s = item-choose_all cs (choose id guid s)

pending-choose_all :
    (cs : Mappings) (s : State) → (choose_all cs s).plaid_import_pending ≡ s.plaid_import_pending
unfolding choose
pending-choose_all [] s = refl
pending-choose_all ((id, guid) ∷ cs) s = pending-choose_all cs (choose id guid s)

-- Whatever is chosen, in any order, after a bank is connected: the save sends one request for
-- this bank, and the request maps an account of the bank to the account that was chosen for it
-- last, and to none where nothing, or no mapping, was chosen for it last.
pub submit_start-choice :
    (item : Linked) (accounts : List PlaidBankAccount) (cs : Mappings) (s : State) (j : String)
    → let t = choose_all cs (on_success_done (some (item, accounts)) s) in
      ((submit_start t).1 ≡ some (link item.guid (chosen t.plaid_mappings) s.plaid_import_pending))
      × (choice_in j (chosen t.plaid_mappings) ≡ last_choice j cs none)
unfolding submit_start on_success_done chosen
submit_start-choice item accounts cs s j =
    let start = on_success_done (some (item, accounts)) s in
    let t = choose_all cs start in
    (
      rw (item-choose_all cs start, pending-choose_all cs start) refl,
      choice-choose_all j cs start tt,
    )
