-- ===== src/Dashboard/Answers.antt =====
-- frontend/src/pages/Dashboard.tsx: which accounts the page shows, as the answers to its requests
-- come in.
use antimoney.Prelude.{
  ◌≡◌, ◌≢◌, refl, sym, ap, ◌∙◌, subst, inl, inr, Bool, false, ◌==◌, String, some, List, [], ◌∷◌,
  ◌++◌, Bool-cases,
}
use antimoney.Types.{Account}
use antimoney.Dashboard.Page.{
  State, load_done, choose_range, toggle, Run, opened, chosen, toggled, answered, step,
}

module _ (server : String → List Account) where
  -- What happens where the server's answers come in the order of the requests, and none fails.
  pub data Reach : Run → Type 0 where
    here : Reach opened
    choose : {r : Run} (range : String) → Reach r → Reach (step (chosen range) r)
    toggles : {r : Run} (value : Bool) → Reach r → Reach (step (toggled value) r)
    answer :
        {r : Run} (range : String) (later : List String)
        → r.waiting ≡ range ∷ later
        → Reach r
        → Reach (step (answered 0 (some (server range))) r)

  -- The range that was asked for last, or `range` where none waits.
  abbrev last_asked : String → List String → String
  last_asked range [] = range
  last_asked range (x ∷ l) = last_asked x l

  record IsSettled (r : Run) : Type 0 where
    newest : last_asked r.page.time_range r.waiting ≡ r.page.time_range
    shown : r.waiting ≡ [] → (r.page.accounts ≡ server r.page.time_range) × (r.page.loading ≡ false)

  last_asked-append :
      (d range : String) (l : List String) → last_asked d (l ++ (range ∷ [])) ≡ range
  last_asked-append d range [] = refl
  last_asked-append d range (x ∷ l) = last_asked-append x range l

  not_empty : (range : String) (l : List String) → (l ++ (range ∷ [])) ≢ []
  not_empty range [] h = absurd (cc)
  not_empty range (x ∷ l) h = absurd (cc)

  choose-IsSettled : (range : String) (r : Run) → IsSettled r → IsSettled (step (chosen range) r)
  unfolding step choose_range
  choose-IsSettled range r h = elim (Bool-cases (range == r.page.time_range)) [
    | inl same ↦ rw same h
    | inr other ↦ rw other (record {
      newest = last_asked-append range range r.waiting;
      shown = λ e. absurd (not_empty range r.waiting e);
    })
  ]

  toggle-IsSettled : (value : Bool) (r : Run) → IsSettled r → IsSettled (step (toggled value) r)
  unfolding step toggle
  toggle-IsSettled value r h = record { newest = h.newest; shown = h.shown }

  answered_run : State → String → List String → Run
  answered_run s range later =
      step (answered 0 (some (server range))) (record { page = s; waiting = range ∷ later })

  answered-IsSettled :
      (s : State) (range : String) (later : List String)
      → last_asked range later ≡ s.time_range
      → IsSettled (answered_run s range later)
  unfolding answered_run step load_done
  answered-IsSettled s range [] h = record { newest = refl; shown = λ e. (ap server h, refl) }
  answered-IsSettled s range (x ∷ l) h = record { newest = h; shown = λ e. absurd (cc) }

  answer-IsSettled :
      (r : Run) (range : String) (later : List String)
      → r.waiting ≡ range ∷ later
      → IsSettled r
      → IsSettled (step (answered 0 (some (server range))) r)
  unfolding answered_run
  answer-IsSettled r range later e settled =
      subst (λ q. IsSettled (step (answered 0 (some (server range))) q))
        (λ i. record r { waiting = sym e i })
        (answered-IsSettled r.page range later
          (sym (ap (last_asked r.page.time_range) e) ∙ settled.newest))

  Reach-IsSettled : {r : Run} → Reach r → IsSettled r
  Reach-IsSettled here = record { newest = refl; shown = λ e. absurd (cc) }
  Reach-IsSettled (choose {r} range t) = choose-IsSettled range r (Reach-IsSettled t)
  Reach-IsSettled (toggles {r} value t) = toggle-IsSettled value r (Reach-IsSettled t)
  Reach-IsSettled (answer {r} range later e t) =
      answer-IsSettled r range later e (Reach-IsSettled t)

  -- Where the answers come in the order of the requests and none fails: whatever ranges are chosen
  -- and however the toggle is set meanwhile, once no request waits the spinner is gone and the
  -- page has the accounts of the range that is selected.
  pub Reach-accounts :
      {r : Run}
      → Reach r
      → r.waiting ≡ []
      → (r.page.accounts ≡ server r.page.time_range) × (r.page.loading ≡ false)
  Reach-accounts t e = (Reach-IsSettled t).shown e
