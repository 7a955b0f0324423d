-- ===== src/Shortcuts/Tests.antt =====
-- Runs of the shortcuts, and their theorems at concrete inputs.
use antimoney.Prelude.{
  ℕ, ◌≡◌, refl, ◌||◌, ◌==◌, Bool, true, false, String, none, some, List, [], ◌∷◌,
}
use antimoney.Shortcuts.{
  Shortcut, KeyEvent, is_input, Registry, register_shortcut, unregister, applies, handle_key_down,
  global_setup, global_cleanup, global_shortcuts, register_all, unregister_all,
}
use antimoney.Shortcuts.Dispatch.{handle_key_down_guards}

abbrev on_key : ℕ → String → Bool → Shortcut String
on_key handle key ctrl = record {
  handle = handle;
  key = key;
  ctrl = ctrl;
  alt = false;
  shift = false;
  action = key;
  description = "";
  scope = none;
}

abbrev press : String → String → KeyEvent
press key tag = record {
  key = key;
  ctrl_key = false;
  meta_key = false;
  alt_key = false;
  shift_key = false;
  tag_name = tag;
}

abbrev same : String → String
same s = s

abbrev table : List (Shortcut String)
table = on_key 0 "Enter" true ∷ on_key 1 "n" false ∷ on_key 2 "Escape" false ∷ []

shortcuts : Unit {0}
unfolding applies handle_key_down global_setup global_cleanup global_shortcuts register_all
    unregister_all unregister register_shortcut
shortcuts = tt

runs_n : handle_key_down same (press "n" "BODY") table ≡ some (on_key 1 "n" false)
unfolding shortcuts
runs_n = refl

not_in_input : handle_key_down same (press "n" "INPUT") table ≡ none
unfolding shortcuts
not_in_input = refl

escape_in_input :
    handle_key_down same (press "Escape" "INPUT") table ≡ some (on_key 2 "Escape" false)
unfolding shortcuts
escape_in_input = refl

handle_key_down_guards_example :
    let s = on_key 2 "Escape" false in
    let e = press "Escape" "INPUT" in
    ((same s.key == same e.key) ≡ true)
    × (s.ctrl ≡ true → (e.ctrl_key || e.meta_key) ≡ true)
    × (s.alt ≡ true → e.alt_key ≡ true)
    × (s.shift ≡ true → e.shift_key ≡ true)
    × (is_input e ≡ true → (s.key == "Escape") ≡ true)
handle_key_down_guards_example =
    handle_key_down_guards same (press "Escape" "INPUT") table (on_key 2 "Escape" false)
      escape_in_input

abbrev registry : Registry String
registry = record { shortcuts = table; next = 3; initialized = false; listening = false }
