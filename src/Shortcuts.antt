-- ===== src/Shortcuts.antt =====
-- frontend/src/hooks/useShortcuts.ts: the registry of keyboard shortcuts.
--
-- The module's array is a list of registered shortcuts. `indexOf` compares objects, so each
-- registration has an identity, the number `handle`. An action is the parameter type `Action`,
-- and `toLowerCase` the parameter `lower`.
pub mod Dispatch
pub mod Lifecycle
mod Tests
use antimoney.Prelude.{
  ℕ, zero, suc, ◌+◌, Bool, true, false, not, ◌&&◌, ◌||◌, ◌==◌, eqb, String, Option, none, some,
  List, [], ◌∷◌, ◌++◌, if◌then◌else◌,
}

pub data Scope : Type 0 where
  global modal : Scope

pub record Shortcut {ℓ} (Action : Type ℓ) : Type ℓ where
  pub handle : ℕ
  pub key : String
  pub ctrl : Bool
  pub alt : Bool
  pub shift : Bool
  pub action : Action
  pub description : String
  pub scope : Option Scope

pub record KeyEvent : Type 0 where
  pub key : String
  pub ctrl_key : Bool
  pub meta_key : Bool
  pub alt_key : Bool
  pub shift_key : Bool
  pub tag_name : String

-- `target.tagName === 'INPUT' || …`
abbrev pub is_input : KeyEvent → Bool
is_input e = e.tag_name == "INPUT" || e.tag_name == "TEXTAREA" || e.tag_name == "SELECT"

module _ {ℓ} {Action : Type ℓ} where
  -- `registerShortcut`
  unfoldable pub register_shortcut :
      Shortcut Action → List (Shortcut Action) → List (Shortcut Action)
  register_shortcut s shortcuts = shortcuts ++ (s ∷ [])

  -- The function that `registerShortcut` returns: the first occurrence goes.
  unfoldable pub unregister : ℕ → List (Shortcut Action) → List (Shortcut Action)
  unregister handle [] = []
  unregister handle (s ∷ shortcuts) =
      if eqb s.handle handle then shortcuts else s ∷ unregister handle shortcuts

  module _ (lower : String → String) where
    -- The tests of the loop of `handleKeyDown` that do not `continue`.
    unfoldable pub applies : KeyEvent → Shortcut Action → Bool
    applies e s =
        lower s.key == lower e.key
        && not (s.ctrl && not e.ctrl_key && not e.meta_key)
        && not (s.alt && not e.alt_key)
        && not (s.shift && not e.shift_key)
        && not (not (s.key == "Escape") && is_input e)

    -- `handleKeyDown`: the shortcut whose action runs; only then the event's default is prevented.
    unfoldable pub handle_key_down : KeyEvent → List (Shortcut Action) → Option (Shortcut Action)
    handle_key_down e [] = none
    handle_key_down e (s ∷ shortcuts) = if applies e s then some s else handle_key_down e shortcuts

-- The state of `useGlobalShortcuts`: whether it is set up, with the handles that it registered.
pub record Registry {ℓ} (Action : Type ℓ) : Type ℓ where
  pub shortcuts : List (Shortcut Action)
  pub next : ℕ
  pub initialized : Bool
  pub listening : Bool

module _ {ℓ} {Action : Type ℓ} where
  unfoldable pub register_all : List (Shortcut Action) → Registry Action → Registry Action
  register_all [] r = r
  register_all (s ∷ ss) r = register_all ss (record r {
    shortcuts = register_shortcut (record s { handle = r.next }) r.shortcuts;
    next = suc r.next;
  })

  -- `unregister.forEach(u => u())`, for the handles from `first` on.
  unfoldable pub unregister_all : ℕ → ℕ → List (Shortcut Action) → List (Shortcut Action)
  unregister_all zero first shortcuts = shortcuts
  unregister_all (suc n) first shortcuts = unregister_all n (suc first) (unregister first shortcuts)

  abbrev navigation : (String → Action) → String → String → String → Shortcut Action
  navigation navigate key path description = record {
    handle = 0;
    key = key;
    ctrl = false;
    alt = true;
    shift = false;
    action = navigate path;
    description = description;
    scope = some global;
  }

  unfoldable pub global_shortcuts : (String → Action) → List (Shortcut Action)
  global_shortcuts navigate =
      navigation navigate "1" "/" "Go to Dashboard"
      ∷ navigation navigate "2" "/accounts" "Go to Accounts"
      ∷ navigation navigate "3" "/transactions" "Go to Transactions"
      ∷ navigation navigate "4" "/data" "Go to Data Management"
      ∷ []

  -- The effect of `useGlobalShortcuts`; the second part is the first handle, if it was set up.
  unfoldable pub global_setup : (String → Action) → Registry Action → Registry Action × Option ℕ
  global_setup navigate r = if r.initialized then (r, none) else (
    register_all (global_shortcuts navigate) (record r { initialized = true; listening = true }),
    some r.next,
  )

  -- Its clean-up.
  unfoldable pub global_cleanup : ℕ → Registry Action → Registry Action
  global_cleanup first r = record r {
    shortcuts = unregister_all 4 first r.shortcuts;
    initialized = false;
    listening = false;
  }
