-- ===== src/Shortcuts/Lifecycle.antt =====
-- Registering and unregistering.
use antimoney.Prelude.{
  ℕ, suc, ◌≤◌, ◌<◌, ◌≡◌, refl, ap, sym, ◌∙◌, true, false, String, some, List, [], ◌∷◌, ◌++◌, All,
  length, arith, eqb_iff,
}
use mathlib.Core.List.{append_assoc, append-nil}
use antimoney.Shortcuts.{
  Shortcut, Registry, register_shortcut, unregister, register_all, unregister_all, global_setup,
  global_cleanup, global_shortcuts,
}

module _ {ℓ} {Action : Type ℓ} where
  -- All handles come before the number.
  abbrev pub AreBelow : ℕ → List (Shortcut Action) → Type 0
  AreBelow n = All (λ s. s.handle < n)

  -- The function that a registration returns takes away exactly what was registered, also when
  -- other shortcuts have been registered since.
  pub unregister-append :
      (old later : List (Shortcut Action)) (s : Shortcut Action)
      → AreBelow s.handle old
      → unregister s.handle (register_shortcut s old ++ later) ≡ old ++ later
  unfolding unregister register_shortcut
  unregister-append [] later s h = ground (arith, eqb_iff s.handle s.handle)
  unregister-append (x ∷ old) later s h = ground (arith, h.0, unregister-append old later s h.1)

  unregister_middle :
      (old rest : List (Shortcut Action)) (s : Shortcut Action) (handle : ℕ)
      → s.handle ≡ handle
      → AreBelow handle old
      → unregister handle (old ++ (s ∷ rest)) ≡ old ++ rest
  unfolding unregister
  unregister_middle [] rest s handle e h = ground (arith, eqb_iff s.handle handle)
  unregister_middle (x ∷ old) rest s handle e h =
      ground (arith, h.0, unregister_middle old rest s handle e h.1)

  AreBelow-le : (m n : ℕ) (l : List (Shortcut Action)) → m ≤ n → AreBelow m l → AreBelow n l
  AreBelow-le m n [] h below = tt
  AreBelow-le m n (x ∷ l) h below = (omega (arith, below.0), AreBelow-le m n l h below.1)

  abbrev with_handle : ℕ → Shortcut Action → Shortcut Action
  with_handle n s = record s { handle = n }

  -- What `register_all` adds: the shortcuts under consecutive handles.
  abbrev numbered : ℕ → List (Shortcut Action) → List (Shortcut Action)
  numbered n [] = []
  numbered n (s ∷ ss) = with_handle n s ∷ numbered (suc n) ss

  register_all-shortcuts :
      (ss : List (Shortcut Action)) (r : Registry Action)
      → (register_all ss r).shortcuts ≡ r.shortcuts ++ numbered r.next ss
  unfolding register_all register_shortcut
  register_all-shortcuts [] r = sym (append-nil r.shortcuts)
  register_all-shortcuts (s ∷ ss) r =
      register_all-shortcuts ss
        (record r { shortcuts = r.shortcuts ++ (with_handle r.next s ∷ []); next = suc r.next })
      ∙ append_assoc r.shortcuts (with_handle r.next s ∷ []) (numbered (suc r.next) ss)

  unregister_numbered :
      (n : ℕ) (ss old later : List (Shortcut Action))
      → AreBelow n old
      → unregister_all (length ss) n (old ++ (numbered n ss ++ later)) ≡ old ++ later
  unfolding unregister_all
  unregister_numbered n [] old later h = refl
  unregister_numbered n (s ∷ ss) old later h =
      ap (unregister_all (length ss) (suc n))
        (unregister_middle old (numbered (suc n) ss ++ later) (with_handle n s) n refl h)
      ∙ unregister_numbered (suc n) ss old later (AreBelow-le n (suc n) old (omega arith) h)

  -- Where the shortcuts are not yet set up and the registry's handles are fresh, the clean-up of
  -- the global shortcuts takes away exactly the four that their effect registered: what stood
  -- before them and what was registered since stays, in order.
  global_cleanup_setup :
      (navigate : String → Action) (r : Registry Action) (later : List (Shortcut Action))
      → r.initialized ≡ false
      → AreBelow r.next r.shortcuts
      → let (r', first) = global_setup navigate r in
        (first ≡ some r.next)
        × ((global_cleanup r.next (record r' { shortcuts = r'.shortcuts ++ later })).shortcuts
            ≡ r.shortcuts ++ later)
  unfolding global_setup global_cleanup global_shortcuts
  global_cleanup_setup navigate r later h below =
      let ss = global_shortcuts navigate in
      let r0 : Registry Action = record r { initialized = true; listening = true } in
      rw h (
        refl,
        ap (λ l. unregister_all 4 r.next (l ++ later)) (register_all-shortcuts ss r0)
            ∙ ap (unregister_all 4 r.next) (append_assoc r.shortcuts (numbered r.next ss) later)
            ∙ unregister_numbered r.next ss r.shortcuts later below,
      )
