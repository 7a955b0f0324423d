-- ===== src/Prelude/Keys.antt =====
-- Texts as keys: membership as a `Set<string>` or an array of ids has it, and lists whose
-- keys are all different.
use Prim.Native.Nat.{ℕ, suc, ◌+◌}
use Prim.Native.String.{String}
use mathlib.Core.Path.{◌≡◌, refl}
use mathlib.Core.Bool.{Bool, true, false, not, ◌||◌, ◌&&◌}
use mathlib.Core.List.{List, [], ◌∷◌, ◌++◌}
use native.Mathlib.Omega.{arith}
use text.Mathlib.Text.{◌==◌}
use text.Mathlib.TextEquality.{eq_iff}
use antimoney.Prelude.Tests.{if◌then◌else◌}
use antimoney.Prelude.Lists.{filter}

-- `xs.includes(k)`, `set.has(k)`
abbrev pub contains : String → List String → Bool
contains k [] = false
contains k (x ∷ xs) = k == x || contains k xs

-- No text stands in the list twice.
abbrev pub Distinct : List String → Type 0
Distinct [] = Unit
Distinct (x ∷ xs) = (contains x xs ≡ false) × Distinct xs

pub contains-append :
    (k : String) (xs ys : List String) → contains k (xs ++ ys) ≡ (contains k xs || contains k ys)
contains-append k [] ys = refl
contains-append k (x ∷ xs) ys = ground (arith, contains-append k xs ys)

-- `set.add(k)`, `set.delete(k)`: a set is the list of its members in order of insertion.
abbrev pub add : String → List String → List String
add k s = if contains k s then s else s ++ (k ∷ [])

abbrev pub delete : String → List String → List String
delete k s = filter (λ x. not (x == k)) s

pub contains-delete :
    (k j : String) (s : List String) → contains j (delete k s) ≡ (contains j s && not (j == k))
contains-delete k j [] = refl
contains-delete k j (x ∷ s) =
    ground (arith, eq_iff x k, eq_iff j x, eq_iff j k, contains-delete k j s)

pub contains-add :
    (k j : String) (s : List String) → contains j (add k s) ≡ (contains j s || j == k)
contains-add k j s = ground (arith, contains-append j s (k ∷ []), contains_of_eq)
  where
    contains_of_eq : contains k s ≡ true → (j == k) ≡ true → contains j s ≡ true
    contains_of_eq h e = ground (arith, eq_iff j k)

-- How often the text stands in the list.
abbrev pub occurrences : String → List String → ℕ
occurrences k [] = 0
occurrences k (x ∷ xs) = if k == x then suc (occurrences k xs) else occurrences k xs

pub occurrences-append :
    (k : String) (xs ys : List String)
    → occurrences k (xs ++ ys) ≡ occurrences k xs + occurrences k ys
occurrences-append k [] ys = omega arith
occurrences-append k (x ∷ xs) ys = ground (arith, occurrences-append k xs ys)

pub occurrences-of_absent :
    (k : String) (xs : List String) → contains k xs ≡ false → occurrences k xs ≡ 0
occurrences-of_absent k [] h = refl
occurrences-of_absent k (x ∷ xs) h = ground (arith, h, occurrences-of_absent k xs)

-- In a list of different texts a member stands once.
pub occurrences-of_Distinct :
    (k : String) (xs : List String) → Distinct xs → contains k xs ≡ true → occurrences k xs ≡ 1
occurrences-of_Distinct k [] d h = cc
occurrences-of_Distinct k (x ∷ xs) d h =
    ground (arith, h, d.0, eq_iff k x, occurrences-of_absent x xs, occurrences-of_Distinct k xs d.1)
