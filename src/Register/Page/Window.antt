-- ===== src/Register/Page/Window.antt =====
-- The page and the server together: the entries that are shown are a window of the register.
pub mod Older
pub mod Newer
use mathlib.Core.List.{Perm, perm_append_comm, append_assoc, append-nil}
use mathlib.Core.List.Perm
use antimoney.Prelude.{
  ℕ, zero, suc, Ordering, ◌+◌, ◌-◌, ◌≤◌, ◌≡◌, ◌≢◌, refl, sym, ap, ◌∙◌, inl, inr, Bool, true, false,
  not, ◌&&◌, ◌||◌, eq_iff, String, Option, none, some, List, [], ◌∷◌, ◌++◌, length, ltb, leb, take,
  drop, take-drop, length-take, length-take-le, length-take-drop, drop-append, take-append,
  take_all, length-append, arith, Bool-cases, contains, contains-append, Distinct, if◌then◌else◌,
}
use antimoney.Types.{Account, RegisterEntry, RegisterPage}
use antimoney.Server.Paging.{
  before_page, after_page, around_page, query_page, page_with, end_offset,
}
use antimoney.Register.Page.{
  Direction, before, after, Call, load_around, load_page, load_register, delete_transaction, offset,
  date, State, guids, unique_entries, merge_entries, request_more, load_more_start, load_more_done,
  load_initial_done, page_size, take_entries, take_page,
}
use antimoney.Register.Page.Merge.{merge_entries-perm, contains-merge_entries, guids-append}

-- What the server answers to a request for more.
abbrev pub more_page : List RegisterEntry → ℕ → Direction → ℕ → RegisterPage
more_page all at before limit = before_page all at limit
more_page all at after limit = after_page all at limit

abbrev pub answer : List RegisterEntry → Call → Option RegisterPage
answer all (load_page id (offset at) dir limit) = some (more_page all at dir limit)
answer all (load_page id (date day) dir limit) = none
answer all (load_around id at limit) = none
answer all (load_register id) = none
answer all (delete_transaction guid) = none

-- The entries are those of `W`, where the register is `A ++ W ++ B`.
pub record IsWindow (all A W B : List RegisterEntry) (s : State) : Type 0 where
  pub parts : all ≡ A ++ (W ++ B)
  pub nonempty : 1 ≤ length W
  pub shown : Perm s.entries W
  pub keys : (k : String) → contains k (guids s.entries) ≡ contains k (guids W)
  pub first : s.first_offset ≡ some (length A)
  pub last : s.last_offset ≡ some (length A + length W - 1)
  pub more_before : s.has_before ≡ ltb 0 (length A)
  pub more_after : s.has_after ≡ ltb 0 (length B)

Distinct-parts :
    (xs ys : List String)
    → Distinct (xs ++ ys)
    → (k : String) → contains k xs ≡ true
    → contains k ys ≡ false
Distinct-parts [] ys d k h = cc
Distinct-parts (x ∷ xs) ys d k h =
    ground (arith, eq_iff k x, contains-append x xs ys, d.0, Distinct-parts xs ys d.1 k, h)

Distinct-right : (xs ys : List String) → Distinct (xs ++ ys) → Distinct ys
Distinct-right [] ys d = d
Distinct-right (x ∷ xs) ys d = Distinct-right xs ys d.1

unique_of_apart :
    (prev new : List RegisterEntry)
    → ((k : String) → contains k (guids new) ≡ true → contains k (guids prev) ≡ false)
    → unique_entries prev new ≡ new
unique_of_apart prev [] h = refl
unique_of_apart prev (e ∷ new) h =
    rw (h e.split_guid (ground (arith, eq_iff e.split_guid e.split_guid)))
      (ap (◌∷◌ e) (unique_of_apart prev new (λ k m. h k (ground (arith, m)))))

-- All but the last `n` of a list, and these.
abbrev pub front : ℕ → List RegisterEntry → List RegisterEntry
front n l = take (length l - n) l

abbrev pub back : ℕ → List RegisterEntry → List RegisterEntry
back n l = drop (length l - n) l

pub length-front : (n : ℕ) (l : List RegisterEntry) → length (front n l) ≡ length l - n
length-front n l = length-take (length l - n) l (omega arith)

length-back : (n : ℕ) (l : List RegisterEntry) → length l ≡ (length l - n) + length (back n l)
length-back n l = omega (arith, length-take-drop (length l - n) l, length-front n l)

pub query_page_lem :
    (all F X : List RegisterEntry) (at limit : ℕ)
    → all ≡ F ++ X
    → at ≡ length F
    → 1 ≤ limit
    → query_page all at limit ≡ page_with (length all) at (take limit X)
unfolding query_page
query_page_lem all F X at limit parts here some_limit =
    let positive : ltb 0 limit ≡ true = ground (arith, some_limit) in
    rw (positive, parts, here)
      (ap (λ l. page_with (length (F ++ X)) (length F) (take limit l)) (drop-append F X))

pub end_offset_lem :
    (at : ℕ) (l : List RegisterEntry) → 1 ≤ length l → end_offset at l + 1 ≡ at + length l
end_offset_lem at [] h = absurd (omega (arith, h))
end_offset_lem at (e ∷ l) h = omega arith

-- Keys of a part of the register are in no other part.
apart-right :
    (all F K R : List RegisterEntry)
    → Distinct (guids all)
    → all ≡ F ++ (K ++ R)
    → (k : String) → contains k (guids K) ≡ true
    → contains k (guids R) ≡ false
apart-right all F K R distinct parts k =
    let whole : Distinct (guids F ++ (guids K ++ guids R)) =
      rw (ap guids parts ∙ guids-append F (K ++ R) ∙ ap (λ l. guids F ++ l) (guids-append K R)) at
        distinct in
    Distinct-parts (guids K) (guids R) (Distinct-right (guids F) (guids K ++ guids R) whole) k

contains-guids :
    (k : String) (xs ys : List RegisterEntry)
    → contains k (guids (xs ++ ys)) ≡ (contains k (guids xs) || contains k (guids ys))
contains-guids k xs ys =
    ap (contains k) (guids-append xs ys) ∙ contains-append k (guids xs) (guids ys)

-- One request for more, and its answer, for the account `id`.
module _ (locale_compare : String → String → Ordering) (all : List RegisterEntry)
    (id : String) where
  abbrev finish : Direction → Option Call → State → State
  finish dir none s = s
  finish dir (some call) s = load_more_done locale_compare dir (answer all call) s

  unfoldable pub load_more : Direction → State → State
  load_more dir s = let (t, call) = load_more_start (some id) false dir s in finish dir call t

  take_entries-nonempty :
      (dir : Direction) (l : List RegisterEntry) (page : RegisterPage) (s : State)
      → 1 ≤ length l
      → take_entries locale_compare dir l page s ≡ take_page locale_compare dir page s
  take_entries-nonempty dir [] page s h = absurd (omega (arith, h))
  take_entries-nonempty dir (e ∷ l) page s h = refl

  -- What the merge of a page with others than the window's entries shows.
  merge-apart :
      (dir : Direction) (prev W K : List RegisterEntry)
      → Perm prev W
      → ((k : String) → contains k (guids K) ≡ true → contains k (guids prev) ≡ false)
      → Perm (merge_entries locale_compare dir prev K) (K ++ W)
  merge-apart before prev W K shown apart =
      Perm.trans (merge_entries-perm locale_compare before prev K)
        (rw (unique_of_apart prev K apart) (Perm.append_left K shown))
  merge-apart after prev W K shown apart =
      Perm.trans (merge_entries-perm locale_compare after prev K) (
        rw (unique_of_apart prev K apart)
          (Perm.trans (perm_append_comm prev K) (Perm.append_left K shown)))
