-- ===== src/Register/Search/Apart.antt =====
-- frontend/src/utils/registerSearch.ts: words, and texts that are joined by spaces.
use antimoney.Prelude.{ℕ, ◌≡◌, ◌≢◌, refl, ap, false, ◌||◌, ◌&&◌, [], ◌∷◌, ◌++◌, arith, eqb, All}
use antimoney.Register.Search.{Text, is_space, split, is_prefix, includes}
use antimoney.Register.Search.Laws.{words}

-- A text that is not empty and has no space.
abbrev pub IsWord : Text → Type 0
IsWord t = (t ≢ []) × All (λ c. is_space c ≡ false) t

pub split_word : (t : Text) → All (λ c. is_space c ≡ false) t → split t ≡ t ∷ []
unfolding split
split_word [] h = refl
split_word (c ∷ t) h = rw (h.0, split_word t h.1) refl

pub words_one : (t : Text) → t ≢ [] → words (t ∷ []) ≡ t ∷ []
words_one [] h = absurd (h refl)
words_one (c ∷ t) h = refl

not_blank : (c : ℕ) → is_space c ≡ false → eqb c 32 ≡ false
unfolding is_space
not_blank c h = ground (arith, h)

-- What has no space does not reach over one.
is_prefix_apart :
    (t a b : Text) → All (λ c. is_space c ≡ false) t → is_prefix t (a ++ (32 ∷ b)) ≡ is_prefix t a
is_prefix_apart [] a b h = refl
is_prefix_apart (c ∷ t) [] b h = rw (not_blank c h.0) refl
is_prefix_apart (c ∷ t) (d ∷ a) b h = ap (λ x. eqb c d && x) (is_prefix_apart t a b h.1)

is_prefix_nothing : (t : Text) → t ≢ [] → is_prefix t [] ≡ false
is_prefix_nothing [] h = absurd (h refl)
is_prefix_nothing (c ∷ t) h = refl

pub includes_apart :
    (a b t : Text) → IsWord t → includes (a ++ (32 ∷ b)) t ≡ (includes a t || includes b t)
unfolding includes
includes_apart [] b t h = rw (is_prefix_apart t [] b h.1, is_prefix_nothing t h.0) refl
includes_apart (c ∷ a) b t h =
    ground (arith, is_prefix_apart t (c ∷ a) b h.1, includes_apart a b t h)

pub includes_nothing : (t : Text) → t ≢ [] → includes [] t ≡ false
unfolding includes
includes_nothing t h = is_prefix_nothing t h
