-- ===== src/Session/Invariant.antt =====
-- The session over every sequence of events that the views allow.
use antimoney.Prelude.{ℕ, ◌≡◌, inl, inr, true, false, some, arith, Option-cases}
use antimoney.Session.{
  AuthUser, saved, State, Event, mounted, unmounted, validated, rejected, signed_in, sign_in_failed,
  logged_out, api_answer, step, login_page, pages, view,
}

-- When an event can happen: a sign-in comes from the login page, a log-out and the calls of the
-- pages from the pages, and the provider is mounted again only while it still loads.
abbrev pub Allowed : Event → State → Type 0
Allowed mounted s = s.loading ≡ true
Allowed (signed_in u) s = view s ≡ login_page
Allowed logged_out s = view s ≡ pages
Allowed (api_answer text r) s = view s ≡ pages
Allowed _ s = Unit

pub record IsValid (s : State) : Type 0 where
  -- a validation is under way only while the spinner shows
  pub waiting : (n : ℕ) → s.live ≡ some n → s.loading ≡ true
  -- the user who is shown is the one in the cache
  pub shown : (u : AuthUser) → s.user ≡ some u → s.cache ≡ saved u

-- What can be reached from a state by events that are allowed.
pub data Reach (s : State) : State → Type 0 where
  here : Reach s s
  next : {t : State} → Reach s t → (e : Event) → Allowed e t → Reach s (step e t)

step-waiting :
    (e : Event) (s : State)
    → Allowed e s
    → IsValid s
    → (n : ℕ) → (step e s).live ≡ some n
    → (step e s).loading ≡ true
unfolding step
step-waiting mounted s a v n h = a
step-waiting unmounted s a v n h = cc
step-waiting (validated m u) s a v n h = ground (arith, v.waiting n)
step-waiting (rejected m) s a v n h = ground (arith, v.waiting n)
step-waiting (signed_in u) s a v n h = v.waiting n h
step-waiting sign_in_failed s a v n h = v.waiting n h
step-waiting logged_out s a v n h = v.waiting n h
step-waiting (api_answer text r) s a v n h = ground (arith, v.waiting n)

step-shown :
    (e : Event) (s : State)
    → IsValid s
    → (u : AuthUser) → (step e s).user ≡ some u
    → (step e s).cache ≡ saved u
unfolding step
step-shown mounted s v u h = ground (arith, v.shown u)
step-shown unmounted s v u h = v.shown u h
step-shown (validated m w) s v u h = ground (arith, v.shown u)
step-shown (rejected m) s v u h = ground (arith, v.shown u)
step-shown (signed_in w) s v u h = ground arith
step-shown sign_in_failed s v u h = v.shown u h
step-shown logged_out s v u h = cc
step-shown (api_answer text r) s v u h = ground (arith, v.shown u)

pub step-IsValid : (e : Event) (s : State) → Allowed e s → IsValid s → IsValid (step e s)
step-IsValid e s a v = record { waiting = step-waiting e s a v; shown = step-shown e s v }

-- In every state that allowed events reach from a valid one, a validation is under way only behind
-- the spinner, and the user who is shown is the one in the cache.
pub Reach-IsValid : {s t : State} → IsValid s → Reach s t → IsValid t
Reach-IsValid v here = v
Reach-IsValid v (next {t} r e a) = step-IsValid e t a (Reach-IsValid v r)

-- In a state that allowed events reach from a valid one, once the spinner is gone, no late answer
-- to `/auth/me` changes anything, so a sign-in is never undone by one.
pub late_answers_ignored :
    {s t : State} (n : ℕ) (u : AuthUser)
    → IsValid s
    → Reach s t
    → t.loading ≡ false
    → (step (validated n u) t ≡ t) × (step (rejected n) t ≡ t)
unfolding step
late_answers_ignored {t} n u v r settled = elim (Option-cases t.live) [
  | inl idle ↦ (rw idle, rw idle)
  | inr (m, busy) ↦ absurd (ground (arith, (Reach-IsValid v r).waiting m busy))
]
