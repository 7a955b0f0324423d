-- ===== src/Session/Tests.antt =====
-- The session's theorems at concrete inputs.
use antimoney.Prelude.{◌≡◌, refl, true, false, none, some}
use antimoney.Session.{
  AuthUser, State, saved, unreadable, mounted, unmounted, validated, rejected, signed_in, step,
  view,
}
use antimoney.Session.Invariant.{IsValid, Reach, here, next, Reach-IsValid, late_answers_ignored}

abbrev ann : AuthUser
ann = record { user_id = "1"; book_guid = "b"; email = "ann@example.org"; name = "Ann" }

abbrev fresh : State
fresh = record { user = none; loading = true; cache = unreadable; live = none; next = 0 }

fresh-IsValid : IsValid fresh
fresh-IsValid = record { waiting = λ n h. refl; shown = λ u h. cc }

-- Mounted twice, as in strict mode; the first validation comes too late and is ignored.
abbrev after_sign_in : State
after_sign_in = record {
  user = some ann;
  loading = false;
  cache = saved ann;
  live = none;
  next = 2;
}

signs_in : Reach fresh after_sign_in
unfolding step view
signs_in =
    next
      (next (next (next (next (next here mounted refl) unmounted tt) mounted refl) (rejected 0) tt)
        (rejected 1) tt)
      (signed_in ann) refl

Reach-IsValid_example : IsValid after_sign_in
Reach-IsValid_example = Reach-IsValid fresh-IsValid signs_in

late_answers_ignored_example :
    (step (validated 1 ann) after_sign_in ≡ after_sign_in)
    × (step (rejected 1) after_sign_in ≡ after_sign_in)
late_answers_ignored_example = late_answers_ignored 1 ann fresh-IsValid signs_in refl
