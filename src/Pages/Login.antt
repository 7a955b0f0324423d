-- ===== src/Pages/Login.antt =====
-- frontend/src/pages/LoginPage.tsx: signing in and registering.
use antimoney.Prelude.{Bool, true, false, String}

pub data Mode : Type 0 where
  login register : Mode

pub record State : Type 0 where
  pub mode : Mode
  pub email : String
  pub password : String
  pub name : String
  pub error : String
  pub loading : Bool

abbrev pub initial : State
initial = record { mode = login; email = ""; password = ""; name = ""; error = ""; loading = false }

-- The calls of the session that the form makes.
pub data Call : Type 0 where
  log_in : String → String → Call
  sign_up : String → String → String → Call

-- How a call ends: with an `Error`, or with a value that is none.
pub data Outcome : Type 0 where
  ok : Outcome
  failed : String → Outcome
  thrown : Outcome

abbrev call_for : Mode → State → Call
call_for login s = log_in s.email s.password
call_for register s = sign_up s.email s.password s.name

-- `handleSubmit` up to its call.
unfoldable pub submit_start : State → State × Call
submit_start s = (record s { error = ""; loading = true }, call_for s.mode s)

-- And after it, with the `finally`.
unfoldable pub submit_done : Outcome → State → State
submit_done ok s = record s { loading = false }
submit_done (failed message) s = record s { error = message; loading = false }
submit_done thrown s = record s { error = "Something went wrong"; loading = false }

-- The two tabs.
unfoldable pub choose_mode : Mode → State → State
choose_mode mode s = record s { mode = mode; error = "" }
