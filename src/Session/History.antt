-- ===== src/Session/History.antt =====
-- When a session is authenticated, over all sequences of calls.
use zhi.Common.{ℕ, Text, Bool, true, false, List, [], ◌∷◌, ◌++◌, Option, Result, ok, err, ◌≡◌, All}
use zhi.Session.Manager.{
  Session, Credentials, auth_required, expiry, login, is_over, status_at, logout, handle_auth_error,
}

-- A call of a method, with what the store and the clock say.
pub data Call : Type 0 where
  requires : Result Text Bool → Call
  logs_in : Text → Result Text Credentials → Call
  reads : ℕ → Call
  logs_out : Call
  reports : Bool → Call

module _ (parse_time : Text → Option ℕ) where
  unfoldable pub step : Call → Session → Session
  unfolding auth_required login status_at handle_auth_error
  step (requires caps) s = (auth_required caps s).1
  step (logs_in id cred) s = (login parse_time id cred s).1
  step (reads now) s = status_at now s
  step logs_out s = logout s
  step (reports is_auth) s = (handle_auth_error is_auth s).1

  unfoldable pub run : List Call → Session → Session
  unfolding step
  run [] s = s
  run (c ∷ cs) s = run cs (step c s)

  -- A call that leaves a session with this expiry authenticated, and is no successful login.
  abbrev pub Harmless : ℕ → Call → Type 0
  Harmless t (requires (err e)) = Unit
  Harmless t (requires (ok needed)) = needed ≡ true
  Harmless t (logs_in id (err e)) = Unit
  Harmless t (logs_in id (ok cred)) = ⊥
  Harmless t (reads now) = is_over now t ≡ false
  Harmless t logs_out = ⊥
  Harmless t (reports is_auth) = is_auth ≡ false

  -- The calls have a successful login, with harmless ones behind it.
  abbrev pub LoggedIn : List Call → Type 0
  LoggedIn cs =
      (before : List Call) × (id : Text) × (cred : Credentials) × (after : List Call) × (cs
        ≡ before ++ logs_in id (ok cred) ∷ after)
      × All (Harmless (expiry parse_time cred.expires_at)) after
