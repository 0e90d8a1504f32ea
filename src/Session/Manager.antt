-- ===== src/Session/Manager.antt =====
-- `Session` and `SessionManager` of internal/core/session.go. What the store plugin returns, the
-- parser of RFC 3339 times, the new identifier and the time now are arguments. A time is a number,
-- 0 for the zero value; the locks are not modelled: each method is one step.
use zhi.Common.{
  ℕ, Text, Bool, true, false, not, ◌&&◌, Option, none, some, Result, ok, err, nat_eq, ltb, [],
  if◌then◌else◌, ◌==◌, Map,
}

pub data SessionStatus : Type 0 where
  no_auth : SessionStatus
  unauthenticated : SessionStatus
  authenticated : SessionStatus
  expired : SessionStatus

pub record Session : Type 0 where
  pub id : Text
  pub status : SessionStatus
  pub expires_at : ℕ
  pub metadata : Map Text

-- What a login of the store returns. No method reads the token.
pub record Credentials : Type 0 where
  pub token : Text
  pub expires_at : Text
  pub metadata : Map Text

abbrev pub new_session : Session
new_session = record { id = []; status = unauthenticated; expires_at = 0; metadata = [] }

-- `AuthRequired`, where the store's Capabilities are an error or say whether it has logins.
unfoldable pub auth_required : {E : Type 0} → Result E Bool → Session → Result E Bool × Session
auth_required (err e) s = (err e, s)
auth_required (ok false) s = (ok false, record s { status = no_auth })
auth_required (ok true) s = (ok true, s)

-- The time of a credential: none is given, or one that cannot be parsed, is no expiry.
unfoldable pub expiry : (Text → Option ℕ) → Text → ℕ
expiry parse_time text = elim (text == []) [
  | true ↦ 0
  | false ↦ elim (parse_time text) [ none ↦ 0 | some t ↦ t ]
]

-- `Login`, and `LoginInteractiveCallback`.
unfoldable pub login :
    {E : Type 0}
    → (Text → Option ℕ)
    → Text
    → Result E Credentials
    → Session
    → Result E Session × Session
unfolding expiry
login parse_time id (err e) s = (err e, s)
login parse_time id (ok cred) s =
    let s' : Session = record {
      id = id;
      status = authenticated;
      expires_at = expiry parse_time cred.expires_at;
      metadata = cred.metadata;
    } in
    (ok s', s')

-- The session has an expiry before `now`.
unfoldable pub is_over : ℕ → ℕ → Bool
is_over now expires_at = not (nat_eq expires_at 0) && ltb expires_at now

-- `Status`, at the time `now`; the copy that it returns is the session.
unfoldable pub status_at : ℕ → Session → Session
unfolding is_over
status_at now s = elim s.status [
  | no_auth ↦ s
  | unauthenticated ↦ s
  | authenticated ↦ if is_over now s.expires_at then record s { status = expired } else s
  | expired ↦ s
]

abbrev pub logout : Session → Session
logout s = new_session

-- `HandleAuthError`, where `is_auth` is what IsAuthRequired says of the error.
unfoldable pub handle_auth_error : Bool → Session → Bool × Session
handle_auth_error false s = (false, s)
handle_auth_error true s = (
  true,
  elim s.status [
    | no_auth ↦ s
    | unauthenticated ↦ s
    | authenticated ↦ record s { status = expired }
    | expired ↦ record s { status = expired }
  ],
)
