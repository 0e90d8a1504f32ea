-- ===== src/Session/Examples.antt =====
-- Runs of the session, and the theorem at one of them.
use zhi.Common.{ℕ, Text, bytes, List, [], ◌∷◌, Option, some, ok, true, false, ◌≡◌, refl, ◌==◌}
use zhi.Session.Manager.{Session, authenticated, expired, Credentials, new_session}
use zhi.Session.History.{Call, requires, logs_in, reads, reports, run}

-- A parser that knows one time.
abbrev noon : Text → Option ℕ
noon text = some 12

abbrev until_noon : Credentials
until_noon = record { token = bytes "t"; expires_at = bytes "noon"; metadata = [] }

abbrev calls : List Call
calls = requires (ok true) ∷ logs_in (bytes "s1") (ok until_noon) ∷ reads 11 ∷ reports false ∷ []

stays : Session.status (run noon calls new_session) ≡ authenticated
unfolding run ◌==◌
stays = refl

expires :
    Session.status (run noon (logs_in (bytes "s1") (ok until_noon) ∷ reads 13 ∷ []) new_session)
    ≡ expired
unfolding run ◌==◌
expires = refl
