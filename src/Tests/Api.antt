-- ===== src/Tests/Api.antt =====
-- The routes at concrete inputs.
use bank_rag_bot.Prelude.{String, ◌≡◌, refl, Option, some}
use bank_rag_bot.Prelude.Exec.{ok}
use bank_rag_bot.Access.{JwtPayload, get_identity, decode_token, bearer_token}
use bank_rag_bot.Access.Gates.{get_identity-employee}
use bank_rag_bot.Tests.Fixtures.{accept, employee}

get_identity-employee_example :
    (header : String) × (p : JwtPayload) × (◌≡◌ {A = Option String} (some "Bearer t") (some header))
    × (accept (bearer_token header) ≡ ok p)
    × (p.role ≡ "employee")
    × (◌≡◌ {A = Option String} (some "anna") (some p.sub))
unfolding get_identity decode_token
get_identity-employee_example =
    get_identity-employee accept (λ e. "") (some "Bearer t") employee refl refl
