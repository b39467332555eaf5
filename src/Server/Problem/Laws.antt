-- ===== src/Server/Problem/Laws.antt =====
-- What the body of an error tells a client.
use ftnl_backend_api_rs.Base.{◌≡◌, ◌++◌, ap, arith}
use ftnl_backend_api_rs.Text.{codes}
use ftnl_backend_api_rs.Server.{ApiError, status_code}
use ftnl_backend_api_rs.Server.Problem.{error_text, title, code, into_response}

code-title :
    (a b : ApiError) → code a ≡ code b → (title a ≡ title b) × (status_code a ≡ status_code b)
unfolding code title status_code
code-title a b h = ground arith

error_text-injective : (a b : ApiError) → error_text a ≡ error_text b → a ≡ b
unfolding error_text
error_text-injective a b h = ground arith

-- The code of a problem settles its type, its title and its status; and its detail settles the whole
-- error, so that different errors never have the same answer.
pub into_response_settles :
    (a b : ApiError)
    → ((into_response a).code ≡ (into_response b).code
        → ((into_response a).kind ≡ (into_response b).kind)
          × ((into_response a).title ≡ (into_response b).title)
          × ((into_response a).status ≡ (into_response b).status))
      × ((into_response a).detail ≡ (into_response b).detail → a ≡ b)
unfolding into_response
into_response_settles a b = (
  λ h.
      let (same_title, same_status) = code-title a b h in
      (ap (λ c. codes "https://file-tunnel.dev/problems/" ++ c) h, same_title, same_status),
  error_text-injective a b,
)
