-- ===== src/Agent/Access/Admission.antt =====
-- Which requests reach the handlers (internal/agent/auth.go).
use Prim.Native.String.{◌++◌ as str_append}
use clawmast.Prelude.{
  String, true, false, Option, none, some, ◌≡◌, ◌↔◌, ◌⊎◌, refl, ap, ◌∙◌, arith, eq_iff, starts_with,
}
use clawmast.Strings.{cut_prefix, cut_prefix_iff}
use clawmast.Agent.Access.{
  Token, Request, served, Net, is_loopback, check_token, bearer_middleware, public_handler,
}

check_found :
    (want header : String) (o : Option String)
    → cut_prefix header "Bearer " ≡ o
    → (check_token want o ≡ served) ↔ (header ≡ str_append "Bearer " want)
unfolding check_token
check_found want header none e = (
  λ h. absurd (ground (arith, h)),
  λ h. absurd (ground (arith, e, (cut_prefix_iff header "Bearer " want).1 h)),
)
check_found want header (some got) e =
    let (found, there) = cut_prefix_iff header "Bearer " got in
    (
      λ h. found e ∙ ap (str_append "Bearer ") (ground (arith, h, eq_iff got want)),
      λ h. ground (arith, e, (cut_prefix_iff header "Bearer " want).1 h, eq_iff got want),
    )

-- A request reaches the handlers exactly if no token is set, it asks for the public path, it comes from
-- the loopback address, its path is not one of the API, or its Authorization header is the word Bearer,
-- a space and the token.
pub served_iff :
    (net : Net) (tok : Token) (r : Request)
    → (public_handler net tok r ≡ served) ↔ (
        (tok.value ≡ "")
        ⊎ (r.path ≡ "/api/health")
        ⊎ (is_loopback net r ≡ true)
        ⊎ (starts_with r.path "/api/" ≡ false)
        ⊎ (r.authorization ≡ str_append "Bearer " tok.value))
unfolding public_handler bearer_middleware
served_iff net tok r =
    let (there, back) =
      check_found tok.value r.authorization (cut_prefix r.authorization "Bearer ") refl in
    ground (arith, there, back, eq_iff tok.value "", eq_iff r.path "/api/health")
