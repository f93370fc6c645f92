-- ===== src/Auth/Csrf.antt =====
-- internal/auth/session.go: the middlewares Require and CSRF, as the answer that a request gets.
use homelab_dashboard.Prelude.{
  ◌≡◌, ◌≢◌, ◌↔◌, refl, Bool, true, false, Option, none, some, [], ◌∷◌, Text, text_eq, text_eq_iff,
  if◌then◌else◌, arith,
}

pub data Method : Type 0 where
  get : Method
  head : Method
  options : Method
  other : Text → Method

pub data Answer : Type 0 where
  served : Answer
  unauthorized : Answer
  forbidden : Answer

-- `Require`: the request is served only if it is authenticated.
unfoldable pub require : Bool → Answer
require ok = if ok then served else unauthorized

is_empty : Text → Bool
is_empty [] = true
is_empty (c ∷ s) = false

mismatch : Option Text → Text → Bool
unfolding is_empty
mismatch none header = true
mismatch (some cookie) header =
    if is_empty header then true else (if text_eq cookie header then false else true)

-- `CSRF`: a request that may change state needs a header equal to the cookie.
unfoldable pub csrf : Method → Option Text → Text → Answer
unfolding mismatch
csrf get cookie header = served
csrf head cookie header = served
csrf options cookie header = served
csrf (other name) cookie header = if mismatch cookie header then forbidden else served

csrf_served :
    (name : Text) (cookie : Option Text) (header : Text)
    → csrf (other name) cookie header ≡ served
    → (cookie ≡ some header) × (header ≢ [])
unfolding csrf
csrf_served name none header h = cc
csrf_served name (some cookie) [] h = cc
csrf_served name (some cookie) (c ∷ header) h =
    (ground (arith, text_eq_iff cookie (c ∷ header)), λ e. cc)

csrf_serves :
    (name : Text) (cookie : Option Text) (header : Text)
    → cookie ≡ some header
    → header ≢ []
    → csrf (other name) cookie header ≡ served
unfolding csrf
csrf_serves name none header h ne = cc
csrf_serves name (some cookie) [] h ne = absurd (ne refl)
csrf_serves name (some cookie) (c ∷ header) h ne = ground (arith, text_eq_iff cookie (c ∷ header))

-- A request with another method than GET, HEAD and OPTIONS is served exactly if it has a CSRF cookie,
-- and a header that is not empty and equal to it.
pub csrf_exact :
    (name : Text) (cookie : Option Text) (header : Text)
    → (csrf (other name) cookie header ≡ served) ↔ ((cookie ≡ some header) × (header ≢ []))
csrf_exact name cookie header =
    (csrf_served name cookie header, λ h. csrf_serves name cookie header h.0 h.1)
