-- ===== src/Errors.antt =====
-- app/core/errors.py: the domain errors, their HTTP status and their code, and the result of a
-- function that may raise one.
use brasil_lens_backend.Common.{ℕ, Bool, true, false, Option, none, String}

-- What `details` of a `ProviderError` holds that other code reads.
pub record ProviderDetails : Type 0 where
  pub status : Option ℕ
  pub configuration : Bool

-- A constructor for each class that is raised; the texts are the messages.
-- `internal` is the base class, and a failed assertion, which is answered alike.
pub data DomainError : Type 0 where
  internal : String → DomainError
  not_found : String → DomainError
  territory_not_found : String → DomainError
  followed_municipality_not_found : String → DomainError
  conflict : String → DomainError
  authentication : String → DomainError
  forbidden : String → DomainError
  auth_rate_limited : String → DomainError
  invalid_parameter : String → Option String → DomainError
  provider : String → ProviderDetails → DomainError
  provider_rate_limited : String → ℕ → DomainError

abbrev pub no_details : ProviderDetails
no_details = record { status = none; configuration = false }

unfoldable pub status_code : DomainError → ℕ
status_code (internal _) = 500
status_code (not_found _) = 404
status_code (territory_not_found _) = 404
status_code (followed_municipality_not_found _) = 404
status_code (conflict _) = 409
status_code (authentication _) = 401
status_code (forbidden _) = 403
status_code (auth_rate_limited _) = 429
status_code (invalid_parameter _ _) = 400
status_code (provider _ _) = 502
status_code (provider_rate_limited _ _) = 503

unfoldable pub code : DomainError → String
code (internal _) = "internal_error"
code (not_found _) = "not_found"
code (territory_not_found _) = "territory_not_found"
code (followed_municipality_not_found _) = "followed_municipality_not_found"
code (conflict _) = "conflict"
code (authentication _) = "authentication_required"
code (forbidden _) = "forbidden"
code (auth_rate_limited _) = "auth_rate_limited"
code (invalid_parameter _ _) = "invalid_parameter"
code (provider _ _) = "provider_error"
code (provider_rate_limited _ _) = "provider_rate_limited"

-- isinstance(error, ProviderError)
unfoldable pub is_provider_error : DomainError → Bool
is_provider_error (provider _ _) = true
is_provider_error (provider_rate_limited _ _) = true
is_provider_error _ = false

pub data Result {ℓ} (A : Type ℓ) : Type ℓ where
  ok : A → Result A
  raise : DomainError → Result A

infixl 5 ◌>>=◌ ◌>>◌
abbrev pub ◌>>=◌ {ℓ κ} : {A : Type ℓ} {B : Type κ} → Result A → (A → Result B) → Result B
ok a >>= f = f a
raise e >>= f = raise e

abbrev pub ◌>>◌ {ℓ} : {B : Type ℓ} → Result (Unit {0}) → Result B → Result B
m >> k = m >>= λ _. k

abbrev pub guard : Bool → DomainError → Result (Unit {0})
guard true e = ok tt
guard false e = raise e

abbrev pub is_ok {ℓ} : {A : Type ℓ} → Result A → Bool
is_ok (ok a) = true
is_ok (raise e) = false
