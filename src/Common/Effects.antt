-- ===== src/Common/Effects.antt =====
-- Exceptions, and methods that change state and may raise. What was written before a raise stays
-- written, so the state comes back beside the exception too.
use mathlib.Core.Path.{◌≡◌, refl}
use mathlib.Core.Logic.{◌⊎◌, inl, inr}
use mathlib.Core.Bool.{Bool, true, false}
use mathlib.Core.Option.{Option}
use mathlib.Core.List.{List, ◌++◌}
use Prim.Native.Nat.{ℕ}
use document_agent_api.Common.Strings.{Text, codes}

-- auth/exceptions.py, documents/exceptions.py, parse_jobs/exceptions.py, common/errors.py, the
-- `WorkerParseError` of worker/parser.py, and what the program tells apart of the exceptions that
-- the libraries raise. `client_error` is botocore's, with its error code; `other` is any exception
-- that the program does not name, with its text.
pub data Exn : Type 0 where
  file_not_found key_error value_error : Text → Exn
  client_error : Text → Text → Exn
  integrity_error : Option Text → Text → Exn
  runtime_error : Text → Exn
  other : Text → Exn
  worker_parse_error : Text → Exn
  document_not_found document_source_unavailable : Text → Exn
  parse_job_not_found parse_job_enqueue_error : Text → Exn
  invalid_email_format user_already_exists : Text → Exn
  invalid_credentials invalid_access_token expired_access_token : Exn
  invalid_api_key invalid_api_key_name : Exn
  api_key_name_already_exists api_key_not_found : Text → Exn
  api_error : ℕ → Text → Text → List (Text × Text) → Exn

pub data Result {ℓ} (A : Type ℓ) : Type ℓ where
  ok : A → Result A
  err : Exn → Result A

abbrev pub is_ok {ℓ} : {A : Type ℓ} → Result A → Bool
is_ok (ok a) = true
is_ok (err e) = false

abbrev pub Exec : Type 0 → Type 0 → Type 0
Exec S A = S → Result A × S

abbrev pub pure : {S A : Type 0} → A → Exec S A
pure a s = (ok a, s)

abbrev pub raise : {S A : Type 0} → Exn → Exec S A
raise e s = (err e, s)

infixl 5 ◌>>=◌ ◌>>◌
abbrev pub ◌>>=◌ : {S A B : Type 0} → Exec S A → (A → Exec S B) → Exec S B
◌>>=◌ m f s = let (r, s') = m s in elim r [ ok a ↦ f a s' | err e ↦ (err e, s') ]

abbrev pub ◌>>◌ : {S A B : Type 0} → Exec S A → Exec S B → Exec S B
m >> k = m >>= λ _. k

-- `try: m  except Exception as e: handler(e)`
abbrev pub catch : {S A : Type 0} → Exec S A → (Exn → Exec S A) → Exec S A
catch m handler s = let (r, s') = m s in elim r [ ok a ↦ (ok a, s') | err e ↦ handler e s' ]

-- `str(exc)`
unfoldable pub message_of : Exn → Text
message_of (file_not_found text) = text
message_of (key_error text) = text
message_of (value_error text) = text
message_of (client_error _ text) = text
message_of (integrity_error _ text) = text
message_of (runtime_error text) = text
message_of (other text) = text
message_of (worker_parse_error text) = text
message_of (document_not_found id) = codes "Document not found: " ++ id
message_of (document_source_unavailable id) = codes "Source file unavailable: " ++ id
message_of (parse_job_not_found id) = codes "Parse job '" ++ (id ++ codes "' was not found.")
message_of (parse_job_enqueue_error id) =
    codes "Parse job '" ++ (id ++ codes "' could not be enqueued.")
message_of (invalid_email_format _) = codes "Invalid email format."
message_of (user_already_exists email) = codes "User already exists: " ++ email
message_of (api_key_name_already_exists name) = codes "API key name already exists: " ++ name
message_of (api_key_not_found id) = codes "API key not found: " ++ id
message_of (api_error _ _ text _) = text
message_of _ = codes ""

pub Result-cases {ℓ} :
    {A : Type ℓ} (r : Result A) → ((a : A) × (r ≡ ok a)) ⊎ ((e : Exn) × (r ≡ err e))
Result-cases (ok a) = inl (a, refl)
Result-cases (err e) = inr (e, refl)
