-- ===== src/Auth/Email.antt =====
-- `EMAIL_PATTERN` of auth/service.py, "^[^@\s]+@[^@\s]+\.[^@\s]+$" matched in full, and the
-- normalization of emails and of names.
use document_agent_api.Common.{
  Text, split_on, strip, lower, Bool, false, not, ◌&&◌, ◌||◌, List, [], ◌∷◌, Result, ok, err,
  invalid_api_key_name, all, is_space, ◌==◌, if◌then◌else◌,
}
use document_agent_api.Documents.Names.{is_empty}

-- "[^@\s]" of each code point.
abbrev pub no_space : Text → Bool
no_space = all (λ c. not (is_space c))

-- A dot with something before it and behind it.
unfoldable pub has_inner_dot : Text → Bool
has_inner_dot [] = false
has_inner_dot (c ∷ []) = false
has_inner_dot (c ∷ d ∷ []) = false
has_inner_dot (c ∷ d ∷ e ∷ s) = d == b'.' || has_inner_dot (d ∷ e ∷ s)

unfoldable pub email_parts : List Text → Bool
unfolding has_inner_dot
email_parts (name ∷ domain ∷ []) =
    not (is_empty name) && no_space name && no_space domain && has_inner_dot domain
email_parts _ = false

-- `_is_valid_email`
unfoldable pub is_valid_email : Text → Bool
unfolding email_parts
is_valid_email email = email_parts (split_on b'@' email)

-- `_normalize_email`
unfoldable pub normalize_email : (Text → Text) → Text → Text
normalize_email unicode email = lower unicode (strip email)

-- `_normalize_api_key_name`
unfoldable pub normalize_api_key_name : Text → Result Text
normalize_api_key_name name =
    let normalized = strip name in
    if is_empty normalized then err invalid_api_key_name else ok normalized
