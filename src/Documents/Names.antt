-- ===== src/Documents/Names.antt =====
-- documents/utils.py, and the part of `Path(filename).stem` that documents/service.py and
-- worker/runner.py use.
pub mod Safe
use document_agent_api.Common.{
  ℕ, Text, codes, text_eq, contains, strip, lower, split_on, replace_char, last_or, Bool, true,
  false, not, ◌&&◌, ◌||◌, ◌==◌, Option, none, some, List, [], ◌∷◌, keep, if◌then◌else◌,
}

abbrev pub is_empty : Text → Bool
is_empty [] = true
is_empty (c ∷ s) = false

abbrev pub default_filename : Text
default_filename = codes "uploaded.bin"

-- `sanitize_document_filename`
unfoldable pub sanitize_document_filename : Text → Text
sanitize_document_filename filename =
    let normalized = replace_char b'\\' b'/' (strip filename) in
    let leaf = strip (last_or [] (split_on b'/' normalized)) in
    if is_empty normalized
    then default_filename
    else if is_empty leaf || contains leaf (codes "." ∷ codes ".." ∷ [])
    then default_filename
    else leaf

-- `Path(filename).name`: the last part that is neither empty nor ".".
unfoldable pub path_name : Text → Text
path_name filename =
    last_or [] (keep (λ p. not (is_empty p || text_eq p (codes "."))) (split_on b'/' filename))

-- A name cut at its last dot.
unfoldable pub cut_suffix : Text → Option (Text × Text)
cut_suffix [] = none
cut_suffix (c ∷ s) = elim (cut_suffix s) [
  | some (a, b) ↦ some (c ∷ a, b)
  | none ↦ if c == b'.' then some ([], s) else none
]

-- `Path(filename).stem`
unfoldable pub path_stem : Text → Text
unfolding path_name cut_suffix
path_stem filename = elim (cut_suffix (path_name filename)) [
  | none ↦ path_name filename
  | some (a, b) ↦ if is_empty a || is_empty b then path_name filename else a
]
