-- ===== src/Tests/Storage.antt =====
-- A file system in memory, and the local storage over it.
use document_agent_api.Common.{
  Bytes, codes, text_eq, text_eq_iff, Bool, true, false, ◌&&◌, ◌≡◌, ◌↔◌, refl, Option, none, some,
  is_some, List, [], ◌∷◌, ok, err, Exn, Exec, file_not_found, Option-cases, inl, inr, arith,
  if◌then◌else◌,
}
use document_agent_api.Storage.{FilePath, FileSystem}
use document_agent_api.Storage.Local.{FileSystemLaws, local_storage-StorageLaws}
use document_agent_api.Storage.Refinement.{Call, put, get, delete, Refines, local_storage-Refines}
use document_agent_api.Tests.Fixture.{plain_lower}

unfoldable path_eq : FilePath → FilePath → Bool
path_eq [] [] = true
path_eq (a ∷ p) (b ∷ q) = text_eq a b && path_eq p q
path_eq _ _ = false

path_eq_iff : (p q : FilePath) → (path_eq p q ≡ true) ↔ (p ≡ q)
unfolding path_eq
path_eq_iff [] [] = (λ e. refl, λ e. refl)
path_eq_iff [] (b ∷ q) = (λ e. absurd (ground arith), λ e. absurd (ground arith))
path_eq_iff (a ∷ p) [] = (λ e. absurd (ground arith), λ e. absurd (ground arith))
path_eq_iff (a ∷ p) (b ∷ q) = (
  λ e. ground (arith, text_eq_iff a b, path_eq_iff p q),
  λ e. ground (arith, text_eq_iff a b, path_eq_iff p q),
)

abbrev Files : Type 0
Files = List (FilePath × Bytes)

unfoldable file_at : Files → FilePath → Option Bytes
file_at [] p = none
file_at ((q, d) ∷ files) p = if path_eq q p then some d else file_at files p

unfoldable without_file : FilePath → Files → Files
without_file p [] = []
without_file p ((q, d) ∷ files) =
    let rest = without_file p files in if path_eq q p then rest else (q, d) ∷ rest

unfoldable read_file : FilePath → Exec Files Bytes
unfolding file_at
read_file p s = elim (file_at s p) [ none ↦ (err (file_not_found []), s) | some d ↦ (ok d, s) ]

abbrev memory_files : FileSystem
memory_files = record {
  Files = Files;
  resolve = λ path. path;
  make_parent = λ path s. (ok tt, s);
  write_bytes = λ path payload s. (ok tt, (path, payload) ∷ s);
  read_bytes = read_file;
  exists = λ path s. is_some (file_at s path);
  unlink = λ path s. (ok tt, without_file path s);
}

file_at-without_file :
    (p q : FilePath) (s : Files)
    → file_at (without_file p s) q ≡ (if path_eq p q then none else file_at s q)
unfolding file_at without_file
file_at-without_file p q [] = ground arith
file_at-without_file p q ((r, d) ∷ s) =
    ground (arith, file_at-without_file p q s, path_eq_iff r p, path_eq_iff r q, path_eq_iff p q)

read_file-same : (p q : FilePath) (s : Files) → file_at (read_file p s).1 q ≡ file_at s q
unfolding read_file
read_file-same p q s = elim (Option-cases (file_at s p)) [
  | inl e ↦ ground arith
  | inr (d, e) ↦ ground arith
]

read_file-found :
    (p : FilePath) (s : Files) (d : Bytes) → (read_file p s).0 ≡ ok d → file_at s p ≡ some d
unfolding read_file
read_file-found p s d h = elim (Option-cases (file_at s p)) [
  | inl e ↦ absurd (ground arith)
  | inr (x, e) ↦ ground arith
]

read_file-none :
    (p : FilePath) (s : Files) (x : Exn) → (read_file p s).0 ≡ err x → file_at s p ≡ none
unfolding read_file
read_file-none p s x h = elim (Option-cases (file_at s p)) [
  | inl e ↦ e
  | inr (d, e) ↦ absurd (ground arith)
]

not_there : (o : Option Bytes) → is_some o ≡ false → o ≡ none
not_there none h = refl
not_there (some d) h = absurd (ground arith)

abbrev memory_files_laws : FileSystemLaws plain_lower memory_files
memory_files_laws = record {
  contents = file_at;
  path_eq = path_eq;
  path_eq_iff = path_eq_iff;
  make_parent-contents = λ p s q. refl;
  write-contents = λ p d s q h. unfold file_at in refl;
  read-contents = λ p s q. read_file-same p q s;
  read-ok = read_file-found;
  read-missing = λ p s e h _. read_file-none p s e h;
  exists-contents = λ p s h. not_there (file_at s p) h;
  unlink-contents = λ p s q. file_at-without_file p q s;
  unlink-missing = λ p s e h _. absurd (ground arith);
}

-- A source is put, read, deleted and read again.
abbrev calls : List Call
calls =
    put (codes "a/b") (b'%' ∷ []) (codes "application/pdf")
    ∷ get (codes "a/b")
    ∷ delete (codes "a/b")
    ∷ get (codes "a/b")
    ∷ []

local_storage-Refines_example :
    let laws = local_storage-StorageLaws memory_files_laws (codes "data" ∷ []) in
    Refines laws (laws.holds []) calls []
local_storage-Refines_example = local_storage-Refines memory_files_laws (codes "data" ∷ []) calls []
