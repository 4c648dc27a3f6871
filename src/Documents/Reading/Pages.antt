-- ===== src/Documents/Reading/Pages.antt =====
-- The pages of `list_documents`: their order, their owner, and how they fit together.
use document_agent_api.Common.{
  ◌≢◌, ltb, ◌==◌, ◌||◌, ◌&&◌, ℕ, ◌≤◌, Text, Bool, Option, List, [], ◌∷◌, map, All,
}
use document_agent_api.Models.{DocumentModel}
use document_agent_api.Platform.{Platform, World}
use document_agent_api.Documents.Schemas.{
  DocumentSummary, DocumentListResponse, to_document_summary,
}
use document_agent_api.Documents.Reading.{list_documents}

abbrev empty : (A : Type 0) → List A
empty A = []

-- A time that no document of the list exceeds.
abbrev pub Newest : ℕ → List DocumentSummary → Type 0
Newest t = All (λ (d : DocumentSummary). d.created_at ≤ t)

-- The newest first.
abbrev pub IsDescending : List DocumentSummary → Type 0
IsDescending [] = Unit
IsDescending (d ∷ ds) = Newest d.created_at ds × IsDescending ds

abbrev summaries : List DocumentModel → List DocumentSummary
summaries = map to_document_summary

-- Which of two documents of one time the database puts first.
abbrev pub TieOrder : Type 0
TieOrder = DocumentModel → DocumentModel → Bool

abbrev comes_first : TieOrder → DocumentModel → DocumentModel → Bool
comes_first first d e = ltb e.created_at d.created_at || (e.created_at == d.created_at && first d e)

-- No document of the list has the time.
abbrev pub IsNewTime : ℕ → List DocumentModel → Type 0
IsNewTime t = All (λ (e : DocumentModel). e.created_at ≢ t)

-- No two documents have one time.
abbrev pub HasDistinctTimes : List DocumentModel → Type 0
HasDistinctTimes [] = Unit
HasDistinctTimes (d ∷ ds) = IsNewTime d.created_at ds × HasDistinctTimes ds

module _ (P : Platform) (matches : Text → Text → Bool) (filename : Option Text) (owner : Text)
    (w : World P) where
  abbrev pub page : TieOrder → ℕ → ℕ → DocumentListResponse
  page first limit offset = list_documents P first matches limit offset filename owner w
