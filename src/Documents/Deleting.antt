-- ===== src/Documents/Deleting.antt =====
-- `delete_document` of documents/service.py
pub mod Atomic
use document_agent_api.Common.{
  Option, none, some, map, if◌then◌else◌, Text, codes, text_eq, not, List, Result, ok, err, Exec,
  keep, ◌>>=◌,
}
use document_agent_api.Models.{Tables, DocumentModel, ParseJobModel}
use document_agent_api.Platform.{Platform, World, modify, commit, rollback}
use document_agent_api.Documents.Objects.{
  Backup, collect_object_keys, delete_objects_strict, restore_and_raise,
}
use document_agent_api.Documents.Reading.{find_owned}

-- The foreign key `parse_jobs.document_id` has `ondelete="SET NULL"`.
abbrev pub without_document : Text → Option Text → Option Text
without_document id none = none
without_document id (some document_id) = if text_eq document_id id then none else some document_id

abbrev pub unlinked : Text → ParseJobModel → ParseJobModel
unlinked id job = record job { document_id = without_document id job.document_id }

-- `self.session.delete(document)`, by the primary key: the result goes with its document, and the
-- jobs that refer to the document are set to refer to none.
abbrev pub remove_document : Text → Tables → Tables
remove_document id t = record t {
  documents = keep (λ d. not (text_eq d.id id)) t.documents;
  parse_jobs = map (unlinked id) t.parse_jobs;
}

abbrev pub rollback_message : Text
rollback_message = codes "database commit failed and object rollback also failed"

module _ (P : Platform) where
  -- The `try` block over the commit.
  unfoldable pub commit_removal : DocumentModel → Backup × List Text → Exec (World P) Unit
  unfolding restore_and_raise
  commit_removal document (backup, deleted) w =
      let (c, w') = commit P (modify P (remove_document document.id) w) in
      elim c [
        | ok _ ↦ (ok tt, w')
        | err e ↦ restore_and_raise P rollback_message deleted backup e (rollback P w')
      ]

  -- `delete_document`
  unfoldable pub delete_document : Text → Text → Exec (World P) Unit
  unfolding collect_object_keys delete_objects_strict commit_removal
  delete_document document_id owner_user_id = do
    document ← find_owned P document_id owner_user_id
    deleted ← delete_objects_strict P (collect_object_keys document)
    commit_removal document deleted
