-- ===== src/System/Changes.antt =====
-- The changes that the operations make to the tables, each as it is committed.
use document_agent_api.Common.{ℕ, Text, Bool, true, ◌≡◌, none, some}
use document_agent_api.Models.{Tables, UserModel, UserApiKeyModel, DocumentModel, ParseJobModel}
use document_agent_api.Auth.Rows.{user_of_email, add_user, add_key, remove_key, rename_key}
use document_agent_api.Documents.Creating.{add_document}
use document_agent_api.Documents.Deleting.{remove_document}
use document_agent_api.ParseJobs.Rows.{
  is_queued, job_of, new_job, add_job, set_job, started, completed, marked_failed, enqueue_failed,
}

-- No change of the program makes the test fail: a user is added only where no user has the
-- email, and only a queued job is started.
pub record IsClosed (c : Tables → Bool) : Type 0 where
  pub add_user :
      (user : UserModel) (t : Tables)
      → user_of_email user.email t.users ≡ none
      → c t ≡ true
      → c (add_user user t) ≡ true
  pub add_key : (key : UserApiKeyModel) (t : Tables) → c t ≡ true → c (add_key key t) ≡ true
  pub remove_key : (id : Text) (t : Tables) → c t ≡ true → c (remove_key id t) ≡ true
  pub rename_key : (id name : Text) (t : Tables) → c t ≡ true → c (rename_key id name t) ≡ true
  pub add_document : (d : DocumentModel) (t : Tables) → c t ≡ true → c (add_document d t) ≡ true
  pub remove_document : (id : Text) (t : Tables) → c t ≡ true → c (remove_document id t) ≡ true
  pub add_job :
      (id owner key filename content_type backend : Text) (created updated : ℕ) (t : Tables)
      → c t ≡ true
      → c (add_job (new_job id owner key filename content_type backend created updated) t) ≡ true
  pub start :
      (job : ParseJobModel) (now : ℕ) (t : Tables)
      → job_of job.id t.parse_jobs ≡ some job
      → is_queued job.status ≡ true
      → c t ≡ true
      → c (set_job job.id (started now) t) ≡ true
  pub complete :
      (id : Text) (now : ℕ) (document_id : Text) (t : Tables)
      → c t ≡ true
      → c (set_job id (completed now document_id) t) ≡ true
  pub fail :
      (id : Text) (now : ℕ) (code message : Text) (t : Tables)
      → c t ≡ true
      → c (set_job id (marked_failed now code message) t) ≡ true
  pub fail_enqueue :
      (id : Text) (now : ℕ) (t : Tables) → c t ≡ true → c (set_job id (enqueue_failed now) t) ≡ true
