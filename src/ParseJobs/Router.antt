-- ===== src/ParseJobs/Router.antt =====
-- parse_jobs/router.py
use document_agent_api.Common.{
  Text, codes, [], Exn, parse_job_not_found, api_error, message_of, Exec, raise, catch,
}
use document_agent_api.Platform.{Platform, World}
use document_agent_api.ParseJobs.{ParseJobSummary, get_job}

-- `except ParseJobNotFoundError`
unfoldable pub api_error_of_job : Exn → Exn
api_error_of_job (parse_job_not_found id) =
    api_error 404 (codes "parse_job_not_found") (message_of (parse_job_not_found id)) []
api_error_of_job e = e

-- `get_parse_job`, for the user that the request is of.
unfoldable pub get_parse_job :
    (P : Platform) (job_id user_id : Text) → Exec (World P) ParseJobSummary
unfolding get_job api_error_of_job
get_parse_job P job_id user_id = catch (get_job P job_id user_id) (λ e. raise (api_error_of_job e))
