-- ===== src/Queueing.antt =====
-- queueing/backends.py: the queues in memory and in the log; the queue in Redis is in `Redis`.
pub mod Order
pub mod Resp
pub mod Redis
use document_agent_api.Common.{ℕ, Option, none, some, List, [], ◌∷◌, ◌++◌, Result, ok, Exec}
use document_agent_api.Models.{Fields}
use document_agent_api.Platform.{ParseJobQueue}

-- `InMemoryParseJobQueue.enqueue_parse_job`
unfoldable pub memory_enqueue : Fields → Exec (List Fields) Unit
memory_enqueue payload messages = (ok tt, messages ++ payload ∷ [])

-- `InMemoryParseJobQueue.dequeue_parse_job`, after its sleep.
unfoldable pub memory_dequeue : ℕ → Exec (List Fields) (Option Fields)
memory_dequeue timeout_seconds [] = (ok none, [])
memory_dequeue timeout_seconds (payload ∷ messages) = (ok (some payload), messages)

-- `InMemoryParseJobQueue`
abbrev pub memory_queue : ParseJobQueue
memory_queue = record {
  Queue = List Fields;
  enqueue_parse_job = memory_enqueue;
  dequeue_parse_job = memory_dequeue;
}

-- `LoggingParseJobQueue`: what is enqueued is only logged.
abbrev pub logging_queue : ParseJobQueue
logging_queue = record {
  Queue = Unit;
  enqueue_parse_job = λ payload s. (ok tt, s);
  dequeue_parse_job = λ timeout_seconds s. (ok none, s);
}
