-- ===== src/Queueing/Redis.antt =====
-- `RedisParseJobQueue`: one connection for each command. The reply stream of the server is a
-- parameter; urllib's parts of the URL are too.
use document_agent_api.Common.{
  ℕ, Text, Bytes, codes, text_eq, lstrip, contains, Option, none, some, List, [], ◌∷◌, Result, ok,
  err, runtime_error, value_error, ◌==◌, if◌then◌else◌,
}
use document_agent_api.Models.{Json, Fields, obj}
use document_agent_api.Documents.Names.{is_empty}
use document_agent_api.Documents.Objects.{truthy}
use document_agent_api.Queueing.Resp.{
  Reply, nothing, text, array, nil, cons, decimal, read_response,
}

-- `urlparse(redis_url)`, with the user name and the password unquoted.
pub record RedisUrl : Type 0 where
  pub scheme : Text
  pub username : Option Text
  pub password : Option Text
  pub path : Text

-- `_auth_parts`
unfoldable pub auth_parts : (username password : Option Text) → Option (List Text)
auth_parts username password = elim (truthy password) [
  | none ↦ none
  | some secret ↦ elim (truthy username) [
    | none ↦ some (codes "AUTH" ∷ secret ∷ [])
    | some name ↦ some (codes "AUTH" ∷ name ∷ secret ∷ [])
  ]
]

-- `parsed.path.lstrip("/") or "0"`
unfoldable pub database_of : Text → Text
database_of path =
    let name = lstrip (λ c. c == b'/') path in if is_empty name then codes "0" else name

-- The commands that one connection writes, in order.
unfoldable pub connection_commands : RedisUrl → List Text → List (List Text)
unfolding auth_parts database_of
connection_commands url parts =
    let select =
      if text_eq (database_of url.path) (codes "0")
      then parts ∷ []
      else (codes "SELECT" ∷ database_of url.path ∷ []) ∷ parts ∷ [] in
    elim (auth_parts url.username url.password) [ none ↦ select | some auth ↦ auth ∷ select ]

-- Reads one response for each command; the last one counts, and an error stops the connection.
unfoldable pub read_last : (Bytes → Text) → Reply → List (List Text) → Bytes → Result Reply
read_last replace last [] stream = ok last
read_last replace last (command ∷ commands) stream = elim (read_response replace stream) [
  | err e ↦ err e
  | ok (reply, rest) ↦ read_last replace reply commands rest
]

-- `_send_command`: the server's stream answers the commands in turn.
unfoldable pub send_command :
    (Bytes → Text) → RedisUrl → List Text → (stream : Bytes) → Result Reply
unfolding connection_commands read_last
send_command replace url parts stream =
    if contains url.scheme (codes "redis" ∷ codes "rediss" ∷ [])
    then read_last replace nothing (connection_commands url parts) stream
    else err (value_error (codes "redis_url must use redis:// or rediss://"))

-- What `dequeue_parse_job` makes of the response to BLPOP.
unfoldable pub popped : (Text → Option Json) → Reply → Result (Option Json)
popped loads nothing = ok none
popped loads (array (cons _ (cons (text serialized) nil))) = elim (loads serialized) [
  | none ↦ err (value_error (codes "invalid json"))
  | some payload ↦ ok (some payload)
]
popped loads (array (cons _ (cons _ nil))) =
    err (runtime_error (codes "unexpected payload type from Redis queue"))
popped loads _ = err (runtime_error (codes "unexpected BLPOP response from Redis"))

module _ (replace : Bytes → Text) (dumps : Json → Text) (loads : Text → Option Json)
    (url : RedisUrl) (queue_name : Text) where
  -- `enqueue_parse_job`, with the stream that answers it.
  unfoldable pub redis_enqueue : Fields → (stream : Bytes) → Result Reply
  unfolding send_command
  redis_enqueue payload stream =
      send_command replace url (codes "RPUSH" ∷ queue_name ∷ dumps (obj payload) ∷ []) stream

  -- `dequeue_parse_job`
  unfoldable pub redis_dequeue : (timeout_seconds : ℕ) (stream : Bytes) → Result (Option Json)
  unfolding send_command popped
  redis_dequeue timeout_seconds stream =
      elim (send_command replace url (codes "BLPOP" ∷ queue_name ∷ decimal timeout_seconds ∷ [])
        stream) [ err e ↦ err e | ok reply ↦ popped loads reply ]
