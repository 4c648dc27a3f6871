-- ===== src/Queueing/Order.antt =====
-- The order of `InMemoryParseJobQueue`.
use document_agent_api.Common.{
  ℕ, zero, suc, ◌≡◌, refl, sym, ◌∙◌, ap, Option, some, List, [], ◌∷◌, ◌++◌, length, Result, ok, map,
}
use document_agent_api.Models.{Fields}
use document_agent_api.Queueing.{memory_enqueue, memory_dequeue}

-- Enqueues each payload in turn.
abbrev pub enqueue_all : List Fields → List Fields → List Fields
enqueue_all [] messages = messages
enqueue_all (payload ∷ payloads) messages = enqueue_all payloads (memory_enqueue payload messages).1

-- What n calls give, and the queue after them.
abbrev pub dequeue_n : ℕ → ℕ → List Fields → List (Result (Option Fields)) × List Fields
dequeue_n timeout zero messages = ([], messages)
dequeue_n timeout (suc n) messages =
    let (r, messages') = memory_dequeue timeout messages in
    let (rs, rest) = dequeue_n timeout n messages' in (r ∷ rs, rest)

append-cons : (xs ys : List Fields) (p : Fields) → (xs ++ p ∷ []) ++ ys ≡ xs ++ p ∷ ys
append-cons [] ys p = refl
append-cons (x ∷ xs) ys p = rw (append-cons xs ys p)

append-nil : (xs : List Fields) → xs ++ [] ≡ xs
append-nil [] = refl
append-nil (x ∷ xs) = rw (append-nil xs)

enqueue_all-append :
    (payloads messages : List Fields) → enqueue_all payloads messages ≡ messages ++ payloads
unfolding memory_enqueue
enqueue_all-append [] messages = rw (append-nil messages)
enqueue_all-append (p ∷ payloads) messages =
    rw (enqueue_all-append payloads (messages ++ p ∷ [])) (append-cons messages payloads p)

dequeue_front :
    (timeout : ℕ) (payloads rest : List Fields)
    → dequeue_n timeout (length payloads) (payloads ++ rest)
      ≡ (map (λ p. ok (some p)) payloads, rest)
unfolding memory_dequeue
dequeue_front timeout [] rest = refl
dequeue_front timeout (p ∷ payloads) rest = rw (dequeue_front timeout payloads rest)

-- What is enqueued into an empty memory queue is dequeued in the same order, each payload once, and
-- then the queue is empty.
pub enqueue-dequeue :
    (timeout : ℕ) (payloads : List Fields)
    → dequeue_n timeout (length payloads) (enqueue_all payloads [])
      ≡ (map (λ p. ok (some p)) payloads, [])
enqueue-dequeue timeout payloads =
    ap (dequeue_n timeout (length payloads))
      (enqueue_all-append payloads [] ∙ sym (append-nil payloads))
    ∙ dequeue_front timeout payloads []
