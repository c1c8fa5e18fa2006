-- ===== src/Queue.antt =====
-- libcsp/src/arch/posix/pthread_queue.c behind csp_queue.c: the bounded queue on which packets and
-- connections wait. A state is that of the queue under its mutex. An enqueue or a dequeue runs on
-- the state at which its wait ended: a queue that is still full, or still empty, is a timeout.
-- Values are copied and never looked into; `blank` is what the fresh buffer holds.
pub mod Ring
pub mod Fifo
pub mod Run
mod Tests
use damat_tutorial.Prelude.{
  ℕ, ◌+◌, ◌-◌, ◌%◌, Option, none, some, List, [], ◌∷◌, if◌then◌else◌, ◌==◌, get_or, set, replicate,
}

-- pthread_queue_t, less its mutex and conditions; the buffer holds `size` items.
pub record Queue (A : Type 0) : Type 0 where
  pub buffer : List A
  pub size : ℕ
  pub items : ℕ
  pub in_pos : ℕ
  pub out_pos : ℕ

-- PTHREAD_QUEUE_OK; PTHREAD_QUEUE_FULL and PTHREAD_QUEUE_EMPTY are one value, PTHREAD_QUEUE_ERROR.
pub data Status : Type 0 where
  ok error : Status

module _ {A : Type 0} where
  -- pthread_queue_create, where the allocations succeed
  unfoldable pub create : A → ℕ → Queue A
  create blank size = record {
    buffer = replicate size blank;
    size = size;
    items = 0;
    in_pos = 0;
    out_pos = 0;
  }

  -- pthread_queue_enqueue
  unfoldable pub enqueue : A → Queue A → Status × Queue A
  enqueue value q = if q.items == q.size then (error, q) else (
    ok,
    record q {
      buffer = set q.buffer q.in_pos value;
      items = q.items + 1;
      in_pos = (q.in_pos + 1) % q.size;
    },
  )

  -- pthread_queue_dequeue; the option is what is copied to `buf`.
  unfoldable pub dequeue : A → Queue A → Status × Option A × Queue A
  dequeue blank q = if q.items == 0 then (error, none, q) else (
    ok,
    some (get_or q.buffer q.out_pos blank),
    record q { items = q.items - 1; out_pos = (q.out_pos + 1) % q.size },
  )

  -- pthread_queue_items and pthread_queue_free
  unfoldable pub items : Queue A → ℕ
  items q = q.items

  unfoldable pub free : Queue A → ℕ
  free q = q.size - q.items
