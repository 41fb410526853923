-- ===== src/Redb/Fifo/Queue/Fresh.antt =====
-- The queues of a new database, and after an enqueue.
use msgbus.Prelude.{ℕ, ◌<◌, ◌≡◌, arith}
use msgbus.Core.Word.{u64_max}
use msgbus.Core.Name.{QueueName}
use msgbus.Core.Message.{NewFifoMessage}
use msgbus.Redb.Deps.{Deps}
use msgbus.Redb.Tables.{get-new_table}
use msgbus.Redb.Keys.{fifo_sequence_key}
use msgbus.Redb.Db.{Db, initialize}
use msgbus.Redb.Fifo.{enqueue_fifo}
use msgbus.Redb.Fifo.Queue.{last, IsFifo, contents_total}
use msgbus.Redb.Fifo.Queue.Enqueue.{enqueue_fifo-contents}

module _ (d : Deps) where
  last-initialize : (q : QueueName) → last d (initialize d) q ≡ 0
  unfolding last initialize
  last-initialize q = rw (get-new_table d.tables {V = ℕ} (fifo_sequence_key d.base64 q))

  -- The first message of every queue will have the number 1.
  pub initialize-IsFifo : IsFifo d (λ _. 1) (initialize d)
  unfolding initialize
  initialize-IsFifo = record {
    bounded = λ q. omega (arith, last-initialize q);
    within = λ q. omega (arith, last-initialize q);
    stored = λ q i lo hi. absurd (omega (arith, last-initialize q));
    placed = λ k b h. absurd (cc (get-new_table d.tables {V = _} k));
  }

  pub enqueue_fifo-IsFifo :
      (now : ℕ) (first : QueueName → ℕ) (db : Db d) (m : NewFifoMessage)
      → IsFifo d first db
      → last d db m.queue < u64_max
      → IsFifo d first (enqueue_fifo d now db m).1
  enqueue_fifo-IsFifo now first db m fifo room =
      let (ms, whole, len, numbered) = contents_total d first db fifo m.queue in
      let (db', run, kept, own, others) =
        enqueue_fifo-contents d now first db m ms fifo room whole in
      rw run kept
