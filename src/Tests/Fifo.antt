-- ===== src/Tests/Fifo.antt =====
-- The queue's theorems at a small queue.
use msgbus.Prelude.{◌≡◌, ◌≢◌, refl, true, false, some, [], ◌∷◌, ◌++◌, arith}
use msgbus.Text.{codes, str_lt, starts_with}
use msgbus.Text.Window.{prefix_run, slot}
use msgbus.Text.SortedMap.{range_from, upsert, lookup}
use msgbus.Redb.Keys.{fifo_message_key, fifo_prefix}
use msgbus.Core.Error.{ok}
use msgbus.Core.Word.{saturating_add}
use msgbus.Core.Name.{QueueName}
use msgbus.Core.Message.{NewFifoMessage, StoredFifoMessage}
use msgbus.Redb.Db.{Db, initialize}
use msgbus.Redb.Fifo.{enqueue_fifo, peek_fifo, ack_fifo, reject_fifo, update_fifo_front, ack}
use msgbus.Redb.Fifo.Queue.{last, IsFifo, contents}
use msgbus.Redb.Fifo.Queue.Fresh.{initialize-IsFifo, enqueue_fifo-IsFifo}
use msgbus.Redb.Fifo.Queue.Enqueue.{enqueued, enqueue_fifo-contents}
use msgbus.Redb.Fifo.Queue.Front.{peek_fifo_lem, update_fifo_front_other}
use msgbus.Redb.Fifo.Queue.Ack.{advance, ack_fifo-contents}
use msgbus.Redb.Fifo.Queue.Reject.{counted, reject_fifo-contents}
use msgbus.Tests.Sample.{sample_deps, events, local}

abbrev jobs : QueueName
jobs = record { text = codes "jobs" }

abbrev job : NewFifoMessage
job = record {
  id = record { text = codes "job-1" };
  queue = jobs;
  topic = events;
  source = local;
  target = local;
  payload = codes "work";
  headers = [];
}

abbrev no_jobs : Db sample_deps
no_jobs = initialize sample_deps

abbrev one_job : Db sample_deps
one_job = (enqueue_fifo sample_deps 5 no_jobs job).1

abbrev stored_job : StoredFifoMessage
stored_job = record {
  id = record { text = codes "job-1" };
  queue = jobs;
  topic = events;
  source = local;
  target = local;
  payload = codes "work";
  headers = [];
  created_at_ms = 5;
  sequence = 1;
  attempts = 0;
}

no_jobs-last : last sample_deps no_jobs jobs ≡ 0
unfolding last initialize lookup
no_jobs-last = refl

no_jobs-contents : contents sample_deps no_jobs jobs ≡ ok []
unfolding contents initialize prefix_run range_from
no_jobs-contents = refl

one_job-contents : contents sample_deps one_job jobs ≡ ok (stored_job ∷ [])
unfolding contents initialize enqueue_fifo prefix_run range_from upsert str_lt fifo_message_key slot
    fifo_prefix starts_with saturating_add lookup
one_job-contents = refl

one_job-IsFifo : IsFifo sample_deps (λ _. 1) one_job
one_job-IsFifo =
    enqueue_fifo-IsFifo sample_deps 5 (λ _. 1) no_jobs job (initialize-IsFifo sample_deps)
      (omega (arith, no_jobs-last))

enqueue_fifo-contents_example :
    (db' : Db sample_deps) × (enqueue_fifo sample_deps 5 no_jobs job
      ≡ (ok (enqueued sample_deps 5 no_jobs job), db'))
    × IsFifo sample_deps (λ _. 1) db'
    × (contents sample_deps db' jobs ≡ ok ([] ++ enqueued sample_deps 5 no_jobs job ∷ []))
    × ((q : QueueName) → jobs ≢ q → contents sample_deps db' q ≡ contents sample_deps no_jobs q)
enqueue_fifo-contents_example =
    enqueue_fifo-contents sample_deps 5 (λ _. 1) no_jobs job [] (initialize-IsFifo sample_deps)
      (omega (arith, no_jobs-last)) no_jobs-contents

peek_fifo_lem_example : peek_fifo sample_deps one_job jobs ≡ ok (some stored_job)
peek_fifo_lem_example =
    peek_fifo_lem sample_deps (λ _. 1) one_job one_job-IsFifo jobs (stored_job ∷ [])
      one_job-contents

update_fifo_front_other_example :
    update_fifo_front sample_deps no_jobs jobs (record { text = codes "job-2" }) ack
    ≡ (ok false, no_jobs)
update_fifo_front_other_example =
    update_fifo_front_other sample_deps (λ _. 1) no_jobs (initialize-IsFifo sample_deps) jobs []
      (record { text = codes "job-2" }) ack no_jobs-contents (λ m e. cc)

ack_fifo-contents_example :
    (db' : Db sample_deps) × (ack_fifo sample_deps one_job jobs stored_job.id ≡ (ok true, db'))
    × IsFifo sample_deps (advance jobs (λ _. 1)) db'
    × (contents sample_deps db' jobs ≡ ok [])
    × ((q' : QueueName) → jobs ≢ q' → contents sample_deps db' q' ≡ contents sample_deps one_job q')
ack_fifo-contents_example =
    ack_fifo-contents sample_deps (λ _. 1) one_job jobs stored_job [] one_job-IsFifo
      one_job-contents

reject_fifo-contents_example :
    (db' : Db sample_deps) × (reject_fifo sample_deps one_job jobs stored_job.id ≡ (ok true, db'))
    × IsFifo sample_deps (λ _. 1) db'
    × (contents sample_deps db' jobs ≡ ok (counted stored_job ∷ []))
    × ((q' : QueueName) → jobs ≢ q' → contents sample_deps db' q' ≡ contents sample_deps one_job q')
reject_fifo-contents_example =
    reject_fifo-contents sample_deps (λ _. 1) one_job jobs stored_job [] one_job-IsFifo
      one_job-contents
