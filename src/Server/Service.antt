-- ===== src/Server/Service.antt =====
-- The handlers of the service over a store. The state is the store's and the messages that were sent
-- on the broadcast channel, the latest last. A handler that fails before it calls the store leaves
-- both as they were.
use msgbus.Prelude.{
  ℕ, Bool, true, false, Option, none, some, List, [], ◌∷◌, ◌++◌, map, max, if◌then◌else◌, is_some,
  unwrap_or,
}
use msgbus.Text.{Str, codes, str_eq}
use msgbus.Core.Error.{Result, ok, err, ◌>>=◌, ◌>>◌, to_string}
use msgbus.Core.Name.{Topic, QueueName, MessageId, topic_new, queue_new, message_id_from_string}
use msgbus.Core.Node.{NodeId, node_eq, node_is_empty}
use msgbus.Core.Message.{NewMessage, StoredMessage, NewFifoMessage, FetchQuery, collect_headers}
use msgbus.Core.Store.{MsgbusStore}
use msgbus.Server.Status.{Reply, denied, missing, status_from_error, or_status, ok_or}
use msgbus.Server.Proto.{
  PbNodeId, MessageEnvelope, PbTopicHead, PbPeerSyncState, FifoMessage, PublishRequest,
  FetchRequest, GetHeadRequest, GetHeadResponse, DeleteRangeRequest, EnqueueFifoRequest,
  AckFifoRequest, HealthResponse, ReadyResponse,
}
use msgbus.Server.Convert.{
  core_node, proto_node, required_node, proto_message, proto_topic_head, proto_peer_sync_state,
  proto_fifo,
}

-- `DELETE_TOPIC`
abbrev pub delete_topic : Str
delete_topic = codes "$msgbus.delete"

unfoldable pub ensure_application_topic : Topic → Reply (Unit {0})
ensure_application_topic topic =
    if str_eq topic.text delete_topic
    then err (denied (codes "$msgbus.delete is reserved for delete markers"))
    else ok tt

unfoldable pub request_origin : NodeId → Option PbNodeId → Reply NodeId
unfolding core_node
request_origin local none = ok local
request_origin local (some origin) = do
  node ← core_node origin
  if node_is_empty node then ok local else ok node

unfoldable pub owned_origin : NodeId → Option PbNodeId → Reply NodeId
unfolding request_origin
owned_origin local origin = do
  node ← request_origin local origin
  if node_eq node local
      then ok node
      else err (denied (codes "writes must use the local daemon origin"))

-- `fifo_ack_parts` and `reject_fifo_parts`
unfoldable pub fifo_ack_parts : AckFifoRequest → Reply (QueueName × MessageId)
unfolding or_status
fifo_ack_parts request = do
  queue ← or_status (queue_new request.queue)
  message_id ← or_status (message_id_from_string request.message_id)
  ok (queue, message_id)

-- what `publish` checks and hands to the store
unfoldable pub publish_message : NodeId → MessageId → PublishRequest → Reply NewMessage
unfolding or_status ensure_application_topic owned_origin
publish_message local id request = do
  topic ← or_status (topic_new request.topic)
  ensure_application_topic topic
  origin ← owned_origin local request.origin
  ok (record {
    id = id;
    topic = topic;
    origin = origin;
    payload = request.payload;
    headers = collect_headers request.headers;
  })

-- what `enqueue_fifo` checks and hands to the store
unfoldable pub enqueue_message : NodeId → MessageId → EnqueueFifoRequest → Reply NewFifoMessage
unfolding or_status ensure_application_topic owned_origin
enqueue_message local id request = do
  queue ← or_status (queue_new request.queue)
  topic ← or_status (topic_new request.topic)
  ensure_application_topic topic
  source ← owned_origin local request.source
  target ← required_node request.target (codes "target is required")
  ok (record {
    id = id;
    queue = queue;
    topic = topic;
    source = source;
    target = target;
    payload = request.payload;
    headers = collect_headers request.headers;
  })

-- what `delete_range` checks and hands to the store: the topic, the origin and the marker's topic
unfoldable pub delete_parts : NodeId → DeleteRangeRequest → Reply (Topic × NodeId × Topic)
unfolding or_status ensure_application_topic owned_origin
delete_parts local request = do
  topic ← or_status (topic_new request.topic)
  ensure_application_topic topic
  origin ← owned_origin local request.origin
  marker ← or_status (topic_new delete_topic)
  ok (topic, origin, marker)

module _ (s : MsgbusStore) where
  -- `MsgbusGrpcService`: its node is an argument of the handlers.
  pub record Service : Type 0 where
    pub store : s.State
    pub published : List StoredMessage

  -- `published.send`
  unfoldable pub send : Service → StoredMessage → Service
  send service message = record service { published = service.published ++ message ∷ [] }

  -- the end of `publish`, after `append_message`
  unfoldable pub publish_reply :
      Service → Result StoredMessage × s.State → Reply MessageEnvelope × Service
  unfolding send status_from_error
  publish_reply service (ok stored, store) =
      (ok (proto_message stored), send (record service { store = store }) stored)
  publish_reply service (err e, store) =
      (err (status_from_error e), record service { store = store })

  unfoldable pub publish :
      NodeId → ℕ → MessageId → Service → PublishRequest → Reply MessageEnvelope × Service
  unfolding publish_reply
  publish local now id service request = elim (publish_message local id request) [
    | err status ↦ (err status, service)
    | ok message ↦ publish_reply service (s.append_message now service.store message)
  ]

  unfoldable pub fetch : NodeId → Service → FetchRequest → Reply (List MessageEnvelope)
  unfolding or_status request_origin
  fetch local service request = do
    topic ← or_status (topic_new request.topic)
    origin ← request_origin local request.origin
    let query : FetchQuery = record {
      topic = topic;
      origin = origin;
      from_head_id = max request.from_head_id 1;
      limit = request.limit;
    }
    messages ← or_status (s.fetch_messages service.store query)
    ok (map proto_message messages)

  unfoldable pub get_head : NodeId → Service → GetHeadRequest → Reply GetHeadResponse
  unfolding or_status request_origin
  get_head local service request = do
    topic ← or_status (topic_new request.topic)
    origin ← request_origin local request.origin
    head ← or_status (s.get_head service.store topic origin)
    ok (record { head_id = unwrap_or head 0; found = is_some head })

  unfoldable pub list_heads : Service → Reply (List PbTopicHead)
  unfolding or_status
  list_heads service = do
    heads ← or_status (s.list_heads service.store)
    ok (map proto_topic_head heads)

  unfoldable pub list_peer_sync_states : Service → Reply (List PbPeerSyncState)
  unfolding or_status
  list_peer_sync_states service = do
    states ← or_status (s.list_peer_sync_states service.store)
    ok (map proto_peer_sync_state states)

  -- the end of `delete_range`, after the call of the store
  unfoldable pub delete_reply : Service → Result (ℕ × StoredMessage) × s.State → Reply ℕ × Service
  unfolding send status_from_error
  delete_reply service (ok (deleted_count, control), store) =
      (ok deleted_count, send (record service { store = store }) control)
  delete_reply service (err e, store) =
      (err (status_from_error e), record service { store = store })

  unfoldable pub delete_range :
      NodeId → ℕ → ℕ → MessageId → Service → DeleteRangeRequest → Reply ℕ × Service
  unfolding delete_reply
  delete_range local now now' marker_id service request = elim (delete_parts local request) [
    | err status ↦ (err status, service)
    | ok (topic, origin, marker) ↦ delete_reply service (
        s.tombstone_range_with_marker now now' marker_id service.store topic origin
          request.from_head_id request.to_head_id marker local)
  ]

  -- the end of a call of the store, which its error turns into a status
  unfoldable pub finish :
      {A B : Type 0} → (A → B) → Service → Result A × s.State → Reply B × Service
  unfolding or_status
  finish f service (result, store) =
      (do a ← or_status result; ok (f a), record service { store = store })

  unfoldable pub enqueue_fifo :
      NodeId → ℕ → MessageId → Service → EnqueueFifoRequest → Reply FifoMessage × Service
  unfolding finish
  enqueue_fifo local now id service request = elim (enqueue_message local id request) [
    | err status ↦ (err status, service)
    | ok message ↦ finish proto_fifo service (s.enqueue_fifo now service.store message)
  ]

  unfoldable pub peek_fifo : Service → Str → Reply FifoMessage
  unfolding or_status ok_or
  peek_fifo service name = do
    queue ← or_status (queue_new name)
    front ← or_status (s.peek_fifo service.store queue)
    message ← ok_or front (missing (codes "fifo queue is empty"))
    ok (proto_fifo message)

  unfoldable pub ack_fifo : Service → AckFifoRequest → Reply Bool × Service
  unfolding finish
  ack_fifo service request = elim (fifo_ack_parts request) [
    | err status ↦ (err status, service)
    | ok (queue, message_id) ↦
        finish (λ accepted. accepted) service (s.ack_fifo service.store queue message_id)
  ]

  unfoldable pub reject_fifo : Service → AckFifoRequest → Reply Bool × Service
  unfolding finish
  reject_fifo service request = elim (fifo_ack_parts request) [
    | err status ↦ (err status, service)
    | ok (queue, message_id) ↦
        finish (λ accepted. accepted) service (s.reject_fifo service.store queue message_id)
  ]

  unfoldable pub health : NodeId → HealthResponse
  health local = record { status = codes "SERVING"; node = some (proto_node local) }

  unfoldable pub ready : NodeId → Service → ReadyResponse
  unfolding to_string
  ready local service = elim (s.list_heads service.store) [
    | ok heads ↦ record {
      ready = true;
      status = codes "READY";
      error = [];
      node = some (proto_node local);
    }
    | err e ↦ record {
      ready = false;
      status = codes "NOT_READY";
      error = to_string e;
      node = some (proto_node local);
    }
  ]
