-- ===== src/Server/Convert.antt =====
-- Between the messages on the wire and the core types.
use msgbus.Prelude.{Option, none, some, [], ◌&&◌, ◌==◌, if◌then◌else◌}
use msgbus.Text.{Str, codes, is_empty}
use msgbus.Core.Error.{ok, err, ◌>>=◌}
use msgbus.Core.Name.{Topic, topic_new, message_id_from_string}
use msgbus.Core.Node.{NodeId, node_new}
use msgbus.Core.Message.{
  StoredMessage, TopicHead, PeerSyncState, StoredFifoMessage, collect_headers,
}
use msgbus.Server.Status.{Reply, invalid, or_status, ok_or, map_transpose}
use msgbus.Server.Proto.{PbNodeId, MessageEnvelope, PbTopicHead, PbPeerSyncState, FifoMessage}

-- A node of three empty texts passes as it is.
unfoldable pub core_node : PbNodeId → Reply NodeId
unfolding or_status node_new
core_node value =
    if is_empty value.tenant_id && is_empty value.bl_name && is_empty value.device_id
    then ok (record { tenant_id = []; bl_name = []; device_id = [] })
    else or_status (node_new value.tenant_id value.bl_name value.device_id)

unfoldable pub proto_node : NodeId → PbNodeId
proto_node value = record {
  tenant_id = value.tenant_id;
  bl_name = value.bl_name;
  device_id = value.device_id;
}

-- an origin or a target that has to be there
unfoldable pub required_node : Option PbNodeId → Str → Reply NodeId
required_node value message = do node ← map_transpose core_node value; ok_or node (invalid message)

unfoldable pub proto_message : StoredMessage → MessageEnvelope
unfolding proto_node
proto_message value = record {
  id = value.id.text;
  topic = value.topic.text;
  origin = some (proto_node value.origin);
  head_id = value.head_id;
  payload = value.payload;
  headers = value.headers;
  created_at_ms = value.created_at_ms;
  deleted = value.deleted;
}

unfoldable pub core_message : MessageEnvelope → Reply StoredMessage
core_message value = do
  origin ← required_node value.origin (codes "message origin is required")
  if value.head_id == 0
      then err (invalid (codes "message head_id must be greater than zero"))
      else do
        id ← or_status (message_id_from_string value.id)
        topic ← or_status (topic_new value.topic)
        ok (record {
          id = id;
          topic = topic;
          origin = origin;
          head_id = value.head_id;
          payload = value.payload;
          headers = collect_headers value.headers;
          created_at_ms = value.created_at_ms;
          deleted = value.deleted;
        })

unfoldable pub proto_topic_head : TopicHead → PbTopicHead
unfolding proto_node
proto_topic_head value = record {
  topic = value.topic.text;
  origin = some (proto_node value.origin);
  head_id = value.head_id;
}

unfoldable pub core_topic_head : PbTopicHead → Reply TopicHead
core_topic_head value = do
  origin ← required_node value.origin (codes "topic head origin is required")
  topic ← or_status (topic_new value.topic)
  ok (record { topic = topic; origin = origin; head_id = value.head_id })

unfoldable pub text_of_topic : Option Topic → Str
text_of_topic none = []
text_of_topic (some topic) = topic.text

unfoldable pub proto_origin : Option NodeId → Option PbNodeId
unfolding proto_node
proto_origin none = none
proto_origin (some node) = some (proto_node node)

unfoldable pub error_text : Option Str → Str
error_text none = []
error_text (some text) = text

unfoldable pub proto_peer_sync_state : PeerSyncState → PbPeerSyncState
unfolding text_of_topic proto_origin error_text
proto_peer_sync_state value = record {
  peer = value.peer;
  topic = text_of_topic value.topic;
  origin = proto_origin value.origin;
  local_head = value.local_head;
  remote_head = value.remote_head;
  last_synced_head = value.last_synced_head;
  last_attempt_at_ms = value.last_attempt_at_ms;
  last_success_at_ms = value.last_success_at_ms;
  consecutive_failures = value.consecutive_failures;
  last_error = error_text value.last_error;
}

unfoldable pub proto_fifo : StoredFifoMessage → FifoMessage
unfolding proto_node
proto_fifo value = record {
  id = value.id.text;
  queue = value.queue.text;
  topic = value.topic.text;
  source = some (proto_node value.source);
  target = some (proto_node value.target);
  payload = value.payload;
  headers = value.headers;
  created_at_ms = value.created_at_ms;
  sequence = value.sequence;
  attempts = value.attempts;
}
