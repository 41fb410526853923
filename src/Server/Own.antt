-- ===== src/Server/Own.antt =====
-- Whose origin a client writes under, for the handlers `publish` and `delete_range`.
use msgbus.Prelude.{
  ℕ, ◌≡◌, ◌≢◌, refl, sym, ap, ◌∙◌, Option, Bool-cases, inl, inr, arith, subst, ◌⊎◌, [], ◌∷◌, ◌++◌,
}
use msgbus.Text.Order.{str_eq_refl}
use msgbus.Core.Error.{MsgbusError, outcome, ok, err, >>=-eq-ok, ok_injective}
use msgbus.Core.Name.{Topic, MessageId, topic_new, validate_part}
use msgbus.Core.Node.{NodeId, node_eq, node_eq_sound}
use msgbus.Core.Message.{NewMessage, StoredMessage, collect_headers}
use msgbus.Text.{Str, codes}
use msgbus.Server.Convert.{proto_message}
use msgbus.Core.Store.{MsgbusStore}
use msgbus.Server.Status.{Status, or_status, status_from_error}
use msgbus.Server.Proto.{PbNodeId, PublishRequest, DeleteRangeRequest}
use msgbus.Server.Service.{
  Service, delete_topic, ensure_application_topic, request_origin, owned_origin, publish_message,
  publish_reply, publish, delete_parts, delete_range, delete_reply,
}

ensure_application_topic_sound :
    (t : Topic) → ensure_application_topic t ≡ ok tt → t.text ≢ delete_topic
unfolding ensure_application_topic
ensure_application_topic_sound t h e = ground (arith, str_eq_refl delete_topic)

pub owned_origin_sound :
    (local : NodeId) (o : Option PbNodeId) {n : NodeId} → owned_origin local o ≡ ok n → n ≡ local
unfolding owned_origin
owned_origin_sound local o h =
    let (n, asked, rest) = >>=-eq-ok (request_origin local o) _ h in
    elim (Bool-cases (node_eq n local)) [
      | inl same ↦ ground (arith, node_eq_sound n local)
      | inr differ ↦ ground arith
    ]

-- what the message of a publish takes from the request
unfoldable pub IsRequested : NodeId → MessageId → PublishRequest → NewMessage → Type 0
IsRequested local id request m =
    (m.id ≡ id)
    × (m.origin ≡ local)
    × (m.topic.text ≡ request.topic)
    × (m.topic.text ≢ delete_topic)
    × (m.payload ≡ request.payload)
    × (m.headers ≡ collect_headers request.headers)

topic_new-text : (text : Str) {t : Topic} → or_status (topic_new text) ≡ ok t → t.text ≡ text
unfolding or_status topic_new
topic_new-text text h = elim (outcome (validate_part (codes "topic") text)) [
  | inl (e, refused) ↦ absurd (cc (rw (refused, topic_new, or_status) at h))
  | inr (u, passed) ↦ ap (λ (t : Topic). t.text) (sym (ok_injective (rw (passed) at h)))
]

publish_message_sound :
    (local : NodeId) (id : MessageId) (request : PublishRequest) {m : NewMessage}
    → publish_message local id request ≡ ok m
    → IsRequested local id request m
unfolding publish_message IsRequested
publish_message_sound local id request h =
    let (topic, named, rest) = >>=-eq-ok (or_status (topic_new request.topic)) _ h in
    let (done, allowed, rest') = >>=-eq-ok (ensure_application_topic topic) _ rest in
    let (origin, owned, last) = >>=-eq-ok (owned_origin local request.origin) _ rest' in
    subst (IsRequested local id request) (ok_injective last) (
      refl,
      owned_origin_sound local request.origin owned,
      topic_new-text request.topic named,
      ensure_application_topic_sound topic allowed,
      refl,
      refl,
    )

delete_parts_sound :
    (local : NodeId) (request : DeleteRangeRequest) {t : Topic} {o : NodeId} {marker : Topic}
    → delete_parts local request ≡ ok (t, o, marker)
    → (o ≡ local) × (t.text ≢ delete_topic)
unfolding delete_parts
delete_parts_sound local request h =
    let (topic, named, rest) = >>=-eq-ok (or_status (topic_new request.topic)) _ h in
    let (done, allowed, rest') = >>=-eq-ok (ensure_application_topic topic) _ rest in
    let (origin, owned, rest'') = >>=-eq-ok (owned_origin local request.origin) _ rest' in
    let (marker, ready, last) = >>=-eq-ok (or_status (topic_new delete_topic)) _ rest'' in
    let same = ok_injective last in
    (
      ap (λ (x : Topic × NodeId × Topic). x.1) (sym same)
          ∙ owned_origin_sound local request.origin owned,
      subst (λ (x : Topic × NodeId × Topic). x.0.text ≢ delete_topic) same
          (ensure_application_topic_sound topic allowed),
    )

module _ (s : MsgbusStore) where
  -- Whatever a client asks, a publish either fails and changes neither the store nor the channel, or
  -- it is one append to the store: of a message with the text of the topic, the payload and the
  -- headers of the request, of the daemon's own origin, in a topic that is not that of the delete
  -- markers. What the store takes is the answer and is sent on the channel, last; if the store fails,
  -- its error is the answer and nothing is sent.
  pub publish_lem :
      (local : NodeId) (now : ℕ) (id : MessageId) (service : Service s) (request : PublishRequest)
      → ((e : Status) × (publish s local now id service request ≡ (err e, service)))
        ⊎ ((m : NewMessage) × IsRequested local id request m
            × ((stored : StoredMessage)
                → (s.append_message now service.store m).0 ≡ ok stored
                → publish s local now id service request ≡ (
                  ok (proto_message stored),
                  record {
                    store = (s.append_message now service.store m).1;
                    published = service.published ++ stored ∷ [];
                  },
                ))
            × ((e : MsgbusError)
                → (s.append_message now service.store m).0 ≡ err e
                → publish s local now id service request ≡ (
                  err (status_from_error e),
                  record {
                    store = (s.append_message now service.store m).1;
                    published = service.published;
                  },
                )))
  unfolding publish publish_reply
  publish_lem local now id service request = elim (outcome (publish_message local id request)) [
    | inl (e, refused) ↦ inl (e, rw (refused, publish) refl)
    | inr (m, passed) ↦ inr (
      m,
      publish_message_sound local id request passed,
      λ stored taken. rw (passed, publish, taken, publish_reply) refl,
      λ e failed. rw (passed, publish, failed, publish_reply) refl,
    )
  ]

  -- Whatever a client asks, a deletion either fails and changes neither the store nor the channel, or
  -- it is one call of the store for a range of the daemon's own origin, in a topic that is not that of
  -- the delete markers, and the marker is of the daemon's own origin too.
  pub delete_range_lem :
      (local : NodeId) (now now' : ℕ) (id : MessageId) (service : Service s)
      (request : DeleteRangeRequest)
      → ((e : Status) × (delete_range s local now now' id service request ≡ (err e, service)))
        ⊎ ((t : Topic) × (marker : Topic) × (t.text ≢ delete_topic)
            × (delete_range s local now now' id service request
                ≡ delete_reply s service (
                    s.tombstone_range_with_marker now now' id service.store t local
                      request.from_head_id request.to_head_id marker local)))
  unfolding delete_range
  delete_range_lem local now now' id service request = elim (outcome (delete_parts local request)) [
    | inl (e, refused) ↦ inl (e, rw (refused, delete_range) refl)
    | inr ((t, o, marker), passed) ↦
        let (own, free) = delete_parts_sound local request passed in
        inr (t, marker, free, rw (passed, delete_range, own) refl)
  ]
