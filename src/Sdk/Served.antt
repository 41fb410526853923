-- ===== src/Sdk/Served.antt =====
-- The SDK on the service over a redb store: the streams of `subscribe` are in order for it.
use msgbus.Prelude.{
  ℕ, ◌-◌, ◌≤◌, ◌<◌, ◌≡◌, sym, ◌∙◌, ap, subst, some, List, [], ◌∷◌, ◌++◌, map, max, arith, ◌⊎◌, inl,
  inr,
}
use msgbus.Text.{Str}
use msgbus.Core.Error.{ok, err, ok_injective, >>=-eq-ok}
use msgbus.Core.Word.{u64_max}
use msgbus.Core.Name.{Topic, topic_new}
use msgbus.Core.Node.{NodeId}
use msgbus.Core.Message.{StoredMessage}
use msgbus.Redb.Deps.{Deps}
use msgbus.Redb.Store.{redb_store}
use msgbus.Redb.Log.{IsLog}
use msgbus.Server.Status.{Reply, or_status}
use msgbus.Server.Proto.{MessageEnvelope, SubscribeRequest}
use msgbus.Server.Convert.{proto_message}
use msgbus.Server.Service.{Service, request_origin}
use msgbus.Server.Subscribe.{LiveItem, envelope, subscribe}
use msgbus.Server.Stream.{IsAscending, subscribe-IsAscending}
use msgbus.Sdk.Daemon.{Daemon}
use msgbus.Sdk.Client.{MsgbusClient, SubscribeOptions}
use msgbus.Sdk.Resilient.{subscribe_reconnecting_with_options}
use msgbus.Sdk.Order.{IsSequenced}
use msgbus.Sdk.Received.{IsGrowing, receive, receive-IsGrowing}

-- The transport between the SDK and the service: a subscription that opens is answered by the handler
-- on the store at that time, and its stream brings what the handler sends, in order. It may break off.
pub record Serves (d : Deps) (local : NodeId) (w : Daemon) : Type 0 where
  -- what a stream has still to bring
  pub rest : w.Stream → List (Reply MessageEnvelope)
  pub opens :
      (state : w.State) (request : SubscribeRequest) (s : w.Stream)
      → (w.subscribe state request).0 ≡ ok s
      → (service : Service (redb_store d)) × (live : List LiveItem) × IsLog d service.store
        × (subscribe (redb_store d) local service request live ≡ ok (rest s))
  pub brings :
      (state : w.State) (s : w.Stream) (m : MessageEnvelope)
      → (w.message state s).0 ≡ ok (some (some m))
      → rest s ≡ ok m ∷ rest (w.message state s).1
  pub stays :
      (state : w.State) (s : w.Stream)
      → (rest (w.message state s).1 ≡ rest s)
        ⊎ ((x : Reply MessageEnvelope) × (rest s ≡ x ∷ rest (w.message state s).1))

-- Each message of the list is above the bound and above those before it.
Rising : ℕ → List (Reply MessageEnvelope) → Type 0
Rising h [] = Unit
Rising h (err e ∷ items) = items ≡ []
Rising h (ok m ∷ items) = (h < m.head_id) × Rising m.head_id items

Rising-lower :
    (h h' : ℕ) (items : List (Reply MessageEnvelope)) → h ≤ h' → Rising h' items → Rising h items
unfolding Rising
Rising-lower h h' [] le r = tt
Rising-lower h h' (err e ∷ items) le r = r
Rising-lower h h' (ok m ∷ items) le (above, r) = (omega arith, r)

Rising-tail :
    (h : ℕ) (x : Reply MessageEnvelope) (items : List (Reply MessageEnvelope))
    → Rising h (x ∷ items)
    → Rising h items
unfolding Rising
Rising-tail h (err e) items r = rw r tt
Rising-tail h (ok m) items (above, r) = Rising-lower h m.head_id items (omega arith) r

IsAscending-Rising :
    (t : Topic) (o : NodeId) (h : ℕ) (stream : List (Reply StoredMessage))
    → IsAscending t o h stream
    → Rising h (map envelope stream)
unfolding IsAscending Rising envelope proto_message
IsAscending-Rising t o h [] a = tt
IsAscending-Rising t o h (err e ∷ stream) a = ap (map envelope) a
IsAscending-Rising t o h (ok m ∷ stream) (topic, origin, above, a) =
    (above, IsAscending-Rising t o m.head_id stream a)

module _ (d : Deps) (local : NodeId) (w : Daemon) (serves : Serves d local w) where
  Above : ℕ → w.Stream → Type 0
  Above h s = Rising h (serves.rest s)

  opens-Rising :
      (state : w.State) (request : SubscribeRequest) (s : w.Stream)
      → request.from_head_id ≤ u64_max
      → (w.subscribe state request).0 ≡ ok s
      → Rising (max request.from_head_id 1 - 1) (serves.rest s)
  unfolding subscribe
  opens-Rising state request s fits opened =
      let (service, live, log, sent) = serves.opens state request s opened in
      let (t, named, more) = >>=-eq-ok (or_status (topic_new request.topic)) _ sent in
      let (o, asked, last) = >>=-eq-ok (request_origin local request.origin) _ more in
      let (ms, tail, fetched, run, ascending, of) =
        subscribe-IsAscending d local service request live log fits named asked in
      subst (Rising (max request.from_head_id 1 - 1)) (ok_injective (sym run ∙ sent))
        (IsAscending-Rising t o (max request.from_head_id 1 - 1) (map ok ms ++ tail) ascending)

  served-IsSequenced : IsSequenced w (λ h. Unit) Above
  unfolding Above Rising
  served-IsSequenced = record {
    opens = opens-Rising;
    brings = λ h state s m above e.
        let (up, later) = subst (Rising h) (serves.brings state s m e) above in (up, tt, later);
    stays = λ h state s above. elim (serves.stays state s) [
      | inl same ↦ subst (Rising h) (sym same) above
      | inr (x, next) ↦
          Rising-tail h x (serves.rest (w.message state s).1) (subst (Rising h) next above)
    ];
    lowers = λ h h' s le above. Rising-lower h h' (serves.rest s) le above;
  }

  -- Over a transport that brings in order what the handlers of the service send, from redb stores that
  -- are logs, the messages of a reconnecting subscription from a head in the range of u64, over any
  -- number of calls and reconnections and whatever is on the broadcast channel, start at the head it
  -- asked for or above, and each is above the one before it as long as that one is below the maximum
  -- of u64.
  pub served-IsGrowing :
      (client : MsgbusClient) (topic : Str) (options : SubscribeOptions) (calls fuel : ℕ)
      (state : w.State)
      → options.from_head_id ≤ u64_max
      → IsGrowing
          (λ h. Unit)
          (max options.from_head_id 1)
          (receive w calls fuel (subscribe_reconnecting_with_options w client topic options) state)
  served-IsGrowing = receive-IsGrowing w (λ h. Unit) Above served-IsSequenced
