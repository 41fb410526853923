-- ===== src/Server/Stream.antt =====
-- The order of what a subscriber gets.
use msgbus.Prelude.{
  ◌-◌, ◌≤◌, ◌<◌, ◌≡◌, refl, sym, ap, true, List, [], ◌∷◌, ◌++◌, map, max, suc, Bool-cases, inl, inr,
  arith, subst,
}
use msgbus.Core.Error.{ok, err}
use msgbus.Core.Word.{HeadId, u64_max}
use msgbus.Core.Name.{Topic, topic_new, topic_eq_sound}
use msgbus.Core.Node.{NodeId, key, node_eq_sound}
use msgbus.Core.Message.{StoredMessage, FetchQuery}
use msgbus.Redb.Deps.{Deps}
use msgbus.Redb.Db.{Db}
use msgbus.Redb.Messages.{fetch_messages}
use msgbus.Redb.Log.{IsLog}
use msgbus.Redb.Log.Fetch.{IsRun, fetch_messages_lem}
use msgbus.Redb.Store.{redb_store}
use msgbus.Server.Status.{Reply, or_status}
use msgbus.Server.Proto.{SubscribeRequest}
use msgbus.Server.Service.{Service, request_origin}
use msgbus.Server.Subscribe.{
  LiveItem, message, lagged, wanted, live_loop, replay_loop, effective_replay_limit, envelope,
  subscribe,
}

-- Messages of the topic and of origins with the node's key, each at a head above the one before it;
-- an error can only be the end.
unfoldable pub IsAscending : Topic → NodeId → HeadId → List (Reply StoredMessage) → Type 0
IsAscending t o h [] = Unit
IsAscending t o h (err e ∷ stream) = stream ≡ []
IsAscending t o h (ok m ∷ stream) =
    (m.topic ≡ t) × (key m.origin ≡ key o) × (h < m.head_id) × IsAscending t o m.head_id stream

-- Messages of exactly the topic and the node.
unfoldable pub IsOf : Topic → NodeId → List (Reply StoredMessage) → Type 0
IsOf t o [] = Unit
IsOf t o (err e ∷ stream) = IsOf t o stream
IsOf t o (ok m ∷ stream) = (m.topic ≡ t) × (m.origin ≡ o) × IsOf t o stream

wanted_sound :
    (t : Topic) (o : NodeId) (h : HeadId) (m : StoredMessage)
    → wanted t o h m ≡ true
    → (m.topic ≡ t) × (m.origin ≡ o) × (h < m.head_id)
unfolding wanted
wanted_sound t o h m e = ground (arith, topic_eq_sound m.topic t, node_eq_sound m.origin o)

pub live_loop-IsAscending :
    (t : Topic) (o : NodeId) (h : HeadId) (live : List LiveItem)
    → IsAscending t o h (live_loop t o h live)
unfolding live_loop IsAscending
live_loop-IsAscending t o h [] = tt
live_loop-IsAscending t o h (lagged text ∷ live) = refl
live_loop-IsAscending t o h (message m ∷ live) = elim (Bool-cases (wanted t o h m)) [
  | inl taken ↦
      let (topic, origin, above) = wanted_sound t o h m taken in
      rw (taken, live_loop) (topic, ap key origin, above, live_loop-IsAscending t o m.head_id live)
  | inr left ↦ rw (left, live_loop) (live_loop-IsAscending t o h live)
]

live_loop-IsOf :
    (t : Topic) (o : NodeId) (h : HeadId) (live : List LiveItem) → IsOf t o (live_loop t o h live)
unfolding live_loop IsOf
live_loop-IsOf t o h [] = tt
live_loop-IsOf t o h (lagged text ∷ live) = tt
live_loop-IsOf t o h (message m ∷ live) = elim (Bool-cases (wanted t o h m)) [
  | inl taken ↦
      let (topic, origin, above) = wanted_sound t o h m taken in
      rw (taken, live_loop) (topic, origin, live_loop-IsOf t o m.head_id live)
  | inr left ↦ rw (left, live_loop) (live_loop-IsOf t o h live)
]

-- the replay, then what the channel brings
replay_loop_split :
    (t : Topic) (o : NodeId) (h : HeadId) (replay : List StoredMessage) (live : List LiveItem)
    → (rest : List (Reply StoredMessage)) × (replay_loop t o h replay live ≡ map ok replay ++ rest)
      × IsOf t o rest
unfolding replay_loop
replay_loop_split t o h [] live = (live_loop t o h live, refl, live_loop-IsOf t o h live)
replay_loop_split t o h (m ∷ replay) live =
    let (rest, run, of) = replay_loop_split t o (max h m.head_id) replay live in
    (rest, ap (λ stream. ok m ∷ stream) run, of)

module _ (d : Deps) where
  replay_loop-IsAscending :
      (db : Db d) (t : Topic) (o : NodeId) (h : HeadId) (replay : List StoredMessage)
      (live : List LiveItem)
      → IsRun d db t o (suc h) replay
      → IsAscending t o h (replay_loop t o h replay live)
  unfolding replay_loop IsRun IsAscending
  replay_loop-IsAscending db t o h [] live run = live_loop-IsAscending t o h live
  replay_loop-IsAscending db t o h (m ∷ replay) live (read, topic, origin, at, run) =
      let next : max h m.head_id ≡ m.head_id = omega arith in
      (
        topic,
        origin,
        omega arith,
        rw next (
            replay_loop-IsAscending db t o m.head_id replay live
              (subst (λ i. IsRun d db t o (suc i) replay) (sym at) run)),
      )

  pub subscribe-IsAscending :
      (local : NodeId) (service : Service (redb_store d)) (request : SubscribeRequest)
      (live : List LiveItem) {t : Topic} {o : NodeId}
      → IsLog d service.store
      → request.from_head_id ≤ u64_max
      → or_status (topic_new request.topic) ≡ ok t
      → request_origin local request.origin ≡ ok o
      → (ms : List StoredMessage) × (rest : List (Reply StoredMessage)) × (fetch_messages d
            service.store
            (record {
              topic = t;
              origin = o;
              from_head_id = max request.from_head_id 1;
              limit = effective_replay_limit request.replay_limit;
            })
          ≡ ok ms)
        × (subscribe (redb_store d) local service request live
            ≡ ok (map envelope (map ok ms ++ rest)))
        × IsAscending t o (max request.from_head_id 1 - 1) (map ok ms ++ rest)
        × IsOf t o rest
  unfolding subscribe
  subscribe-IsAscending local service request live {t} {o} log fits named asked =
      let from = max request.from_head_id 1 in
      let query : FetchQuery = record {
        topic = t;
        origin = o;
        from_head_id = from;
        limit = effective_replay_limit request.replay_limit;
      } in
      let (ms, fetched, len, run) = fetch_messages_lem d service.store query log (omega arith) in
      let first : max 1 from ≡ suc (from - 1) = omega arith in
      let (rest, split, of) = replay_loop_split t o (from - 1) ms live in
      (
        ms,
        rest,
        fetched,
        rw (named, asked, fetched) (ap (λ stream. ok (map envelope stream)) split),
        subst (IsAscending t o (from - 1)) split (
            replay_loop-IsAscending service.store t o (from - 1) ms live
              (subst (λ i. IsRun d service.store t o i ms) first run)),
        of,
      )
