-- ===== src/Server/Sync/Verified.antt =====
-- Which peers a pass replicates from, and half of an identity for TLS.
use msgbus.Prelude.{
  ℕ, ◌≡◌, ◌≢◌, refl, ap, Bool, true, false, none, some, Option, List, is_some, inl, inr, ◌⊎◌, ◌||◌,
}
use msgbus.Text.{Str}
use msgbus.Core.Error.{outcome, Outcome, ok, err, >>=-eq-ok}
use msgbus.Core.Node.{NodeId}
use msgbus.Core.Message.{Bytes, TombstoneRange}
use msgbus.Core.Store.{MsgbusStore}
use msgbus.Server.Proto.{PbNodeId, PbTopicHead}
use msgbus.Server.Service.{Service}
use msgbus.Server.Status.{map_transpose}
use msgbus.Server.Convert.{core_node}
use msgbus.Server.Identity.{verify_peer_identity_lem, status_box-ok}
use msgbus.Server.Sync.{SyncError, PeerSpec, status_box}
use msgbus.Server.Sync.World.{World}
use msgbus.Server.Sync.Connect.{
  PeerClientTlsConfig, tls_is_enabled, read_optional, read_identity, client_tls, endpoint_tls,
  endpoint_config, connect_peer,
}
use msgbus.Server.Sync.Pass.{identify, open_peer, heads_pass, sync_peer}

module _ (w : World) where
  half_identity :
      (cert key : Option Str)
      → is_some cert ≢ is_some key
      → (e : SyncError) × (read_identity w cert key ≡ err e)
  unfolding read_identity
  half_identity none none half = absurd (half refl)
  half_identity none (some key) half = (_, refl)
  half_identity (some cert) none half = (_, refl)
  half_identity (some cert) (some key) half = absurd (half refl)

  either_enabled : (a b c e : Bool) → b ≢ c → (a || b || c || e) ≡ true
  either_enabled true b c e differ = refl
  either_enabled false true c e differ = refl
  either_enabled false false true e differ = refl
  either_enabled false false false e differ = absurd (differ refl)

  half_enabled :
      (tls : PeerClientTlsConfig) → is_some tls.cert ≢ is_some tls.key → tls_is_enabled tls ≡ true
  unfolding tls_is_enabled
  half_enabled tls half =
      either_enabled (is_some tls.ca_cert) (is_some tls.cert) (is_some tls.key)
        (is_some tls.domain_name) half

  half_config :
      (endpoint : Str) (tls : PeerClientTlsConfig)
      → is_some tls.cert ≢ is_some tls.key
      → (e : SyncError) × (client_tls w endpoint tls ≡ err e)
  unfolding client_tls
  half_config endpoint tls half =
      let (e, refused) = half_identity tls.cert tls.key half in
      elim (outcome (read_optional w tls.ca_cert)) [
        | inl (e', failed) ↦ (e', rw failed refl)
        | inr (ca, read) ↦ (e, rw (read, refused) refl)
      ]

  -- A configuration with a certificate and no key, or with a key and no certificate, never opens a
  -- connection: the call fails and leaves the outer world as it was.
  pub connect_peer_half :
      (state : w.State) (peer : PeerSpec) (tls : PeerClientTlsConfig)
      → is_some tls.cert ≢ is_some tls.key
      → (e : SyncError) × (connect_peer w state peer (some tls) ≡ (err e, state))
  unfolding connect_peer endpoint_config endpoint_tls
  connect_peer_half state peer tls half =
      let (e, refused) = half_config peer.endpoint tls half in
      elim (outcome (w.from_shared peer.endpoint)) [
        | inl (e', failed) ↦ (e', rw (failed, connect_peer) refl)
        | inr (u, valid) ↦ (e, rw (valid, half_enabled tls half, refused, connect_peer) refl)
      ]

module _ (s : MsgbusStore) (parse : Bytes → Outcome Str TombstoneRange) (w : World) where
  -- the peer's answer to the health request names this node, and it may be replicated from
  record IsVerified (state : w.State) (local : NodeId) (peer : PeerSpec) : Type 0 where
    pub response : Option PbNodeId
    pub remote : NodeId
    pub answered : (w.health state).0 ≡ ok response
    pub named : map_transpose core_node response ≡ ok (some remote)
    pub other : remote ≢ local
    pub expected : (n : NodeId) → peer.expected_node ≡ some n → remote ≡ n

  identify_sound :
      (state : w.State) (local : NodeId) (peer : PeerSpec)
      → (identify s parse w state local peer).0 ≡ ok tt
      → IsVerified state local peer
  unfolding identify
  identify_sound state local peer h =
      let (node, answered, verified) = >>=-eq-ok (status_box (w.health state).0) _ h in
      let (remote, named, other, expected) = verify_peer_identity_lem local peer node verified in
      record {
        response = node;
        remote = remote;
        answered = status_box-ok (w.health state).0 node answered;
        named = named;
        other = other;
        expected = expected;
      }

  module _ (state : w.State) (local : NodeId) (peer : PeerSpec)
      (tls : Option PeerClientTlsConfig) where
    -- the outer world after the connection, after the health request and after the list of heads
    abbrev connected : w.State
    connected = (connect_peer w state peer tls).1

    abbrev greeted : w.State
    greeted = (w.health connected).1

    abbrev listed : w.State
    listed = (w.list_heads greeted).1

    open_peer_sound :
        {heads : List PbTopicHead}
        → (open_peer s parse w state local peer tls).0 ≡ ok heads
        → ((connect_peer w state peer tls).0 ≡ ok tt)
          × IsVerified connected local peer
          × ((w.list_heads greeted).0 ≡ ok heads)
          × (open_peer s parse w state local peer tls ≡ (ok heads, listed))
    unfolding open_peer identify
    open_peer_sound {heads} h = elim (outcome (connect_peer w state peer tls).0) [
      | inl (e, failed) ↦ absurd (cc (rw (failed, open_peer) at h))
      | inr (tt, up) ↦ elim (outcome (identify s parse w connected local peer).0) [
        | inl (e, failed) ↦ absurd (cc (rw (up, open_peer, failed) at h))
        | inr (tt, verified) ↦
            let opened : status_box (w.list_heads greeted).0 ≡ ok heads =
              rw (up, open_peer, verified) at h in
            (
              up,
              identify_sound connected local peer verified,
              status_box-ok (w.list_heads greeted).0 heads opened,
              rw (up, open_peer, verified, opened) refl,
            )
      ]
    ]

    -- A pass over a peer either fails and leaves the service as it was, or the peer was connected to,
    -- its answer to the health request names a node that is not the own one, and that is the expected
    -- one where one is configured, and the pass is the one over the heads it then lists.
    pub sync_peer_lem :
        (service : Service s) (batch : ℕ)
        → ((e : SyncError) × (state' : w.State) × (sync_peer s parse w
                (service, state)
                local
                peer
                batch
                tls
              ≡ (some (err e), (service, state'))))
          ⊎ ((response : Option PbNodeId) × (remote : NodeId) × (heads : List PbTopicHead)
              × ((connect_peer w state peer tls).0 ≡ ok tt)
              × ((w.health connected).0 ≡ ok response)
              × (map_transpose core_node response ≡ ok (some remote))
              × (remote ≢ local)
              × ((n : NodeId) → peer.expected_node ≡ some n → remote ≡ n)
              × ((w.list_heads greeted).0 ≡ ok heads)
              × (sync_peer s parse w (service, state) local peer batch tls
                  ≡ heads_pass s parse w (service, listed) peer batch heads))
    unfolding sync_peer
    sync_peer_lem service batch = elim (outcome (open_peer s parse w state local peer tls).0) [
      | inl (e, failed) ↦
          inl (e, (open_peer s parse w state local peer tls).1, rw (failed, sync_peer) refl)
      | inr (heads, h) ↦
          let (up, v, heads_answered, run) = open_peer_sound h in
          inr (
            v.response,
            v.remote,
            heads,
            up,
            v.answered,
            v.named,
            v.other,
            v.expected,
            heads_answered,
            rw (h, sync_peer) (ap (λ x. heads_pass s parse w (service, x.1) peer batch heads) run),
          )
    ]
