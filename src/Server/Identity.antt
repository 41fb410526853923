-- ===== src/Server/Identity.antt =====
-- Which peers a daemon talks to.
use msgbus.Prelude.{◌≡◌, ◌≢◌, ap, ◌∙◌, Option, none, some, arith}
use msgbus.Core.Error.{ok, err, >>=-eq-ok}
use msgbus.Core.Node.{NodeId, node_eq, node_eq_sound, node_eq_refl}
use msgbus.Server.Status.{Reply, map_transpose}
use msgbus.Server.Proto.{PbNodeId}
use msgbus.Server.Convert.{core_node}
use msgbus.Server.Sync.{
  PeerSpec, status_box, is_expected, check_identity, some_node, verify_peer_identity,
}

check_identity_sound :
    (local : NodeId) (peer : PeerSpec) (remote : NodeId)
    → check_identity local peer remote ≡ ok tt
    → (remote ≢ local) × ((n : NodeId) → peer.expected_node ≡ some n → remote ≡ n)
unfolding check_identity is_expected
check_identity_sound local peer remote h = (
  λ e. ground (arith, node_eq_refl local, ap (λ n. node_eq n local) e),
  λ n e. ground (arith, node_eq_sound remote n),
)

pub status_box-ok : {A : Type 0} (r : Reply A) (a : A) → status_box r ≡ ok a → r ≡ ok a
unfolding status_box
status_box-ok (ok b) a h = cc
status_box-ok (err e) a h = cc

some_node-ok :
    (peer : PeerSpec) (o : Option NodeId) (n : NodeId) → some_node peer o ≡ ok n → o ≡ some n
unfolding some_node
some_node-ok peer none n h = cc
some_node-ok peer (some m) n h = cc

-- If the check of a peer's identity passes, the peer's answer names a node that is not the daemon's
-- own, and that is the expected one where one is configured.
pub verify_peer_identity_lem :
    (local : NodeId) (peer : PeerSpec) (response : Option PbNodeId)
    → verify_peer_identity local peer response ≡ ok tt
    → (remote : NodeId) × (map_transpose core_node response ≡ ok (some remote))
      × (remote ≢ local)
      × ((n : NodeId) → peer.expected_node ≡ some n → remote ≡ n)
unfolding verify_peer_identity
verify_peer_identity_lem local peer response h =
    let (node, answered, rest) = >>=-eq-ok (status_box (map_transpose core_node response)) _ h in
    let (remote, present, checked) = >>=-eq-ok (some_node peer node) _ rest in
    let (other, expected) = check_identity_sound local peer remote checked in
    (
      remote,
      status_box-ok (map_transpose core_node response) node answered
          ∙ ap ok (some_node-ok peer node remote present),
      other,
      expected,
    )
