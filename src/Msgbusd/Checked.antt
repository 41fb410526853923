-- ===== src/Msgbusd/Checked.antt =====
-- What holds of a configuration with which the daemon starts.
use msgbus.Prelude.{
  ◌≡◌, refl, sym, ap, subst, Bool, false, ◌||◌, Option, none, some, List, [], ◌∷◌, map, max,
  is_some, Bool-cases, inl, inr, arith,
}
use msgbus.Text.{Str}
use msgbus.Core.Error.{Result, ok, err, ok_injective, >>=-eq-ok}
use msgbus.Core.Node.{node_new}
use msgbus.Core.Message.{Bytes}
use msgbus.Server.Sync.{SyncResult, PeerSpec, peer_spec_parse, store_box}
use msgbus.Server.Sync.Connect.{PeerClientTlsConfig, tls_is_enabled}
use msgbus.Msgbusd.{
  Args, ServerTls, DaemonConfig, peer_pair, enabled_config, peer_tls_config, parse_peers,
  read_client_ca, server_pair, server_tls_config, daemon_config,
}

store_box-ok : {A : Type 0} (r : Result A) {a : A} → store_box r ≡ ok a → r ≡ ok a
unfolding store_box
store_box-ok (ok b) h = ap ok (ok_injective h)
store_box-ok (err e) h = cc

peer_pair-ok : (cert key : Option Str) → peer_pair cert key ≡ ok tt → is_some cert ≡ is_some key
unfolding peer_pair
peer_pair-ok none none h = refl
peer_pair-ok (some c) (some k) h = refl
peer_pair-ok none (some k) h = cc
peer_pair-ok (some c) none h = cc

-- each of the arguments, parsed
parse_peers-ok :
    (values : List Str) {peers : List PeerSpec}
    → parse_peers values ≡ ok peers
    → map peer_spec_parse values ≡ map ok peers
unfolding parse_peers
parse_peers-ok [] h = ap (map ok) (ok_injective h)
parse_peers-ok (v ∷ vs) h =
    let (p, parsed, rest) = >>=-eq-ok (peer_spec_parse v) _ h in
    let (ps, more, last) = >>=-eq-ok (parse_peers vs) _ rest in
    rw (parsed, parse_peers-ok vs more) (ap (map ok) (ok_injective last))

-- What the arguments ask of the TLS to peers: nothing, or just these paths.
unfoldable pub IsPeerTls : PeerClientTlsConfig → Option PeerClientTlsConfig → Type 0
IsPeerTls asked none =
    (asked.ca_cert ≡ none) × (asked.cert ≡ none) × (asked.key ≡ none) × (asked.domain_name ≡ none)
IsPeerTls asked (some tls) = tls ≡ asked

not_some : (o : Option Str) → is_some o ≡ false → o ≡ none
not_some none h = refl
not_some (some a) h = cc

neither :
    (a b c e : Bool)
    → (a || b || c || e) ≡ false
    → (a ≡ false) × (b ≡ false) × (c ≡ false) × (e ≡ false)
neither a b c e h = ground arith

enabled_config-IsPeerTls : (c : PeerClientTlsConfig) → IsPeerTls c (enabled_config c)
unfolding IsPeerTls tls_is_enabled
enabled_config-IsPeerTls c = elim (Bool-cases (tls_is_enabled c)) [
  | inl on ↦ rw on refl
  | inr off ↦
      let (ca, cert, key, domain) =
        neither (is_some c.ca_cert) (is_some c.cert) (is_some c.key) (is_some c.domain_name) off in
      rw off (
        not_some c.ca_cert ca,
        not_some c.cert cert,
        not_some c.key key,
        not_some c.domain_name domain,
      )
]

module _ (read_file : Str → SyncResult Bytes) where
  -- the certificate of the authority for clients: what the file holds, if there is one
  unfoldable pub IsRoot : Option Str → Option Bytes → Type 0
  IsRoot client_ca none = client_ca ≡ none
  IsRoot client_ca (some pem) = (path : Str) × (client_ca ≡ some path) × (read_file path ≡ ok pem)

  -- What the arguments ask of the TLS of the server: nothing, or what the files hold.
  unfoldable pub IsServerTls : Args → Option ServerTls → Type 0
  unfolding IsRoot
  IsServerTls args none =
      (args.tls_cert ≡ none) × (args.tls_key ≡ none) × (args.tls_client_ca ≡ none)
  IsServerTls args (some tls) =
      (cert : Str) × (key : Str) × (args.tls_cert ≡ some cert)
      × (args.tls_key ≡ some key)
      × (read_file cert ≡ ok tls.identity.0)
      × (read_file key ≡ ok tls.identity.1)
      × IsRoot args.tls_client_ca tls.client_ca_root

  read_client_ca-IsRoot :
      (client_ca : Option Str) (root : Option Bytes)
      → read_client_ca read_file client_ca ≡ ok root
      → IsRoot client_ca root
  unfolding read_client_ca IsRoot
  read_client_ca-IsRoot none none h = refl
  read_client_ca-IsRoot none (some pem) h = cc
  read_client_ca-IsRoot (some path) root h =
      let (pem, read, last) = >>=-eq-ok (read_file path) _ h in
      subst (IsRoot (some path)) (ok_injective last) (path, refl, read)

  server_pair-IsServerTls :
      (args : Args) (cert key client_ca : Option Str) {t : Option ServerTls}
      → args.tls_cert ≡ cert
      → args.tls_key ≡ key
      → args.tls_client_ca ≡ client_ca
      → server_pair read_file cert key client_ca ≡ ok t
      → IsServerTls args t
  unfolding server_pair IsServerTls
  server_pair-IsServerTls args (some c) (some k) ca with_cert with_key with_ca h =
      let (cert_pem, read, rest) = >>=-eq-ok (read_file c) _ h in
      let (key_pem, read', rest') = >>=-eq-ok (read_file k) _ rest in
      let (root, read_root, last) = >>=-eq-ok (read_client_ca read_file ca) _ rest' in
      subst (IsServerTls args) (ok_injective last) (
        c,
        k,
        with_cert,
        with_key,
        read,
        read',
        rw with_ca (read_client_ca-IsRoot ca root read_root),
      )
  server_pair-IsServerTls args none none none with_cert with_key with_ca h =
      subst (IsServerTls args) (ok_injective h) (with_cert, with_key, with_ca)
  server_pair-IsServerTls args none none (some ca) with_cert with_key with_ca h = cc
  server_pair-IsServerTls args (some c) none ca with_cert with_key with_ca h = cc
  server_pair-IsServerTls args none (some k) ca with_cert with_key with_ca h = cc

  -- If the daemon gets past its arguments, its node is the one of the arguments and valid; its
  -- interval is the one asked for, raised to 100 ms, and its batches to one message; its peers are
  -- what each of the arguments parses to, in order; the TLS to peers has just the paths of the
  -- arguments, a certificate only with its key; the server has TLS just if there are a certificate and
  -- its key, with what these files hold, and with the authority for clients if one is asked for, which
  -- without a certificate is refused.
  pub daemon_config_lem :
      (args : Args) (config : DaemonConfig)
      → daemon_config read_file args ≡ ok config
      → (node_new args.tenant_id args.bl_name args.device_id ≡ ok config.node)
        × (config.sync.local_node ≡ config.node)
        × (config.sync.interval ≡ max args.sync_interval_ms 100)
        × (config.sync.batch_limit ≡ max args.sync_batch_limit 1)
        × (map peer_spec_parse args.peers ≡ map ok config.sync.peers)
        × (is_some args.peer_tls_cert ≡ is_some args.peer_tls_key)
        × IsPeerTls
            (record {
              ca_cert = args.peer_tls_ca;
              cert = args.peer_tls_cert;
              key = args.peer_tls_key;
              domain_name = args.peer_tls_domain;
            })
            config.sync.tls
        × IsServerTls args config.server_tls
  unfolding daemon_config peer_tls_config server_tls_config
  daemon_config_lem args config h =
      let (node, named, rest) =
        >>=-eq-ok (store_box (node_new args.tenant_id args.bl_name args.device_id)) _ h in
      let (peers, parsed, rest₁) = >>=-eq-ok (store_box (parse_peers args.peers)) _ rest in
      let (peer_tls, own, rest₂) = >>=-eq-ok (peer_tls_config args) _ rest₁ in
      let (server_tls, served, last) = >>=-eq-ok (server_tls_config read_file args) _ rest₂ in
      let (u, paired, built) = >>=-eq-ok (peer_pair args.peer_tls_cert args.peer_tls_key) _ own in
      let asked : PeerClientTlsConfig = record {
        ca_cert = args.peer_tls_ca;
        cert = args.peer_tls_cert;
        key = args.peer_tls_key;
        domain_name = args.peer_tls_domain;
      } in
      let same = sym (ok_injective last) in
      rw same (
        store_box-ok (node_new args.tenant_id args.bl_name args.device_id) named,
        refl,
        refl,
        refl,
        parse_peers-ok args.peers (store_box-ok (parse_peers args.peers) parsed),
        peer_pair-ok args.peer_tls_cert args.peer_tls_key paired,
        subst (IsPeerTls asked) (ok_injective built) (enabled_config-IsPeerTls asked),
        server_pair-IsServerTls args args.tls_cert args.tls_key args.tls_client_ca refl refl refl
            served,
      )
