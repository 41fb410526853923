-- ===== src/Tests/Served.antt =====
-- The SDK on a service of one message: a transport as the streams of the handler.
use msgbus.Prelude.{ℕ, ◌≡◌, refl, ap, Option, some, none, List, [], ◌∷◌, max, arith, ◌⊎◌, inl, inr}
use msgbus.Text.{codes}
use msgbus.Core.Error.{ok, err, ok_injective}
use msgbus.Redb.Store.{redb_store}
use msgbus.Server.Status.{Reply}
use msgbus.Server.Proto.{MessageEnvelope}
use msgbus.Server.Subscribe.{LiveItem, message, lagged, subscribe}
use msgbus.Sdk.Daemon.{Rpc, Daemon}
use msgbus.Sdk.Client.{default_options}
use msgbus.Sdk.Resilient.{subscribe_reconnecting_with_options}
use msgbus.Sdk.Received.{IsGrowing, receive}
use msgbus.Sdk.Served.{Serves, served-IsGrowing}
use msgbus.Tests.Sample.{sample_deps, local}
use msgbus.Tests.Redb.{one-IsLog, from_peer}
use msgbus.Tests.Server.{service}
use msgbus.Tests.Sdk.{five, refusal, client}

abbrev Items : Type 0
Items = List (Reply MessageEnvelope)

abbrev live : List LiveItem
live = message (record from_peer { head_id = 2 }) ∷ lagged (codes "channel lagged by 3") ∷ []

abbrev answer : Reply Items → Rpc Items
answer (ok items) = ok items
answer (err e) = err refusal

abbrev next_item : ℕ → Items → Rpc (Option (Option MessageEnvelope)) × Items × ℕ
next_item state [] = (ok none, [], state)
next_item state (err e ∷ items) = (err refusal, items, state)
next_item state (ok m ∷ items) = (ok (some (some m)), items, state)

abbrev small : Daemon
small = record five {
  Stream = Items;
  subscribe = λ state request.
      (answer (subscribe (redb_store sample_deps) local service request live), state);
  message = next_item;
}

answered : (r : Reply Items) (s : Items) → answer r ≡ ok s → r ≡ ok s
answered (ok items) s e = ap ok (ok_injective e)
answered (err f) s e = cc

brings :
    (state : ℕ) (s : Items) (m : MessageEnvelope)
    → (next_item state s).0 ≡ ok (some (some m))
    → s ≡ ok m ∷ (next_item state s).1
brings state [] m e = cc
brings state (err f ∷ items) m e = cc
brings state (ok m' ∷ items) m e =
    let same : m' ≡ m = cc in ap (λ (x : MessageEnvelope). ok x ∷ items) same

stays :
    (state : ℕ) (s : Items)
    → ((next_item state s).1 ≡ s) ⊎ ((x : Reply MessageEnvelope) × (s ≡ x ∷ (next_item state s).1))
stays state [] = inl refl
stays state (err e ∷ items) = inr (err e, refl)
stays state (ok m ∷ items) = inr (ok m, refl)

small-Serves : Serves sample_deps local small
small-Serves = record {
  rest = λ s. s;
  opens = λ state request s e. (
    service,
    live,
    one-IsLog,
    answered (subscribe (redb_store sample_deps) local service request live) s e,
  );
  brings = brings;
  stays = stays;
}

served-IsGrowing_example :
    IsGrowing
      (λ h. Unit)
      (max 1 1)
      (receive small 4 3
        (subscribe_reconnecting_with_options small client (codes "events") default_options)
        0)
served-IsGrowing_example =
    served-IsGrowing sample_deps local small small-Serves client (codes "events") default_options 4
      3 0 (omega arith)
