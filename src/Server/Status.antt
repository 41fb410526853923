-- ===== src/Server/Status.antt =====
-- The gRPC status of a failed call, and how a store's error becomes one.
use msgbus.Text.{Str}
use msgbus.Prelude.{Option, none, some}
use msgbus.Core.Error.{
  MsgbusError, Outcome, Result, ok, err, invalid_argument, not_found, conflict, storage,
  serialization,
}

-- the codes of `tonic::Status` that the service uses, each with its message
pub data Status : Type 0 where
  invalid missing denied precondition_failed unavailable internal : Str → Status

abbrev pub Reply {ℓ} : Type ℓ → Type ℓ
Reply = Outcome Status

unfoldable pub status_from_error : MsgbusError → Status
status_from_error (invalid_argument message) = invalid message
status_from_error (not_found message) = missing message
status_from_error (conflict message) = precondition_failed message
status_from_error (storage message) = internal message
status_from_error (serialization message) = internal message

-- `.map_err(status_from_error)`
unfoldable pub or_status {ℓ} : {A : Type ℓ} → Result A → Reply A
unfolding status_from_error
or_status (ok a) = ok a
or_status (err e) = err (status_from_error e)

-- `.ok_or_else(|| status)`
unfoldable pub ok_or {ℓ} : {A : Type ℓ} → Option A → Status → Reply A
ok_or none status = err status
ok_or (some a) status = ok a

-- `.map(f).transpose()?`
unfoldable pub map_transpose {ℓ κ} :
    {A : Type ℓ} {B : Type κ} → (A → Reply B) → Option A → Reply (Option B)
map_transpose f none = ok none
map_transpose f (some a) = elim (f a) [ ok b ↦ ok (some b) | err e ↦ err e ]
