-- ===== src/World/Authority.antt =====
-- shared/src/world/delegation/entity_auth_status.rs: EntityAuthStatus, and what it allows a host.
use naia.Base.{◌≡◌, refl, ◌⊎◌, inl, inr, Bool, true, false, not}
use naia.Base.Outcome.{Outcome, ok, panic}

pub data HostType : Type 0 where
  server client : HostType

pub data EntityAuthStatus : Type 0 where
  available requested granted releasing denied : EntityAuthStatus

pub record HostEntityAuthStatus : Type 0 where
  pub host_type : HostType
  pub auth_status : EntityAuthStatus

-- Each predicate is a match on the host and the status.
abbrev request_match : HostType → EntityAuthStatus → Outcome Bool
request_match client available = ok true
request_match client requested = ok false
request_match client granted = ok false
request_match client releasing = ok false
request_match client denied = ok false
request_match server status = panic

abbrev release_match : HostType → EntityAuthStatus → Outcome Bool
release_match client available = ok false
release_match client requested = ok true
release_match client granted = ok true
release_match client releasing = ok false
release_match client denied = ok false
release_match server status = panic

abbrev mutate_match : HostType → EntityAuthStatus → Bool
mutate_match client available = false
mutate_match client requested = true
mutate_match client granted = true
mutate_match client releasing = false
mutate_match client denied = false
mutate_match server status = true

abbrev read_match : HostType → EntityAuthStatus → Bool
read_match client available = true
read_match client requested = false
read_match client granted = false
read_match client releasing = true
read_match client denied = true
read_match server status = true

abbrev write_match : HostType → EntityAuthStatus → Bool
write_match client available = false
write_match client requested = false
write_match client granted = true
write_match client releasing = true
write_match client denied = false
write_match server status = true

unfoldable pub can_request : HostEntityAuthStatus → Outcome Bool
can_request h = request_match h.host_type h.auth_status

unfoldable pub can_release : HostEntityAuthStatus → Outcome Bool
can_release h = release_match h.host_type h.auth_status

unfoldable pub can_mutate : HostEntityAuthStatus → Bool
can_mutate h = mutate_match h.host_type h.auth_status

unfoldable pub can_read : HostEntityAuthStatus → Bool
can_read h = read_match h.host_type h.auth_status

unfoldable pub can_write : HostEntityAuthStatus → Bool
can_write h = write_match h.host_type h.auth_status

abbrev pub client_view : EntityAuthStatus → HostEntityAuthStatus
client_view status = record { host_type = client; auth_status = status }

-- By the tables of the code, a client may change an entity exactly when it may not read updates for
-- it, it may release exactly what it may change, it may request authority only where it may neither
-- change, write nor release, and what it may write it holds or is releasing.
pub client-rights :
    (status : EntityAuthStatus)
    → (can_mutate (client_view status) ≡ not (can_read (client_view status)))
      × (can_release (client_view status) ≡ ok (can_mutate (client_view status)))
      × (can_request (client_view status) ≡ ok true
          → (can_mutate (client_view status) ≡ false) × (can_write (client_view status) ≡ false))
      × (can_write (client_view status) ≡ true → (status ≡ granted) ⊎ (status ≡ releasing))
unfolding can_request can_release can_mutate can_read can_write
client-rights available = (refl, refl, λ e. (refl, refl), λ e. cc)
client-rights requested = (refl, refl, λ e. cc, λ e. cc)
client-rights granted = (refl, refl, λ e. cc, λ e. inl refl)
client-rights releasing = (refl, refl, λ e. cc, λ e. inr refl)
client-rights denied = (refl, refl, λ e. (refl, refl), λ e. cc)
