-- ===== src/World/AuthChannel/Lifecycle.antt =====
-- The lifecycle that AuthChannel follows.
use naia.Base.{ℕ, ◌≡◌, ◌≢◌, refl, true, Option, some, Bool-cases, inl, inr}
use naia.Base.Outcome.{ok}
use naia.World.Authority.{EntityAuthStatus, available, requested, granted, releasing, denied}
use naia.World.EntityCommand.{
  EntityCommand, publish, unpublish, enable_delegation, disable_delegation, set_authority,
  request_authority, release_authority, enable_delegation_response, migrate_response, spawn,
  spawn_with_components, despawn, insert_component, remove_component,
}
use naia.World.AuthChannel.{
  AuthChannel, unpublished, published, delegated, validate_command, change_status, valid_transition,
}
use mathlib.Core.Path.{subst}

-- The abstract lifecycle: what an entity is, with its authority while it is delegated.
pub data Phase : Type 0 where
  hidden visible : Phase
  shared : EntityAuthStatus → Phase

-- How the status of a delegated entity may change: authority is requested while it is available,
-- granted to who does not have it and is not giving it back, denied to who has not been denied it
-- already, given back by who has it, and available again from any other status.
pub data StatusMoves : EntityAuthStatus → EntityAuthStatus → Type 0 where
  asked : StatusMoves available requested
  given : (s : EntityAuthStatus) → s ≢ granted → s ≢ releasing → StatusMoves s granted
  refused : (s : EntityAuthStatus) → s ≢ denied → StatusMoves s denied
  given_back : StatusMoves granted releasing
  freed : (s : EntityAuthStatus) → s ≢ available → StatusMoves s available

status-valid : {s t : EntityAuthStatus} → StatusMoves s t → valid_transition s t ≡ true
status-valid asked = refl
status-valid (given available a b) = refl
status-valid (given requested a b) = refl
status-valid (given granted a b) = absurd (a refl)
status-valid (given releasing a b) = absurd (b refl)
status-valid (given denied a b) = refl
status-valid (refused available a) = refl
status-valid (refused requested a) = refl
status-valid (refused granted a) = refl
status-valid (refused releasing a) = refl
status-valid (refused denied a) = absurd (a refl)
status-valid given_back = refl
status-valid (freed available a) = absurd (a refl)
status-valid (freed requested a) = refl
status-valid (freed granted a) = refl
status-valid (freed releasing a) = refl
status-valid (freed denied a) = refl

valid-StatusMoves : (s t : EntityAuthStatus) → valid_transition s t ≡ true → StatusMoves s t
valid-StatusMoves available requested v = asked
valid-StatusMoves s granted v = given s (λ e. cc (rw e at v)) (λ e. cc (rw e at v))
valid-StatusMoves s denied v = refused s (λ e. cc (rw e at v))
valid-StatusMoves granted releasing v = given_back
valid-StatusMoves s available v = freed s (λ e. cc (rw e at v))
valid-StatusMoves requested requested v = cc
valid-StatusMoves granted requested v = cc
valid-StatusMoves releasing requested v = cc
valid-StatusMoves denied requested v = cc
valid-StatusMoves available releasing v = cc
valid-StatusMoves requested releasing v = cc
valid-StatusMoves releasing releasing v = cc
valid-StatusMoves denied releasing v = cc

-- The commands that move an entity from phase to phase.
pub data Moves : EntityCommand → Phase → Phase → Type 0 where
  publishes : (id : Option ℕ) (e : ℕ) → Moves (publish id e) hidden visible
  unpublishes : (id : Option ℕ) (e : ℕ) → Moves (unpublish id e) visible hidden
  delegates : (id : Option ℕ) (e : ℕ) → Moves (enable_delegation id e) visible (shared available)
  undelegates :
      (id : Option ℕ) (e : ℕ) (s : EntityAuthStatus)
      → Moves (disable_delegation id e) (shared s) visible
  releases :
      (id : Option ℕ) (e : ℕ) (s : EntityAuthStatus)
      → Moves (release_authority id e) (shared s) (shared available)
  sets :
      (id : Option ℕ) (e : ℕ) (s t : EntityAuthStatus)
      → StatusMoves s t
      → Moves (set_authority id e t) (shared s) (shared t)
  requests :
      (id : Option ℕ) (e : ℕ) (s : EntityAuthStatus)
      → Moves (request_authority id e) (shared s) (shared s)
  responds :
      (id : Option ℕ) (e : ℕ) (s : EntityAuthStatus)
      → Moves (enable_delegation_response id e) (shared s) (shared s)
  migrates :
      (id : Option ℕ) (e remote host : ℕ) (s : EntityAuthStatus)
      → Moves (migrate_response id e remote host) (shared s) (shared s)

-- A channel stands for a phase. What it has for a status while it is not delegated is forgotten.
abbrev pub StandsFor : AuthChannel → Phase → Type 0
StandsFor c hidden = c.state ≡ unpublished
StandsFor c visible = c.state ≡ published
StandsFor c (shared s) = (c.state ≡ delegated) × (c.auth_status ≡ some s)

phase-move :
    (command : EntityCommand) (p q : Phase) (c : AuthChannel)
    → Moves command p q
    → StandsFor c p
    → (c' : AuthChannel) × (validate_command command c ≡ ok c') × StandsFor c' q
unfolding validate_command change_status
phase-move _ _ _ c (publishes id e) h = (record c { state = published }, rw h, refl)
phase-move _ _ _ c (unpublishes id e) h = (record c { state = unpublished }, rw h, refl)
phase-move _ _ _ c (delegates id e) h =
    (record c { state = delegated; auth_status = some available }, rw h, (refl, refl))
phase-move _ _ _ c (undelegates id e s) h = (record c { state = published }, rw h.0, refl)
phase-move _ _ _ c (releases id e s) h =
    (record c { auth_status = some available }, rw h.0, (h.0, refl))
phase-move _ _ _ c (sets id e s t valid) h =
    (record c { auth_status = some t }, rw (h.0, h.1, status-valid valid), (h.0, refl))
phase-move _ _ _ c (requests id e s) h = (c, rw h.0, h)
phase-move _ _ _ c (responds id e s) h = (c, rw h.0, h)
phase-move _ _ _ c (migrates id e remote host s) h = (c, rw h.0, h)

same_result :
    {command : EntityCommand} {p q : Phase} (c c' : AuthChannel)
    → Moves command p q
    → StandsFor c p
    → validate_command command c ≡ ok c'
    → (r : Phase) × Moves command p r × StandsFor c' r
same_result {command} {p} {q} c c' move h e =
    let (c1, e1, h1) = phase-move command p q c move h in
    let same : c1 ≡ c' = cc in (q, move, subst (λ (x : AuthChannel). StandsFor x q) same h1)

set-Moves :
    (id : Option ℕ) (e : ℕ) (s t : EntityAuthStatus) (c c' : AuthChannel)
    → StandsFor c (shared s)
    → validate_command (set_authority id e t) c ≡ ok c'
    → (r : Phase) × Moves (set_authority id e t) (shared s) r × StandsFor c' r
unfolding validate_command change_status
set-Moves id e s t c c' h v = elim (Bool-cases (valid_transition s t)) [
  | inl valid ↦ same_result c c' (sets id e s t (valid-StatusMoves s t valid)) h v
  | inr invalid ↦ cc (rw (h.0, h.1, invalid) at v)
]

pub valid-Moves :
    (command : EntityCommand) (p : Phase) (c c' : AuthChannel)
    → StandsFor c p
    → validate_command command c ≡ ok c'
    → (q : Phase) × Moves command p q × StandsFor c' q
unfolding validate_command
valid-Moves (publish id e) hidden c c' h v = same_result c c' (publishes id e) h v
valid-Moves (publish id e) visible c c' h v = cc (rw h at v)
valid-Moves (publish id e) (shared s) c c' h v = cc (rw h.0 at v)
valid-Moves (unpublish id e) hidden c c' h v = cc (rw h at v)
valid-Moves (unpublish id e) visible c c' h v = same_result c c' (unpublishes id e) h v
valid-Moves (unpublish id e) (shared s) c c' h v = cc (rw h.0 at v)
valid-Moves (enable_delegation id e) hidden c c' h v = cc (rw h at v)
valid-Moves (enable_delegation id e) visible c c' h v = same_result c c' (delegates id e) h v
valid-Moves (enable_delegation id e) (shared s) c c' h v = cc (rw h.0 at v)
valid-Moves (disable_delegation id e) hidden c c' h v = cc (rw h at v)
valid-Moves (disable_delegation id e) visible c c' h v = cc (rw h at v)
valid-Moves (disable_delegation id e) (shared s) c c' h v =
    same_result c c' (undelegates id e s) h v
valid-Moves (release_authority id e) hidden c c' h v = cc (rw h at v)
valid-Moves (release_authority id e) visible c c' h v = cc (rw h at v)
valid-Moves (release_authority id e) (shared s) c c' h v = same_result c c' (releases id e s) h v
valid-Moves (set_authority id e t) hidden c c' h v = cc (rw h at v)
valid-Moves (set_authority id e t) visible c c' h v = cc (rw h at v)
valid-Moves (set_authority id e t) (shared s) c c' h v = set-Moves id e s t c c' h v
valid-Moves (request_authority id e) hidden c c' h v = cc (rw h at v)
valid-Moves (request_authority id e) visible c c' h v = cc (rw h at v)
valid-Moves (request_authority id e) (shared s) c c' h v = same_result c c' (requests id e s) h v
valid-Moves (enable_delegation_response id e) hidden c c' h v = cc (rw h at v)
valid-Moves (enable_delegation_response id e) visible c c' h v = cc (rw h at v)
valid-Moves (enable_delegation_response id e) (shared s) c c' h v =
    same_result c c' (responds id e s) h v
valid-Moves (migrate_response id e remote host) hidden c c' h v = cc (rw h at v)
valid-Moves (migrate_response id e remote host) visible c c' h v = cc (rw h at v)
valid-Moves (migrate_response id e remote host) (shared s) c c' h v =
    same_result c c' (migrates id e remote host s) h v
valid-Moves (spawn e) p c c' h v = cc
valid-Moves (spawn_with_components e kinds) p c c' h v = cc
valid-Moves (despawn e) p c c' h v = cc
valid-Moves (insert_component e kind) p c c' h v = cc
valid-Moves (remove_component e kind) p c c' h v = cc

-- `validate_command` implements the lifecycle: from a channel that stands for a phase, the commands
-- that it accepts are exactly those that move the entity on from this phase, and it then stands for
-- the phase that the command leads to.
pub validate_command-refines :
    (command : EntityCommand) (p : Phase) (c : AuthChannel)
    → StandsFor c p
    → ((c' : AuthChannel)
        → validate_command command c ≡ ok c'
        → (q : Phase) × Moves command p q × StandsFor c' q)
      × ((q : Phase)
          → Moves command p q
          → (c' : AuthChannel) × (validate_command command c ≡ ok c') × StandsFor c' q)
validate_command-refines command p c h =
    (λ c' v. valid-Moves command p c c' h v, λ q move. phase-move command p q c move h)
