-- ===== src/Server/AuthHandler/Owners.antt =====
-- The owner that ServerAuthHandler has for an entity, and the status that is shared for it.
use naia.Base.{
  ℕ, ◌≡◌, refl, sym, ap, ◌∙◌, ◌≢◌, inl, inr, Bool, true, false, Option, none, some, Bool-cases,
  Option-cases, ℕ_discrete,
}
use naia.Base.Outcome.{ok}
use naia.Base.Assoc.{lookup, insert_key, lookup-insert_key_self, lookup-insert_key_ne}
use naia.World.Authority.{
  EntityAuthStatus, HostEntityAuthStatus, server, available, granted, denied,
}
use naia.Server.AuthHandler.{
  AuthOwner, no_owner, server_owner, client_owner, owner_eq, ServerAuthHandler, set_owner,
  set_status, set_auth_status, unlist_user, release_all_authority,
}

-- The status that the server shares for an owner: its own view, so that a client's hold is `denied`.
abbrev pub status_of : AuthOwner → EntityAuthStatus
status_of no_owner = available
status_of server_owner = granted
status_of (client_owner u) = denied

abbrev pub server_view : EntityAuthStatus → HostEntityAuthStatus
server_view status = record { host_type = server; auth_status = status }

abbrev pub shared_of : Option AuthOwner → Option HostEntityAuthStatus
shared_of none = none
shared_of (some owner) = some (server_view (status_of owner))

abbrev pub shared_at : ℕ → ServerAuthHandler → Option HostEntityAuthStatus
shared_at e h = lookup e h.host_auth_handler.auth_channels

abbrev pub owner_at : ℕ → ServerAuthHandler → Option AuthOwner
owner_at e h = lookup e h.entity_auth_map

-- Each entity with an owner has the status of this owner, and no other entity has a status.
abbrev pub Tied : ServerAuthHandler → Type 0
Tied h = (e : ℕ) → shared_at e h ≡ shared_of (owner_at e h)

-- The same but for one entity, which has some status.
pub record TiedBut (e : ℕ) (h : ServerAuthHandler) : Type 0 where
  pub others : (j : ℕ) → e ≢ j → shared_at j h ≡ shared_of (owner_at j h)
  pub status : EntityAuthStatus
  pub there : shared_at e h ≡ some (server_view status)

pub set_owner-TiedBut :
    (e : ℕ) (old new : AuthOwner) (h : ServerAuthHandler)
    → Tied h
    → owner_at e h ≡ some old
    → TiedBut e (set_owner e new h)
set_owner-TiedBut e old new h tied at_e = record {
  others = λ j ne. tied j ∙ ap shared_of (sym (lookup-insert_key_ne e j new h.entity_auth_map ne));
  status = status_of old;
  there = tied e ∙ ap shared_of at_e;
}

-- The owners and the rest are kept where a status is set.
pub record Sets (e : ℕ) (status : EntityAuthStatus) (h h' : ServerAuthHandler) : Type 0 where
  pub tied_but : TiedBut e h'
  pub set : shared_at e h' ≡ some (server_view status)
  pub same_owners : h'.entity_auth_map ≡ h.entity_auth_map

pub set_status-Sets :
    (e : ℕ) (status : EntityAuthStatus) (h : ServerAuthHandler)
    → TiedBut e h
    → (h' : ServerAuthHandler) × (set_status e status h ≡ ok h') × Sets e status h h'
unfolding set_status set_auth_status
set_status-Sets e status h t =
    let channels = insert_key e (server_view status) h.host_auth_handler.auth_channels in
    let set_there : lookup e channels ≡ some (server_view status) =
      lookup-insert_key_self e (server_view status) h.host_auth_handler.auth_channels in
    (
      record h { host_auth_handler = record { auth_channels = channels } },
      rw t.there,
      record {
        tied_but = record {
          others = λ j ne.
              lookup-insert_key_ne e j (server_view status) h.host_auth_handler.auth_channels ne
              ∙ t.others j ne;
          status = status;
          there = set_there;
        };
        set = set_there;
        same_owners = refl;
      },
    )

pub close-Tied :
    (e : ℕ) (owner : AuthOwner) (h : ServerAuthHandler)
    → TiedBut e h
    → shared_at e h ≡ some (server_view (status_of owner))
    → owner_at e h ≡ some owner
    → Tied h
close-Tied e owner h t set owned j = elim (ℕ_discrete e j) [
  | yes same ↦
      ap (λ i. shared_at i h) (sym same)
      ∙ set
      ∙ ap shared_of (sym owned)
      ∙ ap (λ i. shared_of (owner_at i h)) same
  | no ne ↦ t.others j ne
]

-- The bookkeeping of the users is not about owners or statuses.
pub unlist_user-TiedBut :
    (e i : ℕ) (owner : AuthOwner) (h : ServerAuthHandler)
    → TiedBut e h
    → TiedBut e (unlist_user i owner h)
      × ((unlist_user i owner h).entity_auth_map ≡ h.entity_auth_map)
unlist_user-TiedBut e i no_owner h t = (t, refl)
unlist_user-TiedBut e i server_owner h t = (t, refl)
unlist_user-TiedBut e i (client_owner u) h t = elim (Option-cases (lookup u h.user_to_entity_map)) [
  | inl missing ↦ rw missing (t, refl)
  | inr (entities, there) ↦
      rw there (record { others = t.others; status = t.status; there = t.there }, refl)
]

-- Where somebody had the authority, it is available afterwards; where nobody had, nothing changes.
pub record Releases (e : ℕ) (owner : AuthOwner) (h h' : ServerAuthHandler) : Type 0 where
  pub tied_but : TiedBut e h'
  pub released : owner_eq owner no_owner ≡ false → shared_at e h' ≡ some (server_view available)
  pub kept : owner_eq owner no_owner ≡ true → shared_at e h' ≡ shared_at e h
  pub same_owners : h'.entity_auth_map ≡ h.entity_auth_map

pub release_all_authority-Releases :
    (e : ℕ) (owner : AuthOwner) (h : ServerAuthHandler)
    → TiedBut e h
    → (b : Bool) × (h' : ServerAuthHandler) × (release_all_authority e owner h ≡ ok (b, h'))
      × Releases e owner h h'
unfolding release_all_authority
release_all_authority-Releases e owner h t = elim (Bool-cases (owner_eq owner no_owner)) [
  | inl free ↦ (
    false,
    h,
    rw free,
    record { tied_but = t; released = λ held. cc; kept = λ f. refl; same_owners = refl },
  )
  | inr held ↦
      let unlisted = unlist_user-TiedBut e e owner h t in
      let (h', is_set, sets) = set_status-Sets e available (unlist_user e owner h) unlisted.0 in
      (
        true,
        h',
        rw (held, is_set),
        record {
          tied_but = sets.tied_but;
          released = λ f. sets.set;
          kept = λ free. cc;
          same_owners = sets.same_owners ∙ unlisted.1;
        },
      )
]
