-- ===== src/Server/AuthHandler/Decides.antt =====
-- What ServerAuthHandler decides on a call, against the owner that it has for the entity.
use naia.Base.{ℕ, ◌≡◌, ◌≢◌, Bool, true, false, Option, none, some}
use naia.Base.Outcome.{Outcome, ok, ◌>>=◌}
use naia.Server.AuthHandler.{
  not_delegated, not_available, not_holder, Reply, accepted, refused, AuthOwner, no_owner,
  server_owner, client_owner, ServerAuthHandler, is_held, client_request_authority,
  client_release_authority, server_give_authority_to_client, server_take_authority, register_entity,
  deregister_entity,
}
use naia.Server.AuthHandler.Owners.{Tied, owner_at}

-- The calls that change who has the authority over an entity.
pub data AuthCall : Type 0 where
  request release : AuthOwner → AuthCall
  give : ℕ → AuthCall
  take register deregister : AuthCall

abbrev pub done : {S : Type 0} → Reply (Unit {0}) × S → Outcome (Reply (Option AuthOwner) × S)
done (accepted u, h) = ok (accepted none, h)
done (refused e, h) = ok (refused e, h)

abbrev pub previous : {S : Type 0} → Reply AuthOwner × S → Outcome (Reply (Option AuthOwner) × S)
previous (accepted owner, h) = ok (accepted (some owner), h)
previous (refused e, h) = ok (refused e, h)

-- A call, with its reply and the owner that it returns, if it does.
unfoldable pub call :
    ℕ → AuthCall → ServerAuthHandler → Outcome (Reply (Option AuthOwner) × ServerAuthHandler)
call e (request owner) h = client_request_authority e owner h >>= done
call e (release owner) h = client_release_authority e owner h >>= done
call e (give user) h = server_give_authority_to_client e user h >>= previous
call e take h = server_take_authority e h >>= previous
call e register h = register_entity e h >>= λ h'. ok (accepted none, h')
call e deregister h = ok (accepted none, deregister_entity e h)

-- The calls that are about a delegated entity.
abbrev pub is_claim : AuthCall → Bool
is_claim register = false
is_claim deregister = false
is_claim _ = true

-- The rules: what is replied to a call where an entity has an owner, or is not delegated and has
-- none, and the owner it has then.
pub data Decides
    : AuthCall → Option AuthOwner → Reply (Option AuthOwner) → Option AuthOwner → Type 0 where
  undelegated : (c : AuthCall) → is_claim c ≡ true → Decides c none (refused not_delegated) none
  requests :
      (owner : AuthOwner) → Decides (request owner) (some no_owner) (accepted none) (some owner)
  too_late :
      (owner holder : AuthOwner)
      → is_held (some holder) ≡ true
      → Decides (request owner) (some holder) (refused not_available) (some holder)
  releases :
      (holder : AuthOwner) → Decides (release holder) (some holder) (accepted none) (some no_owner)
  clears :
      (holder : AuthOwner)
      → Decides (release server_owner) (some holder) (accepted none) (some no_owner)
  keeps :
      (owner holder : AuthOwner)
      → owner ≢ holder
      → owner ≢ server_owner
      → Decides (release owner) (some holder) (refused not_holder) (some holder)
  gives :
      (user : ℕ) (holder : AuthOwner)
      → Decides (give user) (some holder) (accepted (some holder)) (some (client_owner user))
  takes :
      (holder : AuthOwner) → Decides take (some holder) (accepted (some holder)) (some server_owner)
  registers : Decides register none (accepted none) (some no_owner)
  deregisters : (owner : Option AuthOwner) → Decides deregister owner (accepted none) none

-- An entity is registered once.
abbrev pub May : ℕ → AuthCall → ServerAuthHandler → Type 0
May e register h = owner_at e h ≡ none
May e _ h = Unit

-- The handler follows the rules, for the entity of the call, and leaves the others alone.
pub record Follows (e : ℕ) (c : AuthCall) (h : ServerAuthHandler) : Type 0 where
  pub reply : Reply (Option AuthOwner)
  pub after : ServerAuthHandler
  pub returned : call e c h ≡ ok (reply, after)
  pub tied : Tied after
  pub decided : Decides c (owner_at e h) reply (owner_at e after)
  pub alone : (j : ℕ) → e ≢ j → owner_at j after ≡ owner_at j h
