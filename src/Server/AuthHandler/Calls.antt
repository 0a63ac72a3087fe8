-- ===== src/Server/AuthHandler/Calls.antt =====
-- ServerAuthHandler follows the rules on every call.
use naia.Base.Bools.{or-false}
use naia.Base.{
  ℕ, ◌≡◌, refl, sym, ap, ◌∙◌, inl, inr, true, ◌||◌, none, some, Bool-cases, Option-cases,
  ℕ_discrete,
}
use naia.Base.Assoc.{
  insert_key, lookup-insert_key_self, lookup-insert_key_ne, lookup-remove_key_self,
  lookup-remove_key_ne,
}
use naia.World.Authority.{available, granted, denied}
use naia.Server.AuthHandler.{
  not_delegated, not_available, not_holder, accepted, refused, AuthOwner, no_owner, server_owner,
  client_owner, owner_eq, ServerAuthHandler, set_owner, list_entity, client_request_authority,
  client_release_authority, server_give_authority_to_client, server_take_authority, register_entity,
  deregister_entity, register_channel, deregister_channel,
}
use naia.Server.AuthHandler.Owners.{
  Tied, owner_at, shared_at, shared_of, server_view, status_of, set_owner-TiedBut, set_status-Sets,
  close-Tied, release_all_authority-Releases, Releases,
}
use mathlib.Core.Path.{subst}
use naia.Server.AuthHandler.Decides.{
  AuthCall, request, release, give, take, register, deregister, call, Decides, undelegated,
  too_late, releases, clears, keeps, gives, takes, registers, deregisters, May, Follows,
}
use naia.Server.AuthHandler.Moves.{
  owner_eq→eq, owner_eq-false, unowned-held, stays, moves, list_entity-TiedBut, grants,
}

request-Follows :
    (e : ℕ) (owner : AuthOwner) (h : ServerAuthHandler) → Tied h → Follows e (request owner) h
unfolding call client_request_authority
request-Follows e owner h tied = elim (Option-cases (owner_at e h)) [
  | inl missing ↦
      stays e (request owner) h (refused not_delegated) tied (rw missing)
        (rw missing (undelegated (request owner) refl))
  | inr (holder, had) ↦ elim (Bool-cases (owner_eq holder no_owner)) [
    | inr held ↦
        stays e (request owner) h (refused not_available) tied (rw (had, held))
          (rw had (too_late owner holder (unowned-held holder held)))
    | inl free ↦ grants e owner h tied (had ∙ ap some (owner_eq→eq holder no_owner free))
  ]
]

-- Who had the authority is the one who gives it back, or the server clears it.
releases-rule :
    (owner holder : AuthOwner)
    → (owner_eq holder owner || owner_eq owner server_owner) ≡ true
    → Decides (release owner) (some holder) (accepted none) (some no_owner)
releases-rule owner holder may = elim (Bool-cases (owner_eq holder owner)) [
  | inl same ↦
      subst (λ x. Decides (release x) (some holder) (accepted none) (some no_owner))
        (owner_eq→eq holder owner same) (releases holder)
  | inr other ↦
      subst (λ x. Decides (release x) (some holder) (accepted none) (some no_owner))
        (sym (owner_eq→eq owner server_owner (rw other at may))) (clears holder)
]

available-after :
    (e : ℕ) (holder : AuthOwner) (h released : ServerAuthHandler)
    → Tied h
    → owner_at e h ≡ some holder
    → Releases e holder (set_owner e no_owner h) released
    → shared_at e released ≡ some (server_view available)
available-after e holder h released tied had r = elim (Bool-cases (owner_eq holder no_owner)) [
  | inr held ↦ r.released held
  | inl free ↦
      r.kept free
      ∙ tied e
      ∙ ap shared_of had
      ∙ ap (λ x. some (server_view (status_of x))) (owner_eq→eq holder no_owner free)
]

release-Follows :
    (e : ℕ) (owner : AuthOwner) (h : ServerAuthHandler) → Tied h → Follows e (release owner) h
unfolding call client_release_authority
release-Follows e owner h tied = elim (Option-cases (owner_at e h)) [
  | inl missing ↦
      stays e (release owner) h (refused not_delegated) tied (rw missing)
        (rw missing (undelegated (release owner) refl))
  | inr (holder, had) ↦ elim (Bool-cases (owner_eq holder owner || owner_eq owner server_owner)) [
    | inr other ↦
        let (f, g) = or-false (owner_eq holder owner) (owner_eq owner server_owner) other in
        stays e (release owner) h (refused not_holder) tied (rw (had, other)) (
          rw had (
            keeps owner holder (λ s. owner_eq-false holder owner f (sym s))
              (owner_eq-false owner server_owner g)))
    | inl may ↦
        let start = set_owner-TiedBut e holder no_owner h tied had in
        let (b, released, is_released, r) =
          release_all_authority-Releases e holder (set_owner e no_owner h) start in
        moves e (release owner) h released holder no_owner (accepted none) had r.same_owners
          r.tied_but (available-after e holder h released tied had r) (rw (had, may, is_released))
          (releases-rule owner holder may)
  ]
]

give-Follows : (e user : ℕ) (h : ServerAuthHandler) → Tied h → Follows e (give user) h
unfolding call server_give_authority_to_client
give-Follows e user h tied = elim (Option-cases (owner_at e h)) [
  | inl missing ↦
      stays e (give user) h (refused not_delegated) tied (rw missing)
        (rw missing (undelegated (give user) refl))
  | inr (holder, had) ↦ elim (Bool-cases (owner_eq holder (client_owner user))) [
    | inl has ↦ stays e (give user) h (accepted (some holder)) tied (rw (had, has)) (
        rw had (
          subst (λ x. Decides (give user) (some holder) (accepted (some holder)) (some x))
            (sym (owner_eq→eq holder (client_owner user) has)) (gives user holder)))
    | inr other ↦
        let start = set_owner-TiedBut e holder (client_owner user) h tied had in
        let (b, released, is_released, r) =
          release_all_authority-Releases e holder (set_owner e (client_owner user) h) start in
        let (given, is_set, s) =
          set_status-Sets e denied (list_entity user e released)
            (list_entity-TiedBut e user e released r.tied_but) in
        moves e (give user) h given holder (client_owner user) (accepted (some holder)) had
          (s.same_owners ∙ r.same_owners) s.tied_but s.set (rw (had, other, is_released, is_set))
          (gives user holder)
  ]
]

take-Follows : (e : ℕ) (h : ServerAuthHandler) → Tied h → Follows e take h
unfolding call server_take_authority
take-Follows e h tied = elim (Option-cases (owner_at e h)) [
  | inl missing ↦
      stays e take h (refused not_delegated) tied (rw missing) (rw missing (undelegated take refl))
  | inr (holder, had) ↦ elim (Bool-cases (owner_eq holder server_owner)) [
    | inl has ↦ stays e take h (accepted (some holder)) tied (rw (had, has)) (
        rw had (
          subst (λ x. Decides take (some holder) (accepted (some holder)) (some x))
            (sym (owner_eq→eq holder server_owner has)) (takes holder)))
    | inr other ↦
        let start = set_owner-TiedBut e holder server_owner h tied had in
        let (b, released, is_released, r) =
          release_all_authority-Releases e holder (set_owner e server_owner h) start in
        let (taken, is_set, s) = set_status-Sets e granted released r.tied_but in
        moves e take h taken holder server_owner (accepted (some holder)) had
          (s.same_owners ∙ r.same_owners) s.tied_but s.set (rw (had, other, is_released, is_set))
          (takes holder)
  ]
]

register-Follows :
    (e : ℕ) (h : ServerAuthHandler) → Tied h → owner_at e h ≡ none → Follows e register h
unfolding call register_entity register_channel
register-Follows e h tied fresh =
    let data_of = insert_key e (server_view available) h.host_auth_handler.auth_channels in
    let after = record h {
      host_auth_handler = record { auth_channels = data_of };
      entity_auth_map = insert_key e no_owner h.entity_auth_map;
    } in
    let owned = lookup-insert_key_self e no_owner h.entity_auth_map in
    let unshared : shared_at e h ≡ none = tied e ∙ ap shared_of fresh in
    record {
      reply = accepted none;
      after = after;
      returned = rw unshared;
      tied =
          close-Tied e no_owner after
            (record {
              others = λ j ne.
                  lookup-insert_key_ne e j (server_view available) h.host_auth_handler.auth_channels
                    ne
                  ∙ tied j
                  ∙ ap shared_of (sym (lookup-insert_key_ne e j no_owner h.entity_auth_map ne));
              status = available;
              there =
                  lookup-insert_key_self e (server_view available)
                    h.host_auth_handler.auth_channels;
            })
            (lookup-insert_key_self e (server_view available) h.host_auth_handler.auth_channels)
            owned;
      decided = rw (fresh, owned) registers;
      alone = λ j ne. lookup-insert_key_ne e j no_owner h.entity_auth_map ne;
    }

deregister-Tied : (e : ℕ) (h : ServerAuthHandler) → Tied h → Tied (deregister_entity e h)
unfolding deregister_entity deregister_channel
deregister-Tied e h tied j = elim (ℕ_discrete e j) [
  | yes same ↦ rw (
    sym same,
    lookup-remove_key_self e h.host_auth_handler.auth_channels,
    lookup-remove_key_self e h.entity_auth_map,
  )
  | no ne ↦
      lookup-remove_key_ne e j h.host_auth_handler.auth_channels ne
      ∙ tied j
      ∙ ap shared_of (sym (lookup-remove_key_ne e j h.entity_auth_map ne))
]

deregister-Follows : (e : ℕ) (h : ServerAuthHandler) → Tied h → Follows e deregister h
unfolding call deregister_entity
deregister-Follows e h tied = record {
  reply = accepted none;
  after = deregister_entity e h;
  returned = refl;
  tied = deregister-Tied e h tied;
  decided = rw (lookup-remove_key_self e h.entity_auth_map) (deregisters (owner_at e h));
  alone = λ j ne. lookup-remove_key_ne e j h.entity_auth_map ne;
}

-- Where the status that is shared for each entity is that of its owner, every call returns, with the
-- reply and the owner that the rules give, leaves the owners of the other entities alone, and the
-- statuses are those of the owners again. An entity that has an owner already is not registered.
pub call-Follows :
    (e : ℕ) (c : AuthCall) (h : ServerAuthHandler) → Tied h → May e c h → Follows e c h
call-Follows e (request owner) h tied may = request-Follows e owner h tied
call-Follows e (release owner) h tied may = release-Follows e owner h tied
call-Follows e (give user) h tied may = give-Follows e user h tied
call-Follows e take h tied may = take-Follows e h tied
call-Follows e register h tied may = register-Follows e h tied may
call-Follows e deregister h tied may = deregister-Follows e h tied
