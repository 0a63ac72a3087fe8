-- ===== src/Server/AuthHandler/Moves.antt =====
-- What changes the owner that ServerAuthHandler has for an entity, and who may have it.
use naia.Base.{ℕ, ◌≡◌, refl, sym, ap, ◌∙◌, ◌≢◌, true, false, Option, none, some, ==_iff, ==_refl}
use naia.Base.Outcome.{ok}
use naia.Base.Assoc.{lookup, insert_key, lookup-insert_key_self, lookup-insert_key_ne}
use naia.World.Authority.{granted, denied}
use naia.Server.AuthHandler.{
  Reply, accepted, AuthOwner, no_owner, server_owner, client_owner, owner_eq, ServerAuthHandler,
  set_owner, is_held, list_entity, client_request_authority,
}
use naia.Server.AuthHandler.Owners.{
  Tied, TiedBut, owner_at, shared_at, server_view, status_of, set_owner-TiedBut, set_status-Sets,
  close-Tied,
}
use naia.Server.AuthHandler.Decides.{AuthCall, request, call, Decides, requests, Follows}

pub owner_eq→eq : (a b : AuthOwner) → owner_eq a b ≡ true → a ≡ b
owner_eq→eq no_owner no_owner e = refl
owner_eq→eq server_owner server_owner e = refl
owner_eq→eq (client_owner u) (client_owner v) e = ap client_owner ((==_iff u v).0 e)
owner_eq→eq no_owner server_owner e = cc
owner_eq→eq no_owner (client_owner v) e = cc
owner_eq→eq server_owner no_owner e = cc
owner_eq→eq server_owner (client_owner v) e = cc
owner_eq→eq (client_owner u) no_owner e = cc
owner_eq→eq (client_owner u) server_owner e = cc

owner_eq_refl : (a : AuthOwner) → owner_eq a a ≡ true
owner_eq_refl no_owner = refl
owner_eq_refl server_owner = refl
owner_eq_refl (client_owner u) = ==_refl u

pub owner_eq-false : (a b : AuthOwner) → owner_eq a b ≡ false → a ≢ b
owner_eq-false a b f same = let t = owner_eq_refl a in let u = rw (sym same) at f in cc

pub unowned-held : (a : AuthOwner) → owner_eq a no_owner ≡ false → is_held (some a) ≡ true
unowned-held no_owner f = cc
unowned-held server_owner f = refl
unowned-held (client_owner u) f = refl

-- A call that changes nothing.
pub stays :
    (e : ℕ) (c : AuthCall) (h : ServerAuthHandler) (reply : Reply (Option AuthOwner))
    → Tied h
    → call e c h ≡ ok (reply, h)
    → Decides c (owner_at e h) reply (owner_at e h)
    → Follows e c h
stays e c h reply tied returned decided = record {
  reply = reply;
  after = h;
  returned = returned;
  tied = tied;
  decided = decided;
  alone = λ j ne. refl;
}

-- A call after which the entity has a given owner, and the status of this owner is shared.
pub moves :
    (e : ℕ) (c : AuthCall) (h after : ServerAuthHandler) (old new : AuthOwner)
    (reply : Reply (Option AuthOwner))
    → owner_at e h ≡ some old
    → after.entity_auth_map ≡ insert_key e new h.entity_auth_map
    → TiedBut e after
    → shared_at e after ≡ some (server_view (status_of new))
    → call e c h ≡ ok (reply, after)
    → Decides c (some old) reply (some new)
    → Follows e c h
moves e c h after old new reply had owners t set returned decided =
    let owned : owner_at e after ≡ some new =
      ap (lookup e) owners ∙ lookup-insert_key_self e new h.entity_auth_map in
    record {
      reply = reply;
      after = after;
      returned = returned;
      tied = close-Tied e new after t set owned;
      decided = rw (had, owned) decided;
      alone = λ j ne. ap (lookup j) owners ∙ lookup-insert_key_ne e j new h.entity_auth_map ne;
    }

pub list_entity-TiedBut :
    (e user i : ℕ) (h : ServerAuthHandler) → TiedBut e h → TiedBut e (list_entity user i h)
list_entity-TiedBut e user i h t = record { others = t.others; status = t.status; there = t.there }

-- The authority is granted to whoever asks for it while nobody has it.
pub grants :
    (e : ℕ) (owner : AuthOwner) (h : ServerAuthHandler)
    → Tied h
    → owner_at e h ≡ some no_owner
    → Follows e (request owner) h
unfolding call client_request_authority
grants e no_owner h tied had =
    stays e (request no_owner) h (accepted none) tied (rw had) (rw had (requests no_owner))
grants e server_owner h tied had =
    let start = set_owner-TiedBut e no_owner server_owner h tied had in
    let (given, is_set, s) = set_status-Sets e granted (set_owner e server_owner h) start in
    moves e (request server_owner) h given no_owner server_owner (accepted none) had s.same_owners
      s.tied_but s.set (rw (had, is_set)) (requests server_owner)
grants e (client_owner u) h tied had =
    let start = set_owner-TiedBut e no_owner (client_owner u) h tied had in
    let listed = list_entity-TiedBut e u e (set_owner e (client_owner u) h) start in
    let (given, is_set, s) =
      set_status-Sets e denied (list_entity u e (set_owner e (client_owner u) h)) listed in
    moves e (request (client_owner u)) h given no_owner (client_owner u) (accepted none) had
      s.same_owners s.tied_but s.set (rw (had, is_set)) (requests (client_owner u))
