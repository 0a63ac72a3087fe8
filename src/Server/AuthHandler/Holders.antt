-- ===== src/Server/AuthHandler/Holders.antt =====
-- What ServerAuthHandler answers about who has the authority, after any calls.
use naia.Base.{
  ℕ, ◌≡◌, refl, sym, ap, ◌∙◌, ◌⊎◌, inl, inr, true, false, Option, none, some, Option-cases, ==_iff,
}
use naia.Base.Outcome.{ok, ok-injective}
use naia.Base.Assoc.{lookup}
use naia.World.Authority.{EntityAuthStatus, available, granted, denied}
use naia.Server.AuthHandler.{
  Reply, AuthOwner, no_owner, server_owner, client_owner, ServerAuthHandler, new_auth_handler,
  authority_status, auth_status, entity_has_holder, user_is_authority_holder, register_entity,
  register_channel,
}
use naia.Server.AuthHandler.Owners.{Tied, owner_at, shared_at, shared_of, server_view, status_of}
use naia.Server.AuthHandler.Decides.{
  AuthCall, request, release, give, take, register, deregister, call, May,
}
use naia.Server.AuthHandler.Calls.{call-Follows}
use mathlib.Core.Path.{subst}

-- The handlers that calls lead to.
pub data Reached : ServerAuthHandler → Type 0 where
  start : Reached new_auth_handler
  calls :
      {h : ServerAuthHandler} (e : ℕ) (c : AuthCall) (reply : Reply (Option AuthOwner))
      (h' : ServerAuthHandler)
      → Reached h
      → call e c h ≡ ok (reply, h')
      → Reached h'

-- A registration that returns was the first.
pub registered-fresh :
    (e : ℕ) (h : ServerAuthHandler) (reply : Reply (Option AuthOwner)) (h' : ServerAuthHandler)
    → Tied h
    → call e register h ≡ ok (reply, h')
    → owner_at e h ≡ none
unfolding call register_entity register_channel
registered-fresh e h reply h' tied returned = elim (Option-cases (owner_at e h)) [
  | inl fresh ↦ fresh
  | inr (owner, had) ↦
      let shared : shared_at e h ≡ some (server_view (status_of owner)) =
        tied e ∙ ap shared_of had in
      let f = rw shared at returned in cc
]

returned-May :
    (e : ℕ) (c : AuthCall) (h : ServerAuthHandler) (reply : Reply (Option AuthOwner))
    (h' : ServerAuthHandler)
    → Tied h
    → call e c h ≡ ok (reply, h')
    → May e c h
returned-May e register h reply h' tied returned = registered-fresh e h reply h' tied returned
returned-May e (request owner) h reply h' tied returned = tt
returned-May e (release owner) h reply h' tied returned = tt
returned-May e (give user) h reply h' tied returned = tt
returned-May e take h reply h' tied returned = tt
returned-May e deregister h reply h' tied returned = tt

pub Reached-Tied : (h : ServerAuthHandler) → Reached h → Tied h
unfolding lookup
Reached-Tied _ start = λ e. refl
Reached-Tied _ (calls {h} e c reply h' reached returned) =
    let tied = Reached-Tied h reached in
    let f = call-Follows e c h tied (returned-May e c h reply h' tied returned) in
    let same : f.after ≡ h' =
      ap (λ (p : Reply (Option AuthOwner) × ServerAuthHandler). p.1)
        (ok-injective (sym f.returned ∙ returned)) in
    subst Tied same f.tied

-- What is answered about an entity that has an owner, or is not delegated and has none.
abbrev pub status_for : Option AuthOwner → Option EntityAuthStatus
status_for none = none
status_for (some owner) = some (status_of owner)

abbrev pub Answers : ℕ → ServerAuthHandler → Type 0
Answers e h =
    (entity_has_holder e h ≡ true
      → (authority_status e h ≡ some granted) ⊎ (authority_status e h ≡ some denied))
    × (entity_has_holder e h ≡ false
        → (authority_status e h ≡ none) ⊎ (authority_status e h ≡ some available))
    × ((u : ℕ) → user_is_authority_holder u e h ≡ true → authority_status e h ≡ some denied)
    × ((u v : ℕ)
        → user_is_authority_holder u e h ≡ true
        → user_is_authority_holder v e h ≡ true
        → u ≡ v)

Tied-status :
    (e : ℕ) (h : ServerAuthHandler) → Tied h → authority_status e h ≡ status_for (owner_at e h)
unfolding authority_status auth_status
Tied-status e h tied = elim (Option-cases (owner_at e h)) [
  | inl missing ↦ rw (tied e, missing)
  | inr (owner, had) ↦ rw (tied e, had)
]

owner-Answers :
    (e : ℕ) (h : ServerAuthHandler) (o : Option AuthOwner)
    → owner_at e h ≡ o
    → authority_status e h ≡ status_for o
    → Answers e h
unfolding entity_has_holder user_is_authority_holder
owner-Answers e h none is s = rw is (λ f. cc, λ f. inl s, λ u f. cc, λ u v f g. cc)
owner-Answers e h (some no_owner) is s = rw is (λ f. cc, λ f. inr s, λ u f. cc, λ u v f g. cc)
owner-Answers e h (some server_owner) is s = rw is (λ f. inl s, λ f. cc, λ u f. cc, λ u v f g. cc)
owner-Answers e h (some (client_owner w)) is s =
    rw is (λ f. inr s, λ f. cc, λ u f. s, λ u v f g. sym ((==_iff w u).0 f) ∙ (==_iff w v).0 g)

-- After any calls, for each entity: where it has a holder the status that is shared is granted or
-- denied, and where it has none it is available or there is none; where a user has the authority it
-- is denied to the server; and no two users have it.
pub Reached-Answers : (h : ServerAuthHandler) → Reached h → (e : ℕ) → Answers e h
Reached-Answers h reached e =
    owner-Answers e h (owner_at e h) refl (Tied-status e h (Reached-Tied h reached))
