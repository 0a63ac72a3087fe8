-- ===== src/Server/GlobalWorldManager/Claims.antt =====
-- The calls of a GlobalWorldManager about the authority over an entity follow the rules of the handler.
use naia.Base.{
  ℕ, ◌≡◌, refl, sym, ap, ◌∙◌, ◌≢◌, inl, inr, true, false, Option, none, some, if◌then◌else◌,
  Bool-cases, ℕ_discrete,
}
use naia.Base.Outcome.{Outcome, ok, err, panic, ◌>>=◌}
use naia.Server.AuthHandler
use naia.Server.AuthHandler.{
  Reply, accepted, refused, not_delegated, AuthOwner, ServerAuthHandler, no_owner, client_owner,
  server_owner,
}
use naia.Server.AuthHandler.Owners.{owner_at}
use naia.Server.AuthHandler.Decides.{
  AuthCall, request, release, give, take, register, deregister, call, done, previous, is_claim,
  Decides, undelegated, May, Follows, requests, too_late, releases, clears, keeps, gives, takes,
  deregisters, requests, too_late, releases, clears, keeps, gives, takes, registers, deregisters,
}
use naia.Server.AuthHandler.Calls.{call-Follows}
use naia.Server.GlobalWorldManager.{
  GlobalWorldManager, entity_is_delegated, client_request_authority, client_release_authority,
  server_give_authority_to_client, server_take_authority,
}
use naia.Server.GlobalWorldManager.Invariant.{WellFormed, handler-WellFormed}

-- A call about a delegated entity, with its reply; the others are not calls of this kind.
unfoldable pub claim :
    ℕ → AuthCall → GlobalWorldManager → Outcome (Reply (Option AuthOwner) × GlobalWorldManager)
claim e (request owner) g = client_request_authority e owner g >>= done
claim e (release owner) g = client_release_authority e owner g >>= done
claim e (give user) g = server_give_authority_to_client e user g >>= previous
claim e take g = server_take_authority e g >>= previous
claim e register g = panic
claim e deregister g = panic

-- The owner of the authority over an entity, if it is delegated.
abbrev pub delegated_owner : ℕ → GlobalWorldManager → Option AuthOwner
delegated_owner e g = if entity_is_delegated e g then owner_at e g.auth_handler else none

abbrev pub with_handler :
    GlobalWorldManager
    → Reply (Option AuthOwner) × ServerAuthHandler
    → Outcome (Reply (Option AuthOwner) × GlobalWorldManager)
with_handler g p = ok (p.0, record g { auth_handler = p.1 })

done-with_handler :
    (m : Outcome (Reply (Unit {0}) × ServerAuthHandler)) (g : GlobalWorldManager)
    → ((m >>= λ p. ok (p.0, record g { auth_handler = p.1 })) >>= done)
      ≡ ((m >>= done) >>= with_handler g)
done-with_handler (ok (accepted x, h)) g = refl
done-with_handler (ok (refused x, h)) g = refl
done-with_handler err g = refl
done-with_handler panic g = refl

previous-with_handler :
    (m : Outcome (Reply AuthOwner × ServerAuthHandler)) (g : GlobalWorldManager)
    → ((m >>= λ p. ok (p.0, record g { auth_handler = p.1 })) >>= previous)
      ≡ ((m >>= previous) >>= with_handler g)
previous-with_handler (ok (accepted x, h)) g = refl
previous-with_handler (ok (refused x, h)) g = refl
previous-with_handler err g = refl
previous-with_handler panic g = refl

claim-delegated :
    (e : ℕ) (c : AuthCall) (g : GlobalWorldManager)
    → is_claim c ≡ true
    → entity_is_delegated e g ≡ true
    → claim e c g ≡ (call e c g.auth_handler >>= with_handler g)
unfolding claim call client_request_authority client_release_authority
    server_give_authority_to_client server_take_authority
claim-delegated e (request owner) g is d =
    rw d (done-with_handler (AuthHandler.client_request_authority e owner g.auth_handler) g)
claim-delegated e (release owner) g is d =
    rw d (done-with_handler (AuthHandler.client_release_authority e owner g.auth_handler) g)
claim-delegated e (give user) g is d =
    rw d
      (previous-with_handler (AuthHandler.server_give_authority_to_client e user g.auth_handler) g)
claim-delegated e take g is d =
    rw d (previous-with_handler (AuthHandler.server_take_authority e g.auth_handler) g)
claim-delegated e register g is d = cc
claim-delegated e deregister g is d = cc

claim-undelegated :
    (e : ℕ) (c : AuthCall) (g : GlobalWorldManager)
    → is_claim c ≡ true
    → entity_is_delegated e g ≡ false
    → claim e c g ≡ ok (refused not_delegated, g)
unfolding claim client_request_authority client_release_authority server_give_authority_to_client
    server_take_authority
claim-undelegated e (request owner) g is d = rw d
claim-undelegated e (release owner) g is d = rw d
claim-undelegated e (give user) g is d = rw d
claim-undelegated e take g is d = rw d
claim-undelegated e register g is d = cc
claim-undelegated e deregister g is d = cc

pub claim-May : (e : ℕ) (c : AuthCall) (h : ServerAuthHandler) → is_claim c ≡ true → May e c h
claim-May e (request owner) h is = tt
claim-May e (release owner) h is = tt
claim-May e (give user) h is = tt
claim-May e take h is = tt
claim-May e register h is = cc
claim-May e deregister h is = tt

-- An entity keeps an owner through a claim.
kept-owner :
    {c : AuthCall} {before after : Option AuthOwner} {reply : Reply (Option AuthOwner)}
    {holder : AuthOwner}
    → is_claim c ≡ true
    → Decides c before reply after
    → before ≡ some holder
    → (owner : AuthOwner) × (after ≡ some owner)
kept-owner is (undelegated c e) had = cc
kept-owner is (requests owner) had = (owner, refl)
kept-owner is (too_late owner holder e) had = (holder, refl)
kept-owner is (releases holder) had = (no_owner, refl)
kept-owner is (clears holder) had = (no_owner, refl)
kept-owner is (keeps owner holder a b) had = (holder, refl)
kept-owner is (gives user holder) had = (client_owner user, refl)
kept-owner is (takes holder) had = (server_owner, refl)
kept-owner is registers had = cc
kept-owner is (deregisters owner) had = cc

pub record ClaimFollows (e : ℕ) (c : AuthCall) (g : GlobalWorldManager) : Type 0 where
  pub reply : Reply (Option AuthOwner)
  pub after : GlobalWorldManager
  pub returned : claim e c g ≡ ok (reply, after)
  pub well_formed : WellFormed after
  pub decided : Decides c (delegated_owner e g) reply (delegated_owner e after)
  pub alone : (j : ℕ) → e ≢ j → delegated_owner j after ≡ delegated_owner j g
  pub same_records : after.entity_records ≡ g.entity_records

after-WellFormed :
    (e : ℕ) (c : AuthCall) (g : GlobalWorldManager)
    → is_claim c ≡ true
    → WellFormed g
    → (f : Follows e c g.auth_handler) → WellFormed (record g { auth_handler = f.after })
after-WellFormed e c g is w f = handler-WellFormed g f.after w f.tied (λ j r there d.
    let (owner, had) = w.covered j r there d in
    elim (ℕ_discrete e j) [
      | yes same ↦
          let (new, has) =
            kept-owner is f.decided (ap (λ i. owner_at i g.auth_handler) same ∙ had) in
          (new, ap (λ i. owner_at i f.after) (sym same) ∙ has)
      | no ne ↦ (owner, f.alone j ne ∙ had)
    ])

-- In a well-formed GlobalWorldManager every call about the authority over an entity returns, and the
-- reply and the owner of the authority afterwards are those that the rules give, where an entity that
-- is not delegated counts as without an owner. The owners of the other entities and the records stay,
-- and it is well-formed again.
pub claim-Follows :
    (e : ℕ) (c : AuthCall) (g : GlobalWorldManager)
    → is_claim c ≡ true
    → WellFormed g
    → ClaimFollows e c g
unfolding entity_is_delegated
claim-Follows e c g is w = elim (Bool-cases (entity_is_delegated e g)) [
  | inr undelegated_entity ↦ record {
    reply = refused not_delegated;
    after = g;
    returned = claim-undelegated e c g is undelegated_entity;
    well_formed = w;
    decided = rw undelegated_entity (undelegated c is);
    alone = λ j ne. refl;
    same_records = refl;
  }
  | inl d ↦
      let f = call-Follows e c g.auth_handler w.tied (claim-May e c g.auth_handler is) in
      record {
        reply = f.reply;
        after = record g { auth_handler = f.after };
        returned = claim-delegated e c g is d ∙ rw f.returned;
        well_formed = after-WellFormed e c g is w f;
        decided = rw d f.decided;
        alone = λ j ne. ap (λ x. if entity_is_delegated j g then x else none) (f.alone j ne);
        same_records = refl;
      }
]
