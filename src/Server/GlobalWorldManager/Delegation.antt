-- ===== src/Server/GlobalWorldManager/Delegation.antt =====
-- Enabling and disabling the delegation of an entity keep a GlobalWorldManager well-formed.
use naia.Base.Bools.{some-injective}
use naia.Base.{
  ℕ, ◌≡◌, refl, sym, ap, ◌∙◌, ◌≢◌, inl, inr, true, Option, none, some, Bool-cases, ℕ_discrete,
  if◌then◌else◌,
}
use mathlib.Core.Path.{subst}
use naia.Base.Outcome.{ok, panic, ◌>>=◌, ok-injective, >>=-eq-ok}
use naia.Base.Assoc.{lookup, insert_key, lookup-insert_key_self}
use naia.Server.AuthHandler
use naia.Server.AuthHandler.{Reply, accepted, refused, AuthOwner, no_owner, ServerAuthHandler}
use naia.Server.AuthHandler.Owners.{Tied, owner_at}
use naia.Server.AuthHandler.Decides.{register, deregister, call, Decides, undelegated, registers}
use naia.Server.AuthHandler.Calls.{call-Follows}
use naia.Server.AuthHandler.Holders.{registered-fresh}
use naia.Server.EntityRecord.{
  EntityOwner, server_entity, local_entity, client_entity, client_waiting, client_public, Publicity,
  private, public, delegated, is_delegated, is_public_config, GlobalEntityRecord,
}
use naia.Server.GlobalWorldManager.{GlobalWorldManager, record_of, put, with_publicity}
use naia.Server.GlobalWorldManager.Invariant.{Fits, WellFormed, put-WellFormed, handler-WellFormed}

public-Fits : (owner : EntityOwner) → Fits owner public → Fits owner delegated
public-Fits server_entity f = tt
public-Fits (client_entity u) f = cc
public-Fits (client_waiting u) f = cc
public-Fits (client_public u) f = λ p. cc
public-Fits local_entity f = f

delegated-Fits : (owner : EntityOwner) → Fits owner delegated → Fits owner public
delegated-Fits server_entity f = tt
delegated-Fits (client_entity u) f = cc
delegated-Fits (client_waiting u) f = cc
delegated-Fits (client_public u) f = λ p. cc
delegated-Fits local_entity f = f

registers-owner :
    {before after : Option AuthOwner} {reply : Reply (Option AuthOwner)}
    → Decides register before reply after
    → after ≡ some no_owner
registers-owner (undelegated c is) = cc
registers-owner registers = refl

is_public_config-eq : (p : Publicity) → is_public_config p ≡ true → p ≡ public
is_public_config-eq private h = cc
is_public_config-eq public h = refl
is_public_config-eq delegated h = cc

is_delegated-eq : (p : Publicity) → is_delegated p ≡ true → p ≡ delegated
is_delegated-eq private h = cc
is_delegated-eq public h = cc
is_delegated-eq delegated h = refl

-- A handler in which an entity is registered.
record Registered (e : ℕ) (h h' : ServerAuthHandler) : Type 0 where
  tied : Tied h'
  owned : owner_at e h' ≡ some no_owner
  alone : (j : ℕ) → e ≢ j → owner_at j h' ≡ owner_at j h

register_entity-Registered :
    (e : ℕ) (h h' : ServerAuthHandler)
    → Tied h
    → AuthHandler.register_entity e h ≡ ok h'
    → Registered e h h'
unfolding call
register_entity-Registered e h h' tied is =
    let returned : call e register h ≡ ok (accepted none, h') = rw is in
    let f =
      call-Follows e register h tied (registered-fresh e h (accepted none) h' tied returned) in
    let same : f.after ≡ h' =
      ap (λ (p : Reply (Option AuthOwner) × ServerAuthHandler). p.1)
        (ok-injective (sym f.returned ∙ returned)) in
    subst (Registered e h) same
      (record { tied = f.tied; owned = registers-owner f.decided; alone = f.alone })

pub enable-WellFormed :
    (e : ℕ) (r : GlobalEntityRecord) (g g' : GlobalWorldManager)
    → WellFormed g
    → record_of e g ≡ some r
    → (if is_public_config r.replication_config.publicity
        then (AuthHandler.register_entity e g.auth_handler >>= λ handler.
            ok (record (put e (with_publicity delegated r) g) { auth_handler = handler }))
        else panic)
      ≡ ok g'
    → WellFormed g'
enable-WellFormed e r g g' w there h =
    elim (Bool-cases (is_public_config r.replication_config.publicity)) [
      | inr other ↦ let f = rw other at h in cc
      | inl is_public ↦
          let (handler, registered, is) =
            >>=-eq-ok (AuthHandler.register_entity e g.auth_handler) _ (rw is_public at h) in
          let n = register_entity-Registered e g.auth_handler handler w.tied registered in
          let w1 = handler-WellFormed g handler w n.tied (λ j q at_j d. elim (ℕ_discrete e j) [
            | yes same ↦ (no_owner, ap (λ i. owner_at i handler) (sym same) ∙ n.owned)
            | no ne ↦ let (owner, had) = w.covered j q at_j d in (owner, n.alone j ne ∙ had)
          ]) in
          let fit = public-Fits r.owner (
            subst (Fits r.owner) (is_public_config-eq r.replication_config.publicity is_public)
              (w.fits e r there)) in
          subst WellFormed (ok-injective is) (
            put-WellFormed e (with_publicity delegated r) (record g { auth_handler = handler }) w1
              fit (λ d. (no_owner, n.owned)))
    ]

pub disable-WellFormed :
    (e : ℕ) (r : GlobalEntityRecord) (g g' : GlobalWorldManager)
    → WellFormed g
    → record_of e g ≡ some r
    → (if is_delegated r.replication_config.publicity
        then ok (record (put e (with_publicity public r) g) {
          auth_handler = AuthHandler.deregister_entity e g.auth_handler;
        })
        else panic)
      ≡ ok g'
    → WellFormed g'
unfolding call
disable-WellFormed e r g g' w there h =
    elim (Bool-cases (is_delegated r.replication_config.publicity)) [
      | inr other ↦ let f = rw other at h in cc
      | inl d ↦
          let q = with_publicity public r in
          let w1 =
            put-WellFormed e q g w
              (delegated-Fits r.owner (
                subst (Fits r.owner) (is_delegated-eq r.replication_config.publicity d)
                  (w.fits e r there)))
              (λ x. cc) in
          let f = call-Follows e deregister g.auth_handler w.tied tt in
          let same : f.after ≡ AuthHandler.deregister_entity e g.auth_handler =
            ap (λ (p : Reply (Option AuthOwner) × ServerAuthHandler). p.1)
              (ok-injective (sym f.returned)) in
          let w2 = handler-WellFormed (put e q g) f.after w1 f.tied (λ j s at_j ds.
            elim (ℕ_discrete e j) [
              | yes eq ↦
                  let is_q : some q ≡ some s =
                    sym (lookup-insert_key_self e q g.entity_records)
                    ∙ ap (λ i. lookup i (insert_key e q g.entity_records)) eq
                    ∙ at_j in
                  let f : public ≡ delegated =
                    ap (λ (x : GlobalEntityRecord). x.replication_config.publicity)
                      (some-injective is_q)
                    ∙ ds in
                  cc
              | no ne ↦ let (owner, had) = w1.covered j s at_j ds in (owner, f.alone j ne ∙ had)
            ]) in
          subst WellFormed (ok-injective (rw d at h))
            (subst (λ x. WellFormed (record (put e q g) { auth_handler = x })) same w2)
    ]
