-- ===== src/Server/GlobalWorldManager/Invariant.antt =====
-- What holds of the records of a GlobalWorldManager, and of its handler of the authority.
use naia.Base.Bools.{some-injective}
use naia.Base.{ℕ, ◌≡◌, sym, ap, ◌∙◌, ◌≢◌, some, ℕ_discrete}
use mathlib.Core.Path.{subst}
use naia.Base.Assoc.{
  lookup, insert_key, remove_key, lookup-insert_key_self, lookup-insert_key_ne,
  lookup-remove_key_self, lookup-remove_key_ne,
}
use naia.Server.AuthHandler.{AuthOwner, ServerAuthHandler}
use naia.Server.AuthHandler.Owners.{Tied, owner_at}
use naia.Server.EntityRecord.{
  EntityOwner, server_entity, local_entity, client_entity, client_waiting, client_public, Publicity,
  private, delegated, GlobalEntityRecord,
}
use naia.Server.GlobalWorldManager.{GlobalWorldManager, record_of, put}

-- The publicity that an entity may have under an owner.
abbrev pub Fits : EntityOwner → Publicity → Type 0
Fits server_entity p = Unit
Fits (client_entity u) p = p ≡ private
Fits (client_waiting u) p = p ≡ private
Fits (client_public u) p = p ≢ private
Fits local_entity p = ⊥

-- Every record fits its owner, the auth handler has an owner for each delegated entity, and it shares
-- the status of each owner.
pub record WellFormed (g : GlobalWorldManager) : Type 0 where
  pub fits :
      (e : ℕ) (r : GlobalEntityRecord)
      → record_of e g ≡ some r
      → Fits r.owner r.replication_config.publicity
  pub covered :
      (e : ℕ) (r : GlobalEntityRecord)
      → record_of e g ≡ some r
      → r.replication_config.publicity ≡ delegated
      → (owner : AuthOwner) × (owner_at e g.auth_handler ≡ some owner)
  pub tied : Tied g.auth_handler

kept :
    (e j : ℕ) (q : GlobalEntityRecord) (g : GlobalWorldManager)
    → lookup j (remove_key e g.entity_records) ≡ some q
    → record_of j g ≡ some q
kept e j q g at_j = elim (ℕ_discrete e j) [
  | yes same ↦
      let gone = lookup-remove_key_self e g.entity_records in
      let back = ap (λ i. lookup i (remove_key e g.entity_records)) same ∙ at_j in cc
  | no ne ↦ sym (lookup-remove_key_ne e j g.entity_records ne) ∙ at_j
]

-- A record that is put in must fit, and be covered if it is delegated.
pub put-WellFormed :
    (e : ℕ) (r : GlobalEntityRecord) (g : GlobalWorldManager)
    → WellFormed g
    → Fits r.owner r.replication_config.publicity
    → (r.replication_config.publicity ≡ delegated
        → (owner : AuthOwner) × (owner_at e g.auth_handler ≡ some owner))
    → WellFormed (put e r g)
put-WellFormed e r g w fit cover = record {
  fits = λ j q at_j. elim (ℕ_discrete e j) [
    | yes same ↦
        let is_r : some r ≡ some q =
          sym (lookup-insert_key_self e r g.entity_records)
          ∙ ap (λ i. lookup i (insert_key e r g.entity_records)) same
          ∙ at_j in
        subst (λ (x : GlobalEntityRecord). Fits x.owner x.replication_config.publicity)
          (some-injective is_r) fit
    | no ne ↦ w.fits j q (sym (lookup-insert_key_ne e j r g.entity_records ne) ∙ at_j)
  ];
  covered = λ j q at_j is_delegated. elim (ℕ_discrete e j) [
    | yes same ↦
        let is_r : some r ≡ some q =
          sym (lookup-insert_key_self e r g.entity_records)
          ∙ ap (λ i. lookup i (insert_key e r g.entity_records)) same
          ∙ at_j in
        let (owner, had) = cover (
          ap (λ (x : GlobalEntityRecord). x.replication_config.publicity) (some-injective is_r)
          ∙ is_delegated) in
        (owner, ap (λ i. owner_at i g.auth_handler) (sym same) ∙ had)
    | no ne ↦
        w.covered j q (sym (lookup-insert_key_ne e j r g.entity_records ne) ∙ at_j) is_delegated
  ];
  tied = w.tied;
}

-- A record may be changed in what the invariant is not about.
pub change-WellFormed :
    (e : ℕ) (r q : GlobalEntityRecord) (g : GlobalWorldManager)
    → WellFormed g
    → record_of e g ≡ some r
    → q.owner ≡ r.owner
    → q.replication_config.publicity ≡ r.replication_config.publicity
    → WellFormed (put e q g)
change-WellFormed e r q g w there same_owner same_publicity =
    put-WellFormed e q g w (rw (same_owner, same_publicity) (w.fits e r there))
      (λ is_delegated. w.covered e r there (sym same_publicity ∙ is_delegated))

pub remove-WellFormed :
    (e : ℕ) (g : GlobalWorldManager)
    → WellFormed g
    → WellFormed (record g { entity_records = remove_key e g.entity_records })
remove-WellFormed e g w = record {
  fits = λ j q at_j. w.fits j q (kept e j q g at_j);
  covered = λ j q at_j. w.covered j q (kept e j q g at_j);
  tied = w.tied;
}

-- Another handler must have an owner for each delegated entity.
pub handler-WellFormed :
    (g : GlobalWorldManager) (h : ServerAuthHandler)
    → WellFormed g
    → Tied h
    → ((e : ℕ) (r : GlobalEntityRecord)
        → record_of e g ≡ some r
        → r.replication_config.publicity ≡ delegated
        → (owner : AuthOwner) × (owner_at e h ≡ some owner))
    → WellFormed (record g { auth_handler = h })
handler-WellFormed g h w tied cover = record { fits = w.fits; covered = cover; tied = tied }
