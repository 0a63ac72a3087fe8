-- ===== src/Server/GlobalWorldManager/Operations.antt =====
-- Every operation of a GlobalWorldManager keeps it well-formed.
use naia.Base.{ℕ, ◌≡◌, refl, inl, inr, Bool, true, Bool-cases, Option-cases}
use mathlib.Core.Path.{subst}
use naia.Base.Outcome.{Outcome, ok, ◌>>=◌, ok-injective}
use naia.Base.Assoc.{contains, insert_member, remove_member}
use naia.Server.AuthHandler.Decides.{AuthCall, is_claim}
use naia.Server.EntityRecord.{EntityOwner, ScopeExit, new_record, new_static}
use naia.Server.GlobalWorldManager.{
  GlobalWorldManager, record_of, insert_entity_record, insert_static_entity_record,
  mark_entity_as_static, remove_entity_record, insert_component_record, remove_component_record,
  entity_publish, entity_unpublish, entity_set_scope_exit, entity_enable_delegation,
  migrate_entity_to_server, entity_disable_delegation, set_replicating,
}
use naia.Server.GlobalWorldManager.Invariant.{WellFormed, change-WellFormed, remove-WellFormed}
use naia.Server.GlobalWorldManager.Claims.{claim, claim-Follows}
use naia.Server.GlobalWorldManager.Records.{
  record-there, new_record-Starts, new_static-Starts, insert-WellFormed, changed-WellFormed,
  maybe-WellFormed, publish-WellFormed, unpublish-WellFormed, migrate-WellFormed,
}
use naia.Server.GlobalWorldManager.Delegation.{enable-WellFormed, disable-WellFormed}

-- The operations that change a GlobalWorldManager.
pub data WorldCall : Type 0 where
  inserts_record inserts_static : EntityOwner → WorldCall
  marks_static removes_record publishes unpublishes enables migrates disables : WorldCall
  inserts_component removes_component : ℕ → WorldCall
  sets_scope_exit : ScopeExit → WorldCall
  sets_replicating : Bool → WorldCall
  claims : (c : AuthCall) → is_claim c ≡ true → WorldCall

unfoldable pub world_call : ℕ → WorldCall → GlobalWorldManager → Outcome GlobalWorldManager
world_call e (inserts_record owner) g = insert_entity_record e owner g
world_call e (inserts_static owner) g = insert_static_entity_record e owner g
world_call e marks_static g = mark_entity_as_static e g
world_call e removes_record g = remove_entity_record e g
world_call e publishes g = entity_publish e g >>= λ p. ok p.1
world_call e unpublishes g = entity_unpublish e g
world_call e enables g = entity_enable_delegation e g
world_call e migrates g = migrate_entity_to_server e g
world_call e disables g = entity_disable_delegation e g
world_call e (inserts_component kind) g = insert_component_record e kind g
world_call e (removes_component kind) g = remove_component_record e kind g
world_call e (sets_scope_exit exit) g = ok (entity_set_scope_exit e exit g)
world_call e (sets_replicating b) g = ok (set_replicating b e g)
world_call e (claims c is) g = claim e c g >>= λ p. ok p.1

-- Every operation that returns keeps a GlobalWorldManager well-formed: an entity of a client that is
-- not public is private, one that is public is not, no entity is local, each entity that is delegated
-- has an owner of its authority or is free, and the status that is shared for it is that of the owner.
pub world_call-WellFormed :
    (e : ℕ) (c : WorldCall) (g g' : GlobalWorldManager)
    → WellFormed g
    → world_call e c g ≡ ok g'
    → WellFormed g'
unfolding world_call insert_entity_record insert_static_entity_record mark_entity_as_static
    remove_entity_record insert_component_record remove_component_record entity_publish
    entity_unpublish entity_set_scope_exit entity_enable_delegation migrate_entity_to_server
    entity_disable_delegation set_replicating
world_call-WellFormed e (inserts_record owner) g g' w h =
    insert-WellFormed e (new_record owner) g g' (new_record-Starts owner) w h
world_call-WellFormed e (inserts_static owner) g g' w h =
    insert-WellFormed e (new_static owner) g g' (new_static-Starts owner) w h
world_call-WellFormed e marks_static g g' w h =
    changed-WellFormed e (λ r. record r { is_static = true }) g g' (λ r. refl) (λ r. refl) w h
world_call-WellFormed e removes_record g g' w h =
    let (r, there, is) = record-there (record_of e g) _ g' h in
    subst WellFormed (ok-injective is) (remove-WellFormed e g w)
world_call-WellFormed e publishes g g' w h = elim (Option-cases (record_of e g)) [
  | inl missing ↦ let f = rw missing at h in cc
  | inr (r, there) ↦ publish-WellFormed e r r.owner g g' refl w there (rw there at h)
]
world_call-WellFormed e unpublishes g g' w h =
    let (r, there, is) = record-there (record_of e g) _ g' h in
    unpublish-WellFormed e r r.owner g g' w is
world_call-WellFormed e enables g g' w h =
    let (r, there, is) = record-there (record_of e g) _ g' h in
    enable-WellFormed e r g g' w there is
world_call-WellFormed e migrates g g' w h =
    let (r, there, is) = record-there (record_of e g) _ g' h in
    migrate-WellFormed e r g g' w there is
world_call-WellFormed e disables g g' w h =
    let (r, there, is) = record-there (record_of e g) _ g' h in
    disable-WellFormed e r g g' w there is
world_call-WellFormed e (inserts_component kind) g g' w h =
    changed-WellFormed e (λ r. record r { component_kinds = insert_member kind r.component_kinds })
      g g' (λ r. refl) (λ r. refl) w h
world_call-WellFormed e (removes_component kind) g g' w h =
    let (r, there, is) = record-there (record_of e g) _ g' h in
    elim (Bool-cases (contains kind r.component_kinds)) [
      | inr missing ↦ let f = rw missing at is in cc
      | inl has ↦ subst WellFormed (ok-injective (rw has at is)) (
          change-WellFormed e r
            (record r { component_kinds = remove_member kind r.component_kinds }) g w there refl
            refl)
    ]
world_call-WellFormed e (sets_scope_exit exit) g g' w h = subst WellFormed (ok-injective h) (
    maybe-WellFormed e
      (λ r. record r { replication_config = record r.replication_config { scope_exit = exit } }) g
      (λ r. refl) (λ r. refl) w)
world_call-WellFormed e (sets_replicating b) g g' w h =
    subst WellFormed (ok-injective h)
      (maybe-WellFormed e (λ r. record r { is_replicating = b }) g (λ r. refl) (λ r. refl) w)
world_call-WellFormed e (claims c is) g g' w h =
    let f = claim-Follows e c g is w in
    subst WellFormed (ok-injective (rw f.returned at h)) f.well_formed
