-- ===== src/Server/GlobalWorldManager/Records.antt =====
-- The operations on a record of a GlobalWorldManager keep it well-formed.
use naia.Base.Bools.{let_some}
use naia.Base.{
  ℕ, ◌≡◌, refl, ◌≢◌, inl, inr, Option, none, some, Bool-cases, Option-cases, if◌then◌else◌,
}
use mathlib.Core.Path.{subst}
use naia.Base.Outcome.{Outcome, ok, panic, ◌>>=◌, ok-injective, >>=-eq-ok}
use naia.Server.EntityRecord.{
  EntityOwner, server_entity, local_entity, client_entity, client_waiting, client_public, is_client,
  private, public, delegated, GlobalEntityRecord, new_record, new_static,
}
use naia.Server.GlobalWorldManager.{
  GlobalWorldManager, record_of, put, publish_record, put_published, unpublish_record,
  with_publicity,
}
use naia.Server.GlobalWorldManager.Invariant.{Fits, WellFormed, put-WellFormed, change-WellFormed}

-- Where the record must be there, it is.
pub record-there :
    {A : Type 0} (o : Option GlobalEntityRecord) (next : GlobalEntityRecord → Outcome A) (a : A)
    → let_some o panic next ≡ ok a
    → (r : GlobalEntityRecord) × (o ≡ some r) × (next r ≡ ok a)
record-there none next a e = cc
record-there (some r) next a e = (r, refl, e)

record-missing :
    {A : Type 0} (o : Option GlobalEntityRecord) (m : Outcome A) (a : A)
    → let_some o m (λ r. panic) ≡ ok a
    → m ≡ ok a
record-missing none m a e = e
record-missing (some r) m a e = cc

-- A new record fits its owner and is not delegated.
abbrev pub Starts : GlobalEntityRecord → Type 0
Starts r =
    Fits r.owner r.replication_config.publicity × (r.replication_config.publicity ≢ delegated)

pub new_record-Starts :
    (owner : EntityOwner) (r : GlobalEntityRecord) → new_record owner ≡ ok r → Starts r
unfolding new_record
new_record-Starts server_entity r e = subst Starts (ok-injective e) (tt, λ d. cc)
new_record-Starts (client_entity u) r e = subst Starts (ok-injective e) (refl, λ d. cc)
new_record-Starts (client_waiting u) r e = subst Starts (ok-injective e) (refl, λ d. cc)
new_record-Starts (client_public u) r e = cc
new_record-Starts local_entity r e = cc

pub new_static-Starts :
    (owner : EntityOwner) (r : GlobalEntityRecord) → new_static owner ≡ ok r → Starts r
unfolding new_static
new_static-Starts owner r e =
    let (q, made, is) = >>=-eq-ok (new_record owner) _ e in
    subst Starts (ok-injective is) (new_record-Starts owner q made)

pub insert-WellFormed :
    (e : ℕ) (made : Outcome GlobalEntityRecord) (g g' : GlobalWorldManager)
    → ((r : GlobalEntityRecord) → made ≡ ok r → Starts r)
    → WellFormed g
    → let_some (record_of e g) (made >>= λ r. ok (put e r g)) (λ r. panic) ≡ ok g'
    → WellFormed g'
insert-WellFormed e made g g' starts w h =
    let (r, is, put_in) = >>=-eq-ok made _ (record-missing (record_of e g) _ g' h) in
    let (fit, not_delegated) = starts r is in
    subst WellFormed (ok-injective put_in)
      (put-WellFormed e r g w fit (λ d. absurd (not_delegated d)))

-- A change of what the invariant is not about.
pub changed-WellFormed :
    (e : ℕ) (change : GlobalEntityRecord → GlobalEntityRecord) (g g' : GlobalWorldManager)
    → ((r : GlobalEntityRecord) → (change r).owner ≡ r.owner)
    → ((r : GlobalEntityRecord)
        → (change r).replication_config.publicity ≡ r.replication_config.publicity)
    → WellFormed g
    → let_some (record_of e g) panic (λ r. ok (put e (change r) g)) ≡ ok g'
    → WellFormed g'
changed-WellFormed e change g g' same_owner same_publicity w h =
    let (r, there, is) = record-there (record_of e g) _ g' h in
    subst WellFormed (ok-injective is)
      (change-WellFormed e r (change r) g w there (same_owner r) (same_publicity r))

pub maybe-WellFormed :
    (e : ℕ) (change : GlobalEntityRecord → GlobalEntityRecord) (g : GlobalWorldManager)
    → ((r : GlobalEntityRecord) → (change r).owner ≡ r.owner)
    → ((r : GlobalEntityRecord)
        → (change r).replication_config.publicity ≡ r.replication_config.publicity)
    → WellFormed g
    → WellFormed (let_some (record_of e g) g (λ r. put e (change r) g))
maybe-WellFormed e change g same_owner same_publicity w = elim (Option-cases (record_of e g)) [
  | inl missing ↦ rw missing w
  | inr (r, there) ↦
      rw there (change-WellFormed e r (change r) g w there (same_owner r) (same_publicity r))
]

pub publish-WellFormed :
    (e : ℕ) (r : GlobalEntityRecord) (owner : EntityOwner) (g g' : GlobalWorldManager)
    → r.owner ≡ owner
    → WellFormed g
    → record_of e g ≡ some r
    → ((publish_record r owner >>= put_published e g) >>= λ p. ok p.1) ≡ ok g'
    → WellFormed g'
publish-WellFormed e r server_entity g g' is w there h =
    subst WellFormed (ok-injective h) (change-WellFormed e r r g w there refl refl)
publish-WellFormed e r local_entity g g' is w there h = cc
publish-WellFormed e r (client_waiting u) g g' is w there h = cc
publish-WellFormed e r (client_entity u) g g' is w there h = subst WellFormed (ok-injective h) (
    put-WellFormed e (with_publicity public (record r { owner = client_public u })) g w (λ p. cc)
      (λ d. cc))
publish-WellFormed e r (client_public u) g g' is w there h = subst WellFormed (ok-injective h) (
    put-WellFormed e (with_publicity public (record r { owner = client_public u })) g w (λ p. cc)
      (λ d. cc))

pub unpublish-WellFormed :
    (e : ℕ) (r : GlobalEntityRecord) (owner : EntityOwner) (g g' : GlobalWorldManager)
    → WellFormed g
    → (unpublish_record r owner >>= λ q. ok (put e q g)) ≡ ok g'
    → WellFormed g'
unpublish-WellFormed e r (client_public u) g g' w h = subst WellFormed (ok-injective h) (
    put-WellFormed e (with_publicity private (record r { owner = client_entity u })) g w refl
      (λ d. cc))
unpublish-WellFormed e r server_entity g g' w h = cc
unpublish-WellFormed e r local_entity g g' w h = cc
unpublish-WellFormed e r (client_entity u) g g' w h = cc
unpublish-WellFormed e r (client_waiting u) g g' w h = cc

pub migrate-WellFormed :
    (e : ℕ) (r : GlobalEntityRecord) (g g' : GlobalWorldManager)
    → WellFormed g
    → record_of e g ≡ some r
    → (if is_client r.owner then ok (put e (record r { owner = server_entity }) g) else panic)
      ≡ ok g'
    → WellFormed g'
migrate-WellFormed e r g g' w there h = elim (Bool-cases (is_client r.owner)) [
  | inr other ↦ let f = rw other at h in cc
  | inl of_client ↦
      subst WellFormed (ok-injective (rw of_client at h))
        (put-WellFormed e (record r { owner = server_entity }) g w tt (w.covered e r there))
]
