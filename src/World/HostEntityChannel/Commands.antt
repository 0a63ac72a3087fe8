-- ===== src/World/HostEntityChannel/Commands.antt =====
-- The commands that a HostEntityChannel lets through insert and remove each component in turn.
use naia.Base.{
  ℕ, ◌≡◌, refl, sym, ap, ◌∙◌, inl, inr, Bool, true, false, not, ◌&&◌, ◌||◌, List, [], ◌∷◌, ◌++◌,
  arith, ◌==◌, Bool-cases,
}
use naia.Base.Assoc.{contains, contains-remove_member}
use naia.Base.Outcome.{ok, >>=-eq-ok, ok-injective}
use naia.World.EntityCommand.{
  EntityCommand, spawn, spawn_with_components, despawn, insert_component, remove_component, publish,
  unpublish, enable_delegation, disable_delegation, set_authority, request_authority,
  release_authority, enable_delegation_response, migrate_response, set_subcommand_id,
}
use naia.World.AuthChannel.{
  AuthChannel, AuthChannelSender, validate_command, change_status, send_command,
  sender_send_command, sender_drain_messages_into, drain_messages_into,
}
use naia.World.HostEntityChannel.{HostEntityChannel, send_authority, send_host_command}
use mathlib.Core.Path.{subst}

-- The commands about a component kind insert it and remove it in turn, from whether it is there
-- before to whether it is there after.
abbrev pub Alternates : ℕ → Bool → List EntityCommand → Bool → Type 0
Alternates kind b [] b' = b ≡ b'
Alternates kind b (insert_component e k ∷ cs) b' =
    (k ≡ kind → b ≡ false) × Alternates kind (k == kind || b) cs b'
Alternates kind b (remove_component e k ∷ cs) b' =
    (k ≡ kind → b ≡ true) × Alternates kind (not (k == kind) && b) cs b'
Alternates kind b (c ∷ cs) b' = Alternates kind b cs b'

validate_command-sender :
    (command : EntityCommand) (c c' : AuthChannel)
    → validate_command command c ≡ ok c'
    → c'.sender ≡ c.sender
unfolding validate_command change_status
validate_command-sender (publish id e) c c' h = ground arith
validate_command-sender _ c c' h = ground arith

-- A command with a subcommand id is about no component.
numbered-Alternates :
    (kind n : ℕ) (b : Bool) (command command' : EntityCommand)
    → set_subcommand_id n command ≡ ok command'
    → Alternates kind b (command' ∷ []) b
unfolding set_subcommand_id
numbered-Alternates kind n b (publish id e) x h =
    subst (λ (y : EntityCommand). Alternates kind b (y ∷ []) b) (ok-injective h) refl
numbered-Alternates kind n b (unpublish id e) x h =
    subst (λ (y : EntityCommand). Alternates kind b (y ∷ []) b) (ok-injective h) refl
numbered-Alternates kind n b (enable_delegation id e) x h =
    subst (λ (y : EntityCommand). Alternates kind b (y ∷ []) b) (ok-injective h) refl
numbered-Alternates kind n b (disable_delegation id e) x h =
    subst (λ (y : EntityCommand). Alternates kind b (y ∷ []) b) (ok-injective h) refl
numbered-Alternates kind n b (set_authority id e s) x h =
    subst (λ (y : EntityCommand). Alternates kind b (y ∷ []) b) (ok-injective h) refl
numbered-Alternates kind n b (request_authority id e) x h =
    subst (λ (y : EntityCommand). Alternates kind b (y ∷ []) b) (ok-injective h) refl
numbered-Alternates kind n b (release_authority id e) x h =
    subst (λ (y : EntityCommand). Alternates kind b (y ∷ []) b) (ok-injective h) refl
numbered-Alternates kind n b (enable_delegation_response id e) x h =
    subst (λ (y : EntityCommand). Alternates kind b (y ∷ []) b) (ok-injective h) refl
numbered-Alternates kind n b (migrate_response id e r o) x h =
    subst (λ (y : EntityCommand). Alternates kind b (y ∷ []) b) (ok-injective h) refl
numbered-Alternates kind n b _ x h = cc

-- The commands that are new, for a kind; nothing stays with the sender of the auth channel.
abbrev pub SendsInTurn : ℕ → HostEntityChannel → HostEntityChannel → Type 0
SendsInTurn kind c c' =
    (cs : List EntityCommand) × (c'.outgoing_commands ≡ c.outgoing_commands ++ cs)
    × Alternates kind (contains kind c.component_channels) cs (contains kind c'.component_channels)
    × (c'.auth_channel.sender.outgoing_commands ≡ [])

authority-SendsInTurn :
    (kind : ℕ) (command : EntityCommand) (c c' : HostEntityChannel)
    → c.auth_channel.sender.outgoing_commands ≡ []
    → send_authority command c ≡ ok c'
    → SendsInTurn kind c c'
unfolding send_authority send_command sender_send_command sender_drain_messages_into
    drain_messages_into
authority-SendsInTurn kind command c c' empty e =
    let (v, e1, r1) = >>=-eq-ok (validate_command command c.auth_channel) _ e in
    let (sent, e2, r2) = >>=-eq-ok (send_command command v) _ r1 in
    let (sender, e3, r3) = >>=-eq-ok (sender_send_command command v.sender) _ e2 in
    let (command', e4, r4) =
      >>=-eq-ok (set_subcommand_id v.sender.next_subcommand_id command) _ e3 in
    let is_sender = ok-injective r4 in
    let is_sent = ok-injective r3 in
    let grown : sent.sender.outgoing_commands ≡ command' ∷ [] =
      ap (λ (a : AuthChannel). a.sender.outgoing_commands) (sym is_sent)
      ∙ ap (λ (t : AuthChannelSender). t.outgoing_commands) (sym is_sender)
      ∙ ap (λ (t : AuthChannelSender). t.outgoing_commands ++ (command' ∷ []))
          (validate_command-sender command c.auth_channel v e1)
      ∙ ap (λ (l : List EntityCommand). l ++ (command' ∷ [])) empty in
    subst (SendsInTurn kind c) (ok-injective r2) (
      command' ∷ [],
      ap (λ (l : List EntityCommand). c.outgoing_commands ++ l) grown,
      numbered-Alternates kind v.sender.next_subcommand_id (contains kind c.component_channels)
          command command' e4,
      refl,
    )

-- A command that is let through, with nothing left with the sender of the auth channel: the commands
-- that are sent insert and remove each component kind in turn, from whether the channel has it before
-- to whether it has it after, and nothing is left with the sender again.
pub send_host_command-SendsInTurn :
    (kind : ℕ) (command : EntityCommand) (c c' : HostEntityChannel)
    → c.auth_channel.sender.outgoing_commands ≡ []
    → send_host_command command c ≡ ok c'
    → SendsInTurn kind c c'
unfolding send_host_command
send_host_command-SendsInTurn kind (spawn e) c c' empty h = cc
send_host_command-SendsInTurn kind (spawn_with_components e kinds) c c' empty h = cc
send_host_command-SendsInTurn kind (despawn e) c c' empty h = cc
send_host_command-SendsInTurn kind (insert_component e k) c c' empty h =
    elim (Bool-cases (contains k c.component_channels)) [
      | inl there ↦ let f = rw there at h in cc
      | inr missing ↦ subst (SendsInTurn kind c) (ok-injective (rw missing at h)) (
        insert_component e k ∷ [],
        refl,
        (
          λ same. ap (λ (j : ℕ). contains j c.component_channels) (sym same) ∙ missing,
          unfold contains in refl,
        ),
        empty,
      )
    ]
send_host_command-SendsInTurn kind (remove_component e k) c c' empty h =
    elim (Bool-cases (contains k c.component_channels)) [
      | inr missing ↦ let f = rw missing at h in cc
      | inl there ↦ subst (SendsInTurn kind c) (ok-injective (rw there at h)) (
        remove_component e k ∷ [],
        refl,
        (
          λ same. ap (λ (j : ℕ). contains j c.component_channels) (sym same) ∙ there,
          sym (contains-remove_member k kind c.component_channels),
        ),
        empty,
      )
    ]
send_host_command-SendsInTurn kind (publish id e) c c' empty h =
    authority-SendsInTurn kind (publish id e) c c' empty h
send_host_command-SendsInTurn kind (unpublish id e) c c' empty h =
    authority-SendsInTurn kind (unpublish id e) c c' empty h
send_host_command-SendsInTurn kind (enable_delegation id e) c c' empty h =
    authority-SendsInTurn kind (enable_delegation id e) c c' empty h
send_host_command-SendsInTurn kind (disable_delegation id e) c c' empty h =
    authority-SendsInTurn kind (disable_delegation id e) c c' empty h
send_host_command-SendsInTurn kind (set_authority id e t) c c' empty h =
    authority-SendsInTurn kind (set_authority id e t) c c' empty h
send_host_command-SendsInTurn kind (request_authority id e) c c' empty h =
    authority-SendsInTurn kind (request_authority id e) c c' empty h
send_host_command-SendsInTurn kind (release_authority id e) c c' empty h =
    authority-SendsInTurn kind (release_authority id e) c c' empty h
send_host_command-SendsInTurn kind (enable_delegation_response id e) c c' empty h =
    authority-SendsInTurn kind (enable_delegation_response id e) c c' empty h
send_host_command-SendsInTurn kind (migrate_response id e r o) c c' empty h =
    authority-SendsInTurn kind (migrate_response id e r o) c c' empty h
