-- ===== src/Discord/Permissions.antt =====
-- src/discord/permissions.ts: what the bot must be able to do in a channel; and what
-- permissionReport of src/discord/discord-adapter.ts answers.
use herald_of_jams.Base.{
  Bool, true, false, not, List, [], ◌∷◌, Option, none, some, select, is_empty,
}

pub data RequiredCapability : Type 0 where
  view_channel read_message_history send_messages manage_messages : RequiredCapability
  use_application_commands message_content_intent : RequiredCapability

abbrev pub required_capabilities : List RequiredCapability
required_capabilities =
    view_channel ∷ read_message_history ∷ send_messages ∷ manage_messages ∷ use_application_commands
    ∷ message_content_intent ∷ []

pub record PermissionReport : Type 0 where
  pub permitted : Bool
  pub missing : List RequiredCapability

unfoldable pub validate_activation_permissions : (RequiredCapability → Bool) → PermissionReport
validate_activation_permissions capabilities =
    let missing = select (λ c. not (capabilities c)) required_capabilities in
    record { permitted = is_empty missing; missing = missing }

-- The capabilities that the library reports for the channel; the intent is always there.
abbrev pub with_intent : (RequiredCapability → Bool) → RequiredCapability → Bool
with_intent has message_content_intent = true
with_intent has c = has c

-- No channel, no user of the client, or no permissions are `none`.
unfoldable pub permission_report : Option (RequiredCapability → Bool) → PermissionReport
permission_report none = record { permitted = false; missing = required_capabilities }
permission_report (some has) = validate_activation_permissions (with_intent has)
