-- ===== src/Pipeline/Senders.antt =====
-- internal/notification/sender/sender.go: the senders by channel type.
use feed_flow.Base.{
  List, Option, String, [], if◌then◌else◌, inl, inr, is_some, none, not, some, str_eq, ◌∷◌, ◌⊎◌,
}
use feed_flow.Base.Text.{is_empty}
use feed_flow.Errors.{ErrorChain, sender_not_registered, text}
use feed_flow.Store.Claim.{Message, Task}

-- `Send` of a sender: no error, or an error chain.
abbrev pub Sender : Type 0
Sender = Message → Option ErrorChain

-- A Go map; `none` is a nil interface.
abbrev pub Registry : Type 0
Registry = List (String × Option Sender)

pub data RegistryError : Type 0 where
  empty_channel_type nil_sender : RegistryError

-- `NewRegistry`: a range over a map may meet the two faults in any order, here in the list's.
unfoldable pub new_registry : Registry → RegistryError ⊎ Registry
new_registry [] = inr []
new_registry ((kind, s) ∷ rest) =
    let more = new_registry rest in
    if is_empty kind
    then inl empty_channel_type
    else if not (is_some s)
    then inl nil_sender
    else elim more [ inl e ↦ inl e | inr registry ↦ inr ((kind, s) ∷ registry) ]

-- `Registry.Get`: a missing sender and a nil one are alike.
unfoldable pub get_sender : Registry → String → Option Sender
get_sender [] kind = none
get_sender ((k, s) ∷ rest) kind = if str_eq k kind then s else get_sender rest kind

-- The error of `Get`: `fmt.Errorf("%w: %s", ErrSenderNotRegistered, channelType)`.
abbrev pub not_registered : ErrorChain
not_registered = text "notification sender is not registered" ∷ sender_not_registered ∷ []

-- The look-up of the sender and its `Send`, as `Process` makes them.
unfoldable pub try_send : Registry → Task → Option ErrorChain
unfolding get_sender
try_send senders task = elim (get_sender senders task.channel_type) [
  | none ↦ some not_registered
  | some send ↦ send task.message
]
