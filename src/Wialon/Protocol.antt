-- ===== src/Wialon/Protocol.antt =====
-- The enumerations and tables of wialon_plugin.{hpp,cpp}: parser states, commands, how many
-- parameters a command takes and what they are called.
pub mod Lookup
use eiptnd.Prelude.{ℕ, List, [], ◌∷◌, Option, none, some, Bytes, codes, Bool, true, false}
use eiptnd.Boost.Containers.{FlatMap}

-- `state_t`
pub data State : Type 0 where
  state_initial state_imei state_command state_body state_hash_first state_hash_second : State
  state_bar state_end state_skip_to_bar_or_end state_skip_to_end state_binary_data : State

-- `command_t`; COMMAND_COUNT only sizes the array `fields_`.
pub data Command : Type 0 where
  command_login command_data command_ping command_shortdata : Command
  command_blackbox command_message command_image : Command

abbrev pub is_login : Command → Bool
is_login command_login = true
is_login _ = false

abbrev pub is_blackbox : Command → Bool
is_blackbox command_blackbox = true
is_blackbox _ = false

abbrev pub is_binary_data : State → Bool
is_binary_data state_binary_data = true
is_binary_data _ = false

-- The text of a command and the number of its parameters.
abbrev pub name : Command → Bytes
name command_login = codes "L"
name command_data = codes "D"
name command_ping = codes "P"
name command_shortdata = codes "SD"
name command_blackbox = codes "B"
name command_message = codes "M"
name command_image = codes "I"

abbrev pub arity : Command → ℕ
arity command_login = 2
arity command_data = 16
arity command_ping = 0
arity command_shortdata = 10
arity command_blackbox = 16
arity command_message = 1
arity command_image = 6

abbrev pub commands : List Command
commands =
    command_login ∷ command_data ∷ command_ping ∷ command_shortdata ∷ command_blackbox
    ∷ command_message ∷ command_image ∷ []

-- `estimates_`: built from the list of the seven commands, in the order of the source.
module _ (E : FlatMap Bytes (ℕ × Command)) where
  unfoldable pub estimates_onto : E.Map → List Command → E.Map
  estimates_onto m [] = m
  estimates_onto m (c ∷ cs) = estimates_onto (E.emplace (name c) (arity c, c) m) cs

  unfoldable pub estimates : E.Map
  estimates = estimates_onto E.empty commands

-- The names that the entries of `fields_` share.
abbrev pub position_fields : List Bytes
position_fields =
    codes "speed"
    ∷ codes "lon2"
    ∷ codes "lon1"
    ∷ codes "lat2"
    ∷ codes "lat1"
    ∷ codes "time"
    ∷ codes "date"
    ∷ []

abbrev pub long_fields : List Bytes
long_fields =
    codes "params"
    ∷ codes "ibutton"
    ∷ codes "adc"
    ∷ codes "outputs"
    ∷ codes "inputs"
    ∷ codes "hdop"
    ∷ codes "sats"
    ∷ codes "height"
    ∷ codes "course"
    ∷ position_fields

-- `fields_`: the names of the parameters, the last one first.
abbrev pub fields : Command → List Bytes
fields command_login = codes "password" ∷ codes "imei" ∷ []
fields command_data = long_fields
fields command_ping = []
fields command_shortdata = codes "sats" ∷ codes "height" ∷ codes "course" ∷ position_fields
fields command_blackbox = long_fields
fields command_message = codes "message" ∷ []
fields command_image =
    codes "name" ∷ codes "time" ∷ codes "date" ∷ codes "count" ∷ codes "ind" ∷ codes "sz" ∷ []
