-- ===== src/RicartAgrawala/Message.antt =====
-- ricart_agrawala/message.go: the message that processes exchange.
use grupo.Prelude.{ℕ, String, ◌==◌, if◌then◌else◌}
use grupo.Prelude.Int.{ℤ}
use grupo.RicartAgrawala.Utils.{reply, request}

pub record Message : Type 0 where
  pub request_timestamp : ℤ
  pub timestamp : ℤ
  pub type_message : ℕ
  pub id : ℤ
  pub address : String

-- getType()
unfoldable pub get_type : Message → String
get_type m =
    if m.type_message == reply
    then "REPLY"
    else if m.type_message == request
    then "REQUEST"
    else "PERMISSION"
