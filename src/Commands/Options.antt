-- ===== src/Commands/Options.antt =====
-- The options of the commands and the values of the configuration that stand in for them.
use swpt_debtors.Prelude.{
  Option, none, some, String, ◌==◌, string_Eq, int_Eq, ℤ, pos, if◌then◌else◌,
}

-- `option or current_app.config[…]`: an empty text counts as none.
unfoldable pub text_or : Option String → String → String
text_or none default = default
text_or (some text) default = if text == "" then default else text

-- The same with a number: zero counts as none.
unfoldable pub number_or : Option ℤ → ℤ → ℤ
number_or none default = default
number_or (some n) default = if n == pos 0 then default else n

-- `option if option is not None else current_app.config[…]`: zero is taken.
unfoldable pub number_if_given : Option ℤ → ℤ → ℤ
number_if_given none default = default
number_if_given (some n) default = n

-- PROTOCOL_BROKER_URL, PROTOCOL_BROKER_QUEUE, PROTOCOL_BROKER_QUEUE_ROUTING_KEY
pub record BrokerConfig : Type 0 where
  pub url : String
  pub queue : String
  pub queue_routing_key : String
