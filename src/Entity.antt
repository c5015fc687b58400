-- ===== src/Entity.antt =====
-- pkg/entity: messages, and the configuration of queues with what protobuf keeps of it. A nil metadata
-- map is `none`.
use doq.Common.{ℕ, ◌-◌, ◌%◌, ◌^◌, Option, List, ◌||◌, if◌then◌else◌}
use doq.Common.Int.{ℤ, pos, negsuc}
use doq.Common.Text.{Text, bytes, text_eq}

pub record Message : Type 0 where
  pub group : Text
  pub id : ℕ
  pub priority : ℤ
  pub content : Text
  pub metadata : Option (List (Text × Text))
  pub delivery_count : ℕ

pub record QueueSettings : Type 0 where
  pub strategy : Text
  pub max_unacked : ℤ
  pub ack_timeout : ℕ
  pub delivery_limit : ℕ

pub record QueueConfig : Type 0 where
  pub name : Text
  pub queue_type : Text
  pub settings : QueueSettings

-- The number of a strategy in pb.QueueSettings_Strategy_value, by the name that stands for it: an unknown
-- name reads as 0.
abbrev pub to_strategy : Text → Text
to_strategy strategy =
    if text_eq strategy (bytes "ROUND_ROBIN") || text_eq strategy (bytes "WEIGHTED")
    then strategy
    else bytes "STRATEGY_UNSPECIFIED"

-- uint32 of an int.
abbrev pub to_uint32 : ℤ → ℤ
to_uint32 (pos n) = pos (n % 2 ^ 32)
to_uint32 (negsuc n) = pos (2 ^ 32 - 1 - n % 2 ^ 32)

abbrev pub to_proto : QueueSettings → QueueSettings
to_proto settings = record settings {
  strategy = to_strategy settings.strategy;
  max_unacked = to_uint32 settings.max_unacked;
}

abbrev pub config_to_proto : QueueConfig → QueueConfig
config_to_proto config = record config { settings = to_proto config.settings }
