-- ===== src/EventConfig.antt =====
-- The configuration of the event system: internal/events/config.go, as far as `Validate` reads it.
pub mod Verdict
use roost_keeper.Prelude.{
  ◌&&◌, ◌||◌, ◌∷◌, if◌then◌else◌, ℤ, String, List, Option, Bool, pos, true, false, not, none, some,
  [], str_eq, leb_ℤ, member,
}
use roost_keeper.Roost.{Message, text, with_text, with_texts, about}

-- `KafkaConfig` with its `SecurityConfig`, `ProducerConfig` and `ConsumerConfig`
pub record Kafka : Type 0 where
  pub brokers : List String
  pub protocol : String
  pub mechanism : String
  pub acks : String
  pub auto_offset_reset : String
  pub group_id : String

-- `TopicConfig`
pub record Topics : Type 0 where
  pub lifecycle : String
  pub triggers : String
  pub default_partitions : ℤ
  pub replication_factor : ℤ

-- `StorageConfig`
pub record Storage : Type 0 where
  pub type_ : String
  pub bucket : String

-- `Config`; of `DLQConfig` and `ReplayConfig` are read whether they are enabled, and the storage
pub record Config : Type 0 where
  pub enabled : Bool
  pub kafka : Kafka
  pub topics : Topics
  pub dead_letter_enabled : Bool
  pub dead_letter_storage : Storage
  pub replay_enabled : Bool
  pub replay_storage : Storage

-- `DefaultConfig`; `TopicLifecycle` and `TopicTriggers` are constants of types.go
unfoldable pub default_config : String → String → Config
default_config lifecycle triggers = record {
  enabled = true;
  kafka = record {
    brokers = "localhost:9092" ∷ [];
    protocol = "PLAINTEXT";
    mechanism = "PLAIN";
    acks = "all";
    auto_offset_reset = "earliest";
    group_id = "roost-keeper-consumers";
  };
  topics = record {
    lifecycle = lifecycle;
    triggers = triggers;
    default_partitions = pos 3;
    replication_factor = pos 1;
  };
  dead_letter_enabled = true;
  dead_letter_storage = record { type_ = "s3"; bucket = "roost-keeper-dlq" };
  replay_enabled = true;
  replay_storage = record { type_ = "s3"; bucket = "roost-keeper-events" };
}

abbrev pub protocols : List String
protocols = "PLAINTEXT" ∷ "SSL" ∷ "SASL_PLAINTEXT" ∷ "SASL_SSL" ∷ []

abbrev pub mechanisms : List String
mechanisms = "PLAIN" ∷ "SCRAM-SHA-256" ∷ "SCRAM-SHA-512" ∷ []

abbrev pub acks_settings : List String
acks_settings = "0" ∷ "1" ∷ "all" ∷ []

abbrev pub offset_resets : List String
offset_resets = "earliest" ∷ "latest" ∷ "none" ∷ []

abbrev pub storage_types : List String
storage_types = "s3" ∷ "gcs" ∷ "azure" ∷ "local" ∷ []

abbrev pub is_none_left : List String → Bool
is_none_left [] = true
is_none_left (x ∷ xs) = false

abbrev pub uses_sasl : Kafka → Bool
uses_sasl k = str_eq k.protocol "SASL_PLAINTEXT" || str_eq k.protocol "SASL_SSL"

-- `validateKafka`
unfoldable pub validate_kafka : Kafka → Option Message
validate_kafka k =
    if is_none_left k.brokers
    then some (text "at least one Kafka broker must be specified")
    else if not (member k.protocol protocols)
    then some (with_text "invalid security protocol: %s" k.protocol)
    else if uses_sasl k && not (member k.mechanism mechanisms)
    then some (with_text "invalid SASL mechanism: %s" k.mechanism)
    else if not (member k.acks acks_settings)
    then some (with_text "invalid producer acks setting: %s" k.acks)
    else if not (member k.auto_offset_reset offset_resets)
    then some (with_text "invalid auto offset reset: %s" k.auto_offset_reset)
    else if str_eq k.group_id ""
    then some (text "consumer group ID cannot be empty")
    else none

-- `validateTopics`
unfoldable pub validate_topics : Topics → Option Message
validate_topics t =
    if str_eq t.lifecycle ""
    then some (text "lifecycle topic name cannot be empty")
    else if str_eq t.triggers ""
    then some (text "triggers topic name cannot be empty")
    else if leb_ℤ t.default_partitions (pos 0)
    then some (text "default partitions must be greater than 0")
    else if leb_ℤ t.replication_factor (pos 0)
    then some (text "replication factor must be greater than 0")
    else none

-- `validateStorage`
unfoldable pub validate_storage : String → Storage → Option Message
validate_storage context s =
    if not (member s.type_ storage_types)
    then some (with_texts "invalid storage type for %s: %s" (context ∷ s.type_ ∷ []))
    else if not (str_eq s.type_ "local") && str_eq s.bucket ""
    then some (with_texts "bucket name is required for %s storage type %s" (context ∷ s.type_ ∷ []))
    else none

-- `if err := check; err != nil { return fmt.Errorf(format, err) }` before the rest
abbrev pub or_fail : String → Option Message → Option Message → Option Message
or_fail format (some e) next = some (about format e)
or_fail format none next = next

-- `Validate`
unfoldable pub validate : Config → Option Message
unfolding validate_kafka validate_topics validate_storage
validate c =
    if not c.enabled
    then none
    else or_fail "kafka config validation failed: %w" (validate_kafka c.kafka) (
        or_fail "topics config validation failed: %w" (validate_topics c.topics) (
          or_fail "DLQ storage config validation failed: %w"
            (if c.dead_letter_enabled then validate_storage "DLQ" c.dead_letter_storage else none)
            (or_fail "replay storage config validation failed: %w"
              (if c.replay_enabled then validate_storage "replay" c.replay_storage else none)
              none)))
