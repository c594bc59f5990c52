-- ===== src/EventConfig/Verdict.antt =====
-- Which configurations internal/events/config.go accepts.
use roost_keeper.Prelude.{
  ◌≡◌, ◌&&◌, ◌||◌, if◌then◌else◌, String, Option, Bool, pos, true, false, not, none, some, refl,
  inl, inr, arith, str_eq, Bool-cases, ltb_ℤ, member,
}
use roost_keeper.Roost.{Message}
use roost_keeper.EventConfig.{
  Kafka, Topics, Storage, Config, protocols, mechanisms, acks_settings, offset_resets,
  storage_types, is_none_left, uses_sasl, validate_kafka, validate_topics, validate_storage,
  or_fail, validate,
}

abbrev pub accepts : Option Message → Bool
accepts none = true
accepts (some e) = false

abbrev kafka_fits : Kafka → Bool
kafka_fits k =
    not (is_none_left k.brokers)
    && member k.protocol protocols
    && (not (uses_sasl k) || member k.mechanism mechanisms)
    && member k.acks acks_settings
    && member k.auto_offset_reset offset_resets
    && not (str_eq k.group_id "")

abbrev topics_fit : Topics → Bool
topics_fit t =
    not (str_eq t.lifecycle "")
    && not (str_eq t.triggers "")
    && ltb_ℤ (pos 0) t.default_partitions
    && ltb_ℤ (pos 0) t.replication_factor

abbrev storage_fits : Storage → Bool
storage_fits s =
    member s.type_ storage_types && (str_eq s.type_ "local" || not (str_eq s.bucket ""))

-- a disabled configuration, or one whose parts that are in use fit
abbrev pub fits : Config → Bool
fits c =
    not c.enabled
    || kafka_fits c.kafka
      && topics_fit c.topics
      && (not c.dead_letter_enabled || storage_fits c.dead_letter_storage)
      && (not c.replay_enabled || storage_fits c.replay_storage)

accepts-if :
    (t : Bool) (m : Message) (rest : Option Message)
    → accepts (if t then some m else rest) ≡ not t && accepts rest
accepts-if true m rest = refl
accepts-if false m rest = refl

kafka_tests :
    (b p u m a o g : Bool)
    → not b
        && (not (not p) && (not (u && not m) && (not (not a) && (not (not o) && (not g && true)))))
      ≡ not b && p && (not u || m) && a && o && not g
kafka_tests b p u m a o g = ground arith

kafka-fits : (k : Kafka) → accepts (validate_kafka k) ≡ kafka_fits k
unfolding validate_kafka
kafka-fits k = simp accepts-if (
    kafka_tests (is_none_left k.brokers) (member k.protocol protocols) (uses_sasl k)
      (member k.mechanism mechanisms) (member k.acks acks_settings)
      (member k.auto_offset_reset offset_resets) (str_eq k.group_id ""))

topics-fit : (t : Topics) → accepts (validate_topics t) ≡ topics_fit t
unfolding validate_topics
topics-fit t = ground arith

storage-fits :
    (context : String) (s : Storage) → accepts (validate_storage context s) ≡ storage_fits s
unfolding validate_storage
storage-fits context s = ground arith

accepts-or_fail :
    (format : String) (a b : Option Message) → accepts (or_fail format a b) ≡ accepts a && accepts b
accepts-or_fail format none b = refl
accepts-or_fail format (some e) b = refl

storage-if :
    (context : String) (s : Storage) (used : Bool)
    → accepts (if used then validate_storage context s else none) ≡ not used || storage_fits s
storage-if context s true = storage-fits context s
storage-if context s false = refl

all_four : (a b c d : Bool) → a && (b && (c && (d && true))) ≡ a && b && c && d
all_four a b c d = ground arith

-- `Validate` accepts a configuration exactly when it is disabled, or it has brokers, a known
-- protocol, a known mechanism under SASL, known settings of acks and offsets, a consumer group, named
-- topics with partitions and replicas, and, for the dead letters and the replay where they are
-- enabled, a known storage with a bucket unless it is local.
pub validate-fits : (c : Config) → accepts (validate c) ≡ fits c
unfolding validate
validate-fits c = elim (Bool-cases c.enabled) [
  | inl e ↦ rw e (
      simp (accepts-or_fail, kafka-fits, topics-fit, storage-if)
        (all_four (kafka_fits c.kafka) (topics_fit c.topics)
          (not c.dead_letter_enabled || storage_fits c.dead_letter_storage)
          (not c.replay_enabled || storage_fits c.replay_storage)))
  | inr e ↦ rw e refl
]
