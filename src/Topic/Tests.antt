-- ===== src/Topic/Tests.antt =====
-- The topics of one frame, and the theorems on topics at them.
use caneo.Common.{◌≡◌, refl, none, some, ◌++◌}
use caneo.Common.Text.{codes}
use caneo.Topic.{
  base_topic, data_suffix, raw_suffix, ratio_suffix, data_kind, raw_kind, other_kind,
  classify_topic,
}
use caneo.Topic.RoundTrip.{classify_topic-base_topic}

short_id : base_topic (codes "can0") none 26 ≡ codes "can0/0x01A"
unfolding base_topic
short_id = refl

classify_topic-base_topic_example :
    (classify_topic (base_topic (codes "can0") (some (codes "a/data")) 26 ++ data_suffix)
      ≡ record { kind = data_kind; iface = codes "can0"; msg_name = codes "a/data" })
    × (classify_topic (base_topic (codes "can0") (some (codes "a/data")) 26 ++ raw_suffix)
        ≡ record { kind = raw_kind; iface = codes "can0"; msg_name = codes "a/data" })
    × ((classify_topic (base_topic (codes "can0") (some (codes "a/data")) 26 ++ ratio_suffix)).kind
        ≡ other_kind)
classify_topic-base_topic_example =
    classify_topic-base_topic (codes "can0") (some (codes "a/data")) 26 refl
