-- ===== src/Topic/RoundTrip.antt =====
-- The reader understands the topics that the logger writes: src/logger.
use caneo.Topic.{
  has_0x, derive_can_id, base_topic, data_suffix, raw_suffix, ratio_suffix, ChannelKind, data_kind,
  raw_kind, other_kind, ChannelInfo, split_slash, try_suffix, classify_topic,
}
use caneo.Common.{
  if_all, ℕ, zero, suc, ◌-◌, ◌%◌, ◌^◌, ◌<◌, ◌≡◌, refl, ap, ◌∙◌, ◌≢◌, true, false, Option, none,
  some, [], ◌∷◌, ◌++◌, arith, leb, ◌==◌, length, drop, replicate, any, is_empty, length-append,
  drop-length-append, take-length-append,
}
use caneo.Common.Text.{Text, codes, text_eq, text_eq_iff}
use caneo.Common.OrderedMap.{nat_key, text_key, pair_key}
use caneo.Numerals.{format_id, stoul16, show}
use caneo.Numerals.Hex.{stoul16-show, is_empty-show, format_id_lem}

abbrev last : Text → ℕ
last [] = 0
last (c ∷ []) = c
last (c ∷ d ∷ cs) = last (d ∷ cs)

last-append : (s : Text) (c : ℕ) (t : Text) → last (s ++ (c ∷ t)) ≡ last (c ∷ t)
last-append [] c t = refl
last-append (x ∷ []) c t = refl
last-append (x ∷ y ∷ s) c t = last-append (y ∷ s) c t

last-drop :
    (n : ℕ) (topic : Text) (c : ℕ) (t : Text) → drop n topic ≡ c ∷ t → last topic ≡ last (c ∷ t)
last-drop zero topic c t e = ap last e
last-drop (suc n) [] c t e = cc
last-drop (suc n) (x ∷ []) c t e = absurd (drop_nil n e)
  where
    drop_nil : (n : ℕ) → drop n [] ≡ c ∷ t → ⊥
    drop_nil zero h = cc
    drop_nil (suc n) h = cc
last-drop (suc n) (x ∷ y ∷ s) c t e = last-drop n (y ∷ s) c t e

-- A topic with another last character has not this suffix.
try_suffix_ne :
    (kind : ChannelKind) (c : ℕ) (t topic : Text)
    → last topic ≢ last (c ∷ t)
    → try_suffix kind (c ∷ t) topic ≡ none
unfolding try_suffix
try_suffix_ne kind c t topic h =
    if_all (λ r. r ≡ none) (leb (length topic) (length (c ∷ t))) (λ _. refl)
      λ _.
        if_all (λ r. r ≡ none) (text_eq (drop (length topic - length (c ∷ t)) topic) (c ∷ t))
          (λ q. absurd (h (last-drop _ topic c t ((text_eq_iff _ (c ∷ t)).0 q)))) (λ _. refl)

pub split_slash-append :
    (iface name : Text)
    → any (λ c. c == b'/') iface ≡ false
    → split_slash (iface ++ (b'/' ∷ name)) ≡ some (iface, name)
unfolding split_slash
split_slash-append [] name h = refl
split_slash-append (c ∷ cs) name h = ground (arith, split_slash-append cs name)

try_suffix-append :
    (kind : ChannelKind) (iface name : Text) (c : ℕ) (t : Text)
    → any (λ d. d == b'/') iface ≡ false
    → try_suffix kind (c ∷ t) ((iface ++ (b'/' ∷ name)) ++ (c ∷ t))
      ≡ some (record { kind = kind; iface = iface; msg_name = name })
unfolding try_suffix
try_suffix-append kind iface name c t h =
    let base = iface ++ (b'/' ∷ name) in
    let n : length (base ++ (c ∷ t)) - length (c ∷ t) ≡ length base =
      omega (arith, length-append base (c ∷ t)) in
    let long : leb (length (base ++ (c ∷ t))) (length (c ∷ t)) ≡ false =
      ground (arith, length-append base (c ∷ t), length-append iface (b'/' ∷ name)) in
    let same : text_eq (c ∷ t) (c ∷ t) ≡ true = (text_eq_iff (c ∷ t) (c ∷ t)).1 refl in
    rw
      (
        long,
        n,
        drop-length-append base (c ∷ t),
        take-length-append base (c ∷ t),
        same,
        split_slash-append iface name h,
      )
      refl

first_is :
    (topic : Text) (i : ChannelInfo)
    → try_suffix data_kind data_suffix topic ≡ some i
    → classify_topic topic ≡ i
unfolding classify_topic
first_is topic i e = rw (e, classify_topic) refl

second_is :
    (topic : Text) (i : ChannelInfo)
    → try_suffix data_kind data_suffix topic ≡ none
    → try_suffix raw_kind raw_suffix topic ≡ some i
    → classify_topic topic ≡ i
unfolding classify_topic
second_is topic i e k = rw (e, k, classify_topic) refl

neither_is :
    (topic : Text)
    → try_suffix data_kind data_suffix topic ≡ none
    → try_suffix raw_kind raw_suffix topic ≡ none
    → classify_topic topic ≡ record { kind = other_kind; iface = []; msg_name = [] }
unfolding classify_topic
neither_is topic e k = rw (e, k, classify_topic) refl

-- The message's name in a topic.
abbrev pub name_of : Option Text → ℕ → Text
name_of none id = format_id id
name_of (some name) id = name

-- The three topics of an interface and a name.
abbrev Topics : Text → Text → Type 0
Topics interface name =
    let base = interface ++ (b'/' ∷ name) in
    (classify_topic (base ++ data_suffix)
      ≡ record { kind = data_kind; iface = interface; msg_name = name })
    × (classify_topic (base ++ raw_suffix)
        ≡ record { kind = raw_kind; iface = interface; msg_name = name })
    × ((classify_topic (base ++ ratio_suffix)).kind ≡ other_kind)

topics_lem :
    (interface name : Text) → any (λ c. c == b'/') interface ≡ false → Topics interface name
topics_lem interface name h =
    let base = interface ++ (b'/' ∷ name) in
    let raw_last = last-append base b'/' (codes "raw") in
    let ratio_last = last-append base b'/' (codes "update_ratio") in
    (
      first_is (base ++ data_suffix) _
          (try_suffix-append data_kind interface name b'/' (codes "data") h),
      second_is (base ++ raw_suffix) _
          (try_suffix_ne data_kind b'/' (codes "data") (base ++ raw_suffix)
            (λ e. omega (arith, e, raw_last)))
          (try_suffix-append raw_kind interface name b'/' (codes "raw") h),
      ap (λ (i : ChannelInfo). i.kind)
          (neither_is (base ++ ratio_suffix)
            (try_suffix_ne data_kind b'/' (codes "data") (base ++ ratio_suffix)
              (λ e. omega (arith, e, ratio_last)))
            (try_suffix_ne raw_kind b'/' (codes "raw") (base ++ ratio_suffix)
              (λ e. omega (arith, e, ratio_last)))),
    )

-- The three topics that the logger uses for a frame are told apart, and the first two give back the
-- interface and the name that the topic has for the frame, if no slash is in the interface's name.
pub classify_topic-base_topic :
    (interface : Text) (desc : Option Text) (id : ℕ)
    → any (λ c. c == b'/') interface ≡ false
    → (classify_topic (base_topic interface desc id ++ data_suffix)
        ≡ record { kind = data_kind; iface = interface; msg_name = name_of desc id })
      × (classify_topic (base_topic interface desc id ++ raw_suffix)
          ≡ record { kind = raw_kind; iface = interface; msg_name = name_of desc id })
      × ((classify_topic (base_topic interface desc id ++ ratio_suffix)).kind ≡ other_kind)
unfolding base_topic
classify_topic-base_topic interface none id h = topics_lem interface (format_id id) h
classify_topic-base_topic interface (some name) id h = topics_lem interface name h

derive_can_id_0x :
    (hash : Text → ℕ) (s : Text) (id : ℕ)
    → is_empty s ≡ false
    → stoul16 s ≡ some id
    → derive_can_id hash (b'0' ∷ b'x' ∷ s) ≡ id % 2 ^ 32
unfolding derive_can_id has_0x
derive_can_id_0x hash [] id e h = cc
derive_can_id_0x hash (c ∷ s) id e h = rw (h, derive_can_id) refl

-- The name that the topic has for a frame that no DBC describes gives back the frame's ID.
pub derive_can_id-format_id :
    (hash : Text → ℕ) (id : ℕ) → id < 2 ^ 32 → derive_can_id hash (format_id id) ≡ id
derive_can_id-format_id hash id h =
    let k = 3 - length (show 16 id) in
    ap (derive_can_id hash) (format_id_lem id)
    ∙ derive_can_id_0x hash (replicate k b'0' ++ show 16 id) id (is_empty-show k id)
        (stoul16-show k id (omega (arith, h)))
    ∙ omega (arith, h)
