-- ===== src/Mcap/Registered.antt =====
-- What a log file declares before it uses it: src/logger/McapLogger.cpp.
use caneo.Common.{
  ℕ, ◌≡◌, inl, inr, Bool, true, false, not, ◌&&◌, ◌||◌, none, some, List, [], ◌∷◌, arith, ◌==◌,
  Option-cases,
}
use caneo.Common.Text.{Text}
use caneo.Common.OrderedMap.{nat_key, text_key, pair_key, key_eq, key_eq_iff, lookup, lookup-insert}
use caneo.Proto.{Descriptor}
use caneo.Mcap.{
  Call, add_schema, add_channel, write, McapLogger, get_or_register_schema, get_or_register_channel,
  write_to,
}

-- What a list of calls has declared.
abbrev pub has_channel : ℕ → List Call → Bool
has_channel id [] = false
has_channel id (add_channel t s i ∷ rest) = i == id || has_channel id rest
has_channel id (_ ∷ rest) = has_channel id rest

abbrev pub has_schema : ℕ → List Call → Bool
has_schema id [] = false
has_schema id (add_schema n d i ∷ rest) = i == id || has_schema id rest
has_schema id (_ ∷ rest) = has_schema id rest

abbrev pub has_topic : Text → List Call → Bool
has_topic topic [] = false
has_topic topic (add_channel t s i ∷ rest) = key_eq t topic || has_topic topic rest
has_topic topic (_ ∷ rest) = has_topic topic rest

abbrev pub has_name : Text → List Call → Bool
has_name name [] = false
has_name name (add_schema n d i ∷ rest) = key_eq n name || has_name name rest
has_name name (_ ∷ rest) = has_name name rest

-- Every message is in a channel that was declared before it, every channel has a schema that was
-- declared before it, no topic has two channels, and no name two schemas.
abbrev pub is_declared : List Call → Bool
is_declared [] = true
is_declared (write c ts d ∷ rest) = has_channel c rest && is_declared rest
is_declared (add_channel t s i ∷ rest) =
    has_schema s rest && (not (has_topic t rest) && is_declared rest)
is_declared (add_schema n d i ∷ rest) = not (has_name n rest) && is_declared rest

pub record IsRegistered (lg : McapLogger) : Type 0 where
  pub declared : is_declared lg.calls ≡ true
  pub channels_known :
      (t : Text) (i : ℕ) → lookup t lg.channels ≡ some i → has_channel i lg.calls ≡ true
  pub schemas_known :
      (n : Text) (i : ℕ) → lookup n lg.schemas ≡ some i → has_schema i lg.calls ≡ true
  pub topics_kept : (t : Text) → lookup t lg.channels ≡ none → has_topic t lg.calls ≡ false
  pub names_kept : (n : Text) → lookup n lg.schemas ≡ none → has_name n lg.calls ≡ false

module _ (new_id : List Call → ℕ) where
  schema-IsRegistered :
      (lg : McapLogger) (d : Descriptor)
      → IsRegistered lg
      → IsRegistered (get_or_register_schema new_id lg d).0
        × (has_schema
              (get_or_register_schema new_id lg d).1
              (get_or_register_schema new_id lg d).0.calls
            ≡ true)
  unfolding get_or_register_schema
  schema-IsRegistered lg d v = elim (Option-cases (lookup d.full_name lg.schemas)) [
    | inr (id, e) ↦ rw (e, get_or_register_schema) (v, v.schemas_known d.full_name id e)
    | inl e ↦
        rw (e, get_or_register_schema)
          (
            record {
              declared = ground (arith, v.names_kept d.full_name e, v.declared);
              channels_known = v.channels_known;
              schemas_known = λ n i h. ground (
                arith,
                h,
                lookup-insert d.full_name n (new_id lg.calls) lg.schemas,
                v.schemas_known n i,
              );
              topics_kept = v.topics_kept;
              names_kept = λ n h. ground (
                arith,
                h,
                lookup-insert d.full_name n (new_id lg.calls) lg.schemas,
                v.names_kept n,
                key_eq_iff n d.full_name,
                key_eq_iff d.full_name n,
              );
            },
            ground arith,
          )
  ]

  channel-IsRegistered :
      (lg : McapLogger) (t : Text) (s : ℕ)
      → IsRegistered lg
      → has_schema s lg.calls ≡ true
      → IsRegistered (get_or_register_channel new_id lg t s).0
        × (has_channel
              (get_or_register_channel new_id lg t s).1
              (get_or_register_channel new_id lg t s).0.calls
            ≡ true)
  unfolding get_or_register_channel
  channel-IsRegistered lg t s v k = elim (Option-cases (lookup t lg.channels)) [
    | inr (id, e) ↦ rw (e, get_or_register_channel) (v, v.channels_known t id e)
    | inl e ↦
        rw (e, get_or_register_channel)
          (
            record {
              declared = ground (arith, k, v.topics_kept t e, v.declared);
              channels_known = λ n i h.
                  ground (
                    arith,
                    h,
                    lookup-insert t n (new_id lg.calls) lg.channels,
                    v.channels_known n i,
                  );
              schemas_known = v.schemas_known;
              topics_kept = λ n h. ground (
                arith,
                h,
                lookup-insert t n (new_id lg.calls) lg.channels,
                v.topics_kept n,
                key_eq_iff n t,
                key_eq_iff t n,
              );
              names_kept = v.names_kept;
            },
            ground arith,
          )
  ]

  pub write_to-IsRegistered :
      (lg : McapLogger) (t : Text) (d : Descriptor) (ts : ℕ) (bytes : Text)
      → IsRegistered lg
      → IsRegistered (write_to new_id lg t d ts bytes)
  unfolding write_to
  write_to-IsRegistered lg t d ts bytes v =
      let (v1, k) = schema-IsRegistered lg d v in
      let (v2, c) = channel-IsRegistered _ t _ v1 k in
      record {
        declared = ground (arith, c, v2.declared);
        channels_known = v2.channels_known;
        schemas_known = v2.schemas_known;
        topics_kept = v2.topics_kept;
        names_kept = v2.names_kept;
      }
