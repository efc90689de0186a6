-- ===== src/ProtoLog/Names.antt =====
-- The names that ProtoLog gives to types and fields: sanitize of src/proto/ProtoLog.cpp.
use caneo.Common.{◌≡◌, refl, ap, ◌∙◌, Bool, true, false, not, ◌&&◌, [], ◌∷◌, arith, all}
use caneo.Common.Text.{Text}
use caneo.Common.OrderedMap.{nat_key, text_key, pair_key}
use caneo.Numerals.{is_digit}
use caneo.ProtoLog.{is_upper, is_lower, is_word, replaced, guarded, sanitize}

-- An identifier of protobuf: letters, digits and underscores, one at least, no digit first.
abbrev pub is_identifier : Text → Bool
is_identifier [] = false
is_identifier (c ∷ cs) = not (is_digit c) && all is_word (c ∷ cs)

all-replaced : (s : Text) → all is_word (replaced s) ≡ true
unfolding replaced is_word is_upper is_lower
all-replaced [] = refl
all-replaced (c ∷ cs) = ground (arith, all-replaced cs)

guarded_word : (s : Text) → all is_word s ≡ true → is_identifier (guarded s) ≡ true
unfolding guarded is_word is_upper is_lower
guarded_word [] h = refl
guarded_word (c ∷ cs) h = ground (arith, h)

replaced_word : (s : Text) → all is_word s ≡ true → replaced s ≡ s
unfolding replaced
replaced_word [] h = refl
replaced_word (c ∷ cs) h = ground (arith, h, replaced_word cs)

sanitize_identifier : (s : Text) → is_identifier s ≡ true → sanitize s ≡ s
unfolding sanitize guarded
sanitize_identifier [] h = cc
sanitize_identifier (c ∷ cs) h =
    let w : all is_word (c ∷ cs) ≡ true = ground (arith, h) in
    ap guarded (replaced_word (c ∷ cs) w) ∙ ground (arith, h)

-- sanitize gives an identifier for every name, also for an empty one, and a second application changes nothing.
pub sanitize_lem :
    (s : Text) → (is_identifier (sanitize s) ≡ true) × (sanitize (sanitize s) ≡ sanitize s)
unfolding sanitize
sanitize_lem s =
    let i = guarded_word (replaced s) (all-replaced s) in (i, sanitize_identifier (sanitize s) i)
