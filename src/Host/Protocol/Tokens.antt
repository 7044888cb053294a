-- ===== src/Host/Protocol/Tokens.antt =====
-- The fields of a printed line, as the host takes them apart (host/src/protocol.c).
use cec_controller.Common.{
  ℕ, ◌+◌, ◌≡◌, ◌≢◌, refl, ap, sym, ◌∙◌, Bool, not, ◌&&◌, List, [], ◌∷◌, ◌++◌, Option, some, ◌==◌,
  length, Text, AllChars, All, All-append, arith,
}
use cec_controller.Serial.Reply.{fields_text}
use cec_controller.Host.Protocol.{
  is_delimiter, reversed_onto, end_token, tokens, split_field, field_parts, parts_of,
}

-- Characters that end no token and no text.
abbrev pub plain : ℕ → Bool
plain c = not (is_delimiter c) && not (c == 0)

abbrev pub key_char : ℕ → Bool
key_char c = not (c == 61)

-- A field that the host finds again.
pub record GoodField (field : Text × Text) : Type 0 where
  pub key_plain : AllChars plain field.0
  pub key_chars : AllChars key_char field.0
  pub key_some : length field.0 ≢ 0
  pub value_plain : AllChars plain field.1
  pub value_some : length field.1 ≢ 0

pub append_assoc : (a b c : Text) → (a ++ b) ++ c ≡ a ++ (b ++ c)
append_assoc [] b c = refl
append_assoc (x ∷ a) b c = ap (λ t. x ∷ t) (append_assoc a b c)

tokens-word :
    (word rest begun : Text)
    → AllChars plain word
    → tokens begun (word ++ rest) ≡ tokens (reversed_onto word begun) rest
unfolding tokens
tokens-word [] rest begun h = refl
tokens-word (c ∷ word) rest begun (h, hs) = ground (arith, tokens-word word rest (c ∷ begun) hs)

reversed_reversed :
    (word a b : Text) → reversed_onto (reversed_onto word a) b ≡ reversed_onto a (word ++ b)
reversed_reversed [] a b = refl
reversed_reversed (c ∷ word) a b = reversed_reversed word (c ∷ a) b

end_token-cons :
    (begun : Text) (rest : List Text)
    → length begun ≢ 0
    → end_token begun rest ≡ reversed_onto begun [] ∷ rest
end_token-cons [] rest h = absurd (h refl)
end_token-cons (c ∷ begun) rest h = refl

length-reversed :
    (word begun : Text) → length (reversed_onto word begun) ≡ length word + length begun
length-reversed [] begun = omega arith
length-reversed (c ∷ word) begun = omega (arith, length-reversed word (c ∷ begun))

pub append_nil : (a : Text) → a ++ [] ≡ a
append_nil [] = refl
append_nil (x ∷ a) = ap (λ t. x ∷ t) (append_nil a)

end_token-word :
    (word : Text) (rest : List Text)
    → length word ≢ 0
    → end_token (reversed_onto word []) rest ≡ word ∷ rest
end_token-word word rest h =
    end_token-cons (reversed_onto word []) rest (λ e. h (omega (arith, length-reversed word [], e)))
    ∙ ap (λ t. t ∷ rest) (reversed_reversed word [] [] ∙ append_nil word)

-- The words of the fields.
abbrev pub word_of : Text × Text → Text
word_of (key, value) = key ++ (61 ∷ value)

abbrev pub words_of : List (Text × Text) → List Text
words_of [] = []
words_of (field ∷ fields) = word_of field ∷ words_of fields

abbrev pub found_of : List (Text × Text) → List (Option (Text × Text))
found_of [] = []
found_of (field ∷ fields) = some field ∷ found_of fields

tokens-delimiter : (begun text : Text) → tokens begun (32 ∷ text) ≡ end_token begun (tokens [] text)
unfolding tokens
tokens-delimiter begun text = refl

length-word : (key value : Text) → length (key ++ (61 ∷ value)) ≢ 0
length-word [] value e = omega (arith, e)
length-word (c ∷ key) value e = omega (arith, e)

tokens-fields :
    (fields : List (Text × Text)) (begun : Text)
    → All GoodField fields
    → tokens begun (fields_text fields) ≡ end_token begun (words_of fields)
unfolding tokens
tokens-fields [] begun h = refl
tokens-fields ((key, value) ∷ fields) begun (g, gs) =
    tokens-delimiter begun (key ++ (61 ∷ (value ++ fields_text fields)))
    ∙ ap (end_token begun) (
        ap (tokens []) (sym (append_assoc key (61 ∷ value) (fields_text fields)))
        ∙ tokens-word (key ++ (61 ∷ value)) (fields_text fields) []
            (All-append _ key (61 ∷ value) g.key_plain (refl, g.value_plain))
        ∙ tokens-fields fields (reversed_onto (key ++ (61 ∷ value)) []) gs
        ∙ end_token-word (key ++ (61 ∷ value)) (words_of fields) (length-word key value))

split_field-word :
    (key value : Text)
    → AllChars key_char key
    → split_field (key ++ (61 ∷ value)) ≡ some (key, value)
unfolding split_field
split_field-word [] value h = refl
split_field-word (c ∷ key) value (h, hs) = ground (arith, split_field-word key value hs)

field_parts-word :
    (key value : Text)
    → GoodField (key, value)
    → field_parts (key ++ (61 ∷ value)) ≡ some (key, value)
unfolding field_parts
field_parts-word key value g =
    rw (field_parts, split_field-word key value g.key_chars)
      (ground (arith, g.key_some, g.value_some))

parts_of-words :
    (fields : List (Text × Text))
    → All GoodField fields
    → parts_of (words_of fields) ≡ found_of fields
parts_of-words [] h = refl
parts_of-words ((key, value) ∷ fields) (g, gs) =
    ap (λ part. part ∷ parts_of (words_of fields)) (field_parts-word key value g)
    ∙ ap (λ parts. some (key, value) ∷ parts) (parts_of-words fields gs)

-- The fields behind the status, as they were printed.
pub parts_of-tokens :
    (key value : Text) (fields : List (Text × Text))
    → All GoodField ((key, value) ∷ fields)
    → parts_of (tokens [] (key ++ (61 ∷ (value ++ fields_text fields))))
      ≡ some (key, value) ∷ found_of fields
unfolding tokens
parts_of-tokens key value fields g =
    ap parts_of (tokens-fields ((key, value) ∷ fields) [] g)
    ∙ parts_of-words ((key, value) ∷ fields) g
