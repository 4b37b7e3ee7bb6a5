-- ===== src/Canon/Quote/ReadBack.antt =====
-- A string that encodeString wrote reads back.
use intentproof_tools.Prelude.{◌≡◌, refl, ap, ◌∙◌, some, String, ◌<>◌, append-assoc_text}
use intentproof_tools.Canon.Quote.{
  escape, escaped, encode_string, read_string, read_literal, prepend, plain, step,
}
use intentproof_tools.Canon.Quote.Escapes.{read_string-escape}

pub read_string-escaped : (s rest : String) → read_string plain (escaped s <> rest) ≡ some (s, rest)
unfolding escaped read_string step
read_string-escaped String.[] rest = refl
read_string-escaped (String.◌∷◌ c s) rest =
    ap (read_string plain) (append-assoc_text (escape c) (escaped s) rest)
    ∙ read_string-escape c (escaped s <> rest)
    ∙ ap (prepend c) (read_string-escaped s rest)

-- The canonical form of a string is a JSON string literal that reads back as the string, whatever
-- stands behind it.
pub read_literal-encode_string :
    (s rest : String) → read_literal (encode_string s <> rest) ≡ some (s, rest)
unfolding read_literal encode_string
read_literal-encode_string s rest = read_string-escaped s rest
