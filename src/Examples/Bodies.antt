-- ===== src/Examples/Bodies.antt =====
-- The scanners of request bodies at concrete bodies.
use metering_proxy.Common.{◌≡◌, refl, some, [], ◌∷◌, ◌++◌, codes}
use metering_proxy.Proxy.Scan.{find_top_level_json_value, Bracket, curly, square, plain, mark}
use metering_proxy.Proxy.Scan.Printed.{end, byte, text, is_escaped, IsItems}
use metering_proxy.Proxy.Scan.Found.{string, composite, print_value, IsValue}
use metering_proxy.Proxy.Scan.Found.Fields.{Field, IsField, print_fields, first_value}
use metering_proxy.Proxy.Scan.Found.Object.{find_top_level_json_value-first_value}
use metering_proxy.Proxy.Scan.Lookup.{top_level_json_string}
use metering_proxy.Proxy.Scan.Lookup.Escapes.{escape_text, top_level_json_string-escape_text}

-- "images" : [1,"]"],
abbrev images_field : Field
images_field = record {
  key = codes "images";
  behind_key = codes " ";
  behind_colon = codes " ";
  value = composite square (byte b'1' (byte b',' (text (codes "]") end)));
  behind_value = [];
  behind_comma = codes " ";
}

-- "model":"g\"5"
abbrev model_field : Field
model_field = record {
  key = codes "model";
  behind_key = [];
  behind_colon = [];
  value = string (escape_text (codes "g\"5"));
  behind_value = [];
  behind_comma = [];
}

plain_digit : (b : Bracket) → mark b b'1' ≡ plain
unfolding mark
plain_digit curly = refl
plain_digit square = refl

plain_comma : (b : Bracket) → mark b b',' ≡ plain
unfolding mark
plain_comma curly = refl
plain_comma square = refl

images-IsField : IsField images_field
unfolding is_escaped IsValue IsItems mark
images-IsField = record {
  key_escaped = refl;
  value_whole = (plain_digit, (plain_comma, (refl, tt)));
  key_space = (refl, tt);
  colon_space = (refl, tt);
  value_space = tt;
  comma_space = (refl, tt);
}

model-IsField : IsField model_field
unfolding is_escaped IsValue escape_text
model-IsField = record {
  key_escaped = refl;
  value_whole = refl;
  key_space = tt;
  colon_space = tt;
  value_space = tt;
  comma_space = tt;
}

model_value :
    first_value (codes "model") images_field (model_field ∷ []) (codes " ")
    ≡ some (print_value (string (escape_text (codes "g\"5"))) (b'}' ∷ codes " "))
unfolding first_value
model_value = refl

find_top_level_json_value-first_value_example :
    find_top_level_json_value
      (codes " " ++ b'{' ∷ ([] ++ print_fields images_field (model_field ∷ []) (codes " ")))
      (codes "model")
    ≡ first_value (codes "model") images_field (model_field ∷ []) (codes " ")
find_top_level_json_value-first_value_example =
    find_top_level_json_value-first_value (codes "model") (codes " ") [] images_field
      (model_field ∷ []) (codes " ") (refl, tt) tt images-IsField (model-IsField, tt)

top_level_json_string-escape_text_example :
    top_level_json_string
      (codes " " ++ b'{' ∷ ([] ++ print_fields images_field (model_field ∷ []) (codes " ")))
      (codes "model")
    ≡ some (codes "g\"5")
top_level_json_string-escape_text_example =
    top_level_json_string-escape_text (codes "model") (codes " ") [] images_field (model_field ∷ [])
      (codes " ") (codes "g\"5") (b'}' ∷ codes " ") (refl, tt) tt images-IsField (model-IsField, tt)
      model_value
