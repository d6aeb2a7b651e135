-- ===== src/Cluster/Resources/Base64.antt =====
-- `b64_encoded_string` of utilities/general.py, for ASCII texts.
use Prim.Native.Nat.{◌/◌, ◌%◌}
use Prim.Native.Char.{Char, code}
use opendatahub_tests.Shared.{ℕ, zero, suc, ◌+◌, ◌*◌, String, List, [], ◌∷◌}

alphabet : String
alphabet = "ABCDEFGHIJKLMNOPQRSTUVWXYZabcdefghijklmnopqrstuvwxyz0123456789+/"

digit : ℕ → String → Char
digit n String.[] = "="
digit zero (String.◌∷◌ c s) = c
digit (suc n) (String.◌∷◌ c s) = digit n s

sextet : ℕ → String → String
unfolding digit alphabet
sextet n rest = String.◌∷◌ (digit n alphabet) rest

-- The characters of `text.encode()`, of which each is one byte.
bytes : String → List ℕ
bytes String.[] = []
bytes (String.◌∷◌ c s) = code c ∷ bytes s

-- `base64.b64encode(bytes).decode()`
unfoldable pub b64encode : List ℕ → String
unfolding sextet digit alphabet
b64encode [] = ""
b64encode (a ∷ []) = sextet (a / 4) (sextet (a % 4 * 16) "==")
b64encode (a ∷ b ∷ []) = sextet (a / 4) (sextet (a % 4 * 16 + b / 16) (sextet (b % 16 * 4) "="))
b64encode (a ∷ b ∷ c ∷ rest) =
    sextet (a / 4) (
      sextet (a % 4 * 16 + b / 16)
        (sextet (b % 16 * 4 + c / 64) (sextet (c % 64) (b64encode rest))))

unfoldable pub b64_encoded_string : String → String
unfolding bytes b64encode sextet digit alphabet
b64_encoded_string string_to_encode = b64encode (bytes string_to_encode)
