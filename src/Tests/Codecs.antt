-- ===== src/Tests/Codecs.antt =====
-- The encodings at concrete inputs.
use wpp.Prelude.{Bytes, ◌≤◌, some, [], ◌∷◌, ◌++◌, ◌≡◌, refl, codes, arith, length, c_str}
use wpp.Base64.{base64_encode, base64_decode}
use wpp.Base64.RoundTrip.{base64_decode-base64_encode}
use wpp.UrlEncode.{encode, decode}
use wpp.UrlEncode.RoundTrip.{blank_as_space, decode-encode}
use wpp.UrlEncode.Bounds.{decode_within}
use wpp.Tests.Checks.{are_bytes_sound}

base64_decode-base64_encode_example : base64_decode (base64_encode (codes "hello")) ≡ codes "hello"
base64_decode-base64_encode_example =
    base64_decode-base64_encode (codes "hello") (are_bytes_sound (codes "hello") refl)

decode-encode_example : decode (encode (codes "a b/\t")) ≡ some (codes "a b/ ")
unfolding blank_as_space c_str
decode-encode_example = decode-encode (codes "a b/\t") (are_bytes_sound (codes "a b/\t") refl)

decode_within_example :
    (out : Bytes) × (decode (codes "a%2" ++ b'f' ∷ b'b' ∷ []) ≡ some out) × (length out ≤ 5)
decode_within_example = decode_within (codes "a%2") b'f' b'b' (omega arith) (omega arith)
