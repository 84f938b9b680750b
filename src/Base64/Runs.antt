-- ===== src/Base64/Runs.antt =====
-- Base64 on concrete bytes.
use ably_connectors.Prelude.{◌≡◌, refl, arith, none, some}
use ably_connectors.Base64.{
  codes, symbol, triple, encode, b64_dec, is_blank, trim, trim_before, decode_from, decode,
}
use ably_connectors.Base64.Decode.{decode-encode}

encode_foob : encode (codes "foob") ≡ codes "Zm9vYg=="
unfolding encode symbol triple
encode_foob = refl

decode_foob : decode 4 (codes "Zm9vYg==\r\n") ≡ some (codes "foob")
unfolding decode decode_from trim trim_before is_blank b64_dec
decode_foob = refl

decode_full : decode 3 (codes "Zm9vYg==") ≡ none
unfolding decode decode_from trim trim_before is_blank b64_dec
decode_full = refl

-- A group that is cut short is dropped without an error.
decode_cut : decode 9 (codes "Zm9vYg") ≡ some (codes "foo")
unfolding decode decode_from trim trim_before is_blank b64_dec
decode_cut = refl

decode-encode_example : decode 4 (encode (codes "foob")) ≡ some (codes "foob")
decode-encode_example = decode-encode (codes "foob") 4 (omega arith) (omega arith)
