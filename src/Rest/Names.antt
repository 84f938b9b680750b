-- ===== src/Rest/Names.antt =====
-- Channel names in the request paths of ably-c/src/rest/rest_client.c.
use ably_connectors.Prelude.{
  ℕ, suc, ◌+◌, ◌≤◌, ◌<◌, ◌≡◌, ◌≢◌, refl, true, false, some, append_assoc, append-nil, sym, ap, ◌∙◌,
  arith, List, [], ◌∷◌, ◌++◌, length, length-append, All, take, drop, ltb, if◌then◌else◌, inl, inr,
  Bool-cases,
}
use ably_connectors.Base64.{codes}
use ably_connectors.Client.Url.{is_unreserved, url_encode_from}
use ably_connectors.Client.UrlCoding.{IsByte, url_decode, url_encode_from-url_decode}
use ably_connectors.Rest.Text.{url_encode_channel_from, url_encode_channel, decimal}
use ably_connectors.Rest.Paths.{publish_path, is_path, history_base, history_queries, history_path}
use ably_connectors.Rest.Bounds.{query, history_path-query}

-- The bytes that the encoded name takes.
unfoldable pub encoded_size : List ℕ → ℕ
encoded_size [] = 0
encoded_size (c ∷ name) = (if is_unreserved c then 1 else 3) + encoded_size name

url_encode_channel_from-cut :
    (name more other : List ℕ) (out : ℕ)
    → 252 ≤ out + encoded_size name
    → url_encode_channel_from 256 out (name ++ more)
      ≡ url_encode_channel_from 256 out (name ++ other)
unfolding url_encode_channel_from encoded_size
url_encode_channel_from-cut [] [] [] out full = refl
url_encode_channel_from-cut [] [] (d ∷ other) out full = ground arith
url_encode_channel_from-cut [] (c ∷ more) [] out full = ground arith
url_encode_channel_from-cut [] (c ∷ more) (d ∷ other) out full = ground arith
url_encode_channel_from-cut (c ∷ name) more other out full = elim (Bool-cases (is_unreserved c)) [
  | inl plain ↦
      let shown : encoded_size (c ∷ name) ≡ 1 + encoded_size name = rw plain refl in
      let later = url_encode_channel_from-cut name more other (out + 1) (omega (arith, shown)) in
      rw (plain, later) refl
  | inr escaped ↦
      let shown : encoded_size (c ∷ name) ≡ 3 + encoded_size name = rw escaped refl in
      let later = url_encode_channel_from-cut name more other (out + 3) (omega (arith, shown)) in
      rw (escaped, later) refl
]

-- Two channels whose names agree in a part that takes 252 bytes or more when it is encoded: what is
-- published to the one goes under the same path as what is published to the other.
pub publish_path-cut :
    (name more other : List ℕ)
    → 252 ≤ encoded_size name
    → publish_path (name ++ more) ≡ publish_path (name ++ other)
unfolding publish_path url_encode_channel
publish_path-cut name more other full =
    ap (λ encoded. take 511 (codes "/channels/" ++ encoded ++ codes "/messages"))
      (url_encode_channel_from-cut name more other 0 (omega (arith, full)))

-- The two encoders differ in the room that they want.
url_encode_channel_from_lem :
    (name : List ℕ) (size out : ℕ)
    → url_encode_channel_from (suc size) out name ≡ url_encode_from size out name
unfolding url_encode_channel_from url_encode_from
url_encode_channel_from_lem [] size out = refl
url_encode_channel_from_lem (c ∷ name) size out =
    let same : ltb (out + 4) (suc size) ≡ ltb (out + 3) size = ground arith in
    rw
      (
        same,
        url_encode_channel_from_lem name size (out + 1),
        url_encode_channel_from_lem name size (out + 3),
      )
      refl

url_encode_channel-url_decode :
    (name : List ℕ)
    → All IsByte name
    → length name ≤ 255
    → url_decode (url_encode_channel 768 name) ≡ name
unfolding url_encode_channel
url_encode_channel-url_decode name bytes short =
    ap url_decode (url_encode_channel_from_lem name 767 0)
    ∙ url_encode_from-url_decode name 767 0 bytes (omega (arith, short))

append_cancel_right : (xs ys zs : List ℕ) → xs ++ zs ≡ ys ++ zs → xs ≡ ys
append_cancel_right [] [] zs e = refl
append_cancel_right [] (y ∷ ys) zs e = absurd (omega (arith, ap length e, length-append ys zs))
append_cancel_right (x ∷ xs) [] zs e = absurd (omega (arith, ap length e, length-append xs zs))
append_cancel_right (x ∷ xs) (y ∷ ys) zs e =
    let tails : xs ++ zs ≡ ys ++ zs = cc e in
    let same = append_cancel_right xs ys zs tails in cc (e, same)

-- Names of at most 255 bytes: channels with the same path in `ably_rest_channel_history` have the
-- same name.
history_base_injective :
    (name other : List ℕ)
    → All IsByte name
    → All IsByte other
    → length name ≤ 255
    → length other ≤ 255
    → history_base name ≡ history_base other
    → name ≡ other
history_base_injective name other bytes bytes' short short' e =
    let encoded =
      append_cancel_right (url_encode_channel 768 name) (url_encode_channel 768 other)
        (codes "/messages") (ap (drop 10) e) in
    sym (url_encode_channel-url_decode name bytes short)
    ∙ ap url_decode encoded
    ∙ url_encode_channel-url_decode other bytes' short'

-- The request for a part of the history of the channel with this encoded name.
abbrev pub history_request :
    (encoded : List ℕ) (limit : ℕ) (direction from_serial : List ℕ) → List ℕ
history_request encoded limit direction from_serial =
    codes "/channels/"
    ++ (encoded
        ++ (codes "/messages?limit="
            ++ (decimal limit
                ++ (codes "&direction=" ++ (direction ++ (codes "&fromSerial=" ++ from_serial))))))

history_base-request :
    (channel : List ℕ) (limit d : ℕ) (direction : List ℕ) (c : ℕ) (from_serial : List ℕ)
    → 0 < limit
    → history_base channel ++ query 63 (history_queries limit (d ∷ direction) (c ∷ from_serial))
      ≡ history_request (url_encode_channel 768 channel) limit (d ∷ direction) (c ∷ from_serial)
unfolding query
history_base-request channel limit d direction c from_serial wanted =
    let asked : ltb 0 limit ≡ true = ground (arith, wanted) in
    let dir : ltb 0 (suc (length direction)) ≡ true = ground arith in
    let ser : ltb 0 (suc (length from_serial)) ≡ true = ground arith in
    rw (asked, dir, ser, append-nil)
      (ap (λ s. codes "/channels/" ++ s)
        (append_assoc (url_encode_channel 768 channel) (codes "/messages") _))

-- A channel name of at most 255 bytes, a limit, a direction and a serial that is not the path of a
-- cursor, and a request that fits into the array of 1024 bytes: the path of `ably_rest_channel_history`
-- is the request with the name of the channel, which decodes from it again, the limit, and the texts
-- of direction and serial as they are.
pub history_path-request :
    (channel : List ℕ) (limit d : ℕ) (direction : List ℕ) (c : ℕ) (from_serial : List ℕ)
    → All IsByte channel
    → length channel ≤ 255
    → 0 < limit
    → c ≢ 47
    → length
        (history_request (url_encode_channel 768 channel) limit (d ∷ direction) (c ∷ from_serial))
      < 1024
    → (history_path channel limit (d ∷ direction) (c ∷ from_serial)
        ≡ some (
            history_request
              (url_encode_channel 768 channel)
              limit
              (d ∷ direction)
              (c ∷ from_serial)))
      × (url_decode (url_encode_channel 768 channel) ≡ channel)
history_path-request channel limit d direction c from_serial bytes short wanted no_path room =
    let serial : is_path (c ∷ from_serial) ≡ false = ground (arith, no_path) in
    let same = history_base-request channel limit d direction c from_serial wanted in
    (
      history_path-query channel limit (d ∷ direction) (c ∷ from_serial) serial (
            omega (
              arith,
              room,
              ap length same,
              length-append (history_base channel)
                  (query 63 (history_queries limit (d ∷ direction) (c ∷ from_serial))),
            ))
          ∙ ap some same,
      url_encode_channel-url_decode channel bytes short,
    )
