-- ===== src/Http/Stream.antt =====
-- The response buffer of ably-c/src/http/http_client.c.
use ably_connectors.Prelude.{
  ℕ, ◌-◌, ◌≤◌, ◌≡◌, refl, ap, ◌∙◌, arith, append-nil, Bool, true, false, some, List, [], ◌∷◌, ◌++◌,
  length, length-append, length-take, take, take-length_le, leb, inl, inr, Bool-cases, suc, zero,
}
use ably_connectors.Http.Exchange.{Read, want_read, ended, broken, bytes, read_response}

-- The bytes that the peer sends before it closes.
unfoldable pub stream : List Read → List ℕ
stream [] = []
stream (want_read ∷ reads) = stream reads
stream (ended ∷ reads) = []
stream (broken ∷ reads) = []
stream (bytes s ∷ reads) = s ++ stream reads

-- No read fails before the peer closes.
unfoldable pub is_sound : List Read → Bool
is_sound [] = true
is_sound (want_read ∷ reads) = is_sound reads
is_sound (ended ∷ reads) = true
is_sound (broken ∷ reads) = false
is_sound (bytes s ∷ reads) = is_sound reads

take_past : (n : ℕ) (s t : List ℕ) → n ≤ length s → take n (s ++ t) ≡ take n s
take_past zero s t h = refl
take_past (suc n) [] t h = absurd (omega arith)
take_past (suc n) (x ∷ s) t h = ap (λ r. x ∷ r) (take_past n s t (omega arith))

take-take : (n : ℕ) (s t : List ℕ) → take n (take n s ++ t) ≡ take n (s ++ t)
take-take zero s t = refl
take-take (suc n) [] t = refl
take-take (suc n) (x ∷ s) t = ap (λ r. x ∷ r) (take-take n s t)

-- Cutting the second part to what is left does not change what is kept of the whole.
take_room :
    (n : ℕ) (front s t : List ℕ)
    → length front ≤ n
    → take n ((front ++ take (n - length front) s) ++ t) ≡ take n (front ++ (s ++ t))
take_room n [] s t h = let all : n - 0 ≡ n = omega arith in rw all (take-take n s t)
take_room zero (x ∷ front) s t h = absurd (omega arith)
take_room (suc n) (x ∷ front) s t h =
    let left : suc n - suc (length front) ≡ n - length front = omega arith in
    rw left (ap (λ r. x ∷ r) (take_room n front s t (omega arith)))

module _ (size : ℕ) where
  full :
      (received later : List ℕ)
      → length received ≤ size - 1
      → leb (size - 1) (length received) ≡ true
      → take (size - 1) (received ++ later) ≡ received
  full received later room e =
      take_past (size - 1) received later (ground (arith, e))
      ∙ take-length_le (size - 1) received room

  -- Reads none of which fails before the peer closes, however the bytes are cut up and however often
  -- the socket has none: the buffer gets the bytes that the peer sends, in their order, up to the one
  -- byte that is kept for the NUL.
  pub read_response-stream :
      (received : List ℕ) (reads : List Read)
      → length received ≤ size - 1
      → is_sound reads ≡ true
      → read_response size received reads ≡ some (take (size - 1) (received ++ stream reads))
  unfolding read_response stream is_sound
  read_response-stream received [] room sound =
      rw (append-nil, take-length_le (size - 1) received room) refl
  read_response-stream received (want_read ∷ reads) room sound =
      elim (Bool-cases (leb (size - 1) (length received))) [
        | inl e ↦ rw (e, full received (stream reads) room e) refl
        | inr e ↦ rw e (read_response-stream received reads room sound)
      ]
  read_response-stream received (ended ∷ reads) room sound =
      rw (append-nil, take-length_le (size - 1) received room) refl
  read_response-stream received (broken ∷ reads) room sound = absurd (cc sound)
  read_response-stream received (bytes s ∷ reads) room sound =
      elim (Bool-cases (leb (size - 1) (length received))) [
        | inl e ↦ rw (e, full received (s ++ stream reads) room e) refl
        | inr e ↦
            let part = take (size - 1 - length received) s in
            let inside : length (received ++ part) ≤ size - 1 = omega (
              arith,
              room,
              length-append received part,
              length-take (size - 1 - length received) s,
            ) in
            rw e (
              read_response-stream (received ++ part) reads inside sound
              ∙ ap some (take_room (size - 1) received s (stream reads) room))
      ]
