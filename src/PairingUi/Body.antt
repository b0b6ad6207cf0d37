-- ===== src/PairingUi/Body.antt =====
-- components/switchbot_keypad_bridge/pairing_ui.cpp: reading a request's body (`read_body_`).
use switchbot_keypad_bridge.Common.{
  ℕ, zero, suc, ◌-◌, ◌≤◌, ◌<◌, ◌≡◌, refl, sym, ap, ◌∙◌, false, ◌||◌, List, [], ◌∷◌, ◌++◌,
  append_assoc, append-nil, arith, ltb, ◌==◌, if◌then◌else◌, length, take, is_nil, All,
  length-append, Bytes,
}

abbrev pub max_body_len : ℕ
max_body_len = 2048

-- The loop: `missing` bytes are still to come, and each call of `httpd_req_recv` returns at most so many.
-- A call without bytes is an error or the end of the connection, and so is the end of the list.
unfoldable pub receive : ℕ → List Bytes → Bytes → Bytes
receive zero calls buf = buf
receive (suc missing) [] buf = []
receive (suc missing) (c ∷ calls) buf =
    let rest = receive (suc missing - length c) calls (buf ++ take (suc missing) c) in
    if is_nil c then [] else rest

unfoldable pub read_body : ℕ → List Bytes → Bytes
read_body content_len calls =
    if content_len == 0 || ltb max_body_len content_len then [] else receive content_len calls []

-- What all the calls would return.
abbrev pub stream_of : List Bytes → Bytes
stream_of [] = []
stream_of (c ∷ calls) = c ++ stream_of calls

take-append : (n : ℕ) (xs ys : Bytes) → take n (xs ++ ys) ≡ take n xs ++ take (n - length xs) ys
take-append zero [] ys = refl
take-append zero (x ∷ xs) ys = ap (λ k. take k ys) {x = 0} {y = 0 - length (x ∷ xs)} (omega arith)
take-append (suc n) [] ys = ap (λ k. take k ys) {x = suc n} {y = suc n - 0} (omega arith)
take-append (suc n) (x ∷ xs) ys = ap (x ∷◌) (
    take-append n xs ys
    ∙ ap (λ k. take n xs ++ take k ys) {x = n - length xs} {y = suc n - length (x ∷ xs)}
        (omega arith))

receive-stream_of :
    (calls : List Bytes) (missing : ℕ) (buf : Bytes)
    → All (λ c. is_nil c ≡ false) calls
    → missing ≤ length (stream_of calls)
    → receive missing calls buf ≡ buf ++ take missing (stream_of calls)
unfolding receive
receive-stream_of calls zero buf given enough = sym (append-nil buf)
receive-stream_of [] (suc missing) buf given enough = absurd (omega arith)
receive-stream_of (c ∷ calls) (suc missing) buf given enough = rw (given.0) (
    receive-stream_of calls (suc missing - length c) (buf ++ take (suc missing) c) given.1
      (omega (arith, length-append c (stream_of calls)))
    ∙ append_assoc buf (take (suc missing) c) (take (suc missing - length c) (stream_of calls))
    ∙ ap (λ t. buf ++ t) (sym (take-append (suc missing) c (stream_of calls))))

-- A body of 1 to 2048 bytes that arrives completely is read whole, however it is split into segments.
pub read_body-stream_of :
    (content_len : ℕ) (calls : List Bytes)
    → 0 < content_len
    → content_len ≤ max_body_len
    → All (λ c. is_nil c ≡ false) calls
    → content_len ≤ length (stream_of calls)
    → read_body content_len calls ≡ take content_len (stream_of calls)
unfolding read_body
read_body-stream_of content_len calls some_bytes fits given enough =
    ground (arith, receive-stream_of calls content_len [] given enough)
