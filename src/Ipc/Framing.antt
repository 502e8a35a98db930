-- ===== src/Ipc/Framing.antt =====
-- The frames of src/ipc/protocol.rs are read back as they were sent.
use cache_cleaner.Base.{
  ℕ, ◌%◌, ◌^◌, ◌≤◌, ◌<◌, ◌≡◌, refl, ap, ◌∙◌, inl, inr, false, Option, some, List, [], ◌∷◌, ◌++◌,
  length, ltb, none, Option-cases, Result, ok, err, arith,
}
use cache_cleaner.Domain.Error.{CleanerError, json}
use cache_cleaner.Ipc.{
  max_ipc_frame_size, to_be_bytes, from_be_bytes, read_exact, send_message, read_payload,
  read_message,
}

from_be_bytes-to_be_bytes : (n : ℕ) → n < 2 ^ 32 → from_be_bytes (to_be_bytes n) ≡ n
from_be_bytes-to_be_bytes n lt = omega (arith, lt)

read_exact-append : (xs rest : List ℕ) → read_exact (length xs) (xs ++ rest) ≡ some (xs, rest)
read_exact-append [] rest = refl
read_exact-append (x ∷ xs) rest = rw (read_exact-append xs rest) refl

append_assoc : (xs ys zs : List ℕ) → (xs ++ ys) ++ zs ≡ xs ++ (ys ++ zs)
append_assoc [] ys zs = refl
append_assoc (x ∷ xs) ys zs = ap (λ l. x ∷ l) (append_assoc xs ys zs)

-- What a decoded payload gives, before the rest of the stream
abbrev pub decoded : {A : Type 0} → Option A → List ℕ → Result CleanerError (A × List ℕ)
decoded none rest = err json
decoded (some m) rest = ok (m, rest)

module _ {A : Type 0} (to_vec : A → Option (List ℕ)) (from_slice : List ℕ → Option A) where
  sent-is :
      (m : A) (stream after : List ℕ)
      → send_message to_vec from_slice m stream ≡ ok after
      → (payload : List ℕ) × ((to_vec m ≡ some payload)
          × (length payload ≤ max_ipc_frame_size)
          × (after ≡ stream ++ (to_be_bytes (length payload % 2 ^ 32) ++ payload)))
  unfolding send_message
  sent-is m stream after sent = elim (Option-cases (to_vec m)) [
    | inl e ↦ absurd (ground (arith, e, sent))
    | inr (payload, e) ↦ (payload, (e, ground (arith, e, sent), ground (arith, e, sent)))
  ]

  read_message-framed :
      (payload rest : List ℕ)
      → length payload ≤ max_ipc_frame_size
      → read_message to_vec from_slice (to_be_bytes (length payload % 2 ^ 32) ++ (payload ++ rest))
        ≡ decoded (from_slice payload) rest
  unfolding read_message read_payload
  read_message-framed payload rest le =
      let n = length payload in
      let small : n % 2 ^ 32 ≡ n = omega (arith, le) in
      let back : from_be_bytes (to_be_bytes (n % 2 ^ 32)) ≡ n =
        rw small (from_be_bytes-to_be_bytes n (omega (arith, le))) in
      let fits : ltb max_ipc_frame_size n ≡ false = ground (arith, le) in
      elim (Option-cases (from_slice payload)) [
        | inl e ↦ rw (back, fits, read_exact-append payload rest, e) refl
        | inr (m, e) ↦ rw (back, fits, read_exact-append payload rest, e) refl
      ]

  -- The reader of a sent message decodes exactly the bytes that its encoder gave, whatever
  -- follows them: it returns what these bytes decode to and then stands at what was sent after them,
  -- and it fails only if they do not decode.
  pub read_message-send_message :
      (m : A) (frame rest : List ℕ)
      → send_message to_vec from_slice m [] ≡ ok frame
      → (payload : List ℕ) × ((to_vec m ≡ some payload)
          × (read_message to_vec from_slice (frame ++ rest) ≡ decoded (from_slice payload) rest))
  read_message-send_message m frame rest sent =
      let (payload, (e, le, is)) = sent-is m [] frame sent in
      (
        payload,
        (
          e,
          ap (λ f. read_message to_vec from_slice (f ++ rest)) is
              ∙ (ap (read_message to_vec from_slice)
                    (append_assoc (to_be_bytes (length payload % 2 ^ 32)) payload rest)
                  ∙ read_message-framed payload rest le),
        ),
      )
