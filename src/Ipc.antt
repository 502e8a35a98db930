-- ===== src/Ipc.antt =====
-- `send_message` and `read_message` of src/ipc/protocol.rs: JSON messages behind their length. The
-- serde_json crate is a parameter; a stream is the bytes that are on it.
pub mod Framing
use cache_cleaner.Base.{
  ℕ, zero, suc, ◌+◌, ◌*◌, ◌/◌, ◌%◌, ◌^◌, Bool, Option, none, some, List, [], ◌∷◌, ◌++◌, length, ltb,
  if◌then◌else◌, Result, ok, err,
}
use cache_cleaner.Domain.Error.{CleanerError, ipc, json, io, other}

abbrev pub max_ipc_frame_size : ℕ
max_ipc_frame_size = 2 * 1024 * 1024

-- `u32::to_be_bytes` and `u32::from_be_bytes`
abbrev pub to_be_bytes : ℕ → List ℕ
to_be_bytes n = n / 2 ^ 24 % 256 ∷ n / 2 ^ 16 % 256 ∷ n / 2 ^ 8 % 256 ∷ n % 256 ∷ []

abbrev pub from_be_bytes : List ℕ → ℕ
from_be_bytes (a ∷ b ∷ c ∷ d ∷ []) = a * 2 ^ 24 + b * 2 ^ 16 + c * 2 ^ 8 + d
from_be_bytes _ = 0

-- `read_exact`: the bytes and the rest of the stream, or `none` at its end.
abbrev pub read_exact : ℕ → List ℕ → Option (List ℕ × List ℕ)
read_exact zero stream = some ([], stream)
read_exact (suc k) [] = none
read_exact (suc k) (b ∷ stream) = elim (read_exact k stream) [
  | none ↦ none
  | some (taken, rest) ↦ some (b ∷ taken, rest)
]

module _ {A : Type 0} (to_vec : A → Option (List ℕ)) (from_slice : List ℕ → Option A) where
  -- `send_message`: the stream with the frame behind it
  unfoldable pub send_message : A → List ℕ → Result CleanerError (List ℕ)
  send_message message stream = elim (to_vec message) [
    | none ↦ err json
    | some payload ↦
        if ltb max_ipc_frame_size (length payload)
        then err (ipc (length payload))
        else ok (stream ++ (to_be_bytes (length payload % 2 ^ 32) ++ payload))
  ]

  -- The payload of a frame of the given length
  unfoldable pub read_payload : ℕ → List ℕ → Result CleanerError (A × List ℕ)
  read_payload len stream =
      if ltb max_ipc_frame_size len then err (ipc len) else elim (read_exact len stream) [
        | none ↦ err (io (other 0))
        | some (payload, rest) ↦ elim (from_slice payload) [
          | none ↦ err json
          | some message ↦ ok (message, rest)
        ]
      ]

  -- `read_message`: the message and the rest of the stream
  unfoldable pub read_message : List ℕ → Result CleanerError (A × List ℕ)
  read_message stream = elim (read_exact 4 stream) [
    | none ↦ err (io (other 0))
    | some (header, rest) ↦ read_payload (from_be_bytes header) rest
  ]
