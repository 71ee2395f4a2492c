-- ===== src/Sandbox/Frames.antt =====
-- The frames between the daemon and an SDK worker in its sandbox: agent_collab/sandbox/worker_codec.py,
-- over a blocking channel. What `json.dumps` and `json.loads` do, with their encoding, is given by the
-- parameters `dumps` and `loads`; a byte is a number below 256.
use agent_collab.Base.{
  ℕ, zero, suc, ◌+◌, ◌-◌, ◌*◌, ◌/◌, ◌%◌, Bool, not, ◌||◌, Option, some, List, [], ◌∷◌, ◌++◌, length,
  take, drop, ltb, ◌=?◌, min, if◌then◌else◌, Result, ok, err, ◌>>=◌, ◌>>◌, require,
  worker_protocol_error, value_error,
}
use agent_collab.Base.Values.{Value, obj, Fields}

abbrev pub Bytes : Type 0
Bytes = List ℕ

-- FRAME_LIMIT
abbrev pub frame_limit : ℕ
frame_limit = 8388608

-- struct.pack(">I", n)
unfoldable pub pack : ℕ → Bytes
pack n = n / 16777216 % 256 ∷ n / 65536 % 256 ∷ n / 256 % 256 ∷ n % 256 ∷ []

-- struct.unpack(">I", header)
unfoldable pub unpack : Bytes → Result ℕ
unpack (a ∷ b ∷ c ∷ d ∷ []) = ok (a * 16777216 + b * 65536 + c * 256 + d)
unpack _ = err value_error

abbrev pub is_bad_length : ℕ → Bool
is_bad_length n = (n =? 0) || ltb frame_limit n

-- What `os.read(channel, k)` gives, when `size + 1` bytes have come: at least one, at most `k`.
unfoldable pub read_some : (size k : ℕ) → Bytes → Bytes × Bytes
read_some size k stream = (take (min k (suc size)) stream, drop (min k (suc size)) stream)

abbrev pub prepend : Bytes → Result (Bytes × Bytes) → Result (Bytes × Bytes)
prepend chunk (ok (bytes, rest)) = ok (chunk ++ bytes, rest)
prepend chunk (err e) = err e

-- _recv_exact, on more rounds than bytes are wanted. `sizes` says how many bytes have come by each read.
unfoldable pub recv_exact :
    (rounds : ℕ) (sizes : ℕ → ℕ) (length : ℕ) → Bytes → Result (Bytes × Bytes)
unfolding read_some
recv_exact rounds sizes zero stream = ok ([], stream)
recv_exact zero sizes (suc n) stream = err worker_protocol_error
recv_exact (suc rounds) sizes (suc n) [] = err worker_protocol_error
recv_exact (suc rounds) sizes (suc n) (b ∷ stream) =
    let (chunk, rest) = read_some (sizes 0) (suc n) (b ∷ stream) in
    prepend chunk (recv_exact rounds (λ i. sizes (suc i)) (suc n - length chunk) rest)

-- The loop of send_frame_sync: `os.write` takes at least one byte of what is left.
unfoldable pub write_all : (rounds : ℕ) (sizes : ℕ → ℕ) (channel view : Bytes) → Bytes
write_all zero sizes channel view = channel
write_all (suc rounds) sizes channel [] = channel
write_all (suc rounds) sizes channel (b ∷ view) =
    let written = min (suc (length view)) (suc (sizes 0)) in
    write_all rounds (λ i. sizes (suc i)) (channel ++ take written (b ∷ view))
      (drop written (b ∷ view))

module _ (dumps : Fields → Bytes) (loads : Bytes → Option Value) where
  -- encode_frame
  unfoldable pub encode_frame : Fields → Result Bytes
  unfolding pack
  encode_frame payload =
      let encoded = dumps payload in
      if is_bad_length (length encoded)
      then err worker_protocol_error
      else ok (pack (length encoded) ++ encoded)

  abbrev pub object_of : Option Value → Result Fields
  object_of (some (obj d)) = ok d
  object_of _ = err worker_protocol_error

  -- decode_frame
  unfoldable pub decode_frame : Bytes → Result Fields
  decode_frame raw =
      if is_bad_length (length raw) then err worker_protocol_error else object_of (loads raw)

  -- recv_frame_sync: the payload, and what is left in the channel
  unfoldable pub recv_frame_sync :
      (header_sizes body_sizes : ℕ → ℕ) → Bytes → Result (Fields × Bytes)
  unfolding recv_exact unpack decode_frame
  recv_frame_sync header_sizes body_sizes channel = do
    header ← recv_exact 4 header_sizes 4 channel
    n ← unpack header.0
    require (not (is_bad_length n)) worker_protocol_error
    body ← recv_exact n body_sizes n header.1
    payload ← decode_frame body.0
    ok (payload, body.1)

  -- send_frame_sync: what the channel holds then
  unfoldable pub send_frame_sync : (sizes : ℕ → ℕ) → (channel : Bytes) → Fields → Result Bytes
  unfolding encode_frame write_all
  send_frame_sync sizes channel payload = do
    data_ ← encode_frame payload
    ok (write_all (length data_) sizes channel data_)
