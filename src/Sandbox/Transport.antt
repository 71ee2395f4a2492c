-- ===== src/Sandbox/Transport.antt =====
-- A frame that is sent is received, however its bytes are cut on the way.
use mathlib.Core.List.{append_assoc, append-nil}
use agent_collab.Base.{
  ℕ, zero, suc, ◌-◌, ◌≤◌, ◌<◌, ◌≡◌, refl, sym, ap, ap₂, subst, ◌∙◌, false, Option, some, [], ◌∷◌,
  ◌++◌, length, take, drop, length-take, length-drop, take-append-drop, min, ok, arith,
}
use agent_collab.Base.Values.{Value, obj, Fields}
use agent_collab.Sandbox.Frames.{
  Bytes, pack, unpack, is_bad_length, prepend, recv_exact, write_all, encode_frame, decode_frame,
  recv_frame_sync, send_frame_sync,
}

unpack-pack : (n : ℕ) → n < 4294967296 → unpack (pack n) ≡ ok n
unfolding unpack pack
unpack-pack n h = ap ok (omega arith)

take_within : (n : ℕ) (xs ys : Bytes) → n ≤ length xs → take n (xs ++ ys) ≡ take n xs
take_within zero xs ys h = refl
take_within (suc n) [] ys h = absurd (omega arith)
take_within (suc n) (x ∷ xs) ys h = ap (λ l. x ∷ l) (take_within n xs ys (omega arith))

drop_within : (n : ℕ) (xs ys : Bytes) → n ≤ length xs → drop n (xs ++ ys) ≡ drop n xs ++ ys
drop_within zero xs ys h = refl
drop_within (suc n) [] ys h = absurd (omega arith)
drop_within (suc n) (x ∷ xs) ys h = drop_within n xs ys (omega arith)

-- The loop of reads gets all bytes that it wants, and no more.
recv_exact_all :
    (rounds : ℕ) (sizes : ℕ → ℕ) (want rest : Bytes)
    → length want ≤ rounds
    → recv_exact rounds sizes (length want) (want ++ rest) ≡ ok (want, rest)
unfolding recv_exact
recv_exact_all zero sizes [] rest h = refl
recv_exact_all (suc rounds) sizes [] rest h = refl
recv_exact_all zero sizes (b ∷ want) rest h = absurd (omega arith)
recv_exact_all (suc rounds) sizes (b ∷ want) rest h =
    let all = b ∷ want in
    let w = min (length all) (suc (sizes 0)) in
    let next : ℕ → ℕ = λ i. sizes (suc i) in
    ap₂ (λ c st. prepend c (recv_exact rounds next (length all - length c) st))
      (take_within w all rest (omega arith)) (drop_within w all rest (omega arith))
    ∙ ap (λ n. prepend (take w all) (recv_exact rounds next n (drop w all ++ rest)))
        (omega (arith, length-take w all, length-drop w all))
    ∙ ap (prepend (take w all))
        (recv_exact_all rounds next (drop w all) rest (omega (arith, length-drop w all)))
    ∙ ap (λ l. ok (l, rest)) (take-append-drop w all)

-- The loop of writes puts all bytes into the channel.
write_all-append :
    (rounds : ℕ) (sizes : ℕ → ℕ) (channel view : Bytes)
    → length view ≤ rounds
    → write_all rounds sizes channel view ≡ channel ++ view
unfolding write_all
write_all-append zero sizes channel [] h = sym (append-nil channel)
write_all-append (suc rounds) sizes channel [] h = sym (append-nil channel)
write_all-append zero sizes channel (b ∷ view) h = absurd (omega arith)
write_all-append (suc rounds) sizes channel (b ∷ view) h =
    let w = min (suc (length view)) (suc (sizes 0)) in
    write_all-append rounds (λ i. sizes (suc i)) (channel ++ take w (b ∷ view)) (drop w (b ∷ view))
      (omega (arith, length-drop w (b ∷ view)))
    ∙ append_assoc channel (take w (b ∷ view)) (drop w (b ∷ view))
    ∙ ap (λ l. channel ++ l) (take-append-drop w (b ∷ view))

within_limit : (n : ℕ) → is_bad_length n ≡ false → n < 4294967296
within_limit n h = ground arith

module _ (dumps : Fields → Bytes) (loads : Bytes → Option Value) where
  received :
      (hs bs : ℕ → ℕ) (channel header body left : Bytes) (n : ℕ) (payload : Fields)
      → recv_exact 4 hs 4 channel ≡ ok (header, body ++ left)
      → unpack header ≡ ok n
      → is_bad_length n ≡ false
      → recv_exact n bs n (body ++ left) ≡ ok (body, left)
      → decode_frame dumps loads body ≡ ok payload
      → recv_frame_sync dumps loads hs bs channel ≡ ok (payload, left)
  unfolding recv_frame_sync
  received hs bs channel header body left n payload head size good whole parsed =
      rw (head, size, good, whole, parsed) refl

  four_bytes :
      (n : ℕ) (left : Bytes) (hs : ℕ → ℕ) → recv_exact 4 hs 4 (pack n ++ left) ≡ ok (pack n, left)
  unfolding pack
  four_bytes n left hs = recv_exact_all 4 hs (pack n) left (omega arith)

  -- A frame that is sent over a channel, in any pieces, and read from it, in any pieces, is received as
  -- it was, and what follows it is left in the channel, if JSON reads back what it wrote of the payload
  -- and if the frame is neither empty nor longer than the limit.
  pub recv_frame_sync-send_frame_sync :
      (write_sizes header_sizes body_sizes : ℕ → ℕ) (payload : Fields) (rest : Bytes)
      → loads (dumps payload) ≡ some (obj payload)
      → is_bad_length (length (dumps payload)) ≡ false
      → (sent : Bytes) × (send_frame_sync dumps loads write_sizes [] payload ≡ ok sent)
        × (recv_frame_sync dumps loads header_sizes body_sizes (sent ++ rest) ≡ ok (payload, rest))
  unfolding send_frame_sync encode_frame decode_frame
  recv_frame_sync-send_frame_sync write_sizes header_sizes body_sizes payload rest back fits =
      let body = dumps payload in
      let frame = pack (length body) ++ body in
      (
        frame,
        rw fits (ap ok (write_all-append (length frame) write_sizes [] frame (omega arith))),
        subst (λ c. recv_frame_sync dumps loads header_sizes body_sizes c ≡ ok (payload, rest))
            (sym (append_assoc (pack (length body)) body rest))
            (received header_sizes body_sizes (pack (length body) ++ (body ++ rest))
              (pack (length body)) body rest (length body) payload
              (four_bytes (length body) (body ++ rest) header_sizes)
              (unpack-pack (length body) (within_limit (length body) fits)) fits
              (recv_exact_all (length body) body_sizes body rest (omega arith))
              (rw (fits, back) refl)),
      )
