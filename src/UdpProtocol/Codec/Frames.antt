-- ===== src/UdpProtocol/Codec/Frames.antt =====
-- crates/udp-protocol/src/codec.rs: the frames that `encode_frames` writes into a payload are those
-- that `decode_frames` reads.
use dart_udp.Base.{
  ℕ, zero, suc, ◌+◌, ◌≤◌, ◌<◌, ◌≡◌, refl, sym, ap, ◌∙◌, arith, List, [], ◌∷◌, ◌++◌, map, length,
  length-append, get_elem?-parts, get_range-parts, some, ltb, lt→ltb, le→ltb, ok, All, >>=-eq-ok,
  fail_if,
}
use mathlib.Core.List.{append-nil, append_assoc}
use dart_udp.Base.Words.{u64_max, checked_add}
use dart_udp.UdpProtocol.Error.{frame_too_large}
use dart_udp.UdpProtocol.Cursor.{Reads, extend, >=>-eq-ok}
use dart_udp.UdpProtocol.Varint
use dart_udp.UdpProtocol.Varint.RoundTrip.{encode-ReadsBack}
use dart_udp.UdpProtocol.Frame.{Frame, type_code, max_frame_body_len}
use dart_udp.UdpProtocol.Frame.Body
use dart_udp.UdpProtocol.Frame.RoundTrip.{IsTyped, on_wire, decode-encode}
use dart_udp.UdpProtocol.Codec.{encode_each, decode_one, decode_each}

-- What a frame adds to the payload: its type code, the length of its body, and the body.
record Written (frame : Frame) (body len_bytes added : List ℕ) : Type 0 where
  encoded : Body.encode_body frame [] ≡ ok body
  small : length body ≤ max_frame_body_len
  shape : added ≡ type_code frame ∷ (len_bytes ++ body)
  reads : Reads Varint.decode len_bytes (length body)

encode-Written :
    (frame : Frame) (output output' : List ℕ)
    → Body.encode frame output ≡ ok output'
    → (body : List ℕ) × (len_bytes : List ℕ) × (added : List ℕ) × (output' ≡ output ++ added)
      × Written frame body len_bytes added
unfolding Body.encode
encode-Written frame output output' h =
    let (body, h₁, h₂) = >>=-eq-ok (Body.encode_body frame []) _ h in
    let (u, small, h₃) =
      >>=-eq-ok
        (fail_if (ltb max_frame_body_len (length body))
          (frame_too_large max_frame_body_len (length body)))
        _ h₂ in
    let (next, h₄, h₅) =
      >=>-eq-ok (Varint.encode (length body)) (extend body) (output ++ (type_code frame ∷ [])) h₃ in
    let (len_bytes, e, read) =
      encode-ReadsBack (length body) (output ++ (type_code frame ∷ [])) next h₄ in
    let last : output' ≡ next ++ body = cc in
    (
      body,
      len_bytes,
      type_code frame ∷ (len_bytes ++ body),
      last
          ∙ ap (λ t. t ++ body) e
          ∙ append_assoc (output ++ (type_code frame ∷ [])) len_bytes body
          ∙ append_assoc output (type_code frame ∷ []) (len_bytes ++ body),
      record { encoded = h₁; small = ground (arith, small); shape = refl; reads = read },
    )

Written-Reads :
    (frame : Frame) (body len_bytes added : List ℕ)
    → IsTyped frame
    → Written frame body len_bytes added
    → Reads decode_one added (on_wire frame)
unfolding decode_one
Written-Reads frame body len_bytes added t w input front back offset fits e o =
    rw
      (
        get_elem?-parts input front (type_code frame) ((len_bytes ++ body) ++ back) offset at o,
        w.reads input (front ++ (type_code frame ∷ [])) (body ++ back) (offset + 1) fits at_len
            (omega (arith, o, length-append front (type_code frame ∷ []))),
        le→ltb max_frame_body_len (length body) w.small,
        room,
        get_range-parts input (front ++ (type_code frame ∷ len_bytes)) body back start
            (start + length body) at_body at_start (omega (arith, at_start)),
        decode-encode frame body t w.encoded (omega (arith, w.small)),
      )
      (ap (λ n. ok (on_wire frame, n)) total)
  where
    start : ℕ
    start = offset + 1 + length len_bytes

    at : input ≡ front ++ (type_code frame ∷ ((len_bytes ++ body) ++ back))
    at = e ∙ ap (λ s. front ++ (s ++ back)) w.shape

    regrouped : input ≡ front ++ (type_code frame ∷ (len_bytes ++ (body ++ back)))
    regrouped = at ∙ ap (λ s. front ++ (type_code frame ∷ s)) (append_assoc len_bytes body back)

    at_len : input ≡ (front ++ (type_code frame ∷ [])) ++ (len_bytes ++ (body ++ back))
    at_len =
        regrouped ∙ sym (append_assoc front (type_code frame ∷ []) (len_bytes ++ (body ++ back)))

    at_body : input ≡ (front ++ (type_code frame ∷ len_bytes)) ++ (body ++ back)
    at_body = regrouped ∙ sym (append_assoc front (type_code frame ∷ len_bytes) (body ++ back))

    at_start : start ≡ length (front ++ (type_code frame ∷ len_bytes))
    at_start = omega (arith, o, length-append front (type_code frame ∷ len_bytes))

    inside : start + length body ≤ u64_max
    inside = omega (
      arith,
      at_start,
      fits,
      ap length at_body,
      length-append (front ++ (type_code frame ∷ len_bytes)) (body ++ back),
      length-append body back,
    )

    room : checked_add start (length body) ≡ some (start + length body)
    room = rw (le→ltb u64_max (start + length body) inside)

    total : start + length body ≡ offset + length added
    total = omega (arith, ap length w.shape, length-append len_bytes body)

encode_each-appends :
    (frames : List Frame) (payload payload' : List ℕ)
    → encode_each frames payload ≡ ok payload'
    → (added : List ℕ) × (payload' ≡ payload ++ added)
unfolding encode_each
encode_each-appends [] payload payload' h = ([], ground (arith, append-nil payload))
encode_each-appends (f ∷ fs) payload payload' h =
    let (mid, h₁, h₂) = >>=-eq-ok (Body.encode f payload) _ h in
    let (body, len_bytes, first, e₁, w) = encode-Written f payload mid h₁ in
    let (rest, e₂) = encode_each-appends fs mid payload' h₂ in
    (first ++ rest, e₂ ∙ ap (λ t. t ++ rest) e₁ ∙ append_assoc payload first rest)

-- Frames that are written behind a payload are read from there to the end, if no more of them come
-- than the reader has room for.
pub decode_each-encode_each :
    (frames : List Frame) (room : ℕ) (payload payload' : List ℕ)
    → All IsTyped frames
    → length frames ≤ room
    → encode_each frames payload ≡ ok payload'
    → length payload' ≤ u64_max
    → decode_each room payload' (length payload) ≡ ok (map on_wire frames)
unfolding encode_each decode_each
decode_each-encode_each [] zero payload payload' t r h fits = ground arith
decode_each-encode_each [] (suc room) payload payload' t r h fits = ground arith
decode_each-encode_each (f ∷ fs) zero payload payload' t r h fits = absurd (omega arith)
decode_each-encode_each (f ∷ fs) (suc room) payload payload' (tf, t) r h fits =
    let (mid, h₁, h₂) = >>=-eq-ok (Body.encode f payload) _ h in
    let (body, len_bytes, first, e₁, w) = encode-Written f payload mid h₁ in
    let (rest, e₂) = encode_each-appends fs mid payload' h₂ in
    let whole : payload' ≡ payload ++ (first ++ rest) =
      e₂ ∙ ap (λ t. t ++ rest) e₁ ∙ append_assoc payload first rest in
    let next : length mid ≡ length payload + length first =
      ap length e₁ ∙ length-append payload first in
    let more : length payload < length payload' = omega (
      arith,
      ap length whole,
      length-append payload (first ++ rest),
      length-append first rest,
      ap length w.shape,
    ) in
    rw (
      lt→ltb (length payload) (length payload') more,
      Written-Reads f body len_bytes first tf w payload' payload rest (length payload) fits whole
          refl,
      ← next,
      decode_each-encode_each fs room mid payload' t (omega arith) h₂ fits,
    )
