-- ===== src/Ssr/Protocol/Frame.antt =====
-- The layout of a data packet of src/ssr/protocol.rs: length, MAC, padding and payload, checksum.
use sspanel_ssr_rust_backend.Base.{
  ℕ, ◌+◌, ◌<◌, ◌≡◌, refl, ◌∙◌, List, [], ◌∷◌, ◌++◌, arith, length, length-append, slice,
  slice_middle, drop, drop-append_exact, get_or, get_or_middle, append_assoc,
}
use sspanel_ssr_rust_backend.Base.Bytes.{u16_le_bytes}
use sspanel_ssr_rust_backend.Ssr.Protocol.{u16_le}

pub u16_le-u16_le_bytes : (n : ℕ) → n < 65536 → u16_le (u16_le_bytes n) ≡ n
unfolding u16_le u16_le_bytes
u16_le-u16_le_bytes n h = omega arith

module _ (head mac : List ℕ) (marker : ℕ) (buf tail rest : List ℕ) where
  abbrev pub frame_body : List ℕ
  frame_body = head ++ mac ++ marker ∷ buf

  abbrev pub frame : List ℕ
  frame = (frame_body ++ tail) ++ rest

  module _ (h : length head ≡ 2) (m : length mac ≡ 2) (t : length tail ≡ 4) where
    length-frame_body : length frame_body ≡ length buf + 5
    length-frame_body =
        omega (arith, length-append (head ++ mac) (marker ∷ buf), length-append head mac)

    pub length-frame : length frame ≡ length buf + 9 + length rest
    length-frame = omega (
      arith,
      length-frame_body,
      length-append frame_body tail,
      length-append (frame_body ++ tail) rest,
    )

    from_head : frame ≡ head ++ (mac ++ (marker ∷ buf ++ (tail ++ rest)))
    from_head =
        append_assoc frame_body tail rest
        ∙ append_assoc (head ++ mac) (marker ∷ buf) (tail ++ rest)
        ∙ append_assoc head mac (marker ∷ buf ++ (tail ++ rest))

    pub frame_head : slice frame 0 2 ≡ head
    frame_head =
        rw from_head
          (slice_middle [] head (mac ++ (marker ∷ buf ++ (tail ++ rest))) 0 2 refl (omega arith))

    pub frame_mac : slice frame 2 4 ≡ mac
    frame_mac =
        rw from_head (slice_middle head mac (marker ∷ buf ++ (tail ++ rest)) 2 4 h (omega arith))

    pub frame_checked : slice frame 0 (length buf + 5) ≡ frame_body
    frame_checked = rw (append_assoc frame_body tail rest) (
        slice_middle [] frame_body (tail ++ rest) 0 (length buf + 5) refl
          (omega (arith, length-frame_body)))

    pub frame_tail : slice frame (length buf + 5) (length buf + 9) ≡ tail
    frame_tail = rw (append_assoc frame_body tail rest) (
        slice_middle frame_body tail rest (length buf + 5) (length buf + 9) length-frame_body
          (omega arith))

    split_payload : frame ≡ ((head ++ mac) ++ (marker ∷ [])) ++ (buf ++ (tail ++ rest))
    split_payload =
        append_assoc frame_body tail rest
        ∙ append_assoc (head ++ mac) (marker ∷ buf) (tail ++ rest)
        ∙ rw (append_assoc (head ++ mac) (marker ∷ []) (buf ++ (tail ++ rest)))

    pub frame_payload : slice frame 5 (length buf + 5) ≡ buf
    frame_payload = rw split_payload (
        slice_middle ((head ++ mac) ++ (marker ∷ [])) buf (tail ++ rest) 5 (length buf + 5)
          (omega (arith, length-append (head ++ mac) (marker ∷ []), length-append head mac))
          (omega arith))

    pub frame_rest : drop (length buf + 9) frame ≡ rest
    frame_rest =
        drop-append_exact (length buf + 9) (frame_body ++ tail) rest
          (omega (arith, length-frame_body, length-append frame_body tail))

    pub frame_marker : get_or frame 4 0 ≡ marker
    frame_marker =
        rw
          (append_assoc frame_body tail rest
            ∙ append_assoc (head ++ mac) (marker ∷ buf) (tail ++ rest))
          (get_or_middle (head ++ mac) marker (buf ++ (tail ++ rest)) 4 0
            (omega (arith, length-append head mac)))
