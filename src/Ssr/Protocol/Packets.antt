-- ===== src/Ssr/Protocol/Packets.antt =====
-- The streaming packets of src/ssr/protocol.rs: what a longer buffer changes, and the fuel.
use sspanel_ssr_rust_backend.Base.{
  ℕ, zero, suc, ◌+◌, ◌-◌, ◌≤◌, ◌<◌, ◌≡◌, refl, sym, ◌∙◌, List, ◌++◌, arith, length, length-append,
  length-drop, slice, slice-append, drop-append, get_or-append, Result, Error, ok, err, ◌>>=◌,
  append_assoc, inl, inr, ◌⊎◌,
}
use sspanel_ssr_rust_backend.Ssr.Crypto.{Crypto}
use sspanel_ssr_rust_backend.Ssr.Protocol.{
  Step, wait, fail, packet, u16_le, next_id, data_pos, read_packet, packets,
}

data_pos-append : (buf more : List ℕ) → 7 ≤ length buf → data_pos (buf ++ more) ≡ data_pos buf
unfolding data_pos
data_pos-append buf more h = rw (
  get_or-append buf more 4 0 (omega arith),
  slice-append buf more 5 7 (omega arith) (omega arith),
)

module _ ⦃c : Crypto⦄ (key : List ℕ) (id : ℕ) where
  -- A verdict on the front of a buffer does not change when bytes are added behind.
  pub read_packet-append_fail :
      (buf more : List ℕ) (e : Error)
      → read_packet key id buf ≡ fail e
      → read_packet key id (buf ++ more) ≡ fail e
  unfolding read_packet
  read_packet-append_fail buf more e h =
      let len = u16_le (slice buf 0 2) in
      ground (
        arith,
        length-append buf more,
        slice-append buf more 0 2,
        slice-append buf more 2 4,
        slice-append buf more 0 (len - 4),
        slice-append buf more (len - 4) len,
        data_pos-append buf more,
      )

  pub read_packet-append_packet :
      (buf more payload rest : List ℕ)
      → read_packet key id buf ≡ packet payload rest
      → read_packet key id (buf ++ more) ≡ packet payload (rest ++ more)
  unfolding read_packet
  read_packet-append_packet buf more payload rest h =
      let len = u16_le (slice buf 0 2) in
      ground (
        arith,
        length-append buf more,
        slice-append buf more 0 2,
        slice-append buf more 2 4,
        slice-append buf more 0 (len - 4),
        slice-append buf more (len - 4) len,
        slice-append buf more (data_pos buf) (len - 4),
        drop-append len buf more,
        data_pos-append buf more,
      )

  -- A packet takes at least 7 bytes off the buffer.
  pub read_packet_takes :
      (buf payload rest : List ℕ)
      → read_packet key id buf ≡ packet payload rest
      → length rest + 7 ≤ length buf
  unfolding read_packet
  read_packet_takes buf payload rest h = ground (arith, length-drop (u16_le (slice buf 0 2)) buf)

pub Step-cases :
    (s : Step)
    → ((s ≡ wait) ⊎ ((e : Error) × (s ≡ fail e)))
      ⊎ ((payload : List ℕ) × (rest : List ℕ) × (s ≡ packet payload rest))
Step-cases wait = inl (inl refl)
Step-cases (fail e) = inl (inr (e, refl))
Step-cases (packet payload rest) = inr (payload, rest, refl)

-- Payload in front of what a run of the loop returns.
abbrev pub prepend : List ℕ → Result (ℕ × List ℕ × List ℕ) → Result (ℕ × List ℕ × List ℕ)
prepend out r = r >>= λ (id, rest, more). ok (id, rest, out ++ more)

module _ ⦃c : Crypto⦄ (key : List ℕ) where
  -- One round of the loop, by what the buffer holds.
  pub packets_wait :
      (fuel id : ℕ) (buf out : List ℕ)
      → read_packet key id buf ≡ wait
      → packets (suc fuel) key id buf out ≡ ok (id, buf, out)
  unfolding packets
  packets_wait fuel id buf out w = rw (w, packets)

  pub packets_fail :
      (fuel id : ℕ) (buf out : List ℕ) (e : Error)
      → read_packet key id buf ≡ fail e
      → packets (suc fuel) key id buf out ≡ err e
  unfolding packets
  packets_fail fuel id buf out e w = rw (w, packets)

  pub packets_packet :
      (fuel id : ℕ) (buf out payload rest : List ℕ)
      → read_packet key id buf ≡ packet payload rest
      → packets (suc fuel) key id buf out ≡ packets fuel key (next_id id) rest (out ++ payload)
  unfolding packets
  packets_packet fuel id buf out payload rest w = rw (w, packets)

  -- The accumulator only collects.
  pub packets_out :
      (fuel id : ℕ) (buf out out' : List ℕ)
      → packets fuel key id buf (out ++ out') ≡ prepend out (packets fuel key id buf out')
  packets_out zero id buf out out' = unfold packets in refl
  packets_out (suc fuel) id buf out out' = elim (Step-cases (read_packet key id buf)) [
    | inl (inl w) ↦ rw (packets_wait fuel id buf (out ++ out') w, packets_wait fuel id buf out' w)
    | inl (inr (e, w)) ↦
        rw (packets_fail fuel id buf (out ++ out') e w, packets_fail fuel id buf out' e w)
    | inr (payload, rest, w) ↦
        rw
          (
            packets_packet fuel id buf (out ++ out') payload rest w,
            packets_packet fuel id buf out' payload rest w,
            append_assoc out out' payload,
          )
          (packets_out fuel (next_id id) rest out (out' ++ payload))
  ]

  -- Any two amounts of fuel above the length of the buffer agree.
  pub packets_fuel :
      (f g id : ℕ) (buf out : List ℕ)
      → length buf < f
      → length buf < g
      → packets f key id buf out ≡ packets g key id buf out
  packets_fuel zero g id buf out hf hg = absurd (omega arith)
  packets_fuel (suc f) zero id buf out hf hg = absurd (omega arith)
  packets_fuel (suc f) (suc g) id buf out hf hg = elim (Step-cases (read_packet key id buf)) [
    | inl (inl w) ↦ packets_wait f id buf out w ∙ sym (packets_wait g id buf out w)
    | inl (inr (e, w)) ↦ packets_fail f id buf out e w ∙ sym (packets_fail g id buf out e w)
    | inr (payload, rest, w) ↦
        let shorter : length rest + 7 ≤ length buf = read_packet_takes key id buf payload rest w in
        packets_packet f id buf out payload rest w
        ∙ packets_fuel f g (next_id id) rest (out ++ payload) (omega arith) (omega arith)
        ∙ sym (packets_packet g id buf out payload rest w)
  ]

  -- The loop on a buffer that arrives in two parts: a run on the first part, and a run on what that
  -- left with the second part behind it.
  pub packets-append :
      (fuel g k id : ℕ) (buf more out : List ℕ)
      → length buf < fuel
      → length (buf ++ more) < g
      → length (buf ++ more) < k
      → packets g key id (buf ++ more) out ≡ (
          packets fuel key id buf out >>= λ (id', rest, out').
          packets k key id' (rest ++ more) out')
  packets-append zero g k id buf more out hf hg hk = absurd (omega arith)
  packets-append (suc fuel) zero k id buf more out hf hg hk = absurd (omega arith)
  packets-append (suc fuel) (suc g) k id buf more out hf hg hk =
      elim (Step-cases (read_packet key id buf)) [
        | inl (inl w) ↦
            rw (packets_wait fuel id buf out w) (packets_fuel (suc g) k id (buf ++ more) out hg hk)
        | inl (inr (e, w)) ↦
            rw (packets_fail fuel id buf out e w)
              (packets_fail g id (buf ++ more) out e (read_packet-append_fail key id buf more e w))
        | inr (payload, rest, w) ↦
            let shorter : length rest + 7 ≤ length buf =
              read_packet_takes key id buf payload rest w in
            let here : length (buf ++ more) ≡ length buf + length more = length-append buf more in
            let there : length (rest ++ more) ≡ length rest + length more =
              length-append rest more in
            rw (packets_packet fuel id buf out payload rest w) (
              packets_packet g id (buf ++ more) out payload (rest ++ more)
                (read_packet-append_packet key id buf more payload rest w)
              ∙ packets-append fuel g k (next_id id) rest more (out ++ payload) (omega arith)
                  (omega arith) (omega arith))
      ]

  -- The loop takes bytes only off the front.
  pub packets_shrinks :
      (fuel id : ℕ) (buf out : List ℕ) (id' : ℕ) (rest out' : List ℕ)
      → packets fuel key id buf out ≡ ok (id', rest, out')
      → length rest ≤ length buf
  packets_shrinks zero id buf out id' rest out' e = unfold packets in cc
  packets_shrinks (suc fuel) id buf out id' rest out' e =
      elim (Step-cases (read_packet key id buf)) [
        | inl (inl w) ↦ ground (arith, packets_wait fuel id buf out w)
        | inl (inr (x, w)) ↦ cc (packets_fail fuel id buf out x w)
        | inr (payload, next, w) ↦ ground (
          arith,
          packets_packet fuel id buf out payload next w,
          read_packet_takes key id buf payload next w,
          packets_shrinks fuel (next_id id) next (out ++ payload) id' rest out',
        )
      ]
