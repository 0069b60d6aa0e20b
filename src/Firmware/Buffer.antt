-- ===== src/Firmware/Buffer.antt =====
-- What the device writes stays inside its arrays.
use flipper_agent_indicator.Prelude.{
  ◌==◌, ℕ, zero, suc, ◌≡◌, ◌≤◌, refl, subst, ap, Bool-cases, inl, inr, [], ◌∷◌, ◌++◌, ◌-◌, ◌+◌,
  some, length, take, length-take, length-append, arith, ltb, tests, get_elem?,
}
use flipper_agent_indicator.Utf8.{Bytes}
use flipper_agent_indicator.Firmware.{
  FaiFrame, FaiFrameKind, fai_tag_notify, fai_tag_ack, fai_tag_ping, fai_tag_pong, cleared,
  text_array, zeros, read_notify, read_ack, fai_protocol_decode, fai_protocol_encode,
  fai_frame_notify, fai_frame_ack, fai_frame_ping, fai_frame_pong,
}

-- The array has its length, and behind the text a byte that is 0.
pub record IsTerminated (f : FaiFrame) : Type 0 where
  pub short : f.text_len ≤ 64
  pub full : length f.text ≡ 65
  pub terminator : get_elem? f.text f.text_len ≡ some 0

length-zeros : (n : ℕ) → length (zeros n) ≡ n
length-zeros zero = refl
length-zeros (suc n) = ap suc (length-zeros n)

get_elem?-zeros : (xs : Bytes) (n : ℕ) → get_elem? (xs ++ zeros (suc n)) (length xs) ≡ some 0
get_elem?-zeros [] n = refl
get_elem?-zeros (x ∷ xs) n = get_elem?-zeros xs n

length-text_array :
    (n : ℕ) (body : Bytes) → n ≤ 64 → n ≤ length body → length (text_array n body) ≡ 65
unfolding text_array
length-text_array n body h k =
    omega (
      arith,
      length-append (take n body) (zeros (65 - n)),
      length-take n body,
      length-zeros (65 - n),
    )

terminator-text_array :
    (n : ℕ) (body : Bytes) → n ≤ 64 → n ≤ length body → get_elem? (text_array n body) n ≡ some 0
unfolding text_array
terminator-text_array n body h k =
    let whole : length (take n body) ≡ n = omega (arith, length-take n body) in
    let room : suc (64 - n) ≡ 65 - n = omega arith in
    subst (λ m. get_elem? (take n body ++ zeros m) n ≡ some 0) room
      (subst (λ i. get_elem? (take n body ++ zeros (suc (64 - n))) i ≡ some 0) whole
        (get_elem?-zeros (take n body) (64 - n)))

read_notify-IsTerminated :
    (rest : Bytes) {f : FaiFrame} → read_notify rest ≡ some f → IsTerminated f
unfolding read_notify
read_notify-IsTerminated [] h = cc
read_notify-IsTerminated (a ∷ []) h = cc
read_notify-IsTerminated (a ∷ s ∷ []) h = cc
read_notify-IsTerminated (a ∷ s ∷ n ∷ body) {f} h = elim (Bool-cases (ltb 64 n)) [
  | inl long ↦ cc (rw (long, read_notify) at h)
  | inr short ↦ elim (Bool-cases (ltb (4 + length body) (4 + n))) [
    | inl cut ↦ cc (rw (short, cut, read_notify) at h)
    | inr fits ↦
        (let n_short : n ≤ 64 = grind (tests, short) in
          let n_fits : n ≤ length body = grind (tests, fits) in
          let same : record {
            kind = fai_frame_notify;
            agent = a;
            state = s;
            text_len = n;
            text = text_array n body;
          }
              ≡ f =
            cc (rw (short, fits, read_notify) at h) in
          subst IsTerminated same (record {
            short = n_short;
            full = length-text_array n body n_short n_fits;
            terminator = terminator-text_array n body n_short n_fits;
          }))
  ]
]

cleared-IsTerminated : (k : FaiFrameKind) (a : ℕ) → IsTerminated (record (cleared k) { agent = a })
unfolding cleared
cleared-IsTerminated k a = record { short = omega arith; full = refl; terminator = refl }

read_ack-IsTerminated : (rest : Bytes) {f : FaiFrame} → read_ack rest ≡ some f → IsTerminated f
unfolding read_ack
read_ack-IsTerminated [] h = cc
read_ack-IsTerminated (a ∷ rest) {f} h =
    let same : record (cleared fai_frame_ack) { agent = a } ≡ f = cc in
    subst IsTerminated same (cleared-IsTerminated fai_frame_ack a)

single-IsTerminated : (k : FaiFrameKind) {f : FaiFrame} → some (cleared k) ≡ some f → IsTerminated f
unfolding cleared
single-IsTerminated k {f} h =
    let same : cleared k ≡ f = cc in subst IsTerminated same (cleared-IsTerminated k 0)

-- Whatever bytes arrive, a frame that the device decodes has a text of at most 64 bytes in an array of
-- 65, with a zero byte behind it.
pub fai_protocol_decode-IsTerminated :
    (buf : Bytes) {f : FaiFrame} → fai_protocol_decode buf ≡ some f → IsTerminated f
unfolding fai_protocol_decode
fai_protocol_decode-IsTerminated [] h = cc
fai_protocol_decode-IsTerminated (tag ∷ rest) h = elim (Bool-cases (tag == fai_tag_notify)) [
  | inl e ↦ read_notify-IsTerminated rest (rw (e, fai_protocol_decode) at h)
  | inr e₁ ↦ elim (Bool-cases (tag == fai_tag_ack)) [
    | inl e ↦ read_ack-IsTerminated rest (rw (e₁, e, fai_protocol_decode) at h)
    | inr e₂ ↦ elim (Bool-cases (tag == fai_tag_ping)) [
      | inl e ↦ single-IsTerminated fai_frame_ping (rw (e₁, e₂, e, fai_protocol_decode) at h)
      | inr e₃ ↦ elim (Bool-cases (tag == fai_tag_pong)) [
        | inl e ↦ single-IsTerminated fai_frame_pong (rw (e₁, e₂, e₃, e, fai_protocol_decode) at h)
        | inr e₄ ↦ cc (rw (e₁, e₂, e₃, e₄, fai_protocol_decode) at h)
      ]
    ]
  ]
]

-- The encoder never writes more than `out_cap` bytes.
pub fai_protocol_encode-bounds :
    (f : FaiFrame) (out_cap : ℕ) {bytes : Bytes}
    → fai_protocol_encode f out_cap ≡ some bytes
    → length bytes ≤ out_cap
unfolding fai_protocol_encode
fai_protocol_encode-bounds f out_cap h = grind (tests, length-take f.text_len f.text)
