-- ===== src/Protocol/Accepts.antt =====
-- Which buffers `decode` accepts.
use flipper_agent_indicator.Prelude.{
  ℕ, ◌≤◌, ◌≡◌, refl, subst, ◌↔◌, true, [], ◌∷◌, arith, length, take, length-take, ok, ◌>>=◌,
  >>=-eq-ok, ==_iff, ◌==◌, Bool-cases, inl, inr,
}
use flipper_agent_indicator.Utf8
use flipper_agent_indicator.Utf8.{Bytes, is_scalar}
use flipper_agent_indicator.Utf8.Scalars.{decode-All, all-is_scalar}
use flipper_agent_indicator.Protocol.{
  AgentId, State, agent_value, state_value, Frame, notify, ack, ping, pong, encode, agent_of,
  state_of, decode_notify, decode_ack, decode,
}
use flipper_agent_indicator.Protocol.RoundTrip.{
  IsEncodable, encode-layout, layout, agent_of-agent_value, state_of-state_value,
}

-- The buffers that hold a frame. Only a notification has a length; bytes behind a frame are ignored.
pub data Holds : Bytes → Frame → Type 0 where
  a_notify :
      (agent : AgentId) (state : State) (text_len : ℕ) (body : Bytes)
      → text_len ≤ length body
      → Holds (0x01 ∷ agent_value agent ∷ state_value state ∷ text_len ∷ body) (
          notify (record { agent = agent; state = state; text = Utf8.decode (take text_len body) }))
  an_ack : (agent : AgentId) (rest : Bytes) → Holds (0x81 ∷ agent_value agent ∷ rest) (ack agent)
  a_ping : (rest : Bytes) → Holds (0x02 ∷ rest) ping
  a_pong : (rest : Bytes) → Holds (0x82 ∷ rest) pong

agent_of-eq-ok : (v : ℕ) (a : AgentId) → agent_of v ≡ ok a → agent_value a ≡ v
unfolding agent_of
agent_of-eq-ok v a h = ground arith

state_of-eq-ok : (v : ℕ) (s : State) → state_of v ≡ ok s → state_value s ≡ v
unfolding state_of
state_of-eq-ok v s h = ground arith

decode_ack-Holds : (rest : Bytes) (f : Frame) → decode_ack rest ≡ ok f → Holds (0x81 ∷ rest) f
unfolding decode_ack
decode_ack-Holds [] f h = cc
decode_ack-Holds (v ∷ rest) f h =
    let (a, ha, e) = >>=-eq-ok (agent_of v) _ h in
    let same : ack a ≡ f = cc in
    rw (← agent_of-eq-ok v a ha) (subst (Holds (0x81 ∷ agent_value a ∷ rest)) same (an_ack a rest))

module _ (va vs n : ℕ) (body : Bytes) (f : Frame) (long : n ≤ length body) where
  body-Holds :
      (agent_of va >>= λ a. state_of vs >>= λ s.
      ok (notify (record { agent = a; state = s; text = Utf8.decode (take n body) })))
        ≡ ok f
      → Holds (0x01 ∷ va ∷ vs ∷ n ∷ body) f
  body-Holds h =
      let (a, ha, h') = >>=-eq-ok (agent_of va) _ h in
      let (s, hs, e) = >>=-eq-ok (state_of vs) _ h' in
      let same : notify (record { agent = a; state = s; text = Utf8.decode (take n body) }) ≡ f =
        cc in
      rw (← agent_of-eq-ok va a ha, ← state_of-eq-ok vs s hs)
        (subst (Holds (0x01 ∷ agent_value a ∷ state_value s ∷ n ∷ body)) same
          (a_notify a s n body long))

payload-full : (n : ℕ) (body : Bytes) → (length (take n body) == n) ≡ true → n ≤ length body
payload-full n body e = omega (arith, length-take n body, (==_iff _ _).0 e)

decode_notify-Holds : (rest : Bytes) (f : Frame) → decode_notify rest ≡ ok f → Holds (0x01 ∷ rest) f
unfolding decode_notify
decode_notify-Holds (va ∷ vs ∷ n ∷ body) f h = elim (Bool-cases (length (take n body) == n)) [
  | inl e ↦ body-Holds va vs n body f (payload-full n body e) (rw (e, decode_notify) at h)
  | inr e ↦ cc (rw (e, decode_notify) at h)
]
decode_notify-Holds _ f h = cc

decode-Holds : (buf : Bytes) (f : Frame) → decode buf ≡ ok f → Holds buf f
unfolding decode
decode-Holds [] f h = cc
decode-Holds (tag ∷ rest) f h = elim (Bool-cases (tag == 0x01)) [
  | inl e ↦ rw ((==_iff tag _).0 e) (decode_notify-Holds rest f (rw (e, decode) at h))
  | inr e₁ ↦ elim (Bool-cases (tag == 0x81)) [
    | inl e ↦ rw ((==_iff tag _).0 e) (decode_ack-Holds rest f (rw (e₁, e, decode) at h))
    | inr e₂ ↦ elim (Bool-cases (tag == 0x02)) [
      | inl e ↦
          let same : ping ≡ f = cc (rw (e₁, e₂, e, decode) at h) in
          rw ((==_iff tag _).0 e) (subst (Holds (0x02 ∷ rest)) same (a_ping rest))
      | inr e₃ ↦ elim (Bool-cases (tag == 0x82)) [
        | inl e ↦
            let same : pong ≡ f = cc (rw (e₁, e₂, e₃, e, decode) at h) in
            rw ((==_iff tag _).0 e) (subst (Holds (0x82 ∷ rest)) same (a_pong rest))
        | inr e₄ ↦ cc (rw (e₁, e₂, e₃, e₄, decode) at h)
      ]
    ]
  ]
]

Holds-decode : {buf : Bytes} {f : Frame} → Holds buf f → decode buf ≡ ok f
unfolding decode decode_notify decode_ack
Holds-decode (a_notify agent state n body h) =
    let full : (length (take n body) == n) ≡ true =
      (==_iff _ _).1 (omega (arith, length-take n body)) in
    rw (full, agent_of-agent_value agent, state_of-state_value state)
Holds-decode (an_ack agent rest) = rw (agent_of-agent_value agent)
Holds-decode (a_ping rest) = refl
Holds-decode (a_pong rest) = refl

-- `decode` returns a frame exactly for the buffers that hold it by the layout of the protocol.
pub decode_iff : (buf : Bytes) (f : Frame) → (decode buf ≡ ok f) ↔ Holds buf f
decode_iff buf f = (decode-Holds buf f, Holds-decode)

Holds-IsEncodable : {buf : Bytes} {f : Frame} → Holds buf f → IsEncodable f
Holds-IsEncodable (a_notify agent state n body h) = all-is_scalar _ (decode-All (take n body))
Holds-IsEncodable (an_ack agent rest) = tt
Holds-IsEncodable (a_ping rest) = tt
Holds-IsEncodable (a_pong rest) = tt

-- Whatever was decoded, from any bytes, can be encoded: no surrogate comes out of a buffer.
pub encode_decoded :
    (buf : Bytes) (f : Frame) → decode buf ≡ ok f → (bytes : Bytes) × (encode f ≡ ok bytes)
encode_decoded buf f h = (layout f, encode-layout f (Holds-IsEncodable (decode-Holds buf f h)))
