-- ===== src/Descriptor/Acceptance.antt =====
-- pkg/iscp/descriptor/descriptor.go: Verify.
use iscp.Prelude.{
  ℕ, ◌≤◌, ◌≡◌, ◌≢◌, refl, true, false, string_eq, ◌==◌, arith, ◌↔◌, inl, inr, ◌⊎◌, ltb, Bool-cases,
}
use text.Mathlib.TextEquality.{eq_iff}
use iscp.Errors.{Result, Error, err, reject_if, ◌>>=◌, ok, new, signature_invalid}
use iscp.Crypto.{Primitives, decode_base64_url}
use iscp.Crypto.Laws.{IsSigned, check_signature_iff}
use iscp.Canonical.Raw.{Json}
use iscp.Config.{Gate, validate_gate}
use iscp.Identity.{no_signature, DeviceIdentity}
use iscp.Descriptor.{
  RelayDescriptor, TrustRootDescriptor, SignedDescriptor, Decoders, type_relay, type_trust_root,
  descriptor_input, check_running, verify_signed, verify_descriptor,
}

-- A descriptor of one of the two kinds, which has not expired.
abbrev pub IsRunning : Decoders → SignedDescriptor → ℕ → Type 0
IsRunning decoders sd now =
    ((sd.descriptor_type ≡ type_relay)
      × ((relay : RelayDescriptor) × (decoders.relay sd.descriptor ≡ ok relay)
          × (now ≤ relay.expires_at)))
    ⊎ ((sd.descriptor_type ≡ type_trust_root)
        × ((trust : TrustRootDescriptor) × (decoders.trust_root sd.descriptor ≡ ok trust)
            × (now ≤ trust.expires_at)))

module _ {A : Type 0} (decoded : Result A) (expires_at : A → ℕ) (now : ℕ) (expired : Error) where
  -- What is read passes exactly when it is there and has not expired.
  reject_if_iff :
      ((decoded >>= λ d. reject_if (ltb (expires_at d) now) expired) ≡ ok tt)
      ↔ ((d : A) × (decoded ≡ ok d) × (now ≤ expires_at d))
  reject_if_iff = (passed decoded, λ w. rw w.1 (ground arith))
    where
      passed :
          (r : Result A)
          → (r >>= λ d. reject_if (ltb (expires_at d) now) expired) ≡ ok tt
          → (d : A) × (r ≡ ok d) × (now ≤ expires_at d)
      passed (err e) h = cc
      passed (ok d) h = (d, refl, ground arith)

module _ (p : Primitives) (json : Json) (decoders : Decoders) (sd : SignedDescriptor)
    (now : ℕ) where
  check_running→ : check_running p json decoders sd now ≡ ok tt → IsRunning decoders sd now
  unfolding check_running
  check_running→ h = elim (Bool-cases (sd.descriptor_type == type_relay)) [
    | inl is_relay ↦ inl (
      (eq_iff sd.descriptor_type type_relay).0 is_relay,
      (reject_if_iff (decoders.relay sd.descriptor) (λ d. d.expires_at) now _).0 (rw is_relay at h),
    )
    | inr other ↦ elim (Bool-cases (sd.descriptor_type == type_trust_root)) [
      | inl is_root ↦ inr (
        (eq_iff sd.descriptor_type type_trust_root).0 is_root,
        (reject_if_iff (decoders.trust_root sd.descriptor) (λ d. d.expires_at) now _).0
            (rw (other, is_root) at h),
      )
      | inr unknown ↦ absurd (ground (arith, h, other, unknown))
    ]
  ]

  check_running← : IsRunning decoders sd now → check_running p json decoders sd now ≡ ok tt
  unfolding check_running
  check_running← (inl (kind, relay)) =
      rw kind ((reject_if_iff (decoders.relay sd.descriptor) (λ d. d.expires_at) now _).1 relay)
  check_running← (inr (kind, root)) =
      rw kind ((reject_if_iff (decoders.trust_root sd.descriptor) (λ d. d.expires_at) now _).1 root)

module _ (p : Primitives) (json : Json) (decoders : Decoders) (sd : SignedDescriptor)
    (signer : DeviceIdentity) (gate : Gate) (now : ℕ) where
  signed_test : sd.signature.value ≢ "" → (sd.signature.value == "") ≡ false
  signed_test signed = ground (arith, eq_iff sd.signature.value "")

  -- A descriptor is accepted, under a valid gate, exactly when it is unsigned and the gate neither
  -- requires signatures nor forbids to go without one, or when it carries a signature of the
  -- signer's key over itself and is a relay's or a trust root's descriptor that can be read and has
  -- not expired.
  pub verify_descriptor_iff : (verify_descriptor p json decoders sd signer gate now ≡ ok tt) ↔ (
      (validate_gate gate ≡ ok tt)
      × (((sd.signature.value ≡ "")
            × (gate.require_signed_descriptors ≡ false)
            × (gate.allow_unsigned_descriptor ≡ true))
          ⊎ ((sd.signature.value ≢ "")
              × IsSigned p
                  (decode_base64_url p signer.public_key.public)
                  sd.signature.value
                  (descriptor_input p json (record sd { signature = no_signature }))
              × IsRunning decoders sd now)))
  unfolding verify_descriptor verify_signed
  verify_descriptor_iff =
      let checked =
        check_signature_iff p (decode_base64_url p signer.public_key.public) sd.signature.value
          (descriptor_input p json (record sd { signature = no_signature }))
          (new signature_invalid "descriptor signature verification failed") in
      (
        λ h. elim (Bool-cases (sd.signature.value == "")) [
          | inl bare ↦ (
            ground arith,
            inl ((eq_iff sd.signature.value "").0 bare, ground arith, ground arith),
          )
          | inr signed ↦ (
            ground arith,
            inr (
              (λ e. ground (arith, eq_iff sd.signature.value "")),
              checked.0 (ground arith),
              check_running→ p json decoders sd now (ground arith),
            ),
          )
        ],
        λ h. elim h.1 [
          | inl (bare, free, allowed) ↦ rw (h.0, bare, free, allowed) refl
          | inr (signed, s, running) ↦
              rw (h.0, signed_test signed, checked.1 s)
                (check_running← p json decoders sd now running)
        ],
      )
