-- ===== src/Examples/Toy.antt =====
-- Functions that satisfy what is assumed of the cryptographic library, with no secrecy.
use Prim.Native.Char.{code}
use iscp.Prelude.{
  ℕ, zero, suc, ◌+◌, ◌≡◌, refl, String, Option, none, some, [], ◌∷◌, nat_eq, bytes_eq, ◌==◌,
  ==_refl, Bytes, if◌then◌else◌, arith,
}
use iscp.Errors.{Result, ok}
use iscp.Crypto.{Primitives, base64url, decode_base64_url, sign}
use iscp.Crypto.Laws.{IsSound, IsSigned, sign-IsSigned}
use iscp.Identity.{Signature, Device, DeviceIdentity}

-- So many `a`, then a `b`.
unary : ℕ → String → String
unary zero s = String.◌∷◌ "b" s
unary (suc n) s = String.◌∷◌ "a" (unary n s)

unfoldable pub encode : Bytes → String
unfolding unary
encode [] = ""
encode (b ∷ bs) = unary b (encode bs)

abbrev prepend : ℕ → Option Bytes → Option Bytes
prepend n none = none
prepend n (some bs) = some (n ∷ bs)

unfoldable pub decode_from : ℕ → String → Option Bytes
decode_from n String.[] = some []
decode_from n (String.◌∷◌ c s) =
    let more = decode_from (suc n) s in
    let next = decode_from zero s in if code c == 97 then more else prepend n next

decode_from-unary :
    (m n : ℕ) (s : String) → decode_from n (unary m s) ≡ prepend (n + m) (decode_from zero s)
unfolding decode_from unary
decode_from-unary zero n s = ground arith
decode_from-unary (suc m) n s = ground (arith, decode_from-unary m (suc n) s)

decode_nil : decode_from zero "" ≡ some []
unfolding decode_from
decode_nil = refl

decode-encode : (b : Bytes) → decode_from zero (encode b) ≡ some b
unfolding encode
decode-encode [] = decode_nil
decode-encode (b ∷ bs) = ground (arith, decode_from-unary b zero (encode bs), decode-encode bs)

abbrev pub zeros : ℕ → Bytes
zeros zero = []
zeros (suc n) = 0 ∷ zeros n

abbrev pub toy : Primitives
toy = record {
  sha256 = λ m. [];
  hmac_sha256 = λ key m. m;
  ed25519_public = λ priv. zeros 32;
  ed25519_sign = λ priv m. m;
  ed25519_verify = λ public m signature. signature == m;
  x25519 = λ priv public. some (zeros 32);
  x25519_basepoint = zeros 32;
  hkdf_read = λ secret salt info n. some (zeros n);
  aead_seal = λ key nonce text aad. text;
  aead_open = λ key nonce ciphertext aad. some ciphertext;
  encode_base64url = encode;
  decode_base64url = decode_from zero;
  format_time = λ t. "t";
}

pub toy-IsSound : IsSound toy
toy-IsSound = record {
  verify-sign = λ priv m. ==_refl m;
  length-public = λ priv. refl;
  decode-encode = decode-encode;
  open-seal = λ key nonce text aad. refl;
  x25519-agree = λ a b a_public b_public pa pb. refl;
}

-- The text of the one public key.
abbrev pub public_text : String
public_text = base64url toy (zeros 32)

pub public_text-decoded : decode_base64_url toy public_text ≡ ok (zeros 32)
unfolding decode_base64_url base64url
public_text-decoded = rw (decode-encode (zeros 32)) refl

abbrev pub identity_of : String → DeviceIdentity
identity_of device_id = record {
  type = "iscp.device.identity.v2";
  domain_id = "home";
  device_id = device_id;
  public_key = record {
    kty = "Ed25519";
    usage = "identity-signature";
    kid = "key";
    public = public_text;
  };
  created_at = 0;
  metadata = [];
}

abbrev pub device_of : String → Device
device_of device_id = record { identity = identity_of device_id; private = [] }

abbrev pub signature_on : Bytes → Signature
signature_on input = record {
  alg = "Ed25519";
  kid = "key";
  value = base64url toy (sign toy [] input);
}

pub signature_on-IsSigned :
    (input : Bytes) (signed : Result Bytes)
    → signed ≡ ok input
    → IsSigned toy (decode_base64_url toy public_text) (base64url toy (sign toy [] input)) signed
signature_on-IsSigned input signed e =
    sign-IsSigned toy [] input (decode_base64_url toy public_text) signed toy-IsSound
      public_text-decoded e
