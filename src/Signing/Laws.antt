-- ===== src/Signing/Laws.antt =====
-- A signed manifest verifies.
use Prim.Native.String.{◌++◌ as concat}
use dadi_runtime.Base.{
  ℕ, String, true, Option, none, some, List, ◌≡◌, refl, ap, ◌∙◌, inl, inr, arith, eq_refl,
  Bool-cases, Option-cases, ◌==◌, Json, Fields, end, field, obj, get_field, pop_field, put_field,
  ok, if◌then◌else◌, length, strip_padding, pad, bytes_eq_self,
}
use dadi_runtime.Base.Results.{bind-eq-ok}
use dadi_runtime.Signing.{
  Packages, Keys, Signature, as_dict, get_key, b64url_encode, b64url_decode, load_hmac_secrets,
  load_ed25519_keys, hmac_signature, ed25519_signature, sign_bytes, load_kid, load_signing_alg,
  sign_manifest, hmac_matches, ed25519_matches, verify_bytes, verify_texts, verify_signature,
  verify_manifest,
}

pub pop_field_absent : (d : Fields) (k : String) → get_field d k ≡ none → pop_field d k ≡ d
unfolding get_field pop_field
pop_field_absent end k h = refl
pop_field_absent (field j w d) k h = ground (arith, pop_field_absent d k)

pub pop_field-put_field :
    (d : Fields) (k : String) (v : Json) → get_field d k ≡ none → pop_field (put_field d k v) k ≡ d
unfolding get_field pop_field put_field
pop_field-put_field end k v h = ground (arith, eq_refl k)
pop_field-put_field (field j w d) k v h = ground (arith, pop_field-put_field d k v)

pub get_field-put_field :
    (d : Fields) (k : String) (v : Json) → get_field (put_field d k v) k ≡ some v
unfolding get_field put_field
get_field-put_field end k v = ground (arith, eq_refl k)
get_field-put_field (field j w d) k v = ground (arith, get_field-put_field d k v)

module _ (p : Packages) where
  -- What `base64` documents: decoding inverts encoding, and the padding makes the length a multiple
  -- of four.
  abbrev pub IsBase64 : Type 0
  IsBase64 =
      (raw : List ℕ)
      → (p.urlsafe_b64decode (p.urlsafe_b64encode raw) ≡ some raw)
        × (concat (strip_padding (p.urlsafe_b64encode raw))
              (pad (strip_padding (p.urlsafe_b64encode raw)))
            ≡ p.urlsafe_b64encode raw)

  -- What `cryptography` documents: a seed of 32 bytes has a public key of 32 bytes, which verifies what
  -- the seed signs.
  abbrev pub IsEd25519 : (List ℕ → List ℕ) → Type 0
  IsEd25519 public_key =
      (seed : List ℕ)
      → length seed ≡ 32
      → (length (public_key seed) ≡ 32)
        × ((m : List ℕ) → p.ed25519_verify (public_key seed) (p.ed25519_sign seed m) m ≡ true)

  -- The environment holds, beside each private key, its public key under the same key id.
  abbrev pub HasPairedKeys : (List ℕ → List ℕ) → Type 0
  HasPairedKeys public_key =
      (kid : String) (pubs privs : Keys) (seed : List ℕ)
      → load_ed25519_keys p ≡ ok (pubs, privs)
      → get_key kid privs ≡ some seed
      → get_key kid pubs ≡ some (public_key seed)

  pub b64url_decode-b64url_encode :
      IsBase64 → (raw : List ℕ) → b64url_decode p (b64url_encode p raw) ≡ some raw
  unfolding b64url_decode b64url_encode
  b64url_decode-b64url_encode base64 raw = ap p.urlsafe_b64decode (base64 raw).1 ∙ (base64 raw).0

  hmac_signature-verify :
      IsBase64
      → (kid : String) (m : List ℕ) (secrets : Keys) (o : Option (List ℕ)) (s : Signature)
      → load_hmac_secrets p ≡ ok secrets
      → get_key kid secrets ≡ o
      → hmac_signature p kid m o ≡ ok s
      → verify_signature p m (some (obj (as_dict s))) ≡ ok true
  unfolding get_field hmac_signature verify_signature verify_texts verify_bytes hmac_matches
  hmac_signature-verify base64 kid m secrets none s l g h = absurd (ground arith)
  hmac_signature-verify base64 kid m secrets (some key) s l g h =
      let sig = p.hmac_sha256 key m in
      let q : record { alg = "hmac-sha256"; kid = kid; sig = b64url_encode p sig } ≡ s =
        ground arith in
      rw (← q, b64url_decode-b64url_encode base64 sig, l, g, bytes_eq_self sig) refl

  ed25519_signature-verify :
      IsBase64
      → (public_key : List ℕ → List ℕ) → IsEd25519 public_key
      → HasPairedKeys public_key
      → (kid : String) (m : List ℕ) (keys : Keys × Keys) (o : Option (List ℕ)) (s : Signature)
      → load_ed25519_keys p ≡ ok keys
      → get_key kid keys.1 ≡ o
      → ed25519_signature p kid m o ≡ ok s
      → verify_signature p m (some (obj (as_dict s))) ≡ ok true
  unfolding get_field ed25519_signature verify_signature verify_texts verify_bytes ed25519_matches
  ed25519_signature-verify base64 public_key ed paired kid m keys none s l g h =
      absurd (ground arith)
  ed25519_signature-verify base64 public_key ed paired kid m keys (some seed) s l g h =
      let found = paired kid keys.0 keys.1 seed l g in
      let (long, verifies) = ed seed (ground arith) in
      let sig = p.ed25519_sign seed m in
      let q : record { alg = "ed25519"; kid = kid; sig = b64url_encode p sig } ≡ s = ground arith in
      let installed : p.has_cryptography ≡ true = ground arith in
      rw (← q, b64url_decode-b64url_encode base64 sig, l, found, installed, long, verifies m) refl

  sign_bytes-verify :
      IsBase64
      → (public_key : List ℕ → List ℕ) → IsEd25519 public_key
      → HasPairedKeys public_key
      → (alg kid : String) (m : List ℕ) (s : Signature) → sign_bytes p alg kid m ≡ ok s
      → verify_signature p m (some (obj (as_dict s))) ≡ ok true
  unfolding sign_bytes
  sign_bytes-verify base64 public_key ed25519 paired alg kid m s h =
      elim (Bool-cases (alg == "hmac-sha256")) [
        | inl hmac ↦
            let (secrets, l, k) = bind-eq-ok (load_hmac_secrets p) _ (rw hmac at h) in
            hmac_signature-verify base64 kid m secrets _ s l refl k
        | inr other ↦ elim (Bool-cases (alg == "ed25519")) [
          | inl ed ↦
              let (keys, l, k) = bind-eq-ok (load_ed25519_keys p) _ (rw (other, ed) at h) in
              ed25519_signature-verify base64 public_key ed25519 paired kid m keys _ s l refl k
          | inr unknown ↦ absurd (ground arith)
        ]
      ]

  -- A manifest that was signed, by either algorithm, verifies, if base64 decodes what it encodes, if an
  -- Ed25519 signature verifies under the public key of its seed, and if the environment holds beside
  -- each Ed25519 private key its public key under the same key id.
  pub sign_manifest-verify :
      IsBase64
      → (public_key : List ℕ → List ℕ) → IsEd25519 public_key
      → HasPairedKeys public_key
      → (m signed : Fields) → sign_manifest p m ≡ ok signed
      → verify_manifest p signed ≡ ok true
  unfolding sign_manifest verify_manifest
  sign_manifest-verify base64 public_key ed25519 paired m signed h =
      elim (Option-cases (get_field m "signature")) [
        | inl absent ↦
            let (kid, _, k) =
              bind-eq-ok (load_kid p) _ (rw (absent, sign_manifest, if◌then◌else◌) at h) in
            let (s, signs, q) =
              bind-eq-ok (sign_bytes p (load_signing_alg p) kid (p.canonical_json_bytes m)) _ k in
            let e : put_field m "signature" (obj (as_dict s)) ≡ signed = ground arith in
            rw
              (
                ← e,
                pop_field-put_field m "signature" (obj (as_dict s)) absent,
                get_field-put_field m "signature" (obj (as_dict s)),
              )
              (sign_bytes-verify base64 public_key ed25519 paired (load_signing_alg p) kid _ s
                signs)
        | inr (v, present) ↦ absurd (ground arith)
      ]
