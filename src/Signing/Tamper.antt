-- ===== src/Signing/Tamper.antt =====
-- What a manifest that verifies was signed with.
use native.Mathlib.Decide.{ℕ_discrete}
use dadi_runtime.Base.{
  ℕ, String, true, Option, none, some, List, ◌≡◌, ◌≢◌, ◌⊎◌, refl, sym, ◌∙◌, inl, inr, arith, eq_iff,
  Bool-cases, Option-cases, ◌==◌, Json, Fields, obj, str, get_field, pop_field, as_text, null, bool,
  int, float, arr, ok, length, bytes_eq_sound,
}
use dadi_runtime.Base.Results.{bind-eq-ok}
use dadi_runtime.Signing.{
  Packages, Keys, get_key, b64url_decode, load_hmac_secrets, load_ed25519_keys, hmac_matches,
  ed25519_matches, verify_bytes, verify_texts, verify_signature, verify_manifest,
}

module _ (p : Packages) (message : List ℕ) where
  -- The tag of the message under the secret that the environment holds for the key id.
  abbrev pub IsTagged : String → List ℕ → Type 0
  IsTagged kid sig =
      (secrets : Keys) × (key : List ℕ) × (load_hmac_secrets p ≡ ok secrets)
      × (get_key kid secrets ≡ some key)
      × (p.hmac_sha256 key message ≡ sig)

  -- A signature that the public key of the key id, of 32 bytes, verifies.
  abbrev pub IsVerified : String → List ℕ → Type 0
  IsVerified kid sig =
      (keys : Keys × Keys) × (key : List ℕ) × (load_ed25519_keys p ≡ ok keys)
      × (get_key kid keys.0 ≡ some key)
      × (length key ≡ 32)
      × (p.ed25519_verify key sig message ≡ true)

  hmac_matches_sound :
      (sig : List ℕ) (o : Option (List ℕ))
      → hmac_matches p message sig o ≡ true
      → (key : List ℕ) × (o ≡ some key) × (p.hmac_sha256 key message ≡ sig)
  unfolding hmac_matches
  hmac_matches_sound sig none h = absurd (ground arith)
  hmac_matches_sound sig (some key) h = (key, refl, bytes_eq_sound _ sig h)

  ed25519_matches_sound :
      (sig : List ℕ) (o : Option (List ℕ))
      → ed25519_matches p message sig o ≡ true
      → (key : List ℕ) × (o ≡ some key)
        × (length key ≡ 32)
        × (p.ed25519_verify key sig message ≡ true)
  unfolding ed25519_matches
  ed25519_matches_sound sig none h = absurd (ground arith)
  ed25519_matches_sound sig (some key) h = (key, refl, ground arith, ground arith)

  -- What an accepted triple of algorithm, key id and bytes is.
  abbrev pub IsSignature : String → String → List ℕ → Type 0
  IsSignature alg kid sig =
      ((alg ≡ "hmac-sha256") × IsTagged kid sig) ⊎ ((alg ≡ "ed25519") × IsVerified kid sig)

  verify_bytes_sound :
      (alg kid : String) (sig : List ℕ)
      → verify_bytes p alg kid message (some sig) ≡ ok true
      → IsSignature alg kid sig
  unfolding verify_bytes
  verify_bytes_sound alg kid sig h = elim (Bool-cases (alg == "hmac-sha256")) [
    | inl hmac ↦
        let (secrets, l, k) = bind-eq-ok (load_hmac_secrets p) _ (rw hmac at h) in
        let (key, found, tag) = hmac_matches_sound sig (get_key kid secrets) (ground arith) in
        inl ((eq_iff alg "hmac-sha256").0 hmac, (secrets, key, l, found, tag))
    | inr other ↦ elim (Bool-cases (alg == "ed25519")) [
      | inl ed ↦
          let (keys, l, k) = bind-eq-ok (load_ed25519_keys p) _ (rw (other, ed) at h) in
          let (key, found, long, verifies) =
            ed25519_matches_sound sig (get_key kid keys.0) (ground arith) in
          inr ((eq_iff alg "ed25519").0 ed, (keys, key, l, found, long, verifies))
      | inr unknown ↦ absurd (ground arith)
    ]
  ]

  verify_texts_sound :
      (alg kid sig : Option String)
      → verify_texts p message alg kid sig ≡ ok true
      → (a : String) × (k : String) × (t : String) × (raw : List ℕ) × (alg ≡ some a)
        × (kid ≡ some k)
        × (sig ≡ some t)
        × (b64url_decode p t ≡ some raw)
        × IsSignature a k raw
  unfolding verify_texts verify_bytes
  verify_texts_sound (some a) (some k) (some t) h = elim (Option-cases (b64url_decode p t)) [
    | inl undecoded ↦ absurd (ground (arith, rw undecoded at h))
    | inr (raw, e) ↦ (a, k, t, raw, refl, refl, refl, e, verify_bytes_sound a k raw (rw e at h))
  ]
  verify_texts_sound none kid sig h = absurd (ground arith)
  verify_texts_sound (some a) none sig h = absurd (ground arith)
  verify_texts_sound (some a) (some k) none h = absurd (ground arith)

  -- The three texts of a signature object, decoded.
  abbrev pub IsSignedBy : Option Json → Type 0
  IsSignedBy o =
      (s : Fields) × (alg : String) × (kid : String) × (t : String) × (raw : List ℕ) × (o
        ≡ some (obj s))
      × (as_text (get_field s "alg") ≡ some alg)
      × (as_text (get_field s "kid") ≡ some kid)
      × (as_text (get_field s "sig") ≡ some t)
      × (b64url_decode p t ≡ some raw)
      × IsSignature alg kid raw

  verify_signature_sound : (o : Option Json) → verify_signature p message o ≡ ok true → IsSignedBy o
  unfolding verify_signature
  verify_signature_sound (some (obj s)) h =
      let (alg, kid, t, raw, a, k, g, d, sound) =
        verify_texts_sound (as_text (get_field s "alg")) (as_text (get_field s "kid"))
          (as_text (get_field s "sig")) h in
      (s, alg, kid, t, raw, refl, a, k, g, d, sound)
  verify_signature_sound none h = absurd (ground arith)
  verify_signature_sound (some null) h = absurd (ground arith)
  verify_signature_sound (some (bool b)) h = absurd (ground arith)
  verify_signature_sound (some (int n)) h = absurd (ground arith)
  verify_signature_sound (some (float x)) h = absurd (ground arith)
  verify_signature_sound (some (str t)) h = absurd (ground arith)
  verify_signature_sound (some (arr xs)) h = absurd (ground arith)

-- the bytes that a manifest's signature is about
abbrev pub signed_bytes : Packages → Fields → List ℕ
signed_bytes p m = p.canonical_json_bytes (pop_field m "signature")

-- A manifest that verifies has a signature object whose bytes are the tag of the manifest without
-- its signature under a secret that the environment holds for the key id, or an Ed25519 signature of it
-- under a public key of 32 bytes that the environment holds.
pub verify_manifest_sound :
    (p : Packages) (m : Fields)
    → verify_manifest p m ≡ ok true
    → IsSignedBy p (signed_bytes p m) (get_field m "signature")
unfolding verify_manifest
verify_manifest_sound p m h = verify_signature_sound p (signed_bytes p m) _ h

List-discrete : Discrete (List ℕ)
List-discrete = hlevel ℕ_discrete

-- Two messages with one tag under one key.
abbrev pub Forgery : Packages → Type 0
Forgery p =
    (key : List ℕ) × (x : List ℕ) × (y : List ℕ) × (x ≢ y)
    × (p.hmac_sha256 key x ≡ p.hmac_sha256 key y)

tags-equal :
    (p : Packages) (x y : List ℕ) (kid : String) (raw : List ℕ)
    → IsTagged p x kid raw
    → IsTagged p y kid raw
    → (x ≡ y) ⊎ Forgery p
tags-equal p x y kid raw (secrets, key, l, found, tag) (secrets', key', l', found', tag') =
    let q : secrets ≡ secrets' = ground (arith, l, l') in
    let same : key ≡ key' = ground (arith, q, found, found') in
    elim (List-discrete x y) [
      | yes e ↦ inl e
      | no ne ↦ inr (key, x, y, ne, tag ∙ sym (rw (← same) at tag'))
    ]

signed_by_hmac :
    (p : Packages) (x : List ℕ) (s : Fields)
    → IsSignedBy p x (some (obj s))
    → as_text (get_field s "alg") ≡ some "hmac-sha256"
    → (kid : String) × (t : String) × (raw : List ℕ) × (as_text (get_field s "kid") ≡ some kid)
      × (as_text (get_field s "sig") ≡ some t)
      × (b64url_decode p t ≡ some raw)
      × IsTagged p x kid raw
signed_by_hmac p x s (s', alg, kid, t, raw, o, a, k, g, d, sound) hmac =
    let e : s' ≡ s = ground arith in
    let is_hmac : alg ≡ "hmac-sha256" = ground (arith, e) in
    (
      kid,
      t,
      raw,
      rw e at k,
      rw e at g,
      d,
      elim sound [
        | inl tagged ↦ tagged.1
        | inr ed ↦ absurd (ground (arith, is_hmac, ed.0, eq_iff "hmac-sha256" "ed25519"))
      ],
    )

-- An HMAC signature is of one manifest: two manifests that carry the same signature object and
-- both verify have the same canonical bytes without it, or two messages with one tag are at hand.
pub verify_manifest-tamper :
    (p : Packages) (m m' s : Fields)
    → get_field m "signature" ≡ some (obj s)
    → get_field m' "signature" ≡ some (obj s)
    → as_text (get_field s "alg") ≡ some "hmac-sha256"
    → verify_manifest p m ≡ ok true
    → verify_manifest p m' ≡ ok true
    → (signed_bytes p m ≡ signed_bytes p m') ⊎ Forgery p
verify_manifest-tamper p m m' s g g' hmac v v' =
    let (kid, t, raw, k, sig, d, tag) =
      signed_by_hmac p (signed_bytes p m) s (rw g at (verify_manifest_sound p m v)) hmac in
    let (kid', t', raw', k', sig', d', tag') =
      signed_by_hmac p (signed_bytes p m') s (rw g' at (verify_manifest_sound p m' v')) hmac in
    let same_kid : kid' ≡ kid = ground arith in
    let same_text : t' ≡ t = ground arith in
    let same_raw : raw' ≡ raw = ground (arith, same_text) in
    tags-equal p (signed_bytes p m) (signed_bytes p m') kid raw tag
      (rw (same_kid, same_raw) at tag')
