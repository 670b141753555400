-- ===== src/Auth/Accepted.antt =====
-- Which tokens are accepted.
use dadi_runtime.Base.{
  ℕ, ◌<◌, ℤ, pos, negsuc, String, true, Option, none, some, List, [], ◌∷◌, ◌≡◌, ◌↔◌, ◌⊎◌, refl, ap,
  ◌∙◌, inl, inr, arith, eq_iff, eq_refl, Bool-cases, ◌==◌, Json, Fields, str, bool, int, float, arr,
  obj, null, get_field, as_text, is_text, split,
}
use dadi_runtime.Signing.{Packages}
use dadi_runtime.Auth.{
  claims, int_of, check_int, check_exp, check_payload, is_ascii, expected_b64, check_signature,
  check_header, decode_part, check_parts, verify_split, verify_hs256_jwt,
}

-- The header names HS256.
abbrev pub IsHs256 : Json → Type 0
IsHs256 json =
    (h : Fields) × (json ≡ obj h) × (is_text (as_text (get_field h "alg")) "HS256" ≡ true)

module _ (p : Packages) (now : ℕ) where
  -- `exp` is missing, `null`, or a time that is still to come.
  abbrev pub IsCurrent : Option Json → Type 0
  IsCurrent o =
      (o ≡ none)
      ⊎ (o ≡ some null)
      ⊎ ((exp : Json) × (n : ℕ) × (o ≡ some exp) × (int_of p exp ≡ some (pos n)) × (now < n))

  check_int-claims :
      (payload c : Fields) (o : Option ℤ)
      → check_int now payload o ≡ claims c
      → (payload ≡ c) × ((n : ℕ) × (o ≡ some (pos n)) × (now < n))
  unfolding check_int
  check_int-claims payload c none h = absurd (ground arith)
  check_int-claims payload c (some (pos n)) h = (ground arith, (n, refl, ground arith))
  check_int-claims payload c (some (negsuc n)) h = absurd (ground arith)

  timed :
      (payload c : Fields) (exp : Json)
      → check_int now payload (int_of p exp) ≡ claims c
      → (payload ≡ c) × IsCurrent (some exp)
  timed payload c exp h =
      let (e, (n, is_n, later)) = check_int-claims payload c (int_of p exp) h in
      (e, inr (inr (exp, n, refl, is_n, later)))

  check_exp-claims :
      (payload c : Fields) (o : Option Json)
      → check_exp p now payload o ≡ claims c
      → (payload ≡ c) × IsCurrent o
  unfolding check_exp
  check_exp-claims payload c none h = (ground arith, inl refl)
  check_exp-claims payload c (some null) h = (ground arith, inr (inl refl))
  check_exp-claims payload c (some (bool b)) h = timed payload c (bool b) h
  check_exp-claims payload c (some (int n)) h = timed payload c (int n) h
  check_exp-claims payload c (some (float x)) h = timed payload c (float x) h
  check_exp-claims payload c (some (str s)) h = timed payload c (str s) h
  check_exp-claims payload c (some (arr xs)) h = timed payload c (arr xs) h
  check_exp-claims payload c (some (obj d)) h = timed payload c (obj d) h

  check_payload-claims :
      (json : Json) (c : Fields)
      → check_payload p now json ≡ claims c
      → (json ≡ obj c) × IsCurrent (get_field c "exp")
  unfolding check_payload
  check_payload-claims (obj payload) c h =
      let (e, current) = check_exp-claims payload c (get_field payload "exp") h in
      (ap obj e, rw e at current)
  check_payload-claims null c h = absurd (ground arith)
  check_payload-claims (bool b) c h = absurd (ground arith)
  check_payload-claims (int n) c h = absurd (ground arith)
  check_payload-claims (float x) c h = absurd (ground arith)
  check_payload-claims (str s) c h = absurd (ground arith)
  check_payload-claims (arr xs) c h = absurd (ground arith)

  module _ (secret header payload sig : String) where
    abbrev pub IsSigned : Json → Fields → Type 0
    IsSigned json c =
        (is_ascii sig ≡ true)
        × (expected_b64 p secret header payload ≡ sig)
        × (json ≡ obj c)
        × IsCurrent (get_field c "exp")

    check_signature-claims :
        (json : Json) (c : Fields)
        → check_signature p now secret header payload sig json ≡ claims c
        → IsSigned json c
    unfolding check_signature
    check_signature-claims json c h = elim (Bool-cases (is_ascii sig)) [
      | inr other ↦ absurd (ground arith)
      | inl ascii ↦ elim (Bool-cases (expected_b64 p secret header payload == sig)) [
        | inr differs ↦ absurd (ground arith)
        | inl same ↦
            let (e, current) = check_payload-claims json c (rw (ascii, same) at h) in
            (ascii, (eq_iff _ sig).0 same, e, current)
      ]
    ]

    check_header-claims :
        (hjson json : Json) (c : Fields)
        → check_header p now secret header payload sig hjson json ≡ claims c
        → IsHs256 hjson × IsSigned json c
    unfolding check_header
    check_header-claims (obj d) json c h =
        elim (Bool-cases (is_text (as_text (get_field d "alg")) "HS256")) [
          | inl hs256 ↦
              ((d, refl, hs256), check_signature-claims json c (rw (hs256, check_header) at h))
          | inr other ↦ absurd (ground arith)
        ]
    check_header-claims null json c h = absurd (ground arith)
    check_header-claims (bool b) json c h = absurd (ground arith)
    check_header-claims (int n) json c h = absurd (ground arith)
    check_header-claims (float x) json c h = absurd (ground arith)
    check_header-claims (str s) json c h = absurd (ground arith)
    check_header-claims (arr xs) json c h = absurd (ground arith)

    check_parts-claims :
        (ho jo : Option Json) (c : Fields)
        → check_parts p now secret header payload sig ho jo ≡ claims c
        → (hj : Json) × (json : Json) × (ho ≡ some hj)
          × (jo ≡ some json)
          × IsHs256 hj
          × IsSigned json c
    unfolding check_parts
    check_parts-claims (some hj) (some json) c h =
        let (hs256, signed) = check_header-claims hj json c h in
        (hj, json, refl, refl, hs256, signed)
    check_parts-claims (some hj) none c h = absurd (ground arith)
    check_parts-claims none jo c h = absurd (ground arith)

  -- The token has three parts; the first names HS256, the third is the signature of the others under
  -- the secret, and the second decodes to the claims, which are current.
  abbrev pub IsToken : String → List String → Fields → Type 0
  IsToken secret parts c =
      (header : String) × (payload : String) × (sig : String) × (hj : Json) × (parts
        ≡ header ∷ payload ∷ sig ∷ [])
      × (decode_part p header ≡ some hj)
      × (decode_part p payload ≡ some (obj c))
      × IsHs256 hj
      × (is_ascii sig ≡ true)
      × (expected_b64 p secret header payload ≡ sig)
      × IsCurrent (get_field c "exp")

  verify_split-claims :
      (secret : String) (parts : List String) (c : Fields)
      → verify_split p now secret parts ≡ claims c
      → IsToken secret parts c
  unfolding verify_split
  verify_split-claims secret (header ∷ payload ∷ sig ∷ []) c h =
      let (hj, json, eh, ej, hs256, (ascii, same, is_c, current)) =
        check_parts-claims secret header payload sig _ _ c h in
      (header, payload, sig, hj, refl, eh, ej ∙ ap some is_c, hs256, ascii, same, current)
  verify_split-claims secret [] c h = absurd (ground arith)
  verify_split-claims secret (a ∷ []) c h = absurd (ground arith)
  verify_split-claims secret (a ∷ b ∷ []) c h = absurd (ground arith)
  verify_split-claims secret (a ∷ b ∷ d ∷ e ∷ r) c h = absurd (ground arith)

  check_int-current :
      (c : Fields) (o : Option ℤ) (n : ℕ)
      → o ≡ some (pos n)
      → now < n
      → check_int now c o ≡ claims c
  unfolding check_int
  check_int-current c o n e later = rw e (ground arith)

  check_timed-current :
      (c : Fields) (exp : Json) (n : ℕ)
      → int_of p exp ≡ some (pos n)
      → now < n
      → check_exp p now c (some exp) ≡ claims c
  unfolding check_exp
  check_timed-current c null n e later = refl
  check_timed-current c (bool b) n e later = check_int-current c _ n e later
  check_timed-current c (int k) n e later = check_int-current c _ n e later
  check_timed-current c (float x) n e later = check_int-current c _ n e later
  check_timed-current c (str s) n e later = check_int-current c _ n e later
  check_timed-current c (arr xs) n e later = check_int-current c _ n e later
  check_timed-current c (obj d) n e later = check_int-current c _ n e later

  check_exp-current : (c : Fields) (o : Option Json) → IsCurrent o → check_exp p now c o ≡ claims c
  unfolding check_exp
  check_exp-current c o (inl missing) = rw missing refl
  check_exp-current c o (inr (inl is_null)) = rw is_null refl
  check_exp-current c o (inr (inr (exp, n, e, is_n, later))) =
      rw e (check_timed-current c exp n is_n later)

  verify_split-IsToken :
      (secret : String) (parts : List String) (c : Fields)
      → IsToken secret parts c
      → verify_split p now secret parts ≡ claims c
  unfolding verify_split check_parts check_header check_signature check_payload
  verify_split-IsToken secret parts c
        (header, payload, sig, hj, e, eh, ej, (d, is_d, hs256), ascii, same, current) =
      rw (e, eh, ej, is_d, hs256, ascii, same, eq_refl sig) (check_exp-current c _ current)

-- A token is accepted with its claims exactly where it has three parts, the first names HS256, the
-- second decodes to the claims, the third is the signature of the first two under the secret, in ASCII,
-- and `exp`, where it is given, is an integer after the present second.
pub verify_hs256_jwt_iff :
    (p : Packages) (now : ℕ) (token secret : String) (c : Fields)
    → (verify_hs256_jwt p now token secret ≡ claims c) ↔ IsToken p now secret (split b'.' token) c
unfolding verify_hs256_jwt
verify_hs256_jwt_iff p now token secret c = (
  verify_split-claims p now secret (split b'.' token) c,
  verify_split-IsToken p now secret (split b'.' token) c,
)
