-- ===== src/Limits/Sizes.antt =====
-- services/gateway/dadi_gateway/request_size_limit.py: the limit on the size of a request, and which
-- requests it lets through.
use dadi_runtime.Base.{
  ◌≡◌, ◌↔◌, ◌⊎◌, refl, inl, inr, arith, Bool-cases, ℤ, pos, negsuc, String, Bool, true, false, ◌&&◌,
  Option, none, some, ◌==◌, end, field, str, int, if◌then◌else◌, ltb,
}
use dadi_runtime.Signing.{Packages}
use dadi_runtime.Auth.{HttpRequest, Outcome, passed, answered, detail}

pub record SizeLimits : Type 0 where
  pub max_request : ℤ
  pub max_artifact_upload : ℤ

-- `a > b`
abbrev pub int_gt : ℤ → ℤ → Bool
int_gt (pos a) (pos b) = ltb b a
int_gt (pos a) (negsuc b) = true
int_gt (negsuc a) (pos b) = false
int_gt (negsuc a) (negsuc b) = ltb a b

abbrev pub size_limit : SizeLimits → HttpRequest → ℤ
size_limit cfg request =
    if request.state.method == "POST" && request.state.path == "/artifacts"
    then cfg.max_artifact_upload
    else cfg.max_request

unfoldable pub check_length : SizeLimits → HttpRequest → Option ℤ → Outcome
check_length cfg request none = answered 400 (detail "Invalid Content-Length")
check_length cfg request (some n) =
    let limit = size_limit cfg request in
    if int_gt n limit
    then answered 413
        (field "detail" (str "Request Entity Too Large") (field "limit_bytes" (int limit) end))
    else passed request

unfoldable pub check_size : Packages → SizeLimits → HttpRequest → Option String → Outcome
unfolding check_length
check_size p cfg request none = passed request
check_size p cfg request (some length) = check_length cfg request (p.int_of_text length)

-- `RequestSizeLimitMiddleware.dispatch`
unfoldable pub size_dispatch : Packages → SizeLimits → HttpRequest → Outcome
unfolding check_size
size_dispatch p cfg request = check_size p cfg request request.content_length

-- No length is given, or an integer that is not over the limit of the request.
abbrev pub IsSized : Packages → SizeLimits → HttpRequest → Option String → Type 0
IsSized p cfg request o =
    (o ≡ none)
    ⊎ ((s : String) × (n : ℤ) × (o ≡ some s)
        × (p.int_of_text s ≡ some n)
        × (int_gt n (size_limit cfg request) ≡ false))

module _ (p : Packages) (cfg : SizeLimits) (request : HttpRequest) where
  check_length-passed :
      (o : Option ℤ)
      → check_length cfg request o ≡ passed request
      → (n : ℤ) × (o ≡ some n) × (int_gt n (size_limit cfg request) ≡ false)
  unfolding check_length
  check_length-passed none h = absurd (ground arith)
  check_length-passed (some n) h = elim (Bool-cases (int_gt n (size_limit cfg request))) [
    | inl over ↦ let k = rw (over, check_length, if◌then◌else◌) at h in absurd (ground (arith, k))
    | inr fits ↦ (n, refl, fits)
  ]

  check_size-passed :
      (o : Option String) → check_size p cfg request o ≡ passed request → IsSized p cfg request o
  unfolding check_size
  check_size-passed none h = inl refl
  check_size-passed (some s) h =
      let (n, is_n, fits) = check_length-passed (p.int_of_text s) h in inr (s, n, refl, is_n, fits)

  check_size-IsSized :
      (o : Option String) → IsSized p cfg request o → check_size p cfg request o ≡ passed request
  unfolding check_size check_length
  check_size-IsSized o (inl missing) = rw missing refl
  check_size-IsSized o (inr (s, n, e, is_n, fits)) = rw (e, is_n, fits) refl

  -- A request goes on exactly where it names no length, or an integer that is not over the limit: the
  -- limit of uploads for POST /artifacts, and the general one for all else.
  pub size_dispatch_iff :
      (size_dispatch p cfg request ≡ passed request) ↔ IsSized p cfg request request.content_length
  unfolding size_dispatch
  size_dispatch_iff =
      (check_size-passed request.content_length, check_size-IsSized request.content_length)
