-- ===== src/LlmAdapter/Capture.antt =====
-- What is captured of a call is what a replay gives back.
use dadi_runtime.Base.{
  ℕ, ◌+◌, ◌++◌, String, Bool, true, false, Option, none, some, List, [], ◌∷◌, ◌≡◌, refl, ap, ◌∙◌,
  arith, All, All-append, All-select_one, Option-cases, Bool-cases, inl, inr, eq_refl, eq_iff,
  Fields, str, obj, get_field, Result, ok, raised, Exec, ◌>>=◌, pure, bind-ok, select_one,
  select_one-insert, select_one-holds, truthy, or_default,
}
use dadi_runtime.Store.{Meta}
use dadi_runtime.Pack.{PackDb, Blob, has_digest, new_blob, get_artifact_content, postgres_content}
use dadi_runtime.LlmAdapter.{
  LlmRequest, LlmEnv, live, replay, CallArgs, dump_request, dump_response, llm_meta, put_artifact,
  parse_response, body_of, load_response_body, record_call, ask, replay_from, run_replay, capture,
  run, mode_name, dispatch, drift_of, Answer,
}

module _ (e : LlmEnv) where
  -- a row holds its bytes, under their digest
  pub record IsStored (b : Blob) : Type 0 where
    pub inline : b.storage_backend ≡ "postgres"
    pub bytes : List ℕ
    pub content_is : b.content ≡ some bytes
    pub key : b.sha256 ≡ e.sha256_hex bytes

  new_blob-IsStored : (m : Meta) (c : List ℕ) → IsStored (new_blob (e.sha256_hex c) m c)
  new_blob-IsStored m c = record { inline = refl; bytes = c; content_is = refl; key = refl }

  put_artifact-ok :
      (m : Meta) (c : List ℕ) (s : PackDb) → (put_artifact e m c s).0 ≡ ok (e.sha256_hex c)
  unfolding put_artifact
  put_artifact-ok m c s = ground arith

  put_artifact-asked :
      (m : Meta) (c : List ℕ) (s : PackDb) → (put_artifact e m c s).1.asked ≡ s.asked
  unfolding put_artifact
  put_artifact-asked m c s = ground arith

  put_artifact-IsStored :
      (m : Meta) (c : List ℕ) (s : PackDb)
      → All IsStored s.blobs
      → All IsStored (put_artifact e m c s).1.blobs
  unfolding put_artifact
  put_artifact-IsStored m c s h =
      elim (Option-cases (select_one (has_digest (e.sha256_hex c)) s.blobs)) [
        | inl n ↦ rw (put_artifact, n) (All-append IsStored s.blobs _ h (new_blob-IsStored m c, tt))
        | inr (b, f) ↦ rw (put_artifact, f) h
      ]

  stored_content :
      (b : Blob) (c : List ℕ)
      → b.storage_backend ≡ "postgres"
      → b.content ≡ some c
      → postgres_content (some b) ≡ some c
  stored_content b c h k =
      ground (arith, h, k, eq_iff b.storage_backend "postgres", eq_refl "postgres")

  -- A row under the digest of the bytes holds these bytes.
  abbrev pub Agrees : List ℕ → Blob → Type 0
  Agrees c b = b.sha256 ≡ e.sha256_hex c → b.content ≡ some c

  put_artifact-Agrees :
      (m : Meta) (q c : List ℕ) (s : PackDb)
      → (e.sha256_hex q ≡ e.sha256_hex c → q ≡ c)
      → All (Agrees c) s.blobs
      → All (Agrees c) (put_artifact e m q s).1.blobs
  unfolding put_artifact
  put_artifact-Agrees m q c s same h =
      elim (Option-cases (select_one (has_digest (e.sha256_hex q)) s.blobs)) [
        | inl n ↦
            rw (put_artifact, n) (All-append (Agrees c) s.blobs _ h (λ k. ap some (same k), tt))
        | inr (b, f) ↦ rw (put_artifact, f) h
      ]

  get_artifact_content-put :
      (m : Meta) (c : List ℕ) (s : PackDb)
      → All IsStored s.blobs
      → All (Agrees c) s.blobs
      → get_artifact_content (put_artifact e m c s).1 (e.sha256_hex c) ≡ some c
  unfolding put_artifact get_artifact_content
  get_artifact_content-put m c s h agrees =
      let p = has_digest (e.sha256_hex c) in
      elim (Option-cases (select_one p s.blobs)) [
        | inl n ↦
            let b = new_blob (e.sha256_hex c) m c in
            let f : select_one p (s.blobs ++ b ∷ []) ≡ some b =
              ground (arith, n, select_one-insert p s.blobs b, eq_refl (e.sha256_hex c)) in
            rw (put_artifact, n) (ap postgres_content f)
        | inr (b, f) ↦
            let st = All-select_one IsStored p s.blobs {r = b} h f in
            let holds = select_one-holds p s.blobs {r = b} f in
            let key : b.sha256 ≡ e.sha256_hex c =
              ground (arith, holds, eq_iff b.sha256 (e.sha256_hex c)) in
            let holds_it = All-select_one (Agrees c) p s.blobs {r = b} agrees f key in
            rw (put_artifact, f) (ap postgres_content f ∙ stored_content b c st.inline holds_it)
      ]

  record_call-blobs :
      (l : Bool) (id : Option String) (q p : String) (r : LlmRequest) (m : String) (s : PackDb)
      → ((record_call e l id q p r m s).0 ≡ ok tt)
        × ((record_call e l id q p r m s).1.blobs ≡ s.blobs)
        × ((record_call e l id q p r m s).1.asked ≡ s.asked)
  unfolding record_call
  record_call-blobs false id q p r m s = (refl, refl, refl)
  record_call-blobs true none q p r m s = (refl, refl, refl)
  record_call-blobs true (some id) q p r m s = (refl, refl, refl)

  replay_from-asked :
      (a : CallArgs) (r : LlmRequest) (q sha : String) (p : Result Fields) (s : PackDb)
      → (replay_from e a r q sha p s).1.asked ≡ s.asked
  unfolding replay_from
  replay_from-asked a r q sha (raised x) s = refl
  replay_from-asked a r q sha (ok fields) s =
      let call = record_call e a.record_ledger a.stage_run_id q sha r "replay" in
      let (done, _, kept) = record_call-blobs a.record_ledger a.stage_run_id q sha r "replay" s in
      let rest : Unit → Exec PackDb (Answer e) = λ _. pure (q, sha, none) in
      ap (λ p. p.1.asked) (bind-ok call rest s done) ∙ kept

  run_replay-asked :
      (a : CallArgs) (r : LlmRequest) (q : String) (s : PackDb)
      → (run_replay e a r q s).1.asked ≡ s.asked
  unfolding run_replay
  run_replay-asked a r q s = elim (Bool-cases (truthy a.replay_response_sha256)) [
    | inr miss ↦ ground (arith, miss)
    | inl hit ↦
        rw (run_replay, hit) (replay_from-asked a r q (or_default a.replay_response_sha256 "") _ s)
  ]

  -- A replay never calls the provider, whether it succeeds or fails.
  pub run-replay_asks_nothing :
      (a : CallArgs) (r : LlmRequest) (s : PackDb)
      → a.mode ≡ replay
      → (run e a r s).1.asked ≡ s.asked
  unfolding run run_replay
  run-replay_asks_nothing a r s h =
      let r' = record r { provider = e.provider_name } in
      let req = e.canonical (dump_request r') in
      let put = put_artifact e (llm_meta "llm/request-v1" "llm_request-v1") req in
      let ran : run e a r s ≡ run_replay e a r' (e.sha256_hex req) (put s).1 =
        bind-ok put _ s (put_artifact-ok (llm_meta "llm/request-v1" "llm_request-v1") req s)
        ∙ ap (λ m. dispatch e a r' (e.sha256_hex req) m (put s).1) h in
      ap (λ p. p.1.asked) ran
      ∙ run_replay-asked a r' (e.sha256_hex req) (put s).1
      ∙ put_artifact-asked (llm_meta "llm/request-v1" "llm_request-v1") req s

  get_artifact_content_cong :
      (sha : String) (s t : PackDb)
      → s.blobs ≡ t.blobs
      → get_artifact_content s sha ≡ get_artifact_content t sha
  unfolding get_artifact_content
  get_artifact_content_cong sha s t h = ap (λ b. postgres_content (select_one (has_digest sha) b)) h

  parse_response-reads :
      (missing wrong : String) (bytes : List ℕ) (o : Fields)
      → e.loads bytes ≡ some (obj o)
      → get_field o "schema_version" ≡ some (str "llm_response-v1")
      → parse_response e missing wrong (some bytes) ≡ ok o
  unfolding parse_response
  parse_response-reads missing wrong bytes o h k = ground (arith, h, k)

  body_of-reads :
      (o : Fields) (body : String)
      → get_field o "body" ≡ some (str body)
      → body_of e (ok o) ≡ ok (str body)
  body_of-reads o body h = ground (arith, h)

  -- A live call that the provider answers returns the digests of the stored request and response, and
  -- the response that is stored under the returned digest has the provider's answer as its body. It
  -- needs a store whose rows hold bytes under their digests, no digest of other bytes in the store or
  -- of the request that is the response's, and that the response's JSON is read back with the keys
  -- that it was written with.
  pub load_response_body-run :
      (a : CallArgs) (r : LlmRequest) (s : PackDb) (body : String) (o : Fields)
      → let r' = record r { provider = e.provider_name } in
        let req_sha = e.sha256_hex (e.canonical (dump_request r')) in
        let bytes = e.canonical (dump_response req_sha r' body) in
        a.mode ≡ live
        → All IsStored s.blobs
        → e.complete s.asked r' ≡ ok body
        → All (Agrees bytes) s.blobs
        → (req_sha ≡ e.sha256_hex bytes → e.canonical (dump_request r') ≡ bytes)
        → e.loads bytes ≡ some (obj o)
        → ((key : String) → get_field o key ≡ get_field (dump_response req_sha r' body) key)
        → ((run e a r s).0 ≡ ok (req_sha, e.sha256_hex bytes, none))
          × (load_response_body e (run e a r s).1 (e.sha256_hex bytes) ≡ ok (str body))
  unfolding run capture load_response_body get_field ask
  load_response_body-run a r s body o h stored answered agrees apart reads keys =
      let r' = record r { provider = e.provider_name } in
      let req = e.canonical (dump_request r') in
      let req_sha = e.sha256_hex req in
      let bytes = e.canonical (dump_response req_sha r' body) in
      let sha = e.sha256_hex bytes in
      let req_meta = llm_meta "llm/request-v1" "llm_request-v1" in
      let resp_meta = llm_meta "llm/response-v1" "llm_response-v1" in
      let put_req = put_artifact e req_meta req in
      let missing : String = "Response artifact not found or not available" in
      let wrong : String = "Artifact is not llm_response-v1" in
      let s1 = (put_req s).1 in
      let s2 = record s1 { asked = s1.asked + 1 } in
      let put = put_artifact e resp_meta bytes in
      let s3 = (put s2).1 in
      let call = record_call e a.record_ledger a.stage_run_id req_sha sha r' "live" in
      let ran : run e a r s ≡ (ok (req_sha, sha, none), (call s3).1) =
        bind-ok put_req _ s (put_artifact-ok req_meta req s)
        ∙ ap (λ m. dispatch e a r' req_sha m s1) h
        ∙ bind-ok (ask e r') _ s1 {a = body}
            (ap (λ n. e.complete n r') (put_artifact-asked req_meta req s) ∙ answered)
        ∙ bind-ok put _ s2 (put_artifact-ok resp_meta bytes s2)
        ∙ ap
            (λ m.
              (do
                d ← drift_of e a r' req_sha sha m
                _ ← record_call e a.record_ledger a.stage_run_id req_sha sha r' (mode_name m)
                pure (req_sha, sha, d))
                s3)
            h
        ∙ bind-ok call _ s3
            (record_call-blobs a.record_ledger a.stage_run_id req_sha sha r' "live" s3).0 in
      let kept : get_artifact_content (call s3).1 sha ≡ get_artifact_content s3 sha =
        get_artifact_content_cong sha (call s3).1 s3
          (record_call-blobs a.record_ledger a.stage_run_id req_sha sha r' "live" s3).1 in
      let found : get_artifact_content (call s3).1 sha ≡ some bytes =
        kept
        ∙ get_artifact_content-put resp_meta bytes s2 (put_artifact-IsStored req_meta req s stored)
            (put_artifact-Agrees req_meta req bytes s apart agrees) in
      (
        ap (λ p. p.0) ran,
        ap (λ p. load_response_body e p.1 sha) ran
            ∙ ap (λ c. body_of e (parse_response e missing wrong c)) found
            ∙ ap (body_of e)
                (parse_response-reads missing wrong bytes o reads (keys "schema_version"))
            ∙ body_of-reads o body (keys "body"),
      )
