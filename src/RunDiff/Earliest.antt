-- ===== src/RunDiff/Earliest.antt =====
-- The first difference of two runs, as services/gateway/dadi_gateway/diff_routes.py finds it.
use mathlib.Core.Path.{subst}
use dadi_runtime.Base.{
  ℕ, ◌<◌, String, true, Option, none, some, List, [], ◌∷◌, ◌≡◌, ◌≢◌, ◌⊎◌, refl, sym, ap, ◌∙◌, arith,
  All, Option-cases, inl, inr, nat_eq, ltb, Bool-cases, All-map_rule, same_text, eq_iff,
}
use dadi_runtime.Tables.{StageRun}
use dadi_runtime.RunDiff.{
  Stages, stage_map, get_stage, insert_index, add_indices, all_indices, compare_stage, class_of,
  diff_rows,
}
use dadi_runtime.RunDiff.First.{
  first_class, index_of, pick, stage_class, diff_rows-first, insert_index-All, add_indices-All,
  keys-HasStages, same_text_self,
}

-- Two stages are alike: both missing, or both there with one output, prompt and toolchain.
abbrev pub Alike : Option StageRun → Option StageRun → Type 0
Alike none none = Unit
Alike none (some b) = ⊥
Alike (some a) none = ⊥
Alike (some a) (some b) =
    (a.output_artifact_sha256 ≡ b.output_artifact_sha256)
    × (a.prompt_bundle_sha256 ≡ b.prompt_bundle_sha256)
    × (a.toolchain_manifest_sha256 ≡ b.toolchain_manifest_sha256)

-- The first number that does not have the property, or none if all have it.
abbrev pub IsFirst : (ℕ → Type 0) → Option ℕ → Type 0
IsFirst P none = (i : ℕ) → P i
IsFirst P (some i) = (¬ P i) × ((j : ℕ) → j < i → P j)

same_text_path : (o q : Option String) → same_text o q ≡ true → o ≡ q
same_text_path none none h = refl
same_text_path none (some s) h = absurd (ground (arith, h))
same_text_path (some s) none h = absurd (ground (arith, h))
same_text_path (some s) (some t) h = ap some ((eq_iff s t).0 h)

no_class-Alike : (i : ℕ) (a b : Option StageRun) → class_of (compare_stage i a b) ≡ none → Alike a b
unfolding compare_stage class_of
no_class-Alike i none b h = absurd (ground (arith, h))
no_class-Alike i (some a) none h = absurd (ground (arith, h))
no_class-Alike i (some a) (some b) h = (
  same_text_path a.output_artifact_sha256 b.output_artifact_sha256 (ground (arith, h)),
  same_text_path a.prompt_bundle_sha256 b.prompt_bundle_sha256 (ground (arith, h)),
  (eq_iff a.toolchain_manifest_sha256 b.toolchain_manifest_sha256).0 (ground (arith, h)),
)

-- a stage of either run
abbrev Either : Option StageRun → Option StageRun → Type 0
Either a b = ((r : StageRun) × (a ≡ some r)) ⊎ ((r : StageRun) × (b ≡ some r))

same_text_of : (o q : Option String) → o ≡ q → same_text o q ≡ true
same_text_of o q h = ap (same_text o) (sym h) ∙ same_text_self o

class-not_Alike :
    (i : ℕ) (a b : Option StageRun) (c : String)
    → Either a b
    → class_of (compare_stage i a b) ≡ some c
    → ¬ Alike a b
unfolding compare_stage class_of
class-not_Alike i none none c (inl (r, e)) h alike = absurd (ground (arith, e))
class-not_Alike i none none c (inr (r, e)) h alike = absurd (ground (arith, e))
class-not_Alike i none (some b) c has h alike = alike
class-not_Alike i (some a) none c has h alike = alike
class-not_Alike i (some a) (some b) c has h (output, prompt, toolchain) = ground (
  arith,
  h,
  same_text_of a.output_artifact_sha256 b.output_artifact_sha256 output,
  same_text_of a.prompt_bundle_sha256 b.prompt_bundle_sha256 prompt,
  (eq_iff a.toolchain_manifest_sha256 b.toolchain_manifest_sha256).1 toolchain,
)

Rising : List ℕ → Type 0
Rising [] = Unit
Rising (i ∷ is') = All (λ j. i < j) is' × Rising is'

-- the number is not in the list
Away : ℕ → List ℕ → Type 0
Away j is' = All (λ i. j ≢ i) is'

insert_index-Rising : (i : ℕ) (js : List ℕ) → Rising js → Rising (insert_index i js)
unfolding insert_index Rising
insert_index-Rising i [] h = (tt, tt)
insert_index-Rising i (j ∷ js) h = elim (Bool-cases (ltb i j)) [
  | inl lt ↦ rw lt ((ground (arith, lt), All-map_rule (λ k p. ground (arith, lt, p)) js h.0), h)
  | inr ge ↦ elim (Bool-cases (nat_eq i j)) [
    | inl e ↦ rw (ge, e) h
    | inr ne ↦
        rw (ge, ne)
          (
            insert_index-All (λ k. j < k) i js (ground (arith, ge, ne)) h.0,
            insert_index-Rising i js h.1,
          )
  ]
]

add_indices-Rising : (m : Stages) (js : List ℕ) → Rising js → Rising (add_indices m js)
unfolding add_indices
add_indices-Rising [] js h = h
add_indices-Rising ((i, r) ∷ m) js h =
    insert_index-Rising i (add_indices m js) (add_indices-Rising m js h)

insert_index-Away : (k i : ℕ) (js : List ℕ) → Away k (insert_index i js) → (k ≢ i) × Away k js
unfolding insert_index Away
insert_index-Away k i [] h = h
insert_index-Away k i (j ∷ js) h = elim (Bool-cases (ltb i j)) [
  | inl lt ↦ rw lt at h
  | inr ge ↦ elim (Bool-cases (nat_eq i j)) [
    | inl e ↦
        let h' : All (λ n. k ≢ n) (j ∷ js) = rw (ge, e) at h in
        (λ q. h'.0 (q ∙ ground (arith, e)), h')
    | inr ne ↦
        let h' : All (λ n. k ≢ n) (j ∷ insert_index i js) = rw (ge, ne) at h in
        let (other, rest) = insert_index-Away k i js h'.1 in (other, (h'.0, rest))
  ]
]

add_indices-Away :
    (k : ℕ) (m : Stages) (js : List ℕ)
    → Away k (add_indices m js)
    → (get_stage k m ≡ none) × Away k js
unfolding add_indices get_stage
add_indices-Away k [] js h = (refl, h)
add_indices-Away k ((i, r) ∷ m) js h =
    let (other, more) = insert_index-Away k i (add_indices m js) h in
    let (gone, rest) = add_indices-Away k m js more in
    elim (Bool-cases (nat_eq k i)) [
      | inl e ↦ absurd (other (ground (arith, e)))
      | inr ne ↦ (rw ne gone, rest)
    ]

absent_before : (j : ℕ) (is' : List ℕ) (i : ℕ) → j < i → All (λ k. i < k) is' → Away j is'
unfolding Away
absent_before j is' i lt h = All-map_rule (λ k p. λ e. omega arith) is' h

first_class-IsFirst :
    (P : ℕ → Type 0) (f : ℕ → Option String) (is' : List ℕ)
    → Rising is'
    → ((j : ℕ) → Away j is' → P j)
    → All (λ i. (f i ≡ none → P i) × ((c : String) → f i ≡ some c → ¬ P i)) is'
    → IsFirst P (index_of (first_class f is'))
unfolding Rising Away
first_class-IsFirst P f [] rising away reads = λ j. away j tt
first_class-IsFirst P f (i ∷ is') rising away reads = elim (Option-cases (f i)) [
  | inr (c, e) ↦
      subst (λ o. IsFirst P (index_of (pick i o (first_class f is')))) (sym e)
        (reads.0.1 c e, λ j lt. away j ((λ q. omega arith), absent_before j is' i lt rising.0))
  | inl e ↦
      subst (λ o. IsFirst P (index_of (pick i o (first_class f is')))) (sym e)
        (first_class-IsFirst P f is' rising.1
          (λ j rest. elim (Bool-cases (nat_eq j i)) [
            | inl same ↦ subst P (sym (ground (arith, same))) (reads.0.0 e)
            | inr ne ↦ away j ((λ q. ground (arith, ne, q)), rest)
          ])
          reads.1)
]

-- The diff names the first stage index at which the stages of the two runs are not alike: one is
-- missing, or they differ in output, prompt or toolchain. It names none where all stages are alike.
pub diff_rows-IsFirst :
    (rows_a rows_b : List StageRun)
    → IsFirst
        (λ i. Alike (get_stage i (stage_map rows_a)) (get_stage i (stage_map rows_b)))
        (diff_rows rows_a rows_b).first_diff
unfolding Rising Away
diff_rows-IsFirst rows_a rows_b =
    let ma : Stages = stage_map rows_a in
    let mb : Stages = stage_map rows_b in
    let P : ℕ → Type 0 = λ i. Alike (get_stage i ma) (get_stage i mb) in
    let Has : ℕ → Type 0 = λ i. Either (get_stage i ma) (get_stage i mb) in
    let has : All Has (all_indices ma mb) =
      add_indices-All Has ma (add_indices mb [])
        (All-map_rule (λ p h. inl h) ma (keys-HasStages ma))
        (add_indices-All Has mb [] (All-map_rule (λ p h. inr h) mb (keys-HasStages mb)) tt) in
    let missing : (j : ℕ) → Away j (all_indices ma mb) → P j = λ j away.
      let (gone, more) = add_indices-Away j ma (add_indices mb []) away in
      let (gone', _) = add_indices-Away j mb [] more in
      subst (λ o. Alike o (get_stage j mb)) (sym gone) (subst (λ o. Alike none o) (sym gone') tt) in
    subst (IsFirst P) (sym (diff_rows-first rows_a rows_b).0) (
      first_class-IsFirst P (stage_class ma mb) (all_indices ma mb)
        (add_indices-Rising ma (add_indices mb []) (add_indices-Rising mb [] tt)) missing
        (All-map_rule
          (λ i h. (
            no_class-Alike i (get_stage i ma) (get_stage i mb),
            λ c. class-not_Alike i (get_stage i ma) (get_stage i mb) c h,
          ))
          (all_indices ma mb) has))
