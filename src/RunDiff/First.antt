-- ===== src/RunDiff/First.antt =====
-- The first stage in which two runs differ.
use dadi_runtime.Base.{
  ℕ, String, true, Option, none, some, List, [], ◌∷◌, ◌≡◌, refl, sym, ap, ◌∙◌, arith, All,
  Option-cases, inl, inr, nat_eq, ltb, Bool-cases, All-map_rule, same_text, eq_refl, nat_eq_self,
}
use dadi_runtime.Tables.{StageRun}
use dadi_runtime.RunDiff.{
  Stages, stage_map, get_stage, insert_index, add_indices, all_indices, compare_stage, class_of,
  Diff, note, compare_stages, no_diff, diff_rows,
}

abbrev pub pick : ℕ → Option String → Option (ℕ × String) → Option (ℕ × String)
pick i none later = later
pick i (some c) later = some (i, c)

-- the first index that has a class
abbrev pub first_class : (ℕ → Option String) → List ℕ → Option (ℕ × String)
first_class f [] = none
first_class f (i ∷ is') = pick i (f i) (first_class f is')

abbrev pub index_of : Option (ℕ × String) → Option ℕ
index_of none = none
index_of (some (i, c)) = some i

abbrev pub name_of : Option (ℕ × String) → Option String
name_of none = none
name_of (some (i, c)) = some c

abbrev pub stage_class : Stages → Stages → ℕ → Option String
stage_class ma mb i = class_of (compare_stage i (get_stage i ma) (get_stage i mb))

compare_stages-some :
    (ma mb : Stages) (is' : List ℕ) (d : Diff) (i : ℕ)
    → d.first_diff ≡ some i
    → ((compare_stages ma mb is' d).first_diff ≡ some i)
      × ((compare_stages ma mb is' d).classification ≡ d.classification)
unfolding compare_stages note
compare_stages-some ma mb [] d i h = (h, refl)
compare_stages-some ma mb (j ∷ is') d i h =
    let c = compare_stage j (get_stage j ma) (get_stage j mb) in
    let (p, q) = compare_stages-some ma mb is' (note j c d) i (ground (arith, h)) in
    (p, q ∙ ground (arith, h))

compare_stages-none :
    (ma mb : Stages) (is' : List ℕ) (d : Diff)
    → d.first_diff ≡ none
    → d.classification ≡ none
    → ((compare_stages ma mb is' d).first_diff ≡ index_of (first_class (stage_class ma mb) is'))
      × ((compare_stages ma mb is' d).classification
          ≡ name_of (first_class (stage_class ma mb) is'))
unfolding compare_stages note
compare_stages-none ma mb [] d h k = (h, k)
compare_stages-none ma mb (j ∷ is') d h k =
    let c = compare_stage j (get_stage j ma) (get_stage j mb) in
    elim (Option-cases (class_of c)) [
      | inl e ↦
          let (p, q) =
            compare_stages-none ma mb is' (note j c d) (ground (arith, h, e))
              (ground (arith, h, e, k)) in
          let picked = ap (λ o. pick j o (first_class (stage_class ma mb) is')) (sym e) in
          (p ∙ ap index_of picked, q ∙ ap name_of picked)
      | inr (s, e) ↦
          let (p, q) = compare_stages-some ma mb is' (note j c d) j (ground (arith, h, e)) in
          let picked = ap (λ o. pick j o (first_class (stage_class ma mb) is')) (sym e) in
          let named : (note j c d).classification ≡ some s = ground (arith, h, e) in
          (p ∙ ap index_of picked, q ∙ named ∙ ap name_of picked)
    ]

-- The diff names the first of the indices of both runs whose comparison has a class, and this class; it
-- names none where no comparison has one.
pub diff_rows-first :
    (rows_a rows_b : List StageRun)
    → let ma = stage_map rows_a in
      let mb = stage_map rows_b in
      let found = first_class (stage_class ma mb) (all_indices ma mb) in
      ((diff_rows rows_a rows_b).first_diff ≡ index_of found)
      × ((diff_rows rows_a rows_b).classification ≡ name_of found)
diff_rows-first rows_a rows_b =
    compare_stages-none (stage_map rows_a) (stage_map rows_b) _ no_diff refl refl

-- every index of a list has a stage
abbrev HasStages : Stages → List ℕ → Type 0
HasStages m is' = All (λ i. (r : StageRun) × (get_stage i m ≡ some r)) is'

pub insert_index-All :
    (P : ℕ → Type 0) (i : ℕ) (js : List ℕ) → P i → All P js → All P (insert_index i js)
unfolding insert_index
insert_index-All P i [] p h = (p, tt)
insert_index-All P i (j ∷ js) p h = elim (Bool-cases (ltb i j)) [
  | inl lt ↦ rw lt (p, h)
  | inr ge ↦ elim (Bool-cases (nat_eq i j)) [
    | inl e ↦ rw (ge, e) h
    | inr ne ↦ rw (ge, ne) (h.0, insert_index-All P i js p h.1)
  ]
]

get_stage-cons :
    (i j : ℕ) (r : StageRun) (m : Stages)
    → (q : StageRun) × (get_stage i m ≡ some q)
    → (q : StageRun) × (get_stage i ((j, r) ∷ m) ≡ some q)
unfolding get_stage
get_stage-cons i j r m (q, h) = elim (Bool-cases (nat_eq i j)) [
  | inl e ↦ (r, ground (arith, e))
  | inr ne ↦ (q, ground (arith, ne, h))
]

pub add_indices-All :
    (P : ℕ → Type 0) (m : Stages) (js : List ℕ)
    → All (λ (p : ℕ × StageRun). P p.0) m
    → All P js
    → All P (add_indices m js)
unfolding add_indices
add_indices-All P [] js h k = k
add_indices-All P ((i, r) ∷ m) js h k =
    insert_index-All P i (add_indices m js) h.0 (add_indices-All P m js h.1 k)

pub keys-HasStages :
    (m : Stages) → All (λ (p : ℕ × StageRun). (r : StageRun) × (get_stage p.0 m ≡ some r)) m
unfolding get_stage
keys-HasStages [] = tt
keys-HasStages ((i, r) ∷ m) = (
  (r, ground (arith, nat_eq_self i)),
  All-map_rule (λ p h. get_stage-cons p.0 i r m h) m (keys-HasStages m),
)

pub same_text_self : (o : Option String) → same_text o o ≡ true
same_text_self none = refl
same_text_self (some s) = eq_refl s

stage_class_self :
    (m : Stages) (i : ℕ) → ((r : StageRun) × (get_stage i m ≡ some r)) → stage_class m m i ≡ none
unfolding compare_stage class_of
stage_class_self m i (r, h) = ground (
  arith,
  h,
  same_text_self r.output_artifact_sha256,
  same_text_self r.prompt_bundle_sha256,
  eq_refl r.toolchain_manifest_sha256,
)

first_class-none :
    (f : ℕ → Option String) (is' : List ℕ) → All (λ i. f i ≡ none) is' → first_class f is' ≡ none
first_class-none f [] h = refl
first_class-none f (i ∷ is') h =
    ap (λ o. pick i o (first_class f is')) h.0 ∙ first_class-none f is' h.1

-- A run does not differ from itself, nor from a run with the same stage runs: no first difference and
-- no class.
pub diff_rows_self :
    (rows : List StageRun)
    → ((diff_rows rows rows).first_diff ≡ none) × ((diff_rows rows rows).classification ≡ none)
diff_rows_self rows =
    let m = stage_map rows in
    let has : HasStages m (all_indices m m) =
      add_indices-All (λ i. (r : StageRun) × (get_stage i m ≡ some r)) m _ (keys-HasStages m)
        (add_indices-All (λ i. (r : StageRun) × (get_stage i m ≡ some r)) m [] (keys-HasStages m)
          tt) in
    let none_there =
      first_class-none (stage_class m m) (all_indices m m)
        (All-map_rule (λ i h. stage_class_self m i h) (all_indices m m) has) in
    let (p, q) = diff_rows-first rows rows in
    (p ∙ ap index_of none_there, q ∙ ap name_of none_there)
