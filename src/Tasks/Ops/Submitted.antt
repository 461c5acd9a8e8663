-- ===== src/Tasks/Ops/Submitted.antt =====
-- The task that `SubmitTask` makes of a request, orchestrator/internal/rollout/service.go.
use emage_code_cwso.Prelude.{
  ℕ, zero, suc, ◌+◌, ◌≤◌, ◌<◌, ◌≡◌, refl, ap, ◌⊎◌, inl, inr, false, Bool-cases, Option-cases,
  Option, none, some, List, [], length, Text, if◌then◌else◌, ltb, ◌==◌, nat_eq, text_eq, arith,
}
use emage_code_cwso.Prelude.Int.{ℤ, pos, negsuc}
use emage_code_cwso.Tasks.{
  running, SubmitError, Task, SubmitRequest, max_num_samples, sample_count,
  normalize_builder_strategy,
}
use emage_code_cwso.Tasks.Ids.{new_uuid, new_uuids}
use emage_code_cwso.Tasks.Ops.{
  is_blank_spec, prefix_key_of, new_task, submitted_task, Reply, ok, err,
}

abbrev pub OnOk {ℓ} : (Task → Type ℓ) → Reply Task → Type ℓ
OnOk P (ok t) = P t
OnOk P (err e) = Unit

abbrev OnSome : (List Text → Type 0) → Option (List Text) → Type 0
OnSome P none = Unit
OnSome P (some ids) = P ids

new_uuids-length :
    (draw : ℕ → Option (List ℕ)) (n count : ℕ)
    → OnSome (λ ids. length ids ≡ count) (new_uuids draw n count)
unfolding new_uuids
new_uuids-length draw n zero = refl
new_uuids-length draw n (suc count) = elim (Option-cases (new_uuid draw n)) [
  | inl dry ↦ simp (new_uuids, dry) tt
  | inr (id, drawn) ↦ elim (Option-cases (new_uuids draw (n + 1) count)) [
    | inl dry ↦ simp (new_uuids, drawn, dry) tt
    | inr (ids, more) ↦
        simp (new_uuids, drawn, more) (ap suc (rw more at (new_uuids-length draw (n + 1) count)))
  ]
]

sample_count-pos : (z : ℤ) → 1 ≤ sample_count z
unfolding sample_count
sample_count-pos (pos zero) = omega arith
sample_count-pos (pos (suc n)) = omega arith
sample_count-pos (negsuc n) = omega arith

-- What is known of the task of an accepted request.
pub record IsSubmitted (req : SubmitRequest) (t : Task) : Type 0 where
  pub samples : t.num_samples ≡ sample_count req.num_samples
  pub some_samples : 1 ≤ t.num_samples
  pub few : t.num_samples ≤ 32
  pub single : t.num_samples ≡ 1 → (t.session_ids ≡ []) × (t.session_id ≡ t.id)
  pub several : 1 < t.num_samples → length t.session_ids ≡ t.num_samples
  pub runs : t.status ≡ running
  pub none_ended : t.session_groups ≡ []
  pub no_error : t.last_error ≡ []
  pub no_group : t.trajectory_group ≡ none

submitted_task-IsSubmitted :
    (req : SubmitRequest) (id key strategy : Text) (sids : List Text) (now : ℕ)
    → ltb max_num_samples (sample_count req.num_samples) ≡ false
    → (1 < sample_count req.num_samples → length sids ≡ sample_count req.num_samples)
    → IsSubmitted req (submitted_task req id key strategy sids now)
unfolding submitted_task
submitted_task-IsSubmitted req id key strategy sids now few enough = record {
  samples = refl;
  some_samples = sample_count-pos req.num_samples;
  few = ground arith;
  single = λ h. (ground arith, ground arith);
  several = λ h. ground (arith, enough h);
  runs = refl;
  none_ended = refl;
  no_error = refl;
  no_group = refl;
}

-- The sessions of a request are as many as the samples, where there are several.
sessions-length :
    (draw : ℕ → Option (List ℕ)) (num : ℕ)
    → OnSome
        (λ sids. 1 < num → length sids ≡ num)
        (if num == 1 then some [] else new_uuids draw 1 num)
sessions-length draw num = elim (Bool-cases (num == 1)) [
  | inl one ↦ rw one (λ h. absurd (ground arith))
  | inr several ↦ elim (Option-cases (new_uuids draw 1 num)) [
    | inl dry ↦ rw (several, dry) tt
    | inr (ids, drawn) ↦ rw (several, drawn) (λ h. rw drawn at (new_uuids-length draw 1 num))
  ]
]

pub new_task-IsSubmitted :
    (req : SubmitRequest) (draw : ℕ → Option (List ℕ)) (resolve : Text → Option Text) (now : ℕ)
    → OnOk (IsSubmitted req) (new_task req draw resolve now)
unfolding new_task
new_task-IsSubmitted req draw resolve now =
    let num = sample_count req.num_samples in
    let sessions : Option (List Text) = if num == 1 then some [] else new_uuids draw 1 num in
    elim (Bool-cases (is_blank_spec req.task_spec)) [
      | inl blank ↦ simp (new_task, blank) tt
      | inr spec ↦ elim (Bool-cases (ltb max_num_samples num)) [
        | inl many ↦ simp (new_task, spec, many) tt
        | inr few ↦ elim (Option-cases (new_uuid draw 0)) [
          | inl dry ↦ simp (new_task, spec, few, dry) tt
          | inr (id, drawn) ↦ elim (Option-cases (prefix_key_of req resolve)) [
            | inl lost ↦ simp (new_task, spec, few, drawn, lost) tt
            | inr (key, routed) ↦
                elim (Option-cases (normalize_builder_strategy req.trajectory_builder_strategy)) [
                  | inl unknown ↦ simp (new_task, spec, few, drawn, routed, unknown) tt
                  | inr (strategy, known) ↦ elim (Option-cases sessions) [
                    | inl dry ↦ simp (new_task, spec, few, drawn, routed, known, dry) tt
                    | inr (sids, more) ↦
                        simp (new_task, spec, few, drawn, routed, known, more)
                          (submitted_task-IsSubmitted req id key strategy sids now few
                            (rw more at (sessions-length draw num)))
                  ]
                ]
          ]
        ]
      ]
    ]

pub Reply-cases : (r : Reply Task) → ((t : Task) × (r ≡ ok t)) ⊎ ((e : SubmitError) × (r ≡ err e))
Reply-cases (ok t) = inl (t, refl)
Reply-cases (err e) = inr (e, refl)
