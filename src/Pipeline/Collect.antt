-- ===== src/Pipeline/Collect.antt =====
-- The loops of `run_pipeline_job` of src/pipeline/mod.rs over the targets and their candidates.
use cache_cleaner.Base.{ℕ, Bool, true, false, ◌&&◌, List, [], ◌∷◌, contains, ltb, ok, err}
use cache_cleaner.Base.Text.{Text}
use cache_cleaner.Domain.Types.{UnixTimestamp, Outcome, returns, panics}
use cache_cleaner.Domain.Target.{Candidate, TargetDescriptor}
use cache_cleaner.Domain.Decision.{PolicyPermit}
use cache_cleaner.System.Os.{Os}
use cache_cleaner.System.World.{Act, call}
use cache_cleaner.Config.{EffectiveConfig}
use cache_cleaner.Safety.{validate_candidate}
use cache_cleaner.Policy.{evaluate_candidate_with_freezer}
use cache_cleaner.Scanner.{scan_target_with_resource}
use cache_cleaner.Pipeline.{Collected, add_permit}

module _ (os : Os) where
  open os use {State}

  -- Steps 5 and 6, for each candidate of a target. The clock is read for a refused one too.
  unfoldable pub judge_candidates :
      TargetDescriptor
      → EffectiveConfig
      → UnixTimestamp
      → Bool
      → List Candidate
      → List PolicyPermit
      → Act State (List PolicyPermit)
  judge_candidates target config now is_frozen [] permits w = (permits, w)
  judge_candidates target config now is_frozen (c ∷ cs) permits w =
      let (validated_at, w₁) = call os.unix_now w in
      elim (validate_candidate validated_at c target) [
        | err _ ↦ judge_candidates target config now is_frozen cs permits w₁
        | ok v ↦
            let (decided, w₂) = call os.unix_now w₁ in
            let decision = evaluate_candidate_with_freezer decided v target config now is_frozen in
            judge_candidates target config now is_frozen cs (add_permit decision permits) w₂
      ]

  -- Step 4: the loop over the targets
  unfoldable pub collect_permits :
      EffectiveConfig
      → List ℕ
      → UnixTimestamp
      → List (Text × TargetDescriptor)
      → Collected
      → Act State (Outcome Collected)
  collect_permits config frozen_uids now [] c w = (returns c, w)
  collect_permits config frozen_uids now ((_, target) ∷ rest) c w =
      let (cancelled, w₁) = call os.is_cancelled w in
      elim cancelled [
        | true ↦ (returns c, w₁)
        | false ↦
            let (scanned, w₂) =
              scan_target_with_resource os target c.candidate_id_counter c.fd_pool w₁ in
            elim scanned [
              | panics ↦ (panics, w₂)
              | returns (result, s) ↦
                  let is_frozen = ltb 0 target.owner_uid && contains frozen_uids target.owner_uid in
                  let (permits, w₃) =
                    judge_candidates target config now is_frozen result.candidates c.permits w₂ in
                  collect_permits config frozen_uids now rest
                    (record {
                      permits = permits;
                      candidate_id_counter = s.candidate_id_counter;
                      fd_pool = s.fd_pool;
                    })
                    w₃
            ]
      ]
