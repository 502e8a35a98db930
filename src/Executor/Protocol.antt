-- ===== src/Executor/Protocol.antt =====
-- The order of effects that a run keeps, as an automaton over the log.
use cache_cleaner.Base.{
  ◌≡◌, refl, ap, sym, ◌∙◌, ◌⊎◌, inl, inr, Bool, true, false, ◌&&◌, List, [], ◌∷◌, ◌++◌, ◌==◌,
  if◌then◌else◌, arith, ==_iff,
}
use cache_cleaner.Base.Text.{Text, text_eq, text_eq_iff}
use cache_cleaner.Domain.Types.{AttemptId, OperationId}
use cache_cleaner.Domain.Intent.{mutating}
use cache_cleaner.Store.Codec.{intent_state_text}
use cache_cleaner.System.World.{Effect, intent_committed, intent_updated, unlinked, result_recorded}

-- Where a run is: between operations, or within one.
pub data Phase : Type 0 where
  resting : Phase
  committed marked removed : OperationId → Phase
  broken : Phase

abbrev commit : AttemptId → Phase → AttemptId → OperationId → Phase
commit attempt resting a op = if a == attempt then committed op else broken
-- The parent directory of the operation before could not be opened: its intent is left as it is.
commit attempt (marked _) a op = if a == attempt then committed op else broken
commit attempt _ a op = broken

abbrev update : AttemptId → Phase → AttemptId → OperationId → Text → Phase
update attempt (committed op') a op s =
    if a == attempt && (op == op' && text_eq s (intent_state_text mutating))
    then marked op'
    else broken
update attempt (marked op') a op s = if a == attempt && op == op' then resting else broken
update attempt (removed op') a op s = if a == attempt && op == op' then resting else broken
update attempt _ a op s = broken

abbrev unlinking : Phase → Phase
unlinking (marked op) = removed op
unlinking _ = broken

abbrev recording : Phase → Phase
recording resting = resting
recording _ = broken

-- The phase after an effect.
abbrev pub next : AttemptId → Phase → Effect → Phase
next attempt p (intent_committed a op) = commit attempt p a op
next attempt p (intent_updated a op s) = update attempt p a op s
next attempt p (unlinked _ _) = unlinking p
next attempt p (result_recorded _ _) = recording p

abbrev pub run_from : AttemptId → Phase → List Effect → Phase
run_from attempt p [] = p
run_from attempt p (e ∷ es) = run_from attempt (next attempt p e) es

-- The phase that a log leaves.
abbrev pub phase_of : AttemptId → List Effect → Phase
phase_of attempt log = run_from attempt resting log

-- An operation may follow.
abbrev pub rests : Phase → Bool
rests resting = true
rests (marked _) = true
rests _ = false

abbrev pub is_broken : Phase → Bool
is_broken broken = true
is_broken _ = false

pub run_from-append :
    (attempt : AttemptId) (p : Phase) (k l : List Effect)
    → run_from attempt p (k ++ l) ≡ run_from attempt (run_from attempt p k) l
run_from-append attempt p [] l = refl
run_from-append attempt p (e ∷ k) l = run_from-append attempt (next attempt p e) k l

pub broken_absorbs : (attempt : AttemptId) (l : List Effect) → run_from attempt broken l ≡ broken
broken_absorbs attempt [] = refl
broken_absorbs attempt (intent_committed _ _ ∷ l) = broken_absorbs attempt l
broken_absorbs attempt (intent_updated _ _ _ ∷ l) = broken_absorbs attempt l
broken_absorbs attempt (unlinked _ _ ∷ l) = broken_absorbs attempt l
broken_absorbs attempt (result_recorded _ _ ∷ l) = broken_absorbs attempt l

-- The two effects before a deletion.
abbrev pub announced : AttemptId → OperationId → List Effect
announced attempt op =
    intent_committed attempt op ∷ intent_updated attempt op (intent_state_text mutating) ∷ []

commit_inv :
    (attempt : AttemptId) (p : Phase) (a : AttemptId) (op op' : OperationId)
    → commit attempt p a op ≡ committed op'
    → (a ≡ attempt) × (op ≡ op')
commit_inv attempt resting a op op' h = ground (arith, ==_iff a attempt)
commit_inv attempt (marked _) a op op' h = ground (arith, ==_iff a attempt)
commit_inv attempt (committed _) a op op' h = ground arith
commit_inv attempt (removed _) a op op' h = ground arith
commit_inv attempt broken a op op' h = ground arith

update_inv :
    (attempt : AttemptId) (p : Phase) (a : AttemptId) (op op' : OperationId) (t : Text)
    → update attempt p a op t ≡ marked op'
    → (p ≡ committed op') × ((a ≡ attempt) × ((op ≡ op') × (t ≡ intent_state_text mutating)))
update_inv attempt (committed o) a op op' t h =
    ground (arith, ==_iff a attempt, ==_iff op o, text_eq_iff t (intent_state_text mutating))
update_inv attempt resting a op op' t h = ground arith
update_inv attempt (marked _) a op op' t h = ground arith
update_inv attempt (removed _) a op op' t h = ground arith
update_inv attempt broken a op op' t h = ground arith

next_committed :
    (attempt : AttemptId) (p : Phase) (e : Effect) (op : OperationId)
    → next attempt p e ≡ committed op
    → e ≡ intent_committed attempt op
next_committed attempt p (intent_committed a o) op h =
    let same = commit_inv attempt p a o op h in rw (same.0, same.1) refl
next_committed attempt p (intent_updated a o t) op h = ground (arith, h)
next_committed attempt p (unlinked _ _) op h = ground (arith, h)
next_committed attempt p (result_recorded _ _) op h = ground (arith, h)

next_marked :
    (attempt : AttemptId) (p : Phase) (e : Effect) (op : OperationId)
    → next attempt p e ≡ marked op
    → (p ≡ committed op) × (e ≡ intent_updated attempt op (intent_state_text mutating))
next_marked attempt p (intent_committed a o) op h = ground (arith, h)
next_marked attempt p (intent_updated a o t) op h =
    let same = update_inv attempt p a o op t h in
    (same.0, rw (same.1.0, same.1.1.0, same.1.1.1) refl)
next_marked attempt p (unlinked _ _) op h = ground (arith, h)
next_marked attempt p (result_recorded _ _) op h = ground (arith, h)

-- How a log comes to the phase `marked op` from `p`.
abbrev Marks : AttemptId → OperationId → Phase → List Effect → Type 0
Marks attempt op p l =
    ((p ≡ marked op) × (l ≡ []))
    ⊎ (((p ≡ committed op) × (l ≡ intent_updated attempt op (intent_state_text mutating) ∷ []))
        ⊎ ((l₀ : List Effect) × (l ≡ l₀ ++ announced attempt op)))

Marks-intro :
    (attempt : AttemptId) (op : OperationId) (l : List Effect) (p : Phase)
    → run_from attempt p l ≡ marked op
    → Marks attempt op p l
Marks-intro attempt op [] p h = inl (h, refl)
Marks-intro attempt op (e ∷ l) p h = elim (Marks-intro attempt op l (next attempt p e) h) [
  | inl (m, nil) ↦
      let step = next_marked attempt p e op m in inr (inl (step.0, rw (step.1, nil) refl))
  | inr (inl (c, last)) ↦ inr (inr ([], rw (next_committed attempt p e op c, last) refl))
  | inr (inr (l₀, split)) ↦ inr (inr (e ∷ l₀, ap (λ k. e ∷ k) split))
]

true-false : true ≡ false → ⊥
true-false h = ground arith

run_from-alive :
    (attempt : AttemptId) (p : Phase) (l : List Effect)
    → is_broken (run_from attempt p l) ≡ false
    → is_broken p ≡ false
run_from-alive attempt resting l h = refl
run_from-alive attempt (committed _) l h = refl
run_from-alive attempt (marked _) l h = refl
run_from-alive attempt (removed _) l h = refl
run_from-alive attempt broken l h = ap is_broken (sym (broken_absorbs attempt l)) ∙ h

unlinking_marked :
    (p : Phase) → is_broken (unlinking p) ≡ false → (op : OperationId) × (p ≡ marked op)
unlinking_marked resting h = absurd (true-false h)
unlinking_marked (committed _) h = absurd (true-false h)
unlinking_marked (marked op) h = (op, refl)
unlinking_marked (removed _) h = absurd (true-false h)
unlinking_marked broken h = absurd (true-false h)

-- In an unbroken log a deletion stands directly after the effects that announce it.
pub unlinked-announced :
    (attempt : AttemptId) (k l : List Effect) (name : Text) (b : Bool)
    → is_broken (phase_of attempt (k ++ unlinked name b ∷ l)) ≡ false
    → (op : OperationId) × ((k₀ : List Effect) × (k ≡ k₀ ++ announced attempt op))
unlinked-announced attempt k l name b h =
    let whole = run_from-append attempt resting k (unlinked name b ∷ l) in
    let after : is_broken (run_from attempt (unlinking (phase_of attempt k)) l) ≡ false =
      ap is_broken (sym whole) ∙ h in
    let (op, m) = unlinking_marked (phase_of attempt k) (run_from-alive attempt _ l after) in
    elim (Marks-intro attempt op k resting m) [
      | inl (e, _) ↦ absurd (ground (arith, e))
      | inr (inl (e, _)) ↦ absurd (ground (arith, e))
      | inr (inr (k₀, split)) ↦ (op, (k₀, split))
    ]
