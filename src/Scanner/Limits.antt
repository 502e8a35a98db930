-- ===== src/Scanner/Limits.antt =====
-- The bounds and the numbers of the candidates of src/scanner/mod.rs.
use cache_cleaner.Base.{
  ℕ, suc, ◌+◌, ◌≡◌, ◌≤◌, subst, refl, Bool, true, false, List, [], ◌∷◌, ◌++◌, length, length-append,
  All, All-append, by_bool, by_if, by_result, arith,
}
use cache_cleaner.Base.Word.{u64_max}
use cache_cleaner.Domain.Types.{Outcome, returns, panics}
use cache_cleaner.Domain.Target.{Candidate, TargetDescriptor}
use cache_cleaner.System.Os.{Os}
use cache_cleaner.System.World.{World, call}
use cache_cleaner.System.Handle.{open_root}
use cache_cleaner.Resource.Pool.{FdPoolState}
use cache_cleaner.Scanner.{
  max_candidates_per_target, max_depth, Scan, ScanResult, start, push_candidate, push_error, close,
  acquire_permit, scan_safe_recursive, scan_target_with_resource,
}
use cache_cleaner.Scanner.Found.{
  root, IsFound, Scanned, begun, noted, limited, pooled, by_outcome, leaves-at,
  scan_safe_recursive-Scanned,
}

-- The candidates have the numbers from `c` on, in order.
abbrev pub NumberedFrom : ℕ → List Candidate → Type 0
NumberedFrom c [] = Unit
NumberedFrom c (x ∷ xs) = (x.candidate_id ≡ c) × NumberedFrom (c + 1) xs

NumberedFrom-append :
    (c : ℕ) (xs : List Candidate) (x : Candidate)
    → NumberedFrom c xs
    → x.candidate_id ≡ c + length xs
    → NumberedFrom c (xs ++ x ∷ [])
NumberedFrom-append c [] x h e = (omega (arith, e), tt)
NumberedFrom-append c (y ∷ ys) x h e =
    (h.0, NumberedFrom-append (c + 1) ys x h.1 (omega (arith, e)))

-- At most 50 000 candidates, each found, with consecutive numbers.
pub record IsWithin (target : TargetDescriptor) (c : ℕ) (s : Scan) : Type 0 where
  pub few : length s.candidates ≤ max_candidates_per_target
  pub found : All (IsFound target) s.candidates
  pub numbered : NumberedFrom c s.candidates
  pub next : s.candidate_id_counter ≡ c + length s.candidates

pub Scanned-IsWithin :
    (target : TargetDescriptor) (c : ℕ) (s₀ s : Scan)
    → c + max_candidates_per_target ≤ u64_max
    → IsWithin target c s₀
    → Scanned target s₀ s
    → IsWithin target c s
unfolding push_candidate push_error
Scanned-IsWithin target c s₀ _ le h begun = h
Scanned-IsWithin target c s₀ _ le h (Scanned.found {s} x run room numbered is_found) =
    let k = Scanned-IsWithin target c s₀ s le h run in
    let below : suc (length s.candidates) ≤ max_candidates_per_target = ground (arith, room) in
    let more = length-append s.candidates (x ∷ []) in
    record {
      few = omega (arith, below, more);
      found = All-append _ s.candidates _ k.found (is_found, tt);
      numbered = NumberedFrom-append c s.candidates x k.numbered (omega (arith, numbered, k.next));
      next = omega (arith, k.next, more, le, below);
    }
Scanned-IsWithin target c s₀ _ le h (noted {s} e run) =
    let k = Scanned-IsWithin target c s₀ s le h run in
    record { few = k.few; found = k.found; numbered = k.numbered; next = k.next }
Scanned-IsWithin target c s₀ _ le h (limited {s} run) =
    let k = Scanned-IsWithin target c s₀ s le h run in
    record { few = k.few; found = k.found; numbered = k.numbered; next = k.next }
Scanned-IsWithin target c s₀ _ le h (pooled {s} p run) =
    let k = Scanned-IsWithin target c s₀ s le h run in
    record { few = k.few; found = k.found; numbered = k.numbered; next = k.next }

nothing : 0 ≤ max_candidates_per_target
nothing = omega arith

begun-IsWithin :
    (target : TargetDescriptor) (c : ℕ) (s : Scan)
    → s.candidates ≡ []
    → s.candidate_id_counter ≡ c
    → IsWithin target c s
begun-IsWithin target c s e n = record {
  few = rw e nothing;
  found = rw e tt;
  numbered = rw e tt;
  next = rw e (omega (arith, n));
}

close-IsWithin :
    (target : TargetDescriptor) (c : ℕ) (given : Bool) (s : Scan)
    → IsWithin target c s
    → IsWithin target c (close given s)
close-IsWithin target c true s k = record {
  few = k.few;
  found = k.found;
  numbered = k.numbered;
  next = k.next;
}
close-IsWithin target c false s k = k

-- Where a scan returns, what it returns has the property.
unfoldable pub Delivers : {S A : Type 0} → (A → Type 0) → Outcome A × World S → Type 0
Delivers P q = elim q.0 [ panics ↦ Unit | returns a ↦ P a ]

pub delivered :
    {S A : Type 0} (P : A → Type 0) (q : Outcome A × World S) (a : A)
    → Delivers P q
    → q.0 ≡ returns a
    → P a
unfolding Delivers
delivered P (panics, w) a h e = absurd (ground (arith, e))
delivered P (returns b, w) a h e = let same : b ≡ a = ground (arith, e) in subst P same h

module _ (os : Os) (target : TargetDescriptor) (counter : ℕ) (pool : FdPoolState)
    (w : World os.State) where
  abbrev IsBounded : ScanResult × Scan → Type 0
  IsBounded r =
      (length r.0.candidates ≤ max_candidates_per_target)
      × All (IsFound target) r.0.candidates
      × NumberedFrom counter r.0.candidates

  scan_target-Delivers :
      counter + max_candidates_per_target ≤ u64_max
      → Delivers IsBounded (scan_target_with_resource os target counter pool w)
  unfolding scan_target_with_resource Delivers acquire_permit
  scan_target-Delivers le =
      let Q = Delivers IsBounded in
      let ((given, s₁), w₁) = acquire_permit os (start counter pool) w in
      let fresh : IsWithin target counter s₁ = begun-IsWithin target counter s₁ refl refl in
      let (opened, w₂) = open_root os target.base_path w₁ in
      by_result Q opened
        (λ h.
          let q = scan_safe_recursive os target max_depth h [] s₁ w₂ in
          by_outcome Q q.0 tt (λ s done.
            let run =
              scan_safe_recursive-Scanned os target s₁ max_depth 0 refl h [] s₁ w₂ root begun in
            let scanned = leaves-at (Scanned target s₁) q s run done in
            let k = Scanned-IsWithin target counter s₁ s le fresh scanned in
            let m = close-IsWithin target counter given s k in (m.few, m.found, m.numbered)))
        (λ e.
          by_bool Q (call (os.path_exists target.base_path) w₂).0 (nothing, tt, tt)
            (nothing, tt, tt))

  -- A scan that returns has at most 50 000 candidates, each of the scanned target, with a bounded
  -- size, and at most sixteen accepted names below the root; their numbers are consecutive, from
  -- the scanner's counter on.
  pub scan_target-bounded :
      (result : ScanResult) (s : Scan)
      → counter + max_candidates_per_target ≤ u64_max
      → (scan_target_with_resource os target counter pool w).0 ≡ returns (result, s)
      → (length result.candidates ≤ max_candidates_per_target)
        × All (IsFound target) result.candidates
        × NumberedFrom counter result.candidates
  scan_target-bounded result s le h =
      delivered IsBounded (scan_target_with_resource os target counter pool w) (result, s)
        (scan_target-Delivers le) h

  IsFound-All :
      (s₀ s : Scan) → s₀.candidates ≡ [] → Scanned target s₀ s → All (IsFound target) s.candidates
  unfolding push_candidate push_error
  IsFound-All s₀ _ e begun = rw e tt
  IsFound-All s₀ _ e (Scanned.found {s} x run _ _ is_found) =
      All-append _ s.candidates _ (IsFound-All s₀ s e run) (is_found, tt)
  IsFound-All s₀ _ e (noted {s} _ run) = IsFound-All s₀ s e run
  IsFound-All s₀ _ e (limited {s} run) = IsFound-All s₀ s e run
  IsFound-All s₀ _ e (pooled {s} _ run) = IsFound-All s₀ s e run

  abbrev pub AllFound : ScanResult × Scan → Type 0
  AllFound r = All (IsFound target) r.0.candidates

  -- The same of the candidates without a condition on the counter.
  pub scan_target-Found : Delivers AllFound (scan_target_with_resource os target counter pool w)
  unfolding scan_target_with_resource Delivers acquire_permit
  scan_target-Found =
      let Q = Delivers AllFound in
      let ((given, s₁), w₁) = acquire_permit os (start counter pool) w in
      let (opened, w₂) = open_root os target.base_path w₁ in
      by_result Q opened
        (λ h.
          let q = scan_safe_recursive os target max_depth h [] s₁ w₂ in
          by_outcome Q q.0 tt (λ s done.
            let run =
              scan_safe_recursive-Scanned os target s₁ max_depth 0 refl h [] s₁ w₂ root begun in
            let scanned = leaves-at (Scanned target s₁) q s run done in
            by_if (λ (t : Scan). All (IsFound target) t.candidates) given
              (IsFound-All s₁ s refl scanned) (IsFound-All s₁ s refl scanned)))
        (λ e. by_bool Q (call (os.path_exists target.base_path) w₂).0 tt tt)
