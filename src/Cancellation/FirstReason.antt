-- ===== src/Cancellation/FirstReason.antt =====
-- Of several threads that cancel, the first reason that is stored stays, and it is never seen
-- before the flag.
use cache_cleaner.Base.{
  ℕ, ◌≡◌, ◌⊎◌, refl, sym, ap, ◌∙◌, Bool, true, false, none, some, List, [], ◌∷◌, ◌++◌, any, by_if,
  ◌==◌, Exists, inl, inr, arith,
}
use cache_cleaner.Cancellation.{
  CancelReason, to_code, from_code, CancellationToken, new, Access, store_cancelled, claim_code,
  store_code, access, accesses, is_cancelled, get_cancel_reason,
}
use cache_cleaner.Cancellation.Orders.{
  Cancels, Lawful, Lawful-split, Cancels-Lawful, is_claim, Cancels-claims,
}

from_code-to_code : (r : CancelReason) → from_code (to_code r) ≡ some r
unfolding from_code to_code
from_code-to_code r = ground arith

from_code-zero : from_code 0 ≡ none
unfolding from_code
from_code-zero = refl

to_code-positive : (r : CancelReason) → (to_code r == 0) ≡ false
unfolding to_code
to_code-positive r = ground arith

-- No reason is stored, or the flag is set and one of the reasons is stored.
abbrev IsSound : List CancelReason → CancellationToken → Type 0
IsSound rs t =
    (t.reason_code ≡ 0) ⊎ ((t.cancelled ≡ true) × Exists (λ r. t.reason_code ≡ to_code r) rs)

stored :
    (t : CancellationToken) (b : Bool) → b ≡ true → (access t (store_cancelled b)).cancelled ≡ true
unfolding access
stored t b e = e

stored-IsSound :
    (rs : List CancelReason) (t : CancellationToken) (b : Bool)
    → b ≡ true
    → IsSound rs t
    → IsSound rs (access t (store_cancelled b))
unfolding access
stored-IsSound rs t b e (inl unset) = inl unset
stored-IsSound rs t b e (inr (flag, given)) = inr (e, given)

claimed-flag :
    (t : CancellationToken) (code : ℕ) → (access t (claim_code code)).cancelled ≡ t.cancelled
unfolding access
claimed-flag t code = ground arith

claim-IsSound :
    (rs : List CancelReason) (t : CancellationToken) (code : ℕ)
    → t.cancelled ≡ true
    → Exists (λ r. code ≡ to_code r) rs
    → IsSound rs t
    → IsSound rs (access t (claim_code code))
unfolding access
claim-IsSound rs t code flag given s = by_if (IsSound rs) (t.reason_code == 0) (inr (flag, given)) s

accesses-IsSound :
    (rs : List CancelReason) (flagged : Bool) (l : List Access) (t : CancellationToken)
    → Lawful rs flagged l
    → (flagged ≡ true → t.cancelled ≡ true)
    → IsSound rs t
    → IsSound rs (accesses t l)
unfolding Lawful accesses
accesses-IsSound rs flagged [] t h flag s = s
accesses-IsSound rs flagged (store_cancelled b ∷ l) t h flag s =
    accesses-IsSound rs true l (access t (store_cancelled b)) h.1 (λ _. stored t b h.0)
      (stored-IsSound rs t b h.0 s)
accesses-IsSound rs flagged (claim_code code ∷ l) t h flag s =
    accesses-IsSound rs flagged l (access t (claim_code code)) h.2
      (λ f. claimed-flag t code ∙ flag f) (claim-IsSound rs t code (flag h.0) h.1 s)
accesses-IsSound rs flagged (store_code code ∷ l) t h flag s = absurd h

-- A stored reason stays.
code_stays :
    (rs : List CancelReason) (flagged : Bool) (l : List Access) (t : CancellationToken)
    → Lawful rs flagged l
    → (t.reason_code == 0) ≡ false
    → (accesses t l).reason_code ≡ t.reason_code
unfolding Lawful accesses access
code_stays rs flagged [] t h set = refl
code_stays rs flagged (store_cancelled b ∷ l) t h set =
    code_stays rs true l (record t { cancelled = b }) h.1 set
code_stays rs flagged (claim_code code ∷ l) t h set =
    let same : access t (claim_code code) ≡ t = rw set refl in
    ap (λ u. (accesses u l).reason_code) same ∙ code_stays rs flagged l t h.2 set
code_stays rs flagged (store_code code ∷ l) t h set = absurd h

Exists-positive :
    (rs : List CancelReason) (code : ℕ) → Exists (λ r. code ≡ to_code r) rs → (code == 0) ≡ false
Exists-positive [] code h = elim h [ ]
Exists-positive (r ∷ rs) code (inl e) = rw e (to_code-positive r)
Exists-positive (r ∷ rs) code (inr h) = Exists-positive rs code h

-- After a claim some reason is stored.
claim-stores :
    (rs : List CancelReason) (flagged : Bool) (l : List Access) (t : CancellationToken)
    → Lawful rs flagged l
    → any is_claim l ≡ true
    → ((accesses t l).reason_code == 0) ≡ false
unfolding Lawful accesses access
claim-stores rs flagged [] t h c = absurd (ground (arith, c))
claim-stores rs flagged (store_cancelled b ∷ l) t h c =
    claim-stores rs true l (record t { cancelled = b }) h.1 c
claim-stores rs flagged (claim_code code ∷ l) t h c =
    let u = access t (claim_code code) in
    let stored : (u.reason_code == 0) ≡ false = ground (arith, Exists-positive rs code h.1) in
    rw (code_stays rs flagged l u h.2 stored) stored
claim-stores rs flagged (store_code code ∷ l) t h c = absurd h

accesses-append :
    (t : CancellationToken) (xs ys : List Access)
    → accesses t (xs ++ ys) ≡ accesses (accesses t xs) ys
unfolding accesses
accesses-append t [] ys = refl
accesses-append t (a ∷ xs) ys = accesses-append (access t a) xs ys

-- The reason that a stored code stands for
reason_of :
    (rs : List CancelReason) (code : ℕ)
    → Exists (λ r. code ≡ to_code r) rs
    → (reason : CancelReason) × (Exists (λ r. reason ≡ r) rs × (code ≡ to_code reason))
reason_of [] code h = elim h [ ]
reason_of (r ∷ rs) code (inl e) = (r, (inl refl, e))
reason_of (r ∷ rs) code (inr h) =
    let (reason, (given, e)) = reason_of rs code h in (reason, (inr given, e))

-- Threads of which each calls `cancel_with_reason` on a fresh token, in any interleaving of their
-- atomic accesses, leave it cancelled for the reason of one of them, and at any moment before no
-- reason was seen, or that reason was, and then the token was already cancelled.
pub first_reason_wins :
    (r : CancelReason) (rs : List CancelReason) (before after : List Access)
    → Cancels (r ∷ rs) (before ++ after)
    → (reason : CancelReason) × (Exists (λ q. reason ≡ q) (r ∷ rs)
        × (get_cancel_reason (accesses new (before ++ after)) ≡ some reason)
        × (is_cancelled (accesses new (before ++ after)) ≡ true)
        × ((get_cancel_reason (accesses new before) ≡ none)
            ⊎ ((get_cancel_reason (accesses new before) ≡ some reason)
                × (is_cancelled (accesses new before) ≡ true))))
unfolding get_cancel_reason is_cancelled
first_reason_wins r rs before after c =
    let law = Cancels-Lawful (r ∷ rs) (before ++ after) c in
    let (front, back) = Lawful-split (r ∷ rs) false before after law in
    let final = accesses new (before ++ after) in
    let stored = claim-stores (r ∷ rs) false (before ++ after) new law (Cancels-claims r rs _ c) in
    elim (accesses-IsSound (r ∷ rs) false (before ++ after) new law
      (λ e. absurd (ground (arith, e))) (inl refl)) [
        | inl unset ↦ absurd (ground (arith, unset, stored))
        | inr (flag, given) ↦
            let (reason, (whose, is)) = reason_of (r ∷ rs) final.reason_code given in
            (
              reason,
              (
                whose,
                ap from_code is ∙ from_code-to_code reason,
                flag,
                elim (accesses-IsSound (r ∷ rs) false before new front
                    (λ e. absurd (ground (arith, e))) (inl refl)) [
                      | inl unset ↦ inl (ap from_code unset ∙ from_code-zero)
                      | inr (flag', given') ↦
                          let early = accesses new before in
                          let stays =
                            code_stays (r ∷ rs) true after early back
                              (Exists-positive (r ∷ rs) early.reason_code given') in
                          let later =
                            ap (λ (u : CancellationToken). u.reason_code)
                              (accesses-append new before after) in
                          inr (
                            ap from_code (sym stays ∙ (sym later ∙ is)) ∙ from_code-to_code reason,
                            flag',
                          )
                    ],
              ),
            )
      ]
