-- ===== src/Cancellation/Orders.antt =====
-- The orders in which the accesses of several threads that cancel can happen.
use cache_cleaner.Base.{
  ◌≡◌, refl, Bool, true, false, List, [], ◌∷◌, ◌++◌, any, Exists, inl, inr, arith,
}
use cache_cleaner.Cancellation.{
  CancelReason, to_code, Access, store_cancelled, claim_code, store_code, cancel_with_reason,
}

-- An order in which two sequences of accesses can happen.
pub data Shuffle : List Access → List Access → List Access → Type 0 where
  none_left : Shuffle [] [] []
  left : (a : Access) (xs ys zs : List Access) → Shuffle xs ys zs → Shuffle (a ∷ xs) ys (a ∷ zs)
  right : (a : Access) (xs ys zs : List Access) → Shuffle xs ys zs → Shuffle xs (a ∷ ys) (a ∷ zs)

-- An order of the accesses of some threads, each of which calls `cancel_with_reason` with one of the
-- reasons.
pub data Cancels : List CancelReason → List Access → Type 0 where
  nobody : Cancels [] []
  thread :
      (r : CancelReason) (rs : List CancelReason) (l l' : List Access)
      → Cancels rs l
      → Shuffle (cancel_with_reason r) l l'
      → Cancels (r ∷ rs) l'

-- Accesses that only set the flag and claim one of the reasons, the flag first, where `flagged` says
-- that the flag is set.
unfoldable pub Lawful : List CancelReason → Bool → List Access → Type 0
Lawful rs flagged [] = Unit {0}
Lawful rs flagged (store_cancelled b ∷ l) = (b ≡ true) × Lawful rs true l
Lawful rs flagged (claim_code code ∷ l) =
    (flagged ≡ true) × (Exists (λ r. code ≡ to_code r) rs) × Lawful rs flagged l
Lawful rs flagged (store_code code ∷ l) = ⊥

pub Lawful-mono :
    (rs : List CancelReason) (flagged : Bool) (l : List Access)
    → Lawful rs flagged l
    → Lawful rs true l
unfolding Lawful
Lawful-mono rs flagged [] h = tt
Lawful-mono rs flagged (store_cancelled b ∷ l) h = h
Lawful-mono rs flagged (claim_code code ∷ l) h = (refl, h.1, Lawful-mono rs flagged l h.2)
Lawful-mono rs flagged (store_code code ∷ l) h = h

Lawful-more :
    (r : CancelReason) (rs : List CancelReason) (flagged : Bool) (l : List Access)
    → Lawful rs flagged l
    → Lawful (r ∷ rs) flagged l
unfolding Lawful
Lawful-more r rs flagged [] h = tt
Lawful-more r rs flagged (store_cancelled b ∷ l) h = (h.0, Lawful-more r rs true l h.1)
Lawful-more r rs flagged (claim_code code ∷ l) h = (h.0, inr h.1, Lawful-more r rs flagged l h.2)
Lawful-more r rs flagged (store_code code ∷ l) h = h

Lawful-Shuffle :
    (rs : List CancelReason) (flagged : Bool) (xs ys zs : List Access)
    → Shuffle xs ys zs
    → Lawful rs flagged xs
    → Lawful rs flagged ys
    → Lawful rs flagged zs
unfolding Lawful
Lawful-Shuffle rs flagged xs ys zs none_left h k = tt
Lawful-Shuffle rs flagged xs ys zs (left (store_cancelled b) xs' _ zs' s) h k =
    (h.0, Lawful-Shuffle rs true xs' ys zs' s h.1 (Lawful-mono rs flagged ys k))
Lawful-Shuffle rs flagged xs ys zs (left (claim_code code) xs' _ zs' s) h k =
    (h.0, h.1, Lawful-Shuffle rs flagged xs' ys zs' s h.2 k)
Lawful-Shuffle rs flagged xs ys zs (left (store_code code) xs' _ zs' s) h k = absurd h
Lawful-Shuffle rs flagged xs ys zs (right (store_cancelled b) _ ys' zs' s) h k =
    (k.0, Lawful-Shuffle rs true xs ys' zs' s (Lawful-mono rs flagged xs h) k.1)
Lawful-Shuffle rs flagged xs ys zs (right (claim_code code) _ ys' zs' s) h k =
    (k.0, k.1, Lawful-Shuffle rs flagged xs ys' zs' s h k.2)
Lawful-Shuffle rs flagged xs ys zs (right (store_code code) _ ys' zs' s) h k = absurd k

pub Cancels-Lawful : (rs : List CancelReason) (l : List Access) → Cancels rs l → Lawful rs false l
unfolding Lawful cancel_with_reason
Cancels-Lawful _ _ nobody = tt
Cancels-Lawful _ l' (thread r rs l _ c s) =
    Lawful-Shuffle (r ∷ rs) false (cancel_with_reason r) l l' s (refl, (refl, inl refl, tt))
      (Lawful-more r rs false l (Cancels-Lawful rs l c))

abbrev pub is_claim : Access → Bool
is_claim (claim_code _) = true
is_claim _ = false

any-Shuffle :
    (xs ys zs : List Access) → Shuffle xs ys zs → any is_claim xs ≡ true → any is_claim zs ≡ true
any-Shuffle xs ys zs none_left h = h
any-Shuffle xs ys zs (left a xs' _ zs' s) h = ground (arith, h, any-Shuffle xs' ys zs' s)
any-Shuffle xs ys zs (right a _ ys' zs' s) h = ground (arith, any-Shuffle xs ys' zs' s h)

pub Cancels-claims :
    (r : CancelReason) (rs : List CancelReason) (l : List Access)
    → Cancels (r ∷ rs) l
    → any is_claim l ≡ true
unfolding cancel_with_reason
Cancels-claims _ _ l' (thread r rs l _ c s) = any-Shuffle (cancel_with_reason r) l l' s refl

-- What holds of a sequence of accesses holds of its beginning, and of its rest once the flag is set.
pub Lawful-split :
    (rs : List CancelReason) (flagged : Bool) (xs ys : List Access)
    → Lawful rs flagged (xs ++ ys)
    → Lawful rs flagged xs × Lawful rs true ys
unfolding Lawful
Lawful-split rs flagged [] ys h = (tt, Lawful-mono rs flagged ys h)
Lawful-split rs flagged (store_cancelled b ∷ xs) ys h =
    let (front, back) = Lawful-split rs true xs ys h.1 in ((h.0, front), back)
Lawful-split rs flagged (claim_code code ∷ xs) ys h =
    let (front, back) = Lawful-split rs flagged xs ys h.2 in ((h.0, h.1, front), back)
Lawful-split rs flagged (store_code code ∷ xs) ys h = absurd h
