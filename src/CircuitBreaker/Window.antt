-- ===== src/CircuitBreaker/Window.antt =====
-- The sliding window of src/resilience/circuit-breaker.ts: the ring of buckets against the plain
-- list of the outcomes that were recorded.
use boilerplate_express_ts.Prelude.{
  ℕ, zero, suc, ◌+◌, ◌/◌, ◌%◌, ◌≤◌, ◌<◌, ◌≡◌, refl, sym, ap, subst, ◌∙◌, ◌≢◌, ◌⊎◌, inl, inr, Bool,
  true, false, ◌&&◌, ==_iff, some, List, [], ◌∷◌, ltb, ◌==◌, if◌then◌else◌, set, get_elem?, arith,
  Bool-cases, replicate, length, get_elem?-set_self, get_elem?-set_ne, length-set, length-replicate,
}
use boilerplate_express_ts.CircuitBreaker.{
  CircuitBreaker, CircuitOutcome, success, failure, ignored, CircuitOptions, Bucket, empty_bucket,
  created, create, count_outcome, totals, totals_of, is_stale, seat, cleared, close, tally,
  epoch_at, bucket_ms,
}

-- What the ring is told, with the reading of the clock: an outcome is counted, or the circuit closes.
pub data Note : Type 0 where
  counts : CircuitOutcome → ℕ → Note
  closes : ℕ → Note

-- Newest first.
abbrev pub History : Type 0
History = List Note

unfoldable pub count_all : History → CircuitBreaker → CircuitBreaker
count_all [] b = b
count_all (counts outcome t ∷ h) b = count_outcome outcome t (count_all h b)
count_all (closes t ∷ h) b = close t (count_all h b)

-- The clock does not run backwards over the history, nor from it to `now`.
abbrev pub IsOrdered : ℕ → History → Type 0
IsOrdered now [] = Unit
IsOrdered now (counts outcome t ∷ h) = (t ≤ now) × IsOrdered t h
IsOrdered now (closes t ∷ h) = (t ≤ now) × IsOrdered t h

abbrev is_same : CircuitOutcome → CircuitOutcome → Bool
is_same success success = true
is_same failure failure = true
is_same _ _ = false

-- The outcomes of a kind since the circuit last closed, whose slice is one of the last `bucketCount`.
unfoldable pub count_recent : CircuitOptions → CircuitOutcome → ℕ → History → ℕ
count_recent o kind now [] = 0
count_recent o kind now (closes t ∷ h) = 0
count_recent o kind now (counts outcome t ∷ h) =
    let rest = count_recent o kind now h in
    if is_same kind outcome
    then (if ltb (epoch_at o now) (epoch_at o t + o.bucket_count) then 1 + rest else rest)
    else rest

share : CircuitOptions → ℕ → Bucket → ℕ × ℕ
share o now k = if is_stale o now k then (0, 0) else (k.successes, k.failures)

totals_of-set :
    (o : CircuitOptions) (now i : ℕ) (k k' : Bucket) (ks : List Bucket)
    → get_elem? ks i ≡ some k
    → ((totals_of o now (set ks i k')).0 + (share o now k).0
        ≡ (totals_of o now ks).0 + (share o now k').0)
      × ((totals_of o now (set ks i k')).1 + (share o now k).1
          ≡ (totals_of o now ks).1 + (share o now k').1)
unfolding totals_of share
totals_of-set o now i k k' [] e = cc
totals_of-set o now zero k k' (q ∷ ks) e = ground arith
totals_of-set o now (suc i) k k' (q ∷ ks) e = ground (arith, totals_of-set o now i k k' ks e)

-- A bucket is unused, or holds a slice that belongs at its index and has begun by `last`.
abbrev Fits : ℕ → ℕ → ℕ → Bucket → Type 0
Fits n last i k =
    ((k.epoch ≡ 0) × (k.successes ≡ 0) × (k.failures ≡ 0))
    ⊎ ((e : ℕ) × (k.epoch ≡ suc e) × (e % n ≡ i) × (e ≤ last))

record IsRing (o : CircuitOptions) (last : ℕ) (ks : List Bucket) : Type 0 where
  size : length ks ≡ o.bucket_count
  fits : (i : ℕ) (k : Bucket) → get_elem? ks i ≡ some k → Fits o.bucket_count last i k

mod_gap : (n a b : ℕ) → 0 < n → a % n ≡ b % n → a < b → a + n ≤ b
mod_gap n a b h e l = grind arith

div_mono : (m a b : ℕ) → a ≤ b → a / m ≤ b / m
div_mono m a b h = grind arith

get_elem?-some :
    (ks : List Bucket) (i : ℕ) → i < length ks → (k : Bucket) × (get_elem? ks i ≡ some k)
get_elem?-some [] i h = elim h [ ]
get_elem?-some (k ∷ ks) zero h = (k, refl)
get_elem?-some (k ∷ ks) (suc i) h = get_elem?-some ks i (omega arith)

abbrev in_window : CircuitOptions → ℕ → ℕ → Bool
in_window o now e = ltb (epoch_at o now) (e + o.bucket_count)

abbrev one_if : Bool → ℕ
one_if b = if b then 1 else 0

-- The bucket of slice `e` after one more outcome, where `k` stood before.
abbrev next_bucket : CircuitOutcome → ℕ → Bucket → Bucket
next_bucket outcome e k = tally outcome (seat (suc e) (some k))

-- One more outcome in the bucket of slice `e` adds one to its share, if the slice is recent.
share-next :
    (o : CircuitOptions) (outcome : CircuitOutcome) (now e : ℕ) (k : Bucket)
    → 0 < o.bucket_count
    → e ≤ epoch_at o now
    → outcome ≢ ignored
    → Fits o.bucket_count e (e % o.bucket_count) k
    → ((share o now (next_bucket outcome e k)).0
        ≡ (share o now k).0 + one_if (is_same success outcome && in_window o now e))
      × ((share o now (next_bucket outcome e k)).1
          ≡ (share o now k).1 + one_if (is_same failure outcome && in_window o now e))
unfolding share
share-next o outcome now e k pos m real (inl h) = ground arith
share-next o outcome now e k pos m real (inr (e', at, here, old)) =
    ground (arith, mod_gap o.bucket_count e' e pos)

next_bucket-Fits :
    (o : CircuitOptions) (outcome : CircuitOutcome) (e : ℕ) (k : Bucket)
    → outcome ≢ ignored
    → Fits o.bucket_count e (e % o.bucket_count) (next_bucket outcome e k)
next_bucket-Fits o outcome e k real = inr (e, ground arith, refl, omega arith)

count_recent-cons :
    (o : CircuitOptions) (kind outcome : CircuitOutcome) (now t : ℕ) (h : History)
    → count_recent o kind now (counts outcome t ∷ h)
      ≡ count_recent o kind now h + one_if (is_same kind outcome && in_window o now (epoch_at o t))
unfolding count_recent
count_recent-cons o kind outcome now t h = ground arith

Fits-mono : (n a b i : ℕ) (k : Bucket) → a ≤ b → Fits n a i k → Fits n b i k
Fits-mono n a b i k h (inl u) = inl u
Fits-mono n a b i k h (inr (e, p, q, r)) = inr (e, p, q, omega arith)

IsRing-set :
    (o : CircuitOptions) (a b i : ℕ) (k : Bucket) (ks : List Bucket)
    → a ≤ b
    → i < o.bucket_count
    → Fits o.bucket_count b i k
    → IsRing o a ks
    → IsRing o b (set ks i k)
IsRing-set o a b i k ks h l f r = record {
  size = length-set ks i k ∙ r.size;
  fits = λ j q e. elim (Bool-cases (i == j)) [
    | inl same ↦
        let here : i ≡ j = (==_iff i j).0 same in
        let found : get_elem? (set ks i k) i ≡ some k =
          get_elem?-set_self ks i k (omega (arith, r.size)) in
        let chosen : k ≡ q = cc (found, e, here) in
        subst (λ z. Fits o.bucket_count b z q) here
          (subst (λ z. Fits o.bucket_count b i z) chosen f)
    | inr other ↦
        let apart : i ≢ j = λ same. cc ((==_iff i j).1 same) in
        Fits-mono o.bucket_count a b j q h (r.fits j q (sym (get_elem?-set_ne ks i j k apart) ∙ e))
  ];
}

-- The buckets after an outcome that is not ignored.
count_outcome-buckets :
    (o : CircuitOptions) (outcome : CircuitOutcome) (t : ℕ) (b : CircuitBreaker) (k : Bucket)
    → b.options ≡ o
    → outcome ≢ ignored
    → get_elem? b.buckets (epoch_at o t % o.bucket_count) ≡ some k
    → (count_outcome outcome t b).buckets
      ≡ set b.buckets
          (epoch_at o t % o.bucket_count)
          (tally outcome (seat (suc (epoch_at o t)) (some k)))
unfolding count_outcome
count_outcome-buckets o success t b k same real e = ground arith
count_outcome-buckets o failure t b k same real e = ground arith
count_outcome-buckets o ignored t b k same real e = absurd (real refl)

module _ (o : CircuitOptions) (now : ℕ) where
  abbrev Agrees : History → List Bucket → Type 0
  Agrees h ks =
      ((totals_of o now ks).0 ≡ count_recent o success now h)
      × ((totals_of o now ks).1 ≡ count_recent o failure now h)

  counted :
      (outcome : CircuitOutcome) (t : ℕ) (h : History) (b : CircuitBreaker)
      → 0 < o.bucket_count
      → b.options ≡ o
      → t ≤ now
      → outcome ≢ ignored
      → IsRing o (epoch_at o t) b.buckets
      → Agrees h b.buckets
      → IsRing o (epoch_at o t) (count_outcome outcome t b).buckets
        × Agrees (counts outcome t ∷ h) (count_outcome outcome t b).buckets
  unfolding count_recent
  counted outcome t h b pos same le real r g =
      let e = epoch_at o t in
      let i = e % o.bucket_count in
      let inside : i < o.bucket_count = omega arith in
      let (k, at) = get_elem?-some b.buckets i (omega (arith, r.size)) in
      let old = r.fits i k at in
      let new = next_bucket-Fits o outcome e k real in
      let sums = totals_of-set o now i k (next_bucket outcome e k) b.buckets at in
      let shares = share-next o outcome now e k pos (div_mono (bucket_ms o) t now le) real old in
      rw (count_outcome-buckets o outcome t b k same real at) (
        IsRing-set o e e i (next_bucket outcome e k) b.buckets (omega arith) inside new r,
        (
          omega (arith, sums.0, shares.0, g.0, count_recent-cons o success outcome now t h),
          omega (arith, sums.1, shares.1, g.1, count_recent-cons o failure outcome now t h),
        ),
      )

  -- One more outcome, counted at `t` in a ring that has seen nothing after `t`.
  totals-count_outcome :
      (outcome : CircuitOutcome) (t : ℕ) (h : History) (b : CircuitBreaker)
      → 0 < o.bucket_count
      → b.options ≡ o
      → t ≤ now
      → IsRing o (epoch_at o t) b.buckets
      → Agrees h b.buckets
      → IsRing o (epoch_at o t) (count_outcome outcome t b).buckets
        × Agrees (counts outcome t ∷ h) (count_outcome outcome t b).buckets
  unfolding count_recent count_outcome
  totals-count_outcome ignored t h b pos same le r g = (r, g)
  totals-count_outcome success t h b pos same le r g =
      counted success t h b pos same le (λ e. cc) r g
  totals-count_outcome failure t h b pos same le r g =
      counted failure t h b pos same le (λ e. cc) r g

IsRing-mono :
    (o : CircuitOptions) (a b : ℕ) (ks : List Bucket) → a ≤ b → IsRing o a ks → IsRing o b ks
IsRing-mono o a b ks h r = record {
  size = r.size;
  fits = λ i k e. Fits-mono o.bucket_count a b i k h (r.fits i k e);
}

close_ring :
    (t : ℕ) (b : CircuitBreaker)
    → ((close t b).options ≡ b.options) × ((close t b).buckets ≡ cleared b.buckets)
unfolding close
close_ring t b = ground arith

count_all-options : (h : History) (b : CircuitBreaker) → (count_all h b).options ≡ b.options
unfolding count_all count_outcome
count_all-options [] b = refl
count_all-options (counts success t ∷ h) b = count_all-options h b
count_all-options (counts failure t ∷ h) b = count_all-options h b
count_all-options (counts ignored t ∷ h) b = count_all-options h b
count_all-options (closes t ∷ h) b = (close_ring t (count_all h b)).0 ∙ count_all-options h b

pub totals_of-cleared :
    (o : CircuitOptions) (now : ℕ) (ks : List Bucket) → totals_of o now (cleared ks) ≡ (0, 0)
unfolding totals_of
totals_of-cleared o now [] = refl
totals_of-cleared o now (k ∷ ks) = ground (arith, totals_of-cleared o now ks)

length-cleared : (ks : List Bucket) → length (cleared ks) ≡ length ks
length-cleared [] = refl
length-cleared (k ∷ ks) = ap suc (length-cleared ks)

get_elem?-cleared :
    (ks : List Bucket) (i : ℕ) (k : Bucket) → get_elem? (cleared ks) i ≡ some k → empty_bucket ≡ k
get_elem?-cleared [] i k e = cc
get_elem?-cleared (q ∷ ks) zero k e = cc
get_elem?-cleared (q ∷ ks) (suc i) k e = get_elem?-cleared ks i k e

IsRing-cleared :
    (o : CircuitOptions) (last now : ℕ) (ks : List Bucket)
    → IsRing o last ks
    → IsRing o now (cleared ks)
IsRing-cleared o last now ks r = record {
  size = length-cleared ks ∙ r.size;
  fits = λ i k e.
      subst (λ q. Fits o.bucket_count now i q) (get_elem?-cleared ks i k e)
        (inl (refl, refl, refl));
}

-- The ring and its totals after a history, for every later reading of the clock.
count_all-Agrees :
    (o : CircuitOptions) (h : History) (b : CircuitBreaker) (last now : ℕ)
    → 0 < o.bucket_count
    → b.options ≡ o
    → IsRing o 0 b.buckets
    → ((n : ℕ) → totals_of o n b.buckets ≡ (0, 0))
    → IsOrdered last h
    → last ≤ now
    → IsRing o (epoch_at o last) (count_all h b).buckets × Agrees o now h (count_all h b).buckets
unfolding count_all count_recent
count_all-Agrees o [] b last now pos same r empty ord le =
    (IsRing-mono o 0 _ b.buckets (omega arith) r, (cc (empty now), cc (empty now)))
count_all-Agrees o (counts outcome t ∷ h) b last now pos same r empty ord le =
    let before = count_all-Agrees o h b t now pos same r empty ord.1 (omega arith) in
    let after =
      totals-count_outcome o now outcome t h (count_all h b) pos (count_all-options h b ∙ same)
        (omega arith) before.0 before.1 in
    (IsRing-mono o (epoch_at o t) _ _ (div_mono (bucket_ms o) t last ord.0) after.0, after.1)
count_all-Agrees o (closes t ∷ h) b last now pos same r empty ord le =
    let before = count_all-Agrees o h b t now pos same r empty ord.1 (omega arith) in
    rw (close_ring t (count_all h b)).1 (
      IsRing-cleared o _ (epoch_at o last) (count_all h b).buckets before.0,
      rw (totals_of-cleared o now (count_all h b).buckets) (refl, refl),
    )

totals_of-replicate :
    (o : CircuitOptions) (now n : ℕ) → totals_of o now (replicate n empty_bucket) ≡ (0, 0)
unfolding totals_of
totals_of-replicate o now zero = refl
totals_of-replicate o now (suc n) = ground (arith, totals_of-replicate o now n)

get_elem?-replicate :
    (n i : ℕ) (k : Bucket) → get_elem? (replicate n empty_bucket) i ≡ some k → empty_bucket ≡ k
get_elem?-replicate zero i k e = cc
get_elem?-replicate (suc n) zero k e = cc
get_elem?-replicate (suc n) (suc i) k e = get_elem?-replicate n i k e

IsRing-replicate : (o : CircuitOptions) → IsRing o 0 (replicate o.bucket_count empty_bucket)
IsRing-replicate o = record {
  size = length-replicate o.bucket_count empty_bucket;
  fits = λ i k e.
      subst (λ q. Fits o.bucket_count 0 i q) (get_elem?-replicate o.bucket_count i k e)
        (inl (refl, refl, refl));
}

create-parts :
    (o : CircuitOptions) (b : CircuitBreaker)
    → create o ≡ created b
    → (0 < o.bucket_count) × (b.options ≡ o) × (b.buckets ≡ replicate o.bucket_count empty_bucket)
unfolding create
create-parts o b h = ground arith

-- A new breaker counts outcomes and closes, in any order, at readings of the clock that do not fall. At a
-- reading that is not before those, its totals are the successes and the failures that were counted
-- since it last closed and in the last `bucketCount` slices, and nothing of an earlier lap of the ring.
pub totals-count_all :
    (o : CircuitOptions) (b : CircuitBreaker) (h : History) (now : ℕ)
    → create o ≡ created b
    → IsOrdered now h
    → ((totals now (count_all h b)).0 ≡ count_recent o success now h)
      × ((totals now (count_all h b)).1 ≡ count_recent o failure now h)
unfolding totals
totals-count_all o b h now built ord =
    let (pos, same, blank) = create-parts o b built in
    let seen = (count_all h b).buckets in
    let agrees =
      (count_all-Agrees o h b now now pos same (rw blank (IsRing-replicate o))
        (λ n. rw blank (totals_of-replicate o n o.bucket_count)) ord (omega arith)).1 in
    subst
      (λ p.
        ((totals_of p now seen).0 ≡ count_recent o success now h)
        × ((totals_of p now seen).1 ≡ count_recent o failure now h))
      (sym (count_all-options h b ∙ same)) agrees
