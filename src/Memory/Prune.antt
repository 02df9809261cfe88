-- ===== src/Memory/Prune.antt =====
-- The retention of dead letters against what it is to keep.
use worklane.Base.{
  ℕ, zero, suc, ◌-◌, ◌≤◌, ◌≡◌, refl, ap, ◌∙◌, not, ◌&&◌, Option, none, some, List, [], ◌∷◌, leb,
  ltb, retain, drop, length, length-drop, arith, Bool-cases, inl, inr, if◌then◌else◌,
}
use worklane.Core.Envelope.{Lane}
use worklane.Core.Retention.{RetentionPolicy, is_unbounded, is_none}
use worklane.Memory.State.{DeadEntry}
use worklane.Memory.Dead.{on_lane, dead_count, drop_aged, drop_oldest, drop_excess, prune_dead}

-- The records of one lane, oldest first, and what a policy keeps of them: those that are no older
-- than the age bound, and of these the last ones.
abbrev pub of_lane : Lane → List DeadEntry → List DeadEntry
of_lane lane = retain (on_lane lane)

abbrev pub off_lane : Lane → List DeadEntry → List DeadEntry
off_lane lane = retain (λ d. not (on_lane lane d))

abbrev pub young : Option ℕ → ℕ → List DeadEntry → List DeadEntry
young none now ds = ds
young (some max_age) now ds = retain (λ d. leb (now - max_age) d.dead_at) ds

abbrev pub last_ones : Option ℕ → List DeadEntry → List DeadEntry
last_ones none ds = ds
last_ones (some n) ds = drop (length ds - n) ds

aged-of_lane :
    (lane : Lane) (age : Option ℕ) (now : ℕ) (ds : List DeadEntry)
    → of_lane lane (drop_aged lane age now ds) ≡ young age now (of_lane lane ds)
unfolding drop_aged
aged-of_lane lane none now ds = refl
aged-of_lane lane (some a) now [] = refl
aged-of_lane lane (some a) now (d ∷ ds) = ground (arith, aged-of_lane lane (some a) now ds)

aged-off_lane :
    (lane : Lane) (age : Option ℕ) (now : ℕ) (ds : List DeadEntry)
    → off_lane lane (drop_aged lane age now ds) ≡ off_lane lane ds
unfolding drop_aged
aged-off_lane lane none now ds = refl
aged-off_lane lane (some a) now [] = refl
aged-off_lane lane (some a) now (d ∷ ds) = ground (arith, aged-off_lane lane (some a) now ds)

oldest-of_lane :
    (lane : Lane) (n : ℕ) (ds : List DeadEntry)
    → of_lane lane (drop_oldest lane n ds) ≡ drop n (of_lane lane ds)
unfolding drop_oldest
oldest-of_lane lane zero [] = refl
oldest-of_lane lane (suc n) [] = refl
oldest-of_lane lane zero (d ∷ ds) = ground (arith, oldest-of_lane lane 0 ds)
oldest-of_lane lane (suc n) (d ∷ ds) =
    ground (arith, oldest-of_lane lane n ds, oldest-of_lane lane (suc n) ds)

oldest-off_lane :
    (lane : Lane) (n : ℕ) (ds : List DeadEntry)
    → off_lane lane (drop_oldest lane n ds) ≡ off_lane lane ds
unfolding drop_oldest
oldest-off_lane lane n [] = refl
oldest-off_lane lane zero (d ∷ ds) = ground (arith, oldest-off_lane lane 0 ds)
oldest-off_lane lane (suc n) (d ∷ ds) =
    ground (arith, oldest-off_lane lane n ds, oldest-off_lane lane (suc n) ds)

excess-of_lane :
    (lane : Lane) (count : Option ℕ) (ds : List DeadEntry)
    → of_lane lane (drop_excess lane count ds) ≡ last_ones count (of_lane lane ds)
unfolding drop_excess
excess-of_lane lane none ds = refl
excess-of_lane lane (some m) ds = elim (Bool-cases (ltb m (dead_count lane ds))) [
  | inl e ↦ rw e (oldest-of_lane lane (dead_count lane ds - m) ds)
  | inr e ↦ let fits : dead_count lane ds - m ≡ 0 = ground arith in rw (e, fits)
]

excess-off_lane :
    (lane : Lane) (count : Option ℕ) (ds : List DeadEntry)
    → off_lane lane (drop_excess lane count ds) ≡ off_lane lane ds
unfolding drop_excess
excess-off_lane lane none ds = refl
excess-off_lane lane (some m) ds = elim (Bool-cases (ltb m (dead_count lane ds))) [
  | inl e ↦ rw e (oldest-off_lane lane (dead_count lane ds - m) ds)
  | inr e ↦ rw e
]

-- Skipping an unbounded policy changes nothing.
prune-eq :
    (lane : Lane) (now : ℕ) (ds : List DeadEntry) (age count : Option ℕ)
    → (if is_none age && is_none count
        then ds
        else drop_excess lane count (drop_aged lane age now ds))
      ≡ drop_excess lane count (drop_aged lane age now ds)
unfolding drop_excess drop_aged
prune-eq lane now ds none none = refl
prune-eq lane now ds none (some c) = refl
prune-eq lane now ds (some a) count = refl

kept_of_lane :
    (lane : Lane) (now : ℕ) (ds : List DeadEntry) (age count : Option ℕ)
    → of_lane lane (drop_excess lane count (drop_aged lane age now ds))
      ≡ last_ones count (young age now (of_lane lane ds))
kept_of_lane lane now ds age count =
    excess-of_lane lane count (drop_aged lane age now ds)
    ∙ ap (last_ones count) (aged-of_lane lane age now ds)

length-last_ones-le : (n : ℕ) (ds : List DeadEntry) → length (last_ones (some n) ds) ≤ n
length-last_ones-le n ds = omega (arith, length-drop (length ds - n) ds)

-- Pruning a lane keeps, of that lane's dead letters, exactly those that are no older than the age
-- bound and among these the last ones up to the count bound, in their order, so never more than
-- the count bound; the other lanes' dead letters stay as they are.
pub prune_dead-keeps :
    (lane : Lane) (policy : RetentionPolicy) (now : ℕ) (ds : List DeadEntry)
    → let kept = prune_dead lane policy now ds in
      (of_lane lane kept ≡ last_ones policy.max_count (young policy.max_age now (of_lane lane ds)))
      × (off_lane lane kept ≡ off_lane lane ds)
      × ((n : ℕ) → policy.max_count ≡ some n → dead_count lane kept ≤ n)
unfolding prune_dead is_unbounded
prune_dead-keeps lane policy now ds =
    let same = prune-eq lane now ds policy.max_age policy.max_count in
    let kept = kept_of_lane lane now ds policy.max_age policy.max_count in
    (
      ap (of_lane lane) same ∙ kept,
      ap (off_lane lane) same
          ∙ (excess-off_lane lane policy.max_count (drop_aged lane policy.max_age now ds)
              ∙ aged-off_lane lane policy.max_age now ds),
      λ n e.
          rw (same, kept, e) (length-last_ones-le n (young policy.max_age now (of_lane lane ds))),
    )
