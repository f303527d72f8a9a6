-- ===== src/Media/Hydrate/Keys.antt =====
-- The keys of the jobs of client/src/lib/media-hydrate.ts, counted.
use coachman.Common.{
  ℕ, zero, suc, ◌+◌, ◌≤◌, String, Option, none, some, List, [], ◌∷◌, ◌++◌, length, get_elem?,
  if◌then◌else◌, ◌==◌, ◌≡◌, refl, arith,
}
use mathlib.Core.Option.{some-injective}
use coachman.Media.Hydrate.{Job, remove_at}

-- How many of the jobs have the key `k`.
abbrev pub count : String → List Job → ℕ
count k [] = 0
count k (job ∷ jobs) = if job.key == k then suc (count k jobs) else count k jobs

-- One for a promise, zero for none.
abbrev pub held : Option ℕ → ℕ
held none = 0
held (some promise) = 1

pub held-le : (o : Option ℕ) → held o ≤ 1
held-le none = omega arith
held-le (some promise) = omega arith

pub held-none : (o : Option ℕ) → held o ≡ 0 → o ≡ none
held-none none h = refl
held-none (some promise) h = absurd (omega arith)

pub count-le : (k : String) (xs : List Job) → count k xs ≤ length xs
count-le k [] = omega arith
count-le k (x ∷ xs) = ground (arith, count-le k xs)

pub count-append : (k : String) (xs ys : List Job) → count k (xs ++ ys) ≡ count k xs + count k ys
count-append k [] ys = omega arith
count-append k (x ∷ xs) ys = ground (arith, count-append k xs ys)

pub count-remove_at :
    (k : String) (i : ℕ) (xs : List Job) {job : Job}
    → get_elem? xs i ≡ some job
    → count k (remove_at i xs) + count k (job ∷ []) ≡ count k xs
unfolding remove_at
count-remove_at k i [] h = cc
count-remove_at k zero (x ∷ xs) {job} h =
    let same : x ≡ job = some-injective _ _ h in rw same (ground arith)
count-remove_at k (suc i) (x ∷ xs) h = ground (arith, count-remove_at k i xs h)

pub length-remove_at :
    (i : ℕ) (xs : List Job) {job : Job}
    → get_elem? xs i ≡ some job
    → length (remove_at i xs) + 1 ≡ length xs
unfolding remove_at
length-remove_at i [] h = cc
length-remove_at zero (x ∷ xs) h = omega arith
length-remove_at (suc i) (x ∷ xs) h = omega (arith, length-remove_at i xs h)
