-- ===== src/Viewport/Scroller/Found.antt =====
-- The row that an anchor names: client/src/lib/chat-viewport.ts.
use coachman.Common.{
  ℕ, ◌+◌, String, Bool, true, false, ◌&&◌, Option, none, some, List, [], ◌∷◌, ◌++◌, present,
  default, Bool-cases, eq_iff, ◌≡◌, refl, sym, ap, subst, ◌∙◌, inl, inr, arith,
}
use mathlib.Core.Option.{some-injective}
use coachman.Viewport.Scroller.{
  Row, Scroller, content_height, intersects, first_visible, has_id, find_offset,
}

abbrev pub Lacks : String → List Row → Type 0
Lacks id [] = Unit
Lacks id (row ∷ rows) = (has_id id row.id ≡ false) × Lacks id rows

-- No message has two rows.
abbrev pub IsDistinct : List Row → Type 0
IsDistinct [] = Unit
IsDistinct (row ∷ rows) = (present row.id ≡ true → Lacks (default "" row.id) rows) × IsDistinct rows

pub content_height-append :
    (xs ys : List Row) → content_height (xs ++ ys) ≡ content_height xs + content_height ys
content_height-append [] ys = omega arith
content_height-append (row ∷ xs) ys = let h = content_height-append xs ys in omega arith

has_own_id : (id : Option String) → present id ≡ true → has_id (default "" id) id ≡ true
has_own_id none e = cc
has_own_id (some id) e = (eq_iff id id).1 refl

-- A row of another message, if the first with this id lies behind it.
other_row :
    (row : Row) (rows : List Row) (id : String) (n : ℕ) (o : ℕ)
    → Lacks id rows
    → find_offset id n rows ≡ some o
    → ⊥
unfolding find_offset
other_row row [] id n o l e = cc
other_row row (r ∷ rows) id n o l e =
    let e' : find_offset id (n + r.height) rows ≡ some o = rw l.0 at e in
    other_row row rows id (n + r.height) o l.1 e'

both : (a b : Bool) → a && b ≡ true → a ≡ true
both true b e = refl
both false b e = cc

-- A row with this id that has an id.
pub id_of : (o : Option String) (id : String) → has_id id o ≡ true → o ≡ some id
id_of none id e = cc
id_of (some other) id e = ap some ((eq_iff other id).0 e)

-- The row that is captured has an id.
pub captured_present :
    (s : Scroller) (rows : List Row) (n : ℕ) (id : String) (o : ℕ)
    → first_visible s n rows ≡ some (id, o)
    → present (some id) ≡ true
unfolding first_visible
captured_present s [] n id o e = cc
captured_present s (row ∷ rows) n id o e =
    elim (Bool-cases (present row.id && intersects s n row)) [
      | inl v ↦
          let here : some (default "" row.id, n) ≡ some (id, o) = rw v at e in
          let own = has_own_id row.id (both _ _ v) in
          let same : default "" row.id ≡ id = ap fst_of here in
          let p : present (some (default "" row.id)) ≡ true =
            ap present (sym (id_of row.id (default "" row.id) own)) ∙ both _ _ v in
          rw same at p
      | inr v ↦
          let there : first_visible s (n + row.height) rows ≡ some (id, o) = rw v at e in
          captured_present s rows (n + row.height) id o there
    ]
  where
    fst_of : Option (String × ℕ) → String
    fst_of none = ""
    fst_of (some (a, b)) = a

-- A row above the one that is found is of another message.
not_own :
    (row : Row) (rows : List Row) (id : String) (m p : ℕ)
    → IsDistinct (row ∷ rows)
    → present (some id) ≡ true
    → find_offset id m rows ≡ some p
    → has_id id row.id ≡ false
not_own row rows id m p d shown found = elim (Bool-cases (has_id id row.id)) [
  | inl same ↦
      let e = id_of row.id id same in
      let lacks : Lacks id rows =
        subst (λ (x : String). Lacks x rows) (ap (default "") e) (d.0 (ap present e ∙ shown)) in
      absurd (other_row row rows id m p lacks found)
  | inr other ↦ other
]

plus_assoc : (a b c : ℕ) → (a + b) + c ≡ a + (b + c)
plus_assoc a b c = omega arith

-- The row that is captured, at a distance from the first, is the one that is found there, wherever
-- the first lies.
pub captured_found :
    (s : Scroller) (rows : List Row) (n : ℕ) (id : String) (o : ℕ)
    → IsDistinct rows
    → first_visible s n rows ≡ some (id, o)
    → (j : ℕ) × (o ≡ n + j) × ((m : ℕ) → find_offset id m rows ≡ some (m + j))
unfolding first_visible find_offset
captured_found s [] n id o d e = cc
captured_found s (row ∷ rows) n id o d e =
    elim (Bool-cases (present row.id && intersects s n row)) [
      | inl v ↦
          let here : some (default "" row.id, n) ≡ some (id, o) = rw v at e in
          let own = has_own_id row.id (both _ _ v) in
          let base : (o' : ℕ)
              → n ≡ o'
              → (j : ℕ) × (o' ≡ n + j)
                × ((m : ℕ) → find_offset (default "" row.id) m (row ∷ rows) ≡ some (m + j)) =
            λ o' same. (0, sym same ∙ plus_zero n, λ m. rw own (ap some (plus_zero m))) in
          let pair = some-injective _ _ here in
          subst
            (λ (i : String).
              (j : ℕ) × (o ≡ n + j) × ((m : ℕ) → find_offset i m (row ∷ rows) ≡ some (m + j)))
            (ap (λ (f : String × ℕ). f.0) pair) (base o (ap (λ (f : String × ℕ). f.1) pair))
      | inr v ↦
          let there : first_visible s (n + row.height) rows ≡ some (id, o) = rw v at e in
          let (j, same, found) = captured_found s rows (n + row.height) id o d.1 there in
          let shown = captured_present s rows (n + row.height) id o there in
          (
            row.height + j,
            same ∙ plus_assoc n row.height j,
            λ m.
                rw (not_own row rows id (m + row.height) _ d shown (found (m + row.height)))
                  (found (m + row.height) ∙ ap some (plus_assoc m row.height j)),
          )
    ]
  where
    plus_zero : (a : ℕ) → a ≡ a + 0
    plus_zero a = omega arith

-- It is also found below older rows.
pub found_below :
    (older rows : List Row) (id : String) (n p : ℕ)
    → IsDistinct (older ++ rows)
    → present (some id) ≡ true
    → find_offset id (content_height older + n) rows ≡ some p
    → find_offset id n (older ++ rows) ≡ some p
unfolding find_offset
found_below [] rows id n p d shown found = let e : 0 + n ≡ n = omega arith in rw e at found
found_below (row ∷ older) rows id n p d shown found =
    let e : row.height + content_height older + n ≡ content_height older + (n + row.height) =
      omega arith in
    let found' : find_offset id (content_height older + (n + row.height)) rows ≡ some p =
      rw e at found in
    let rest = found_below older rows id (n + row.height) p d.1 shown found' in
    rw (not_own row (older ++ rows) id _ _ d shown rest) rest

pub IsDistinct-append : (older rows : List Row) → IsDistinct (older ++ rows) → IsDistinct rows
IsDistinct-append [] rows d = d
IsDistinct-append (row ∷ older) rows d = IsDistinct-append older rows d.1
