-- ===== src/Store/Table.antt =====
-- A table in memory as an object store: it shows that what is asked of a store can be had.
use coachman.Common.{
  String, true, false, Option, none, some, List, [], ◌∷◌, In, if◌then◌else◌, ◌==◌, eq_iff, eq_refl,
  differ_comm, Bool-cases, ◌≡◌, ◌↔◌, refl, sym, ◌∙◌, ap, inl, inr, arith,
}
use mathlib.Core.Option.{some-injective}
use coachman.Store.{ObjectStore}

module _ {V : Type 0} (key : V → String) where
  -- The latest row for a key is in front of the older ones.
  pub find_row : String → List V → Option V
  find_row k [] = none
  find_row k (v ∷ rows) = if key v == k then some v else find_row k rows

  pub delete_row : String → List V → List V
  delete_row k [] = []
  delete_row k (v ∷ rows) = let rest = delete_row k rows in if key v == k then rest else v ∷ rest

  pub latest_rows : List V → List V
  unfolding delete_row
  latest_rows [] = []
  latest_rows (v ∷ rows) = v ∷ delete_row (key v) (latest_rows rows)

  pub find_row-delete_row :
      (k j : String) (rows : List V)
      → find_row k (delete_row j rows) ≡ (if j == k then none else find_row k rows)
  unfolding find_row delete_row
  find_row-delete_row k j [] = ground arith
  find_row-delete_row k j (v ∷ rows) =
      ground (arith, find_row-delete_row k j rows, eq_iff (key v) j, eq_iff (key v) k, eq_iff j k)

  In-delete_row :
      (v : V) (j : String) (rows : List V)
      → In v (delete_row j rows) ↔ (In v rows × ((key v == j) ≡ false))
  unfolding delete_row
  In-delete_row v j [] = (λ h. absurd h, λ h. absurd h.0)
  In-delete_row v j (w ∷ rows) = elim (Bool-cases (key w == j)) [
    | inl e ↦ rw e (
      λ h. let (i, n) = (In-delete_row v j rows).0 h in (inr i, n),
      λ (i, n).
          (In-delete_row v j rows).1 (elim i [ inr k ↦ k | inl q ↦ absurd (differs q e n) ], n),
    )
    | inr e ↦ rw e (
      λ h. elim h [
        | inl q ↦ (inl q, ap (λ x. key x == j) q ∙ e)
        | inr i ↦ let (k, n) = (In-delete_row v j rows).0 i in (inr k, n)
      ],
      λ (i, n). elim i [ inl q ↦ inl q | inr k ↦ inr ((In-delete_row v j rows).1 (k, n)) ],
    )
  ]
    where
      differs : v ≡ w → (key w == j) ≡ true → (key v == j) ≡ false → ⊥
      differs q e n = let p = ap (λ x. key x == j) q in cc

  pub latest_rows-find_row :
      (v : V) (rows : List V) → In v (latest_rows rows) ↔ (find_row (key v) rows ≡ some v)
  unfolding latest_rows find_row
  latest_rows-find_row v [] = (λ h. absurd h, λ h. cc)
  latest_rows-find_row v (w ∷ rows) = elim (Bool-cases (key w == key v)) [
    | inl e ↦ rw e (
      λ h. elim h [
        | inl q ↦ ap some (sym q)
        | inr i ↦ absurd (stale ((In-delete_row v (key w) (latest_rows rows)).0 i).1 e)
      ],
      λ h. inl (sym (some-injective _ _ h)),
    )
    | inr e ↦ rw e (
      λ h. elim h [
        | inl q ↦ absurd (fresh q e)
        | inr i ↦
            (latest_rows-find_row v rows).0 ((In-delete_row v (key w) (latest_rows rows)).0 i).0
      ],
      λ h. inr (
          (In-delete_row v (key w) (latest_rows rows)).1
            ((latest_rows-find_row v rows).1 h, other e)),
    )
  ]
    where
      stale : (key v == key w) ≡ false → (key w == key v) ≡ true → ⊥
      stale n e =
          let p = (eq_iff (key w) (key v)).0 e in let q = rw p at n in let r = eq_refl (key v) in cc

      fresh : v ≡ w → (key w == key v) ≡ false → ⊥
      fresh q e = let r = eq_refl (key w) in let n = rw q at e in cc

      other : (key w == key v) ≡ false → (key v == key w) ≡ false
      other n = differ_comm (key w) (key v) n

  pub find_row-key : (k : String) (v : V) (rows : List V) → find_row k rows ≡ some v → key v ≡ k
  unfolding find_row
  find_row-key k v [] h = cc
  find_row-key k v (w ∷ rows) h = elim (Bool-cases (key w == k)) [
    | inl e ↦ ap key (sym (some-injective _ _ (rw e at h))) ∙ (eq_iff (key w) k).0 e
    | inr e ↦ find_row-key k v rows (rw e at h)
  ]

  unfoldable pub table : ObjectStore key
  unfolding find_row delete_row latest_rows
  table = record {
    Rows = List V;
    get = find_row;
    put = λ v rows. v ∷ rows;
    delete = delete_row;
    all = latest_rows;
    get-key = find_row-key;
    get-put = λ k v rows. refl;
    get-delete = find_row-delete_row;
    all-get = latest_rows-find_row;
  }
