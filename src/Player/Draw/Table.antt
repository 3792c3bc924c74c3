-- ===== src/Player/Draw/Table.antt =====
-- The libraries that the loader of the drop table builds (src/tables/table_drop_card.go).
use mm_server.Prelude.{
  ℕ, suc, ◌+◌, ◌≤◌, ◌<◌, ◌^◌, ◌≡◌, refl, sym, ap, ap₂, subst, ◌∙◌, Bool-cases, Option-cases, inl,
  inr, Option, none, some, List, [], ◌∷◌, ◌++◌, if◌then◌else◌, arith,
}
use mathlib.Core.List.{append_assoc, append-nil}
use mm_server.Prelude.Int.{ℤ, pos, pos_part, ◌≤ℤ◌, eqb_ℤ, eqb_ℤ_iff, int_eq}
use mm_server.Prelude.Int32.{add32, add32_pos}
use mm_server.Prelude.Lists.{length, All}
use mm_server.Prelude.Dict.{Dict, lookup, lookup-insert}
use mm_server.Prelude.Weights.{total_of}
use mm_server.Player.Draw.{
  DropCardItem, DropCardTypeLib, counted, count_row, count_rows, file_row, file_rows,
  load_drop_cards,
}

abbrev pub weight_of : DropCardItem → ℕ
weight_of t = pos_part t.weight

abbrev pub IsWeighted : DropCardItem → Type 0
IsWeighted t = pos 0 ≤ℤ t.weight

pub weighted_cases : (t : DropCardItem) → IsWeighted t → t.weight ≡ pos (weight_of t)
weighted_cases t h = ground arith

-- The rows of one group, in their order.
unfoldable pub group_of : ℤ → List DropCardItem → List DropCardItem
group_of g [] = []
group_of g (t ∷ ts) = let rest = group_of g ts in if eqb_ℤ t.group_id g then t ∷ rest else rest

-- The first loop at one group, from what there is of it.
counted_all : List DropCardItem → Option DropCardTypeLib → Option DropCardTypeLib
counted_all [] o = o
counted_all (t ∷ ts) o = counted_all ts (some (counted t o))

-- The second loop at one group.
filed : List DropCardItem → Option DropCardTypeLib → Option DropCardTypeLib
filed ts none = none
filed ts (some l) = some (record l { drop_items = l.drop_items ++ ts })

lookup-count_row :
    (g : ℤ) (t : DropCardItem) (libs : Dict ℤ DropCardTypeLib)
    → lookup g (count_row t libs)
      ≡ (if eqb_ℤ t.group_id g then some (counted t (lookup g libs)) else lookup g libs)
unfolding count_row
lookup-count_row g t libs = grind (
  arith,
  eqb_ℤ_iff t.group_id g,
  lookup-insert t.group_id g (counted t (lookup t.group_id libs)) libs,
)

lookup-count_rows :
    (g : ℤ) (ts : List DropCardItem) (libs : Dict ℤ DropCardTypeLib)
    → lookup g (count_rows ts libs) ≡ counted_all (group_of g ts) (lookup g libs)
unfolding count_rows counted_all group_of
lookup-count_rows g [] libs = refl
lookup-count_rows g (t ∷ ts) libs =
    lookup-count_rows g ts (count_row t libs) ∙ elim (Bool-cases (eqb_ℤ t.group_id g)) [
      | inl same ↦ rw (lookup-count_row g t libs, same) refl
      | inr other ↦ rw (lookup-count_row g t libs, other) refl
    ]

lookup-file_row :
    (g : ℤ) (t : DropCardItem) (libs : Dict ℤ DropCardTypeLib)
    → lookup g (file_row t libs)
      ≡ (if eqb_ℤ t.group_id g then filed (t ∷ []) (lookup g libs) else lookup g libs)
unfolding file_row filed
lookup-file_row g t libs = elim (Option-cases (lookup t.group_id libs)) [
  | inl missing ↦ grind (arith, missing, eqb_ℤ_iff t.group_id g)
  | inr (l, found) ↦ grind (
    arith,
    found,
    eqb_ℤ_iff t.group_id g,
    lookup-insert t.group_id g (record l { drop_items = l.drop_items ++ t ∷ [] }) libs,
  )
]

filed-nil : (o : Option DropCardTypeLib) → filed [] o ≡ o
unfolding filed
filed-nil none = refl
filed-nil (some l) = ap (λ xs. some (record l { drop_items = xs })) (append-nil l.drop_items)

filed_again :
    (t : DropCardItem) (ts : List DropCardItem) (o : Option DropCardTypeLib)
    → filed ts (filed (t ∷ []) o) ≡ filed (t ∷ ts) o
unfolding filed
filed_again t ts none = refl
filed_again t ts (some l) =
    ap (λ xs. some (record l { drop_items = xs })) (append_assoc l.drop_items (t ∷ []) ts)

lookup-file_rows :
    (g : ℤ) (ts : List DropCardItem) (libs : Dict ℤ DropCardTypeLib)
    → lookup g (file_rows ts libs) ≡ filed (group_of g ts) (lookup g libs)
unfolding file_rows filed group_of
lookup-file_rows g [] libs = sym (filed-nil (lookup g libs))
lookup-file_rows g (t ∷ ts) libs =
    lookup-file_rows g ts (file_row t libs) ∙ elim (Bool-cases (eqb_ℤ t.group_id g)) [
      | inl same ↦ rw (lookup-file_row g t libs, same) (filed_again t (group_of g ts) _)
      | inr other ↦ rw (lookup-file_row g t libs, other) refl
    ]

-- What the loader has of a group that has rows.
pub record IsLibrary (g : ℤ) (ts : List DropCardItem) (l : DropCardTypeLib) : Type 0 where
  pub kind : l.drop_lib_type ≡ g
  pub rows : l.drop_items ≡ ts
  pub count : l.total_count ≡ length ts
  pub weights : l.total_weight ≡ pos (total_of weight_of ts)

abbrev pub Loaded : ℤ → List DropCardItem → Option DropCardTypeLib → Type 0
Loaded g [] o = o ≡ none
Loaded g (t ∷ ts) o = (l : DropCardTypeLib) × (o ≡ some l) × IsLibrary g (t ∷ ts) l

-- The first loop, once it knows the group.
counted_rest :
    (ts : List DropCardItem) (l : DropCardTypeLib) (n : ℕ)
    → All IsWeighted ts
    → l.total_weight ≡ pos n
    → n + total_of weight_of ts < 2 ^ 31
    → counted_all ts (some l)
      ≡ some (record l {
        total_count = l.total_count + length ts;
        total_weight = pos (n + total_of weight_of ts);
      })
unfolding counted_all counted total_of
counted_rest [] l n all stored small = ground arith
counted_rest (t ∷ ts) l n all stored small =
    let added : add32 l.total_weight t.weight ≡ pos (n + weight_of t) =
      ap₂ add32 stored (weighted_cases t all.0) ∙ add32_pos n (weight_of t) (omega arith) in
    counted_rest ts (counted t (some l)) (n + weight_of t) all.1 added (omega arith) ∙ ground arith

group_of-All :
    (P : DropCardItem → Type 0) (g : ℤ) (ts : List DropCardItem) → All P ts → All P (group_of g ts)
unfolding group_of
group_of-All P g [] all = tt
group_of-All P g (t ∷ ts) all = elim (Bool-cases (eqb_ℤ t.group_id g)) [
  | inl same ↦ rw same (all.0, group_of-All P g ts all.1)
  | inr other ↦ rw other (group_of-All P g ts all.1)
]

group_of_belong : (g : ℤ) (ts : List DropCardItem) → All (λ t. t.group_id ≡ g) (group_of g ts)
unfolding group_of
group_of_belong g [] = tt
group_of_belong g (t ∷ ts) = elim (Bool-cases (eqb_ℤ t.group_id g)) [
  | inl same ↦ rw same ((eqb_ℤ_iff t.group_id g).0 same, group_of_belong g ts)
  | inr other ↦ rw other (group_of_belong g ts)
]

total_of-group_of :
    (g : ℤ) (ts : List DropCardItem) → total_of weight_of (group_of g ts) ≤ total_of weight_of ts
unfolding group_of total_of
total_of-group_of g [] = omega arith
total_of-group_of g (t ∷ ts) = ground (arith, total_of-group_of g ts)

loops-Loaded :
    (g : ℤ) (ts : List DropCardItem)
    → All IsWeighted ts
    → All (λ t. t.group_id ≡ g) ts
    → total_of weight_of ts < 2 ^ 31
    → Loaded g ts (filed ts (counted_all ts none))
unfolding filed counted_all counted total_of
loops-Loaded g [] all belong small = refl
loops-Loaded g (t ∷ ts) all belong small =
    let first = counted t none in
    let rest = counted_rest ts first (weight_of t) all.1 (weighted_cases t all.0) (omega arith) in
    (
      record first {
        total_count = suc (length ts);
        total_weight = pos (weight_of t + total_of weight_of ts);
        drop_items = t ∷ ts;
      },
      rw rest (ground arith),
      record { kind = belong.0; rows = refl; count = refl; weights = refl },
    )

-- Where no weight is negative and the sum of all weights fits an int32, the loader has, for each
-- group that has rows, exactly those rows in their order, with their number and the sum of their
-- weights; it has nothing for a group without rows.
pub load_drop_cards-Loaded :
    (rows : List DropCardItem) (g : ℤ)
    → All IsWeighted rows
    → total_of weight_of rows < 2 ^ 31
    → Loaded g (group_of g rows) (lookup g (load_drop_cards rows))
unfolding load_drop_cards lookup
load_drop_cards-Loaded rows g all small =
    let loops : lookup g (file_rows rows (count_rows rows []))
        ≡ filed (group_of g rows) (counted_all (group_of g rows) none) =
      lookup-file_rows g rows (count_rows rows [])
      ∙ ap (filed (group_of g rows)) (lookup-count_rows g rows []) in
    subst (Loaded g (group_of g rows)) (sym loops) (
      loops-Loaded g (group_of g rows) (group_of-All IsWeighted g rows all) (group_of_belong g rows)
        (omega (arith, total_of-group_of g rows)))
