-- ===== src/Ranks/Delete.antt =====
-- `Delete` of the short ranking list (src/libs/utils/short_ranklist.go).
use mm_server.Prelude.{
  ℕ, suc, ◌+◌, ◌-◌, ◌<◌, ◌≡◌, refl, sym, ap, subst, ◌∙◌, Bool-cases, Option-cases, inl, inr, Bool,
  true, false, Option, none, some, if◌then◌else◌, ltb, leb, ◌&&◌, Eq, arith, lt→ltb,
}
use mm_server.Prelude.Fault.{Returns, Returns->>=}
use mm_server.Prelude.Dict.{lookup, erase, lookup-erase}
use mm_server.Ranks.{ShortRankItem, ShortRankList, delete, put_at, set_at, shift_up}
use mm_server.Ranks.Shift.{Linked, Up, shift_up-Up, shifted, drop}
use mm_server.Ranks.Order.{IsRanking, view, view_at, view_missing, apart_from, other_key}

-- Where the item at a place stood before the item at `idx` went.
abbrev from : ℕ → ℕ → ℕ
from idx i = if leb idx i then suc i else i

module _ {A K V : Type 0} ⦃e : Eq K⦄ (ops : ShortRankItem A K V) where
  -- The item of the key is gone, and all others are there in their order.
  pub record Deleted (l m : ShortRankList A K) (key : K) : Type 0 where
    pub ranking : IsRanking ops m
    pub fewer : suc m.curr_num ≡ l.curr_num
    pub views : (k : K) → view ops k m ≡ (if e.beq key k then none else view ops k l)

  module _ (l : ShortRankList A K) (key : K) (idx : ℕ) (old : A) where
    abbrev cut : ShortRankList A K → ShortRankList A K
    cut m = record m {
      items = set_at ops (l.curr_num - 1) none m.items;
      curr_num = l.curr_num - 1;
      keys_map = erase key m.keys_map;
    }

    module _ (m : ShortRankList A K) (d : Up ops l idx (l.curr_num - 1 - idx) m)
        (r : IsRanking ops l) (inside : idx < l.curr_num) (stood : l.items idx ≡ some old)
        (placed : lookup key l.keys_map ≡ some idx) where
      cut_cells : (i : ℕ) → i < l.curr_num - 1 → (cut m).items i ≡ l.items (from idx i)
      cut_cells i h = ground (arith, d.cells i)

      -- The place that a key other than the deleted one has.
      cut_place :
          (k : K) (j : ℕ)
          → e.beq key k ≡ false
          → lookup k l.keys_map ≡ some j
          → lookup k (cut m).keys_map ≡ some (drop ops idx (l.curr_num - 1 - idx) j)
      unfolding shifted
      cut_place k j other place =
          lookup-erase key k m.keys_map ∙ rw other (d.keys k ∙ rw place refl)

      cut_missing :
          (k : K)
          → e.beq key k ≡ false
          → lookup k l.keys_map ≡ none
          → lookup k (cut m).keys_map ≡ none
      unfolding shifted
      cut_missing k other place =
          lookup-erase key k m.keys_map ∙ rw other (d.keys k ∙ rw place refl)

      cut_gone : (k : K) → e.beq key k ≡ true → lookup k (cut m).keys_map ≡ none
      cut_gone k same = lookup-erase key k m.keys_map ∙ rw same refl

      -- The place of a key, once the list is cut, and the item there.
      drop_place :
          (k : K) (j : ℕ)
          → e.beq key k ≡ false
          → lookup k l.keys_map ≡ some j
          → (drop ops idx (l.curr_num - 1 - idx) j < l.curr_num - 1)
            × ((cut m).items (drop ops idx (l.curr_num - 1 - idx) j) ≡ l.items j)
      unfolding drop
      drop_place k j other place =
          let apart = apart_from ops l idx old key r inside stood placed k j place other in
          let bound = r.inside k j place in
          let to = if ltb idx j && leb j (idx + (l.curr_num - 1 - idx)) then j - 1 else j in
          let low : to < l.curr_num - 1 = ground arith in
          (low, cut_cells to low ∙ ap (λ t. l.items t) (ground arith))

      drop_from :
          (i : ℕ) → i < l.curr_num - 1 → drop ops idx (l.curr_num - 1 - idx) (from idx i) ≡ i
      unfolding drop
      drop_from i h = ground arith

      cut-full :
          (i : ℕ)
          → i < l.curr_num - 1
          → (x : A) × ((cut m).items i ≡ some x)
            × (lookup (ops.get_key x) (cut m).keys_map ≡ some i)
      cut-full i h =
          let low : from idx i < l.curr_num = ground arith in
          let (x, found, place) = r.linked.full (from idx i) (omega arith) low in
          let other =
            other_key ops l idx old key r placed (from idx i) x low (ground arith) found in
          (
            x,
            cut_cells i h ∙ found,
            cut_place (ops.get_key x) (from idx i) other place ∙ ap some (drop_from i h),
          )

      cut-inside : (k : K) (i : ℕ) → lookup k (cut m).keys_map ≡ some i → i < l.curr_num - 1
      cut-inside k i found = elim (Bool-cases (e.beq key k)) [
        | inl same ↦ absurd (ground (arith, cut_gone k same))
        | inr other ↦ elim (Option-cases (lookup k l.keys_map)) [
          | inl missing ↦ absurd (ground (arith, cut_missing k other missing))
          | inr (j, place) ↦ ground (arith, cut_place k j other place, drop_place k j other place)
        ]
      ]

      cut-back :
          (k : K) (i : ℕ) (x : A)
          → lookup k (cut m).keys_map ≡ some i
          → (cut m).items i ≡ some x
          → ops.get_key x ≡ k
      cut-back k i x found here = elim (Bool-cases (e.beq key k)) [
        | inl same ↦ absurd (ground (arith, cut_gone k same))
        | inr other ↦ elim (Option-cases (lookup k l.keys_map)) [
          | inl missing ↦ absurd (ground (arith, cut_missing k other missing))
          | inr (j, place) ↦
              let (low, same) = drop_place k j other place in
              let at_i : some (drop ops idx (l.curr_num - 1 - idx) j) ≡ some i =
                sym (cut_place k j other place) ∙ found in
              let at_j : l.items j ≡ some x =
                sym same ∙ ap (λ t. (cut m).items t) (ground (arith, at_i)) ∙ here in
              r.linked.back k j x (omega arith) (r.inside k j place) place at_j
        ]
      ]

      cut-IsRanking : IsRanking ops (cut m)
      cut-IsRanking = record {
        room = omega (arith, d.max_num, r.room);
        linked = record {
          full = λ i low h. cut-full i h;
          back = λ k i x low h found here. cut-back k i x found here;
        };
        inside = cut-inside;
        sorted = λ i j x y lt h here there.
            r.sorted (from idx i) (from idx j) x y (ground arith) (ground arith)
              (sym (cut_cells i (omega arith)) ∙ here) (sym (cut_cells j h) ∙ there);
      }

      cut-views : (k : K) → view ops k (cut m) ≡ (if e.beq key k then none else view ops k l)
      cut-views k = elim (Bool-cases (e.beq key k)) [
        | inl same ↦ rw same (view_missing ops k (cut m) (cut_gone k same))
        | inr other ↦ rw other (elim (Option-cases (lookup k l.keys_map)) [
          | inl missing ↦
              view_missing ops k (cut m) (cut_missing k other missing)
              ∙ sym (view_missing ops k l missing)
          | inr (j, place) ↦
              view_at ops k (drop ops idx (l.curr_num - 1 - idx) j) (cut m)
                (cut_place k j other place)
              ∙ (drop_place k j other place).1
              ∙ sym (view_at ops k j l place)
        ])
      ]

  module _ (l : ShortRankList A K) (key : K) where
    -- What a deletion comes to, by what the list has for the key.
    abbrev pub Removed : Option A → ShortRankList A K × Bool → Type 0
    Removed none (m, ok) = (m ≡ l) × (ok ≡ false)
    Removed (some old) (m, ok) = Deleted l m key × (ok ≡ true)

    shift-Linked :
        (idx : ℕ)
        → IsRanking ops l
        → idx < l.curr_num
        → Linked ops l (suc idx) (suc (idx + (l.curr_num - 1 - idx)))
    shift-Linked idx r inside = record {
      full = λ i a b. r.linked.full i (omega arith) (omega arith);
      back = λ k i x a b. r.linked.back k i x (omega arith) (omega arith);
    }

    -- A deletion of a key that the list has never panics, and leaves a ranking of one item less, with
    -- the same items for all other keys; a key that the list does not have changes nothing.
    pub delete-Removed : IsRanking ops l → Returns (delete ops key l) (Removed (view ops key l))
    unfolding delete put_at
    delete-Removed r = elim (Option-cases (lookup key l.keys_map)) [
      | inl missing ↦
          rw (missing, delete)
            (subst (λ o. Removed o (l, false)) (sym (view_missing ops key l missing)) (refl, refl))
      | inr (idx, placed) ↦
          let inside = r.inside key idx placed in
          let (old, stood, own) = r.linked.full idx (omega arith) inside in
          let n = l.curr_num - 1 - idx in
          subst (λ o. Returns (delete ops key l) (Removed o))
            (sym (view_at ops key idx l placed ∙ stood))
            (rw (placed, delete)
              (Returns->>= {P = Up ops l idx n} (Removed (some old)) (shift_up ops idx n l) _
                (shift_up-Up ops idx n l (shift-Linked idx r inside) (omega (arith, r.room)))
                (λ m d. rw (lt→ltb (l.curr_num - 1) m.max_num (omega (arith, d.max_num, r.room))) (
                  record {
                    ranking = cut-IsRanking l key idx old m d r inside stood placed;
                    fewer = omega arith;
                    views = cut-views l key idx old m d r inside stood placed;
                  },
                  refl,
                ))))
    ]
