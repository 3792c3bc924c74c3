-- ===== src/Ranks/Raise.antt =====
-- `Update` of an item of the short ranking list that became greater
-- (src/libs/utils/short_ranklist.go).
use mm_server.Prelude.{
  ℕ, suc, ◌+◌, ◌-◌, ◌≤◌, ◌<◌, ◌≡◌, refl, ap, subst, ◌∙◌, Bool-cases, inl, inr, true, some,
  if◌then◌else◌, ltb, leb, ◌&&◌, Eq, arith,
}
use mm_server.Prelude.Fault.{Returns, Returns->>=}
use mm_server.Prelude.Dict.{lookup, lookup-insert}
use mm_server.Ranks.{ShortRankItem, ShortRankList, raise_item, rise, shift_down}
use mm_server.Ranks.Shift.{Linked, Down, shift_down-Down, bump, moved, move_to-moved}
use mm_server.Ranks.Order.{
  IsOrder, IsRanking, Moved, Moved-IsRanking, view, view-Moved, shifted_ext, apart_from, other_key,
}
use mm_server.Ranks.Search.{Rise, rise-Rise, before_stop}

-- Where the item at a place of the raised list stood before, and where one of the old list is now.
abbrev from : ℕ → ℕ → ℕ → ℕ
from p idx i = if ltb p i && leb i idx then i - 1 else i

abbrev to : ℕ → ℕ → ℕ → ℕ
to p idx i = if leb p i && ltb i idx then suc i else i

module _ {A K V : Type 0} ⦃e : Eq K⦄ (ops : ShortRankItem A K V) where
  -- One item was replaced, and its new place found.
  pub record Replaced (l m : ShortRankList A K) (new : A) : Type 0 where
    pub ranking : IsRanking ops m
    pub same_num : m.curr_num ≡ l.curr_num
    pub views :
        (k : K) → view ops k m ≡ (if e.beq (ops.get_key new) k then some new else view ops k l)

  module _ (order : IsOrder ops) (l : ShortRankList A K) (idx : ℕ) (old new : A) where
    bump_to : (p i : ℕ) → p ≤ idx → bump ops p (idx - p) i ≡ to p idx i
    unfolding bump
    bump_to p i h = ground arith

    raised-Moved :
        (p : ℕ) (m : ShortRankList A K)
        → IsRanking ops l
        → idx < l.curr_num
        → l.items idx ≡ some old
        → lookup (ops.get_key new) l.keys_map ≡ some idx
        → ops.greater new old ≡ true
        → Rise ops new l idx p
        → Down ops l p (idx - p) m
        → Moved ops l (moved ops (ops.get_key new) p new m) p new (from p idx) (to p idx)
    raised-Moved p m r inside stood placed over s d = record {
      room = omega (arith, d.curr_num, d.max_num, r.room);
      here = ground arith;
      inside = omega (arith, d.curr_num, s.bound);
      cells = λ i h ne. ground (arith, d.cells i, s.bound);
      source = λ i h ne. ground (arith, d.curr_num);
      mono = λ i j lt h ni nj. ground (arith, s.bound);
      keys = λ k.
          lookup-insert (ops.get_key new) k p m.keys_map
          ∙ ap (λ o. if e.beq (ops.get_key new) k then some p else o)
              (d.keys k
                ∙ shifted_ext ops (bump ops p (idx - p)) (to p idx) (lookup k l.keys_map)
                    (λ i. bump_to p i (s.bound)));
      target = λ k i found other.
          let apart =
            apart_from ops l idx old (ops.get_key new) r inside stood placed k i found other in
          let bound = r.inside k i found in ground (arith, d.curr_num, s.bound);
      other = λ i x h ne found.
          other_key ops l idx old (ops.get_key new) r placed (from p idx i) x
            (ground (arith, d.curr_num)) (ground arith) found;
      back = λ i h ne. ground (arith, s.bound);
      before = λ i x h found.
          before_stop ops new l idx p order r (omega arith) s i x h
            (subst (λ t. l.items t ≡ some x) (ground arith) found);
      behind = λ i x low h found. elim (Bool-cases (leb i idx)) [
        | inl among ↦ order.asym new x (
            s.beaten (i - 1) x (omega arith) (ground arith)
              (subst (λ t. l.items t ≡ some x) (ground arith) found))
        | inr below ↦
            order.ntrans x old new
              (r.sorted idx i old x (ground arith) (omega (arith, d.curr_num)) stood
                (subst (λ t. l.items t ≡ some x) (ground arith) found))
              (order.asym new old over)
      ];
    }

    -- What the loops are given.
    held_by :
        IsRanking ops l
        → idx < l.curr_num
        → (i : ℕ) → 0 ≤ i
        → i < idx
        → (x : A) × (l.items i ≡ some x)
    held_by r inside i low h =
        let (x, found, place) = r.linked.full i low (omega arith) in (x, found)

    part-Linked :
        (p : ℕ) → IsRanking ops l → idx < l.curr_num → p ≤ idx → Linked ops l p (p + (idx - p))
    part-Linked p r inside low = record {
      full = λ i a b. r.linked.full i (omega arith) (omega arith);
      back = λ k i x a b. r.linked.back k i x (omega arith) (omega arith);
    }

    pub raise_item-Replaced :
        IsRanking ops l
        → idx < l.curr_num
        → l.items idx ≡ some old
        → lookup (ops.get_key new) l.keys_map ≡ some idx
        → ops.greater new old ≡ true
        → Returns (raise_item ops idx old new l) (λ (m, ok). Replaced l m new × (ok ≡ true))
    unfolding raise_item
    raise_item-Replaced r inside stood placed over =
        Returns->>= {P = Rise ops new l idx} (λ (m, ok). Replaced l m new × (ok ≡ true))
          (rise ops new idx l) _
          (rise-Rise ops new l idx (held_by r inside) (omega (arith, r.room)))
          (λ p s.
            Returns->>= {P = Down ops l p (idx - p)} (λ (m, ok). Replaced l m new × (ok ≡ true))
              (shift_down ops p (idx - p) l) _
              (shift_down-Down ops p (idx - p) l (part-Linked p r inside (s.bound))
                (omega (arith, s.bound, r.room)))
              (λ m d.
                let v = raised-Moved p m r inside stood placed over s d in
                rw (order.assigns old new) (
                  rw
                    (move_to-moved ops (ops.get_key new) p new m
                      (omega (arith, d.max_num, s.bound, r.room)))
                    (
                      record {
                        ranking = Moved-IsRanking ops l _ p new (from p idx) (to p idx) r v;
                        same_num = d.curr_num;
                        views = view-Moved ops l _ p new (from p idx) (to p idx) v;
                      },
                      refl,
                    ))))
