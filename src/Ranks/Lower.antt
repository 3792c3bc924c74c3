-- ===== src/Ranks/Lower.antt =====
-- `Update` of an item of the short ranking list that became less
-- (src/libs/utils/short_ranklist.go).
use mm_server.Prelude.{
  ℕ, suc, ◌+◌, ◌-◌, ◌≤◌, ◌<◌, ◌≡◌, refl, sym, ap, subst, ◌∙◌, Bool-cases, inl, inr, true, false,
  some, if◌then◌else◌, ltb, leb, ◌==◌, ◌&&◌, Eq, arith,
}
use mm_server.Prelude.Fault.{Returns, Returns->>=}
use mm_server.Prelude.Dict.{lookup, lookup-insert}
use mm_server.Ranks.{ShortRankItem, ShortRankList, lower_item, fall, shift_up}
use mm_server.Ranks.Shift.{Linked, Up, shift_up-Up, drop, moved, move_to-moved}
use mm_server.Ranks.Order.{
  IsOrder, IsRanking, Moved, Moved-IsRanking, view-Moved, shifted_ext, apart_from, other_key,
}
use mm_server.Ranks.Search.{Fall, fall-Fall}
use mm_server.Ranks.Raise.{Replaced}

-- Where the item at a place of the new list stood before, and where one of the old list is now; the
-- item that became less goes from `idx` to `p`.
abbrev from : ℕ → ℕ → ℕ → ℕ
from p idx i = if leb idx i && ltb i p then suc i else i

abbrev to : ℕ → ℕ → ℕ → ℕ
to p idx i = if ltb idx i && leb i p then i - 1 else i

module _ {A K V : Type 0} ⦃e : Eq K⦄ (ops : ShortRankItem A K V) where
  module _ (order : IsOrder ops) (l : ShortRankList A K) (idx : ℕ) (old new : A) where
    drop_to : (p i : ℕ) → idx ≤ p → drop ops idx (p - idx) i ≡ to p idx i
    unfolding drop
    drop_to p i h = ground arith

    -- Behind the place where the loop stopped, no item is greater.
    behind_stop :
        (q : ℕ)
        → IsRanking ops l
        → idx < l.curr_num
        → Fall ops new l (suc idx) (l.curr_num - suc idx) q
        → (i : ℕ) (x : A) → q ≤ i
        → i < l.curr_num
        → l.items i ≡ some x
        → ops.greater x new ≡ false
    behind_stop q r inside s i x low h found =
        let (y, here, place) = r.linked.full q (omega arith) (omega arith) in
        let over = order.asym new y (s.stops y (omega arith) here) in
        elim (Bool-cases (q == i)) [
          | inl same ↦
              let q_i : some y ≡ some x = sym here ∙ ap (λ t. l.items t) (ground arith) ∙ found in
              subst (λ z. ops.greater z new ≡ false) (ground (arith, q_i)) over
          | inr far ↦ order.ntrans x y new (r.sorted q i y x (ground arith) h here found) over
        ]

    lowered-Moved :
        (q : ℕ) (m : ShortRankList A K)
        → IsRanking ops l
        → idx < l.curr_num
        → l.items idx ≡ some old
        → lookup (ops.get_key new) l.keys_map ≡ some idx
        → ops.greater old new ≡ true
        → Fall ops new l (suc idx) (l.curr_num - suc idx) q
        → Up ops l idx (q - 1 - idx) m
        → Moved ops l
            (moved ops (ops.get_key new) (q - 1) new m)
            (q - 1)
            new
            (from (q - 1) idx)
            (to (q - 1) idx)
    lowered-Moved q m r inside stood placed under s d = record {
      room = omega (arith, d.curr_num, d.max_num, r.room);
      here = ground arith;
      inside = omega (arith, d.curr_num, s.bound, s.from);
      cells = λ i h ne. ground (arith, d.cells i, s.bound, s.from);
      source = λ i h ne. ground (arith, d.curr_num, s.bound, s.from);
      mono = λ i j lt h ni nj. ground (arith, s.bound, s.from);
      keys = λ k.
          lookup-insert (ops.get_key new) k (q - 1) m.keys_map
          ∙ ap (λ o. if e.beq (ops.get_key new) k then some (q - 1) else o)
              (d.keys k
                ∙ shifted_ext ops (drop ops idx (q - 1 - idx)) (to (q - 1) idx)
                    (lookup k l.keys_map) (λ i. drop_to (q - 1) i (omega (arith, s.from))));
      target = λ k i found other.
          let apart =
            apart_from ops l idx old (ops.get_key new) r inside stood placed k i found other in
          let bound = r.inside k i found in ground (arith, d.curr_num, s.bound, s.from);
      other = λ i x h ne found.
          other_key ops l idx old (ops.get_key new) r placed (from (q - 1) idx i) x
            (ground (arith, d.curr_num, s.bound, s.from)) (ground arith) found;
      back = λ i h ne. ground (arith, s.bound, s.from);
      before = λ i x h found. elim (Bool-cases (leb idx i)) [
        | inl among ↦
            s.beats (suc i) x (ground arith) (omega arith)
              (subst (λ t. l.items t ≡ some x) (ground arith) found)
        | inr above ↦ order.ntrans new old x (order.asym old new under) (
            r.sorted i idx x old (ground arith) inside
              (subst (λ t. l.items t ≡ some x) (ground arith) found) stood)
      ];
      behind = λ i x low h found.
          behind_stop q r inside s i x (omega (arith, s.from)) (omega (arith, d.curr_num))
            (subst (λ t. l.items t ≡ some x) (ground (arith, s.from)) found);
    }

    part-Linked :
        (n : ℕ) → IsRanking ops l → idx + n < l.curr_num → Linked ops l (suc idx) (suc (idx + n))
    part-Linked n r inside = record {
      full = λ i a b. r.linked.full i (omega arith) (omega arith);
      back = λ k i x a b. r.linked.back k i x (omega arith) (omega arith);
    }

    held_by :
        IsRanking ops l
        → idx < l.curr_num
        → (i : ℕ) → suc idx ≤ i
        → i < suc idx + (l.curr_num - suc idx)
        → (x : A) × (l.items i ≡ some x)
    held_by r inside i low h =
        let (x, found, place) = r.linked.full i (omega arith) (omega arith) in (x, found)

    pub lower_item-Replaced :
        IsRanking ops l
        → idx < l.curr_num
        → l.items idx ≡ some old
        → lookup (ops.get_key new) l.keys_map ≡ some idx
        → ops.greater old new ≡ true
        → Returns (lower_item ops idx old new l) (λ (m, ok). Replaced ops l m new × (ok ≡ true))
    unfolding lower_item
    lower_item-Replaced r inside stood placed under =
        Returns->>= {P = Fall ops new l (suc idx) (l.curr_num - suc idx)}
          (λ (m, ok). Replaced ops l m new × (ok ≡ true))
          (fall ops new (suc idx) (l.curr_num - suc idx) l) _
          (fall-Fall ops new l (l.curr_num - suc idx) (suc idx) (held_by r inside)
            (omega (arith, r.room)))
          (λ q s.
            Returns->>= {P = Up ops l idx (q - 1 - idx)}
              (λ (m, ok). Replaced ops l m new × (ok ≡ true)) (shift_up ops idx (q - 1 - idx) l) _
              (shift_up-Up ops idx (q - 1 - idx) l
                (part-Linked (q - 1 - idx) r (omega (arith, s.bound, s.from)))
                (omega (arith, s.bound, s.from, r.room)))
              (λ m d.
                let v = lowered-Moved q m r inside stood placed under s d in
                rw (order.assigns old new) (
                  rw
                    (move_to-moved ops (ops.get_key new) (q - 1) new m
                      (omega (arith, d.max_num, s.bound, s.from, r.room)))
                    (
                      record {
                        ranking =
                            Moved-IsRanking ops l _ (q - 1) new (from (q - 1) idx) (to (q - 1) idx)
                              r v;
                        same_num = d.curr_num;
                        views =
                            view-Moved ops l _ (q - 1) new (from (q - 1) idx) (to (q - 1) idx) v;
                      },
                      refl,
                    ))))
