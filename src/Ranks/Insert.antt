-- ===== src/Ranks/Insert.antt =====
-- `Update` of the short ranking list with a new key (src/libs/utils/short_ranklist.go).
use mm_server.Prelude.{
  ℕ, suc, ◌+◌, ◌-◌, ◌≤◌, ◌<◌, ◌≡◌, ◌≢◌, refl, sym, ap, subst, ◌∙◌, Bool-cases, Option-cases, inl,
  inr, true, false, none, some, if◌then◌else◌, ltb, leb, ◌==◌, Eq, arith,
}
use mm_server.Prelude.Fault.{◌>>=◌, Returns, Returns->>=}
use mm_server.Prelude.Dict.{lookup, insert, lookup-insert}
use mm_server.Ranks.{ShortRankItem, ShortRankList, add_item, rise, shift_down, move_to, insert_at}
use mm_server.Ranks.Shift.{Linked, Down, shift_down-Down, shifted, bump, moved, move_to-moved}
use mm_server.Ranks.Order.{IsOrder, IsRanking, Moved, Moved-IsRanking, view, view-Moved}
use mm_server.Ranks.Search.{Rise, rise-Rise, before_stop}

abbrev from : ℕ → ℕ → ℕ
from p i = if ltb p i then i - 1 else i

abbrev to : ℕ → ℕ → ℕ
to p i = if leb p i then suc i else i

module _ {A K V : Type 0} ⦃e : Eq K⦄ (ops : ShortRankItem A K V) where
  -- One item was added.
  pub record Added (l m : ShortRankList A K) (new : A) : Type 0 where
    pub ranking : IsRanking ops m
    pub more : m.curr_num ≡ suc l.curr_num
    pub views :
        (k : K) → view ops k m ≡ (if e.beq (ops.get_key new) k then some new else view ops k l)

  module _ (order : IsOrder ops) (l : ShortRankList A K) (new : A) where
    -- The list with one place more.
    abbrev grown : ShortRankList A K → ShortRankList A K
    grown m = record m { curr_num = suc l.curr_num }

    -- What holds of the list after the loops, whether they moved anything or not.
    record Inserted (p : ℕ) (m : ShortRankList A K) : Type 0 where
      max_num : m.max_num ≡ l.max_num
      curr_num : m.curr_num ≡ l.curr_num
      here : m.items p ≡ some new
      cells : (i : ℕ) → i ≤ l.curr_num → i ≢ p → m.items i ≡ l.items (from p i)
      keys :
          (k : K)
          → lookup k m.keys_map ≡ (
              if e.beq (ops.get_key new) k
              then some p
              else shifted ops (to p) (lookup k l.keys_map))

    new_key :
        IsRanking ops l
        → lookup (ops.get_key new) l.keys_map ≡ none
        → (j : ℕ) (x : A) → j < l.curr_num
        → l.items j ≡ some x
        → e.beq (ops.get_key new) (ops.get_key x) ≡ false
    new_key r fresh j x h found = elim (Bool-cases (e.beq (ops.get_key new) (ops.get_key x))) [
      | inr other ↦ other
      | inl same ↦
          let (y, here, place) = r.linked.full j (omega arith) h in
          let same_y : some y ≡ some x = sym here ∙ found in
          let key_x : lookup (ops.get_key x) l.keys_map ≡ none =
            subst (λ k. lookup k l.keys_map ≡ none)
              ((e.beq_iff (ops.get_key new) (ops.get_key x)).0 same) fresh in
          let key_y : lookup (ops.get_key x) l.keys_map ≡ some j =
            subst (λ z. lookup (ops.get_key z) l.keys_map ≡ some j) (ground (arith, same_y))
              place in
          absurd (ground (arith, key_x, key_y))
    ]

    Inserted-Moved :
        (p : ℕ) (m : ShortRankList A K)
        → IsRanking ops l
        → l.curr_num < l.max_num
        → lookup (ops.get_key new) l.keys_map ≡ none
        → Rise ops new l l.curr_num p
        → Inserted p m
        → Moved ops l (grown m) p new (from p) (to p)
    Inserted-Moved p m r room fresh s d = record {
      room = omega (arith, d.curr_num, d.max_num);
      here = d.here;
      inside = omega (arith, d.curr_num, s.bound);
      cells = λ i h ne. d.cells i (omega (arith, d.curr_num)) ne;
      source = λ i h ne. ground (arith, d.curr_num, s.bound);
      mono = λ i j lt h ni nj. ground arith;
      keys = d.keys;
      target =
          λ k i found other. let bound = r.inside k i found in ground (arith, d.curr_num, s.bound);
      other = λ i x h ne found.
          new_key r fresh (from p i) x (ground (arith, d.curr_num, s.bound)) found;
      back = λ i h ne. ground arith;
      before = λ i x h found.
          before_stop ops new l l.curr_num p order r (omega arith) s i x h
            (subst (λ t. l.items t ≡ some x) (ground arith) found);
      behind = λ i x low h found. order.asym new x (
          s.beaten (i - 1) x (omega arith) (omega (arith, d.curr_num))
            (subst (λ t. l.items t ≡ some x) (ground arith) found));
    }

    -- The list once the new item stands behind the others.
    abbrev behind_all : ShortRankList A K
    behind_all = moved ops (ops.get_key new) l.curr_num new l

    raised_past : (p : ℕ) → Rise ops new behind_all l.curr_num p → Rise ops new l l.curr_num p
    raised_past p s = record {
      bound = s.bound;
      beaten = λ i x low h found. s.beaten i x low h (ground arith);
      stands = λ i x q found. s.stands i x q (ground (arith, s.bound));
    }

    end_keys :
        IsRanking ops l
        → (k : K) → shifted ops (to l.curr_num) (lookup k l.keys_map) ≡ lookup k l.keys_map
    unfolding shifted
    end_keys r k = elim (Option-cases (lookup k l.keys_map)) [
      | inl missing ↦ rw missing refl
      | inr (i, found) ↦ let bound = r.inside k i found in rw found (ground arith)
    ]

    at_end : IsRanking ops l → Inserted l.curr_num behind_all
    at_end r = record {
      max_num = refl;
      curr_num = refl;
      here = ground arith;
      cells = λ i h ne. ground arith;
      keys = λ k.
          lookup-insert (ops.get_key new) k l.curr_num l.keys_map
          ∙ ap (λ o. if e.beq (ops.get_key new) k then some l.curr_num else o) (sym (end_keys r k));
    }

    run-Linked :
        (p : ℕ)
        → IsRanking ops l
        → lookup (ops.get_key new) l.keys_map ≡ none
        → p ≤ l.curr_num
        → Linked ops behind_all p (p + (l.curr_num - p))
    run-Linked p r fresh low = record {
      full = λ i a b.
          let (x, found, place) = r.linked.full i (omega arith) (omega arith) in
          let other = new_key r fresh i x (omega arith) found in
          (
            x,
            ground arith,
            lookup-insert (ops.get_key new) (ops.get_key x) l.curr_num l.keys_map ∙ rw other place,
          );
      back = λ k i x a b place found.
          r.linked.back k i x (omega arith) (omega arith)
            (ground (arith, lookup-insert (ops.get_key new) k l.curr_num l.keys_map))
            (ground arith);
    }

    middle_keys :
        (p : ℕ) (k : K)
        → IsRanking ops l
        → p ≤ l.curr_num
        → e.beq (ops.get_key new) k ≡ false
        → shifted ops
            (bump ops p (l.curr_num - p))
            (lookup k (insert (ops.get_key new) l.curr_num l.keys_map))
          ≡ shifted ops (to p) (lookup k l.keys_map)
    unfolding shifted bump
    middle_keys p k r low other =
        rw (lookup-insert (ops.get_key new) k l.curr_num l.keys_map, other)
          (elim (Option-cases (lookup k l.keys_map)) [
            | inl missing ↦ rw missing refl
            | inr (i, found) ↦ let bound = r.inside k i found in rw found (ground arith)
          ])

    in_middle :
        (p : ℕ) (m : ShortRankList A K)
        → IsRanking ops l
        → p ≤ l.curr_num
        → Down ops behind_all p (l.curr_num - p) m
        → Inserted p (moved ops (ops.get_key new) p new m)
    in_middle p m r low d = record {
      max_num = d.max_num;
      curr_num = d.curr_num;
      here = ground arith;
      cells = λ i h ne. ground (arith, d.cells i);
      keys = λ k.
          lookup-insert (ops.get_key new) k p m.keys_map
          ∙ elim (Bool-cases (e.beq (ops.get_key new) k)) [
            | inl same ↦ rw same refl
            | inr other ↦ rw other (d.keys k ∙ middle_keys p k r low other)
          ];
    }

    middle :
        (p : ℕ)
        → IsRanking ops l
        → l.curr_num < l.max_num
        → lookup (ops.get_key new) l.keys_map ≡ none
        → Rise ops new l l.curr_num p
        → Returns
            (shift_down ops p (l.curr_num - p) behind_all >>= λ m.
              move_to ops (ops.get_key new) p new m)
            (Inserted p)
    middle p r room fresh s =
        Returns->>= {P = Down ops behind_all p (l.curr_num - p)} (Inserted p)
          (shift_down ops p (l.curr_num - p) behind_all) _
          (shift_down-Down ops p (l.curr_num - p) behind_all (run-Linked p r fresh (s.bound))
            (omega (arith, s.bound)))
          (λ m d.
            rw (move_to-moved ops (ops.get_key new) p new m (omega (arith, d.max_num, s.bound)))
              (in_middle p m r (s.bound) d))

    finish :
        (p : ℕ) (m : ShortRankList A K)
        → IsRanking ops l
        → l.curr_num < l.max_num
        → lookup (ops.get_key new) l.keys_map ≡ none
        → Rise ops new l l.curr_num p
        → Inserted p m
        → Added l (grown m) new
    finish p m r room fresh s d =
        let v = Inserted-Moved p m r room fresh s d in
        record {
          ranking = Moved-IsRanking ops l (grown m) p new (from p) (to p) r v;
          more = refl;
          views = view-Moved ops l (grown m) p new (from p) (to p) v;
        }

    pub add_item-Added :
        IsRanking ops l
        → l.curr_num < l.max_num
        → lookup (ops.get_key new) l.keys_map ≡ none
        → Returns (add_item ops new l) (λ (m, ok). Added l m new × (ok ≡ true))
    unfolding add_item insert_at
    add_item-Added r room fresh = rw (order.assigns (ops.new new) new) (
        rw (move_to-moved ops (ops.get_key new) l.curr_num new l room) (
          Returns->>= {P = Rise ops new behind_all l.curr_num}
            (λ (m, ok). Added l m new × (ok ≡ true)) (rise ops new l.curr_num behind_all) _
            (rise-Rise ops new behind_all l.curr_num
              (λ i low h. let (x, found, place) = r.linked.full i low h in (x, ground arith))
              (omega arith))
            (λ p t.
              let s = raised_past p t in
              elim (Bool-cases (p == l.curr_num)) [
                | inl top ↦ rw top (
                  finish p behind_all r room fresh s
                      (subst (λ q. Inserted q behind_all) (ground arith) (at_end r)),
                  refl,
                )
                | inr inner ↦ rw inner (
                    Returns->>= {P = Inserted p} (λ (m, ok). Added l m new × (ok ≡ true))
                      (shift_down ops p (l.curr_num - p) behind_all >>= λ m.
                        move_to ops (ops.get_key new) p new m)
                      _ (middle p r room fresh s) (λ m d. (finish p m r room fresh s d, refl)))
              ])))
