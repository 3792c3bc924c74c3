-- ===== src/Ranks/Shift.antt =====
-- The loops of the short ranking list that move a run of items by one place
-- (src/libs/utils/short_ranklist.go).
use mm_server.Prelude.{
  ℕ, zero, suc, ◌+◌, ◌-◌, ◌≤◌, ◌<◌, ◌≡◌, ◌≢◌, refl, sym, ap, subst, ◌∙◌, Bool-cases, Option-cases,
  inl, inr, false, Option, none, some, if◌then◌else◌, ltb, leb, ◌&&◌, Eq, arith, lt→ltb,
}
use mm_server.Prelude.Fault.{Returns, Returns-map}
use mm_server.Prelude.Dict.{lookup, insert, lookup-insert}
use mm_server.Ranks.{
  ShortRankItem, ShortRankList, set_at, item_at, put_at, move_to, shift_down, shift_up,
}

module _ {A K V : Type 0} ⦃e : Eq K⦄ (ops : ShortRankItem A K V) where
  -- The items from place `a` to before place `b` are there, and the map has their places.
  pub record Linked (l : ShortRankList A K) (a b : ℕ) : Type 0 where
    pub full :
        (i : ℕ)
        → a ≤ i
        → i < b
        → (x : A) × (l.items i ≡ some x) × (lookup (ops.get_key x) l.keys_map ≡ some i)
    pub back :
        (k : K) (i : ℕ) (x : A)
        → a ≤ i
        → i < b
        → lookup k l.keys_map ≡ some i
        → l.items i ≡ some x
        → ops.get_key x ≡ k

  unfoldable pub shifted : (ℕ → ℕ) → Option ℕ → Option ℕ
  shifted f none = none
  shifted f (some i) = some (f i)

  unfoldable pub bump : ℕ → ℕ → ℕ → ℕ
  bump low n i = if leb low i && ltb i (low + n) then suc i else i

  -- What the loop that moves n items down leaves.
  pub record Down (l : ShortRankList A K) (low n : ℕ) (m : ShortRankList A K) : Type 0 where
    pub max_num : m.max_num ≡ l.max_num
    pub curr_num : m.curr_num ≡ l.curr_num
    pub cells :
        (i : ℕ) → m.items i ≡ (if ltb low i && leb i (low + n) then l.items (i - 1) else l.items i)
    pub keys : (k : K) → lookup k m.keys_map ≡ shifted (bump low n) (lookup k l.keys_map)

  abbrev pub moved : K → ℕ → A → ShortRankList A K → ShortRankList A K
  moved k i x l = record l {
    items = set_at ops i (some x) l.items;
    keys_map = insert k i l.keys_map;
  }

  pub move_to-moved :
      (k : K) (i : ℕ) (x : A) (l : ShortRankList A K)
      → i < l.max_num
      → move_to ops k i x l ≡ some (moved k i x l)
  unfolding move_to put_at
  move_to-moved k i x l h = rw (lt→ltb i l.max_num h) refl

  pub item_at_lem :
      (i : ℕ) (x : A) (l : ShortRankList A K)
      → i < l.max_num
      → l.items i ≡ some x
      → item_at ops i l ≡ some x
  unfolding item_at
  item_at_lem i x l h found = rw (lt→ltb i l.max_num h) found

  down_step :
      (low n : ℕ) (x : A) (l : ShortRankList A K)
      → suc (low + n) < l.max_num
      → l.items (low + n) ≡ some x
      → shift_down ops low (suc n) l
        ≡ shift_down ops low n (moved (ops.get_key x) (suc (low + n)) x l)
  unfolding shift_down
  down_step low n x l h found =
      rw (item_at_lem (low + n) x l (omega arith) found)
        (rw (move_to-moved (ops.get_key x) (suc (low + n)) x l h) refl)

  -- The item of the last place but one of the run goes down: what is left of the run.
  moved-Linked :
      (low n : ℕ) (x : A) (l : ShortRankList A K)
      → Linked l low (suc (low + n))
      → l.items (low + n) ≡ some x
      → lookup (ops.get_key x) l.keys_map ≡ some (low + n)
      → Linked (moved (ops.get_key x) (suc (low + n)) x l) low (low + n)
  moved-Linked low n x l h found key = record {
    full = λ i p q.
        let (y, here, place) = h.full i p (omega arith) in
        (
          y,
          ground arith,
          ground (
            arith,
            lookup-insert (ops.get_key x) (ops.get_key y) (suc (low + n)) l.keys_map,
            e.beq_iff (ops.get_key x) (ops.get_key y),
          ),
        );
    back = λ k i y p q place here.
        h.back k i y p (omega arith)
          (ground (arith, lookup-insert (ops.get_key x) k (suc (low + n)) l.keys_map))
          (ground arith);
  }

  shifted_id : (o : Option ℕ) (f : ℕ → ℕ) → ((i : ℕ) → f i ≡ i) → shifted f o ≡ o
  unfolding shifted
  shifted_id none f h = refl
  shifted_id (some i) f h = ap some (h i)

  elsewhere :
      (l : ShortRankList A K) (k : K) (x : A) (i j : ℕ)
      → (lookup k l.keys_map ≡ some j → ops.get_key x ≡ k)
      → e.beq (ops.get_key x) k ≡ false
      → lookup k l.keys_map ≡ some i
      → i ≡ j
      → ⊥
  elsewhere l k x i j back other place at_end = ground (
    arith,
    e.beq_iff (ops.get_key x) k,
    back (subst (λ t. lookup k l.keys_map ≡ some t) at_end place),
  )

  down_keys :
      (low n : ℕ) (x : A) (k : K) (l : ShortRankList A K)
      → Linked l low (suc (low + n))
      → l.items (low + n) ≡ some x
      → lookup (ops.get_key x) l.keys_map ≡ some (low + n)
      → shifted (bump low n) (lookup k (insert (ops.get_key x) (suc (low + n)) l.keys_map))
        ≡ shifted (bump low (suc n)) (lookup k l.keys_map)
  unfolding shifted bump
  down_keys low n x k l h found key = elim (Bool-cases (e.beq (ops.get_key x) k)) [
    | inl same ↦
        let place : lookup k l.keys_map ≡ some (low + n) =
          subst (λ j. lookup j l.keys_map ≡ some (low + n)) ((e.beq_iff (ops.get_key x) k).0 same)
            key in
        rw (lookup-insert (ops.get_key x) k (suc (low + n)) l.keys_map, same, place) (ground arith)
    | inr other ↦
        rw (lookup-insert (ops.get_key x) k (suc (low + n)) l.keys_map, other)
          (elim (Option-cases (lookup k l.keys_map)) [
            | inl missing ↦ rw missing refl
            | inr (i, place) ↦
                let apart : i ≢ low + n = λ at_end.
                  elsewhere l k x i (low + n)
                    (λ here. h.back k (low + n) x (omega arith) (omega arith) here found) other
                    place at_end in
                rw place (ground arith)
          ])
  ]

  bump_none : (low i : ℕ) → bump low 0 i ≡ i
  unfolding bump
  bump_none low i = ground arith

  until :
      (low n : ℕ) (l : ShortRankList A K)
      → Linked l low (low + suc n)
      → Linked l low (suc (low + n))
  until low n l h = subst (Linked l low) (omega arith) h

  pub shift_down-Down :
      (low n : ℕ) (l : ShortRankList A K)
      → Linked l low (low + n)
      → low + n < l.max_num
      → Returns (shift_down ops low n l) (Down l low n)
  unfolding shift_down
  shift_down-Down low zero l h room = record {
    max_num = refl;
    curr_num = refl;
    cells = λ i. ground arith;
    keys = λ k. sym (shifted_id (lookup k l.keys_map) (bump low 0) (λ i. bump_none low i));
  }
  shift_down-Down low (suc n) l h room =
      let (x, found, key) = h.full (low + n) (omega arith) (omega arith) in
      let m = moved (ops.get_key x) (suc (low + n)) x l in
      subst (λ r. Returns r (Down l low (suc n))) (sym (down_step low n x l (omega arith) found))
        (Returns-map (shift_down ops low n m)
          (λ r (d : Down m low n r). record {
            max_num = d.max_num;
            curr_num = d.curr_num;
            cells = λ i. ground (arith, d.cells i);
            keys = λ k. d.keys k ∙ down_keys low n x k l (until low n l h) found key;
          })
          (shift_down-Down low n m (moved-Linked low n x l (until low n l h) found key)
            (omega arith)))

  unfoldable pub drop : ℕ → ℕ → ℕ → ℕ
  drop low n i = if ltb low i && leb i (low + n) then i - 1 else i

  -- What the loop that moves n items up to place `low` leaves.
  pub record Up (l : ShortRankList A K) (low n : ℕ) (m : ShortRankList A K) : Type 0 where
    pub max_num : m.max_num ≡ l.max_num
    pub curr_num : m.curr_num ≡ l.curr_num
    pub cells :
        (i : ℕ) → m.items i ≡ (if leb low i && ltb i (low + n) then l.items (suc i) else l.items i)
    pub keys : (k : K) → lookup k m.keys_map ≡ shifted (drop low n) (lookup k l.keys_map)

  up_step :
      (low n : ℕ) (x : A) (l : ShortRankList A K)
      → suc low < l.max_num
      → l.items (suc low) ≡ some x
      → shift_up ops low (suc n) l ≡ shift_up ops (suc low) n (moved (ops.get_key x) low x l)
  unfolding shift_up
  up_step low n x l h found =
      rw (item_at_lem (suc low) x l h found)
        (rw (move_to-moved (ops.get_key x) low x l (omega arith)) refl)

  up-Linked :
      (low n : ℕ) (x : A) (l : ShortRankList A K)
      → Linked l (suc low) (suc (low + suc n))
      → l.items (suc low) ≡ some x
      → lookup (ops.get_key x) l.keys_map ≡ some (suc low)
      → Linked (moved (ops.get_key x) low x l) (suc (suc low)) (suc (suc low + n))
  up-Linked low n x l h found key = record {
    full = λ i p q.
        let (y, here, place) = h.full i (omega arith) (omega arith) in
        (
          y,
          ground arith,
          ground (
            arith,
            lookup-insert (ops.get_key x) (ops.get_key y) low l.keys_map,
            e.beq_iff (ops.get_key x) (ops.get_key y),
          ),
        );
    back = λ k i y p q place here.
        h.back k i y (omega arith) (omega arith)
          (ground (arith, lookup-insert (ops.get_key x) k low l.keys_map)) (ground arith);
  }

  up_keys :
      (low n : ℕ) (x : A) (k : K) (l : ShortRankList A K)
      → Linked l (suc low) (suc (low + suc n))
      → l.items (suc low) ≡ some x
      → lookup (ops.get_key x) l.keys_map ≡ some (suc low)
      → shifted (drop (suc low) n) (lookup k (insert (ops.get_key x) low l.keys_map))
        ≡ shifted (drop low (suc n)) (lookup k l.keys_map)
  unfolding shifted drop
  up_keys low n x k l h found key = elim (Bool-cases (e.beq (ops.get_key x) k)) [
    | inl same ↦
        let place : lookup k l.keys_map ≡ some (suc low) =
          subst (λ j. lookup j l.keys_map ≡ some (suc low)) ((e.beq_iff (ops.get_key x) k).0 same)
            key in
        rw (lookup-insert (ops.get_key x) k low l.keys_map, same, place) (ground arith)
    | inr other ↦
        rw (lookup-insert (ops.get_key x) k low l.keys_map, other)
          (elim (Option-cases (lookup k l.keys_map)) [
            | inl missing ↦ rw missing refl
            | inr (i, place) ↦
                let apart : i ≢ suc low = λ at_start.
                  elsewhere l k x i (suc low)
                    (λ here. h.back k (suc low) x (omega arith) (omega arith) here found) other
                    place at_start in
                rw place (ground arith)
          ])
  ]

  drop_none : (low i : ℕ) → drop low 0 i ≡ i
  unfolding drop
  drop_none low i = ground arith

  pub shift_up-Up :
      (low n : ℕ) (l : ShortRankList A K)
      → Linked l (suc low) (suc (low + n))
      → low + n < l.max_num
      → Returns (shift_up ops low n l) (Up l low n)
  unfolding shift_up
  shift_up-Up low zero l h room = record {
    max_num = refl;
    curr_num = refl;
    cells = λ i. ground arith;
    keys = λ k. sym (shifted_id (lookup k l.keys_map) (drop low 0) (λ i. drop_none low i));
  }
  shift_up-Up low (suc n) l h room =
      let (x, found, key) = h.full (suc low) (omega arith) (omega arith) in
      let m = moved (ops.get_key x) low x l in
      subst (λ r. Returns r (Up l low (suc n))) (sym (up_step low n x l (omega arith) found))
        (Returns-map (shift_up ops (suc low) n m)
          (λ r (d : Up m (suc low) n r). record {
            max_num = d.max_num;
            curr_num = d.curr_num;
            cells = λ i. ground (arith, d.cells i);
            keys = λ k. d.keys k ∙ up_keys low n x k l h found key;
          })
          (shift_up-Up (suc low) n m (up-Linked low n x l h found key) (omega arith)))
