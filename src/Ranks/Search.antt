-- ===== src/Ranks/Search.antt =====
-- The loops of the short ranking list that look for the place of an item
-- (src/libs/utils/short_ranklist.go).
use mm_server.Prelude.{
  ℕ, zero, suc, ◌+◌, ◌-◌, ◌≤◌, ◌<◌, ◌≡◌, refl, sym, ap, subst, ◌∙◌, Bool-cases, inl, inr, Bool,
  true, false, some, ◌==◌, Eq, arith,
}
use mm_server.Prelude.Fault.{Returns, Returns-map}
use mm_server.Ranks.{ShortRankItem, ShortRankList, rise, fall}
use mm_server.Ranks.Shift.{item_at_lem}
use mm_server.Ranks.Order.{IsOrder, IsRanking}

module _ {A K V : Type 0} ⦃e : Eq K⦄ (ops : ShortRankItem A K V) (item : A)
    (l : ShortRankList A K) where
  -- Each of these places holds an item.
  abbrev pub Held : ℕ → ℕ → Type 0
  Held a b = (i : ℕ) → a ≤ i → i < b → (x : A) × (l.items i ≡ some x)

  same_item :
      (i j : ℕ) (x y : A) (b : Bool)
      → i ≡ j
      → l.items i ≡ some x
      → l.items j ≡ some y
      → ops.greater item y ≡ b
      → ops.greater item x ≡ b
  same_item i j x y b same here there h =
      let q : some x ≡ some y = sym here ∙ ap (λ t. l.items t) same ∙ there in
      subst (λ z. ops.greater item z ≡ b) (ground (arith, q)) h

  -- Where the loop that looks up stops: the items from there on are less than the new one, and the one
  -- before is not.
  pub record Rise (n p : ℕ) : Type 0 where
    pub bound : p ≤ n
    pub beaten : (i : ℕ) (x : A) → p ≤ i → i < n → l.items i ≡ some x → ops.greater item x ≡ true
    pub stands : (i : ℕ) (x : A) → suc i ≡ p → l.items i ≡ some x → ops.greater item x ≡ false

  pub rise-Rise : (n : ℕ) → Held 0 n → n ≤ l.max_num → Returns (rise ops item n l) (Rise n)
  unfolding rise
  rise-Rise zero held room = record {
    bound = omega arith;
    beaten = λ i x low h found. absurd (omega arith);
    stands = λ i x q found. absurd (omega arith);
  }
  rise-Rise (suc n) held room =
      let (y, here) = held n (omega arith) (omega arith) in
      rw (item_at_lem ops n y l (omega arith) here) (elim (Bool-cases (ops.greater item y)) [
        | inl over ↦ rw over (
            Returns-map (rise ops item n l)
              (λ p (s : Rise n p). record {
                bound = omega (arith, s.bound);
                beaten = λ i x low h found. elim (Bool-cases (i == n)) [
                  | inl top ↦ same_item i n x y true (ground arith) found here over
                  | inr rest ↦ s.beaten i x low (ground arith) found
                ];
                stands = s.stands;
              })
              (rise-Rise n (λ i low h. held i low (omega arith)) (omega arith)))
        | inr under ↦ rw under (record {
          bound = omega arith;
          beaten = λ i x low h found. absurd (omega arith);
          stands = λ i x q found. same_item i n x y false (omega arith) found here under;
        })
      ])

  -- Where the loop that looks down stops.
  pub record Fall (i n q : ℕ) : Type 0 where
    pub from : i ≤ q
    pub bound : q ≤ i + n
    pub beats : (j : ℕ) (x : A) → i ≤ j → j < q → l.items j ≡ some x → ops.greater item x ≡ false
    pub stops : (x : A) → q < i + n → l.items q ≡ some x → ops.greater item x ≡ true

  pub fall-Fall :
      (n i : ℕ) → Held i (i + n) → i + n ≤ l.max_num → Returns (fall ops item i n l) (Fall i n)
  unfolding fall
  fall-Fall zero i held room = record {
    from = omega arith;
    bound = omega arith;
    beats = λ j x low h found. absurd (omega arith);
    stops = λ x h found. absurd (omega arith);
  }
  fall-Fall (suc n) i held room =
      let (y, here) = held i (omega arith) (omega arith) in
      rw (item_at_lem ops i y l (omega arith) here) (elim (Bool-cases (ops.greater item y)) [
        | inl over ↦ rw over (record {
          from = omega arith;
          bound = omega arith;
          beats = λ j x low h found. absurd (omega arith);
          stops = λ x h found. same_item i i x y true refl found here over;
        })
        | inr under ↦ rw under (
            Returns-map (fall ops item (suc i) n l)
              (λ q (s : Fall (suc i) n q). record {
                from = omega (arith, s.from);
                bound = omega (arith, s.bound);
                beats = λ j x low h found. elim (Bool-cases (j == i)) [
                  | inl top ↦ same_item j i x y false (ground arith) found here under
                  | inr rest ↦ s.beats j x (ground arith) h found
                ];
                stops = λ x h found. s.stops x (omega arith) found;
              })
              (fall-Fall n (suc i) (λ j low h. held j (omega arith) (omega arith)) (omega arith)))
      ])

  -- The items before the place where an item rises to are not less than it.
  pub before_stop :
      (n p : ℕ)
      → IsOrder ops
      → IsRanking ops l
      → n ≤ l.curr_num
      → Rise n p
      → (i : ℕ) (x : A) → i < p
      → l.items i ≡ some x
      → ops.greater item x ≡ false
  before_stop n p order r room s i x h found = elim (Bool-cases (suc i == p)) [
    | inl next ↦ s.stands i x (ground arith) found
    | inr far ↦
        let (y, here, place) = r.linked.full (p - 1) (omega arith) (omega (arith, s.bound)) in
        order.ntrans item y x (s.stands (p - 1) y (omega arith) here)
          (r.sorted i (p - 1) x y (ground arith) (omega (arith, s.bound)) found here)
  ]
