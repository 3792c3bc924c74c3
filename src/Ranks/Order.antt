-- ===== src/Ranks/Order.antt =====
-- What makes a short ranking list a ranking (src/libs/utils/short_ranklist.go), and what it is to
-- move one item of it.
use mm_server.Prelude.{
  ℕ, ◌≤◌, ◌<◌, ◌≡◌, ◌≢◌, refl, sym, ap, subst, ◌∙◌, Bool-cases, Option-cases, inl, inr, true, false,
  Option, none, some, if◌then◌else◌, ◌==◌, Eq, arith, beq_self,
}
use mm_server.Prelude.Dict.{lookup}
use mm_server.Ranks.{ShortRankItem, ShortRankList}
use mm_server.Ranks.Shift.{Linked, shifted}

-- What the list relies on of the items behind the interface.
pub record IsOrder {A K V : Type 0} (ops : ShortRankItem A K V) : Type 0 where
  pub asym : (a b : A) → ops.greater a b ≡ true → ops.greater b a ≡ false
  pub ntrans :
      (a b c : A) → ops.greater a b ≡ false → ops.greater b c ≡ false → ops.greater a c ≡ false
  pub less-greater : (a b : A) → ops.less a b ≡ ops.greater b a
  pub assigns : (a b : A) → ops.assign a b ≡ b
  pub key-add : (a b : A) → ops.get_key (ops.add a b) ≡ ops.get_key a

module _ {A K V : Type 0} ⦃e : Eq K⦄ (ops : ShortRankItem A K V) where
  -- The map has the place of each item and no other, and no item is greater than one before it.
  pub record IsRanking (l : ShortRankList A K) : Type 0 where
    pub room : l.curr_num ≤ l.max_num
    pub linked : Linked ops l 0 l.curr_num
    pub inside : (k : K) (i : ℕ) → lookup k l.keys_map ≡ some i → i < l.curr_num
    pub sorted :
        (i j : ℕ) (x y : A)
        → i < j
        → j < l.curr_num
        → l.items i ≡ some x
        → l.items j ≡ some y
        → ops.greater y x ≡ false

  -- The item that the list has for a key.
  unfoldable pub view : K → ShortRankList A K → Option A
  view k l = elim (lookup k l.keys_map) [ none ↦ none | some i ↦ l.items i ]

  pub view_at :
      (k : K) (i : ℕ) (l : ShortRankList A K) → lookup k l.keys_map ≡ some i → view k l ≡ l.items i
  unfolding view
  view_at k i l h = rw (h, view) refl

  pub view_missing : (k : K) (l : ShortRankList A K) → lookup k l.keys_map ≡ none → view k l ≡ none
  unfolding view
  view_missing k l h = rw (h, view) refl

  -- A list in which `new` stands at place `p`, and the items that the other places held before: place
  -- i holds what stood at `from i`, and what stood at i is at `to i`.
  pub record Moved (l m : ShortRankList A K) (p : ℕ) (new : A) (from to : ℕ → ℕ) : Type 0 where
    pub room : m.curr_num ≤ m.max_num
    pub here : m.items p ≡ some new
    pub inside : p < m.curr_num
    pub cells : (i : ℕ) → i < m.curr_num → i ≢ p → m.items i ≡ l.items (from i)
    pub source : (i : ℕ) → i < m.curr_num → i ≢ p → from i < l.curr_num
    pub mono : (i j : ℕ) → i < j → j < m.curr_num → i ≢ p → j ≢ p → from i < from j
    pub keys :
        (k : K)
        → lookup k m.keys_map
          ≡ (if e.beq (ops.get_key new) k then some p else shifted ops to (lookup k l.keys_map))
    pub target :
        (k : K) (i : ℕ)
        → lookup k l.keys_map ≡ some i
        → e.beq (ops.get_key new) k ≡ false
        → (to i < m.curr_num) × (to i ≢ p) × (from (to i) ≡ i)
    pub other :
        (i : ℕ) (x : A)
        → i < m.curr_num
        → i ≢ p
        → l.items (from i) ≡ some x
        → e.beq (ops.get_key new) (ops.get_key x) ≡ false
    pub back : (i : ℕ) → i < m.curr_num → i ≢ p → to (from i) ≡ i
    pub before : (i : ℕ) (x : A) → i < p → l.items (from i) ≡ some x → ops.greater new x ≡ false
    pub behind :
        (i : ℕ) (x : A)
        → p < i
        → i < m.curr_num
        → l.items (from i) ≡ some x
        → ops.greater x new ≡ false

  module _ (l m : ShortRankList A K) (p : ℕ) (new : A) (from to : ℕ → ℕ) where
    Moved-full :
        IsRanking l
        → Moved l m p new from to
        → (i : ℕ) → i < m.curr_num
        → (x : A) × (m.items i ≡ some x) × (lookup (ops.get_key x) m.keys_map ≡ some i)
    unfolding shifted
    Moved-full r v i h = elim (Bool-cases (i == p)) [
      | inl same ↦ (
        new,
        ground (arith, v.here),
        v.keys (ops.get_key new) ∙ rw (beq_self e (ops.get_key new)) (ground arith),
      )
      | inr apart ↦
          let ne : i ≢ p = λ q. ground arith in
          let (x, found, place) = r.linked.full (from i) (omega arith) (v.source i h ne) in
          (
            x,
            v.cells i h ne ∙ found,
            v.keys (ops.get_key x) ∙ rw (v.other i x h ne found, place) (ap some (v.back i h ne)),
          )
    ]

    Moved-inside :
        Moved l m p new from to → (k : K) (i : ℕ) → lookup k m.keys_map ≡ some i → i < m.curr_num
    unfolding shifted
    Moved-inside v k i found = elim (Bool-cases (e.beq (ops.get_key new) k)) [
      | inl same ↦ ground (arith, v.keys k, v.inside)
      | inr other ↦ elim (Option-cases (lookup k l.keys_map)) [
        | inl missing ↦ absurd (ground (arith, v.keys k))
        | inr (j, place) ↦ ground (arith, v.keys k, v.target k j place other)
      ]
    ]

    place_same :
        Moved l m p new from to
        → (k : K) → e.beq (ops.get_key new) k ≡ true
        → lookup k m.keys_map ≡ some p
    place_same v k same = v.keys k ∙ rw same refl

    place_other :
        Moved l m p new from to
        → (k : K) (j : ℕ) → e.beq (ops.get_key new) k ≡ false
        → lookup k l.keys_map ≡ some j
        → lookup k m.keys_map ≡ some (to j)
    unfolding shifted
    place_other v k j other place = v.keys k ∙ rw (other, place) refl

    place_missing :
        Moved l m p new from to
        → (k : K) → e.beq (ops.get_key new) k ≡ false
        → lookup k l.keys_map ≡ none
        → lookup k m.keys_map ≡ none
    unfolding shifted
    place_missing v k other place = v.keys k ∙ rw (other, place) refl

    Moved-back :
        IsRanking l
        → Moved l m p new from to
        → (k : K) (i : ℕ) (x : A) → lookup k m.keys_map ≡ some i
        → m.items i ≡ some x
        → ops.get_key x ≡ k
    Moved-back r v k i x found here = elim (Bool-cases (e.beq (ops.get_key new) k)) [
      | inl same ↦
          let q = place_same v k same in
          let at_p : m.items i ≡ some new =
            subst (λ t. m.items t ≡ some new) (ground (arith, q, found)) (v.here) in
          ground (arith, at_p, here, e.beq_iff (ops.get_key new) k)
      | inr other ↦ elim (Option-cases (lookup k l.keys_map)) [
        | inl missing ↦ absurd (ground (arith, place_missing v k other missing))
        | inr (j, place) ↦
            let (h, ne, home) = v.target k j place other in
            let q = place_other v k j other place in
            let at_to : m.items i ≡ l.items j =
              subst (λ t. m.items t ≡ l.items j) (ground (arith, q, found))
                (v.cells (to j) h ne ∙ ap (λ t. l.items t) home) in
            r.linked.back k j x (omega arith) (r.inside k j place) place (sym at_to ∙ here)
      ]
    ]

    Moved-sorted :
        IsRanking l
        → Moved l m p new from to
        → (i j : ℕ) (x y : A) → i < j
        → j < m.curr_num
        → m.items i ≡ some x
        → m.items j ≡ some y
        → ops.greater y x ≡ false
    Moved-sorted r v i j x y lt h here there = elim (Bool-cases (i == p)) [
      | inl first ↦
          let ne : j ≢ p = λ q. ground arith in
          let is_new : some x ≡ some new =
            sym here ∙ subst (λ t. m.items t ≡ some new) (ground arith) (v.here) in
          let after = v.behind j y (ground arith) h (sym (v.cells j h ne) ∙ there) in
          subst (λ z. ops.greater y z ≡ false) (ground (arith, is_new)) after
      | inr apart ↦
          let ne : i ≢ p = λ q. ground arith in
          let at_i = sym (v.cells i (omega arith) ne) ∙ here in
          elim (Bool-cases (j == p)) [
            | inl second ↦
                let is_new : some y ≡ some new =
                  sym there ∙ subst (λ t. m.items t ≡ some new) (ground arith) (v.here) in
                let ahead = v.before i x (ground arith) at_i in
                subst (λ z. ops.greater z x ≡ false) (ground (arith, is_new)) ahead
            | inr beside ↦
                let nj : j ≢ p = λ q. ground arith in
                r.sorted (from i) (from j) x y (v.mono i j lt h ne nj) (v.source j h nj) at_i
                  (sym (v.cells j h nj) ∙ there)
          ]
    ]

    pub view-Moved :
        Moved l m p new from to
        → (k : K) → view k m ≡ (if e.beq (ops.get_key new) k then some new else view k l)
    view-Moved v k = elim (Bool-cases (e.beq (ops.get_key new) k)) [
      | inl same ↦ rw same (view_at k p m (place_same v k same) ∙ v.here)
      | inr other ↦ elim (Option-cases (lookup k l.keys_map)) [
        | inl missing ↦
            rw other
              (view_missing k m (place_missing v k other missing) ∙ sym (view_missing k l missing))
        | inr (j, place) ↦
            let (h, ne, home) = v.target k j place other in
            rw other (
              view_at k (to j) m (place_other v k j other place)
              ∙ v.cells (to j) h ne
              ∙ ap (λ t. l.items t) home
              ∙ sym (view_at k j l place))
      ]
    ]

    pub Moved-IsRanking : IsRanking l → Moved l m p new from to → IsRanking m
    Moved-IsRanking r v = record {
      room = v.room;
      linked = record {
        full = λ i low h. Moved-full r v i h;
        back = λ k i x low h found here. Moved-back r v k i x found here;
      };
      inside = λ k i found. Moved-inside v k i found;
      sorted = λ i j x y lt h here there. Moved-sorted r v i j x y lt h here there;
    }

  pub shifted_ext :
      (f g : ℕ → ℕ) (o : Option ℕ) → ((i : ℕ) → f i ≡ g i) → shifted ops f o ≡ shifted ops g o
  unfolding shifted
  shifted_ext f g none h = refl
  shifted_ext f g (some i) h = ap some (h i)

  -- The place of a key is the place of no other key's item.
  module _ (l : ShortRankList A K) (idx : ℕ) (old : A) (key : K) where
    pub apart_from :
        IsRanking l
        → idx < l.curr_num
        → l.items idx ≡ some old
        → lookup key l.keys_map ≡ some idx
        → (k : K) (i : ℕ) → lookup k l.keys_map ≡ some i
        → e.beq key k ≡ false
        → i ≢ idx
    apart_from r inside stood placed k i found other same =
        let at_idx : lookup k l.keys_map ≡ some idx =
          subst (λ t. lookup k l.keys_map ≡ some t) same found in
        let own = r.linked.back key idx old (omega arith) inside placed stood in
        let theirs = r.linked.back k idx old (omega arith) inside at_idx stood in
        ground (arith, e.beq_iff key k)

    pub other_key :
        IsRanking l
        → lookup key l.keys_map ≡ some idx
        → (j : ℕ) (x : A) → j < l.curr_num
        → j ≢ idx
        → l.items j ≡ some x
        → e.beq key (ops.get_key x) ≡ false
    other_key r placed j x h ne found = elim (Bool-cases (e.beq key (ops.get_key x))) [
      | inr other ↦ other
      | inl same ↦
          let (y, here, place) = r.linked.full j (omega arith) h in
          let key_x : lookup (ops.get_key x) l.keys_map ≡ some idx =
            subst (λ k. lookup k l.keys_map ≡ some idx) ((e.beq_iff key (ops.get_key x)).0 same)
              placed in
          let same_y : some y ≡ some x = sym here ∙ found in
          let key_y : lookup (ops.get_key x) l.keys_map ≡ some j =
            subst (λ z. lookup (ops.get_key z) l.keys_map ≡ some j) (ground (arith, same_y))
              place in
          absurd (ne (ground (arith, key_x, key_y)))
    ]
