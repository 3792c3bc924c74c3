-- ===== src/Ranks/Items.antt =====
-- The items of ranking lists: the one that src/libs/utils/short_ranklist.go declares for the short
-- list, and the comparisons of src/common/rank_item.go.
use mm_server.Prelude.{◌≡◌, refl, sym, ◌∙◌, Bool, true, false, if◌then◌else◌, arith}
use mm_server.Prelude.Int.{ℤ, pos, ltb_ℤ, eqb_ℤ}
use mm_server.Prelude.Int32.{add32}
use mm_server.Ranks.{ShortRankItem}
use mm_server.Ranks.Order.{IsOrder}

pub record TestShortRankItem : Type 0 where
  pub id : ℤ
  pub val : ℤ

-- The item as the list's interface sees it.
abbrev pub test_item_ops : ShortRankItem TestShortRankItem ℤ ℤ
test_item_ops = record {
  less = λ a b. ltb_ℤ a.val b.val;
  greater = λ a b. ltb_ℤ b.val a.val;
  get_key = λ a. a.id;
  get_value = λ a. a.val;
  assign = λ a b. record { id = b.id; val = b.val };
  add = λ a b. if eqb_ℤ a.id b.id then record a { val = add32 a.val b.val } else a;
  new = λ a. record { id = pos 0; val = pos 0 };
}

pub test_item-IsOrder : IsOrder test_item_ops
test_item-IsOrder = record {
  asym = λ a b h. ground arith;
  ntrans = λ a b c h k. ground arith;
  less-greater = λ a b. refl;
  assigns = λ a b. refl;
  key-add = λ a b. ground arith;
}

pub record PlayerInt32RankItem : Type 0 where
  pub val : ℤ
  pub update_time : ℤ
  pub player_id : ℤ

-- The tests of one field: greater, or equal and then by the fields behind it.
abbrev pub above : ℤ → ℤ → Bool → Bool
above x y rest = if ltb_ℤ y x then true else if eqb_ℤ x y then rest else false

-- `PlayerInt32RankItem.Less`
unfoldable pub less : PlayerInt32RankItem → PlayerInt32RankItem → Bool
less a b = above b.val a.val (above a.update_time b.update_time (ltb_ℤ b.player_id a.player_id))

-- `PlayerInt32RankItem.Greater`
unfoldable pub greater : PlayerInt32RankItem → PlayerInt32RankItem → Bool
greater a b = above a.val b.val (above b.update_time a.update_time (ltb_ℤ a.player_id b.player_id))

pub record PlayerCatOuqiRankItem : Type 0 where
  pub player_id : ℤ
  pub cat_id : ℤ
  pub ouqi : ℤ
  pub update_time : ℤ

-- `PlayerCatOuqiRankItem.Less`
unfoldable pub cat_less : PlayerCatOuqiRankItem → PlayerCatOuqiRankItem → Bool
cat_less a b =
    above b.ouqi a.ouqi
      (above a.update_time b.update_time (above a.player_id b.player_id (ltb_ℤ b.cat_id a.cat_id)))

-- `PlayerCatOuqiRankItem.Greater`
unfoldable pub cat_greater : PlayerCatOuqiRankItem → PlayerCatOuqiRankItem → Bool
cat_greater a b =
    above a.ouqi b.ouqi
      (above b.update_time a.update_time (above b.player_id a.player_id (ltb_ℤ a.ouqi b.ouqi)))

above-asym :
    (x y : ℤ) (r s : Bool) → (r ≡ true → s ≡ false) → above x y r ≡ true → above y x s ≡ false
above-asym x y true true k h = absurd (ground (arith, k refl))
above-asym x y true false k h = ground arith
above-asym x y false s k h = ground arith

above-ntrans :
    (x y z : ℤ) (r s t : Bool)
    → (r ≡ false → s ≡ false → t ≡ false)
    → above x y r ≡ false
    → above y z s ≡ false
    → above x z t ≡ false
above-ntrans x y z true s t k h i = ground arith
above-ntrans x y z false true t k h i = ground arith
above-ntrans x y z false false true k h i = absurd (ground (arith, k refl refl))
above-ntrans x y z false false false k h i = ground arith

-- The comparisons by value, time and player agree with each other, never rank two entries both ways,
-- and never turn round: what is not greater than something not greater than a third is not greater
-- than the third.
pub greater_ranks :
    (a b c : PlayerInt32RankItem)
    → (less a b ≡ greater b a)
      × (greater a b ≡ true → greater b a ≡ false)
      × (greater a b ≡ false → greater b c ≡ false → greater a c ≡ false)
unfolding less greater
greater_ranks a b c = (
  refl,
  above-asym a.val b.val _ _ (above-asym b.update_time a.update_time _ _ (λ h. ground arith)),
  above-ntrans a.val b.val c.val _ _ _ (λ h k.
      above-ntrans c.update_time b.update_time a.update_time _ _ _ (λ i j. ground arith) k h),
)

above_equal : (x y : ℤ) (r : Bool) → x ≡ y → above x y r ≡ r
above_equal x y r h = ground arith

ltb_irrefl : (x y : ℤ) → x ≡ y → ltb_ℤ x y ≡ false
ltb_irrefl x y h = ground arith

-- Two cats of one player with the same ouqi and time: `Less` ranks them by their id, `Greater` ranks
-- neither above the other.
pub cat_greater_misses :
    (a b : PlayerCatOuqiRankItem)
    → a.player_id ≡ b.player_id
    → a.ouqi ≡ b.ouqi
    → a.update_time ≡ b.update_time
    → ltb_ℤ b.cat_id a.cat_id ≡ true
    → (cat_less a b ≡ true) × (cat_greater b a ≡ false) × (cat_greater a b ≡ false)
unfolding cat_less cat_greater
cat_greater_misses a b p o t h = (
  above_equal b.ouqi a.ouqi _ (sym o)
      ∙ above_equal a.update_time b.update_time _ t
      ∙ above_equal a.player_id b.player_id _ p
      ∙ h,
  above_equal b.ouqi a.ouqi _ (sym o)
      ∙ above_equal a.update_time b.update_time _ t
      ∙ above_equal a.player_id b.player_id _ p
      ∙ ltb_irrefl b.ouqi a.ouqi (sym o),
  above_equal a.ouqi b.ouqi _ o
      ∙ above_equal b.update_time a.update_time _ (sym t)
      ∙ above_equal b.player_id a.player_id _ (sym p)
      ∙ ltb_irrefl a.ouqi b.ouqi o,
)
