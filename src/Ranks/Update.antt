-- ===== src/Ranks/Update.antt =====
-- `Update` of the short ranking list as a whole (src/libs/utils/short_ranklist.go).
use mm_server.Prelude.{
  ℕ, ◌<◌, ◌≡◌, refl, sym, subst, ◌∙◌, Bool-cases, Option-cases, inl, inr, Bool, true, false, Option,
  none, some, if◌then◌else◌, ltb, leb, ◌||◌, Eq, arith, lt→ltb,
}
use mm_server.Prelude.Fault.{Returns}
use mm_server.Prelude.Dict.{lookup}
use mm_server.Ranks.{
  ShortRankItem, ShortRankList, update, update_at, update_item, add_item, raise_item, lower_item,
}
use mm_server.Ranks.Order.{IsOrder, IsRanking, view, view_at, view_missing}
use mm_server.Ranks.Raise.{Replaced, raise_item-Replaced}
use mm_server.Ranks.Lower.{lower_item-Replaced}
use mm_server.Ranks.Insert.{Added, add_item-Added}

module _ {A K V : Type 0} ⦃e : Eq K⦄ (ops : ShortRankItem A K V) where
  -- The call changed nothing, and says so.
  abbrev pub Unchanged : ShortRankList A K → ShortRankList A K × Bool → Type 0
  Unchanged l (m, ok) = (m ≡ l) × (ok ≡ false)

  -- The item of a known key, by whether the new item is of another rank than the old.
  abbrev pub Settled : Bool → ShortRankList A K → A → ShortRankList A K × Bool → Type 0
  Settled true l new (m, ok) = Replaced ops l m new × (ok ≡ true)
  Settled false l new r = Unchanged l r

  -- The item of a new key, by whether the list is full.
  abbrev pub Tried : Bool → ShortRankList A K → A → ShortRankList A K × Bool → Type 0
  Tried true l new r = Unchanged l r
  Tried false l new (m, ok) = Added ops l m new × (ok ≡ true)

  -- What an update comes to, by what the list has for the item's key.
  abbrev pub Updated : A → Bool → ShortRankList A K → Option A → ShortRankList A K × Bool → Type 0
  Updated item add l none (m, ok) = Tried (leb l.max_num l.curr_num) l item (m, ok)
  Updated item add l (some old) (m, ok) =
      let new = if add then ops.add item old else item in
      Settled (ops.greater new old || ops.less new old) l new (m, ok)

  module _ (order : IsOrder ops) (l : ShortRankList A K) where
    settle :
        (b : Bool) (l : ShortRankList A K) (new : A) (c : Bool)
        (r : Option (ShortRankList A K × Bool))
        → b ≡ c
        → Returns r (Settled b l new)
        → Returns r (Settled c l new)
    settle b l new c r same = subst (λ t. Returns r (Settled t l new)) same

    same_key :
        (item old : A) (add : Bool)
        → ops.get_key (if add then ops.add item old else item) ≡ ops.get_key item
    same_key item old true = order.key-add item old
    same_key item old false = refl

    update_item-Updated :
        (item old : A) (add : Bool) (idx : ℕ)
        → IsRanking ops l
        → idx < l.curr_num
        → l.items idx ≡ some old
        → lookup (ops.get_key item) l.keys_map ≡ some idx
        → Returns
            (update_item ops idx old (if add then ops.add item old else item) l)
            (Updated item add l (some old))
    unfolding update_item
    update_item-Updated item old add idx r inside stood placed =
        let new = if add then ops.add item old else item in
        let key : ops.get_key new ≡ ops.get_key item = same_key item old add in
        let place : lookup (ops.get_key new) l.keys_map ≡ some idx =
          subst (λ k. lookup k l.keys_map ≡ some idx) (sym key) placed in
        elim (Bool-cases (ops.greater new old)) [
          | inl over ↦ rw over (
              settle true l new _ (raise_item ops idx old new l) (ground arith)
                (raise_item-Replaced ops order l idx old new r inside stood place over))
          | inr under ↦ rw under (elim (Bool-cases (ops.less new old)) [
            | inl less ↦ rw less (
                settle true l new _ (lower_item ops idx old new l) (ground arith) (
                  lower_item-Replaced ops order l idx old new r inside stood place
                    (sym (order.less-greater new old) ∙ less)))
            | inr equal ↦
                rw equal (settle false l new _ (some (l, false)) (ground arith) (refl, refl))
          ])
        ]

    try_add :
        (item : A)
        → IsRanking ops l
        → lookup (ops.get_key item) l.keys_map ≡ none
        → Returns
            (if leb l.max_num l.curr_num then some (l, false) else add_item ops item l)
            (Tried (leb l.max_num l.curr_num) l item)
    try_add item r missing = elim (Bool-cases (leb l.max_num l.curr_num)) [
      | inl full ↦ rw full (refl, refl)
      | inr room ↦ rw room (add_item-Added ops order l item r (ground arith) missing)
    ]

    -- An update of a ranking never panics. A new key is added where the list has room, and refused
    -- where it is full; a known key gets the item, with its old value added where that is asked
    -- for, unless the two are of the same rank, in which case nothing changes. What comes out is a
    -- ranking: no item is greater than one before it, the map has the place of each item and no
    -- other, and the list has the same items for all other keys.
    pub update-Updated :
        (item : A) (add : Bool)
        → IsRanking ops l
        → Returns (update ops item add l) (Updated item add l (view ops (ops.get_key item) l))
    unfolding update update_at
    update-Updated item add r = elim (Option-cases (lookup (ops.get_key item) l.keys_map)) [
      | inl missing ↦
          rw (missing, update)
            (subst
              (λ o.
                Returns (if leb l.max_num l.curr_num then some (l, false) else add_item ops item l)
                  (Updated item add l o))
              (sym (view_missing ops (ops.get_key item) l missing)) (try_add item r missing))
      | inr (idx, placed) ↦
          let inside = r.inside (ops.get_key item) idx placed in
          let (old, stood, own) = r.linked.full idx (omega arith) inside in
          rw (placed, update)
            (subst
              (λ o.
                Returns
                  (if ltb idx l.max_num then update_at ops item add l idx (l.items idx) else none)
                  (Updated item add l o))
              (sym (view_at ops (ops.get_key item) idx l placed ∙ stood))
              (rw (lt→ltb idx l.max_num (omega (arith, r.room)))
                (rw stood (update_item-Updated item old add idx r inside stood placed))))
    ]
