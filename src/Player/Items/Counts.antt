-- ===== src/Player/Items/Counts.antt =====
-- What adding to and removing from the item column does to the counts.
use mm_server.Prelude.{
  ℕ, suc, ◌∙◌, ◌≡◌, ◌≢◌, refl, ap, inl, inr, Bool, true, false, Option, none, some, [], ◌∷◌, arith,
  if◌then◌else◌, Bool-cases, beq_ne,
}
use mm_server.Prelude.Int.{
  ℤ, pos, negsuc, ◌+ℤ◌, ◌-ℤ◌, ◌≤ℤ◌, +ℤ_parts, -ℤ_parts, int_laws, ltb_ℤ, int_eq,
}
use mm_server.Prelude.Int32.{add32, sub32, sub32_fits, IsInt32, max_int32}
use mm_server.Prelude.Dict.{
  Dict, lookup, insert, erase, lookup-insert, lookup-insert_self, lookup-erase, lookup-erase_self,
  AllValues, insert-AllValues, erase-AllValues,
}
use mm_server.Player.State.{ItemData, ItemCfg, Player}
use mm_server.Player.Values.Bounds.{IsCount, add32_counts, sub32_counts}
use mm_server.Player.Items.{
  Items, chk_add_item_by_num, chk_remove_item, added_item, clamp_to, send_items_update,
}

abbrev pub held_of : Option ItemData → ℤ
held_of none = pos 0
held_of (some d) = d.item_num

-- The count of an item, 0 where there is no entry.
abbrev pub held : ℤ → Items → ℤ
held id items = held_of (lookup id items)

abbrev pub IsPositive : ItemData → Type 0
IsPositive d = pos 1 ≤ℤ d.item_num

-- Every entry of the column holds at least one.
abbrev pub HasPositiveCounts : Items → Type 0
HasPositiveCounts items = AllValues IsPositive items

sum_fits : (a b : ℤ) → IsCount a → IsCount b → a +ℤ b ≤ℤ max_int32 → add32 a b ≡ a +ℤ b
sum_fits a b h k fits = elim (add32_counts a b h k) [
  | inl (_, e) ↦ e
  | inr (over, _) ↦ absurd (omega arith)
]

zero_sum : (a : ℤ) → pos 0 +ℤ a ≡ a
zero_sum a = omega int_laws

added_item_num :
    (cfg : ItemCfg) (now id num : ℤ) (o : Option ItemData)
    → cfg.valid_time ≡ pos 0
    → IsCount (held_of o)
    → IsCount num
    → held_of o +ℤ num ≤ℤ max_int32
    → (added_item cfg now id num o).item_num ≡ clamp_to cfg.max_number (held_of o +ℤ num)
unfolding added_item
added_item_num cfg now id num none untimed h k fits = rw (untimed, zero_sum num)
added_item_num cfg now id num (some d) untimed h k fits =
    rw (untimed, sum_fits d.item_num num h k fits)

added_item-pos :
    (cfg : ItemCfg) (now id num : ℤ) (o : Option ItemData)
    → pos 1 ≤ℤ cfg.max_number
    → IsCount (held_of o)
    → IsCount num
    → pos 1 ≤ℤ num
    → held_of o +ℤ num ≤ℤ max_int32
    → pos 1 ≤ℤ (added_item cfg now id num o).item_num
unfolding added_item
added_item-pos cfg now id num none most h k one fits = ground arith
added_item-pos cfg now id num (some d) most h k one fits =
    ground (arith, sum_fits d.item_num num h k fits, +ℤ_parts d.item_num num)

abbrev pub is_there : Option ItemData → Bool
is_there none = false
is_there (some _) = true

-- What a removal does to the items, from what they hold under the id.
abbrev pub IsRemoval : ℤ → ℤ → Items → Option ItemData → Items × Bool × ℤ → Type 0
IsRemoval id num items o (items', done, left) =
    (done ≡ is_there o)
    × (left ≡ (if ltb_ℤ num (held_of o) then held_of o -ℤ num else pos 0))
    × (held id items' ≡ left)
    × (held_of o ≤ℤ num → lookup id items' ≡ none)
    × ((j : ℤ) → id ≢ j → lookup j items' ≡ lookup j items)

module _ (table : Dict ℤ ItemCfg) (cfg : ItemCfg) (id : ℤ)
    (known : lookup id table ≡ some cfg) where
  chk_add_lem :
      (now num : ℤ) (items : Items)
      → chk_add_item_by_num table now id num items ≡ (
        insert id (added_item cfg now id num (lookup id items)) items,
        (added_item cfg now id num (lookup id items)).item_num,
      )
  unfolding chk_add_item_by_num
  chk_add_lem now num items = rw (known, chk_add_item_by_num)

  -- An item of the table without a time limit, of which a count that is not negative is held and an
  -- amount that is not negative is added, so that their sum fits an int32: the count grows by what is
  -- added, up to the item's maximum; the result is the new count, and no other item changes.
  pub chk_add_item_by_num-held :
      (now num : ℤ) (items : Items)
      → cfg.valid_time ≡ pos 0
      → IsCount (held id items)
      → IsCount num
      → held id items +ℤ num ≤ℤ max_int32
      → let (items', count) = chk_add_item_by_num table now id num items in
        (held id items' ≡ clamp_to cfg.max_number (held id items +ℤ num))
        × (count ≡ held id items')
        × ((j : ℤ) → id ≢ j → lookup j items' ≡ lookup j items)
  chk_add_item_by_num-held now num items untimed h k fits =
      let stored = added_item cfg now id num (lookup id items) in
      let now_held = lookup-insert_self id stored items in
      rw (chk_add_lem now num items) (
        rw now_held (added_item_num cfg now id num (lookup id items) untimed h k fits),
        rw now_held,
        λ j ne. rw (lookup-insert id j stored items, beq_ne int_eq id j ne),
      )

  chk_remove_lem :
      (num : ℤ) (d : ItemData) (items : Items)
      → lookup id items ≡ some d
      → chk_remove_item table id num items ≡ (
          if ltb_ℤ num d.item_num
          then (
            insert id (record d { item_num = sub32 d.item_num num }) items,
            true,
            sub32 d.item_num num,
          )
          else (erase id items, true, pos 0))
  unfolding chk_remove_item
  chk_remove_lem num d items e = rw (known, chk_remove_item) (rw (e, chk_remove_item))

  pub chk_remove_entry :
      (num : ℤ) (d : ItemData) (items : Items)
      → lookup id items ≡ some d
      → IsCount d.item_num
      → IsCount num
      → let (items', done, left) = chk_remove_item table id num items in
        (done ≡ true)
        × (left ≡ (if ltb_ℤ num d.item_num then d.item_num -ℤ num else pos 0))
        × (held id items' ≡ left)
        × (d.item_num ≤ℤ num → lookup id items' ≡ none)
        × ((j : ℤ) → id ≢ j → lookup j items' ≡ lookup j items)
  chk_remove_entry num d items e h k =
      rw (chk_remove_lem num d items e) (elim (Bool-cases (ltb_ℤ num d.item_num)) [
        | inl more ↦
            rw (more, sub32_counts d.item_num num h k)
              (
                refl,
                refl,
                rw (lookup-insert_self id _ items),
                λ le. absurd (ground arith),
                λ j ne. rw (lookup-insert id j _ items, beq_ne int_eq id j ne),
              )
        | inr all ↦ rw all (
          refl,
          refl,
          rw (lookup-erase_self id items),
          λ le. lookup-erase_self id items,
          λ j ne. rw (lookup-erase id j items, beq_ne int_eq id j ne),
        )
      ])

  chk_remove_missing :
      (num : ℤ) (items : Items)
      → lookup id items ≡ none
      → chk_remove_item table id num items ≡ (items, false, pos 0)
  unfolding chk_remove_item
  chk_remove_missing num items e = rw (known, chk_remove_item) (rw (e, chk_remove_item))

  remove_cases :
      (num : ℤ) (items : Items) (o : Option ItemData)
      → lookup id items ≡ o
      → IsCount (held_of o)
      → IsCount num
      → IsRemoval id num items o (chk_remove_item table id num items)
  remove_cases num items none missing h k =
      let none_more : ltb_ℤ num (pos 0) ≡ false = ground arith in
      rw (chk_remove_missing num items missing)
        (refl, rw none_more refl, ap held_of missing, λ le. missing, λ j ne. refl)
  remove_cases num items (some d) found h k = chk_remove_entry num d items found h k

  -- A removal of an amount that is not negative, of an item of the table whose count is not negative,
  -- succeeds exactly when there is an entry. It takes what is there and no more, however much is asked
  -- for; an entry that is used up is gone, and no other item changes.
  pub chk_remove_item-held :
      (num : ℤ) (items : Items)
      → IsCount (held id items)
      → IsCount num
      → IsRemoval id num items (lookup id items) (chk_remove_item table id num items)
  chk_remove_item-held num items h k = remove_cases num items (lookup id items) refl h k

  -- Adding at least one of an item that may be held keeps every entry positive.
  chk_add_item_by_num-HasPositiveCounts :
      (now num : ℤ) (items : Items)
      → pos 1 ≤ℤ cfg.max_number
      → IsCount (held id items)
      → IsCount num
      → pos 1 ≤ℤ num
      → held id items +ℤ num ≤ℤ max_int32
      → HasPositiveCounts items
      → HasPositiveCounts (chk_add_item_by_num table now id num items).0
  chk_add_item_by_num-HasPositiveCounts now num items most h k one fits all =
      rw (chk_add_lem now num items) (
        insert-AllValues IsPositive id _ items all
          (added_item-pos cfg now id num (lookup id items) most h k one fits))

  -- Removing an amount that is not negative keeps every entry positive.
  chk_remove_item-HasPositiveCounts :
      (num : ℤ) (d : ItemData) (items : Items)
      → lookup id items ≡ some d
      → IsCount d.item_num
      → IsCount num
      → HasPositiveCounts items
      → HasPositiveCounts (chk_remove_item table id num items).0
  chk_remove_item-HasPositiveCounts num d items e h k all =
      rw (chk_remove_lem num d items e) (elim (Bool-cases (ltb_ℤ num d.item_num)) [
        | inl more ↦
            rw (more, sub32_counts d.item_num num h k)
              (insert-AllValues IsPositive id _ items all (ground (arith, -ℤ_parts d.item_num num)))
        | inr gone ↦ rw gone (erase-AllValues IsPositive id items all)
      ])

  -- Removing a negative amount adds to the entry.
  pub chk_remove_item_negative :
      (n : ℕ) (d : ItemData) (items : Items)
      → lookup id items ≡ some d
      → IsCount d.item_num
      → IsCount (d.item_num +ℤ pos (suc n))
      → held id (chk_remove_item table id (negsuc n) items).0 ≡ d.item_num +ℤ pos (suc n)
  chk_remove_item_negative n d items e h k =
      let more : ltb_ℤ (negsuc n) d.item_num ≡ true = ground arith in
      let diff : d.item_num -ℤ negsuc n ≡ d.item_num +ℤ pos (suc n) = omega int_laws in
      let fits : IsInt32 (d.item_num -ℤ negsuc n) =
        rw diff (record { lower = omega arith; upper = k.1 }) in
      rw (chk_remove_lem (negsuc n) d items e) (
        rw more (rw (lookup-insert_self id _ items) (sub32_fits d.item_num (negsuc n) fits ∙ diff)))

-- Sending the pending changes touches no counter and no item.
pub send_items_update_keeps :
    (p : Player) → ((send_items_update p).info ≡ p.info) × ((send_items_update p).items ≡ p.items)
unfolding send_items_update
send_items_update_keeps p =
    elim (p.items_update)
      as (λ u.
        ((send_items_update (record p { items_update = u })).info ≡ p.info)
        × ((send_items_update (record p { items_update = u })).items ≡ p.items)) [
          | [] ↦ (refl, refl)
          | _ ∷ _ ↦ (refl, refl)
        ]
