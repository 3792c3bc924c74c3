-- ===== src/Player/Mail.antt =====
-- The mails of a player (src/game_server/player_mail.go, with the Mails and MailCommon columns of
-- src/game_server/a_db_tables.go): what makes, reads, takes from and deletes them. Messages are
-- modelled by the ids of the mails they describe; names of senders are left out.
pub mod Send
pub mod Room
pub mod Box
pub mod Steps
pub mod Deletes
pub mod Expiry
pub mod Claims
pub mod Gold
use mm_server.Prelude.{
  ℕ, Bool, true, false, Option, none, some, List, [], ◌∷◌, ◌++◌, if◌then◌else◌, ◌||◌, ◌&&◌, not,
}
use mm_server.Prelude.Fault.{◌>>=◌}
use mm_server.Prelude.Int.{ℤ, pos, negsuc, ltb_ℤ, leb_ℤ, eqb_ℤ, int_eq}
use mm_server.Prelude.Int32.{add32, sub32, mul32, wrap8}
use mm_server.Prelude.Dict.{Dict, lookup, contains, insert, erase, size}
use mm_server.Player.State.{Player, Config, Mail, MailBox, MailConfig, Effect, Text, emit}
use mm_server.Player.Values.{Call}
use mm_server.Player.Items.{send_items_update}
use mm_server.Player.Resources.{add_item_resource}

abbrev pub Mails : Type 0
Mails = Dict ℤ Mail

abbrev pub err_not_found : ℤ
err_not_found = negsuc 100600

abbrev pub err_no_attached_item : ℤ
err_no_attached_item = negsuc 100601

abbrev pub set_mails : Mails → Player → Player
set_mails ms p = record p { mail_box = record (p.mail_box) { mails = ms } }

-- `first_id` in `new_mail`: the least id, or 0 where there is none; an id of 0 counts as none.
unfoldable pub first_id : ℤ → Mails → ℤ
first_id acc [] = acc
first_id acc ((id, _) ∷ ms) = first_id (if ltb_ℤ id acc || eqb_ℤ acc (pos 0) then id else acc) ms

-- The first part of `new_mail`: a full box loses its first mail.
unfoldable pub make_room : MailConfig → Mails → Mails
make_room cfg ms =
    let first = first_id (pos 0) ms in
    if leb_ℤ cfg.max_count (pos (size ms)) && ltb_ℤ (pos 0) first then erase first ms else ms

-- `dbPlayerMailColumn.Add`: an id that is there stays as it was.
unfoldable pub add_mail : Mail → Mails → Mails
add_mail m ms = if contains m.id ms then ms else insert m.id m ms

-- The mail that `new_mail` makes.
abbrev pub fresh_mail : ℤ → ℤ → ℤ → ℤ → Text → Text → ℤ → ℤ → Mail
fresh_mail id typ subtype sender_id title content now extra = record {
  id = id;
  mail_type = wrap8 typ;
  subtype = subtype;
  title = title;
  content = content;
  send_unix = now;
  sender_id = sender_id;
  extra_value = extra;
  attach_item_ids = [];
  attach_item_nums = [];
  is_read = pos 0;
  is_get_attached = pos 0;
}

-- `new_mail`
unfoldable pub new_mail : MailConfig → ℤ → ℤ → ℤ → ℤ → Text → Text → ℤ → MailBox → MailBox × ℤ
new_mail cfg now typ subtype sender_id title content extra b =
    let new_id = add32 b.curr_id (pos 1) in
    let m = fresh_mail new_id typ subtype sender_id title content now extra in
    (record b { mails = add_mail m (make_room cfg b.mails); curr_id = new_id }, new_id)

-- `attach_mail_item`
unfoldable pub attach_mail_item : ℤ → ℤ → ℤ → MailBox → MailBox × ℤ
attach_mail_item mail_id item_id item_num b = elim (lookup mail_id b.mails) [
  | none ↦ (b, err_not_found)
  | some m ↦
      let m' = record m {
        attach_item_ids = m.attach_item_ids ++ item_id ∷ [];
        attach_item_nums = m.attach_item_nums ++ item_num ∷ [];
      } in
      (record b { mails = insert mail_id m' b.mails }, pos 1)
]

-- `cache_new_mail`
unfoldable pub cache_new_mail : ℤ → MailBox → MailBox
cache_new_mail mail_id b = record b { new_mail_ids = b.new_mail_ids ++ mail_id ∷ [] }

abbrev has_attached : Mail → Bool
has_attached m = elim (m.attach_item_ids) [ [] ↦ false | _ ∷ _ ↦ true ]

-- How long a mail is kept, in seconds.
abbrev pub exist_seconds : MailConfig → Mail → ℤ
exist_seconds cfg m =
    mul32 (mul32 (if has_attached m then cfg.attach_exist_days else cfg.normal_exist_days) (pos 24))
      (pos 3600)

-- The test of `dbPlayerMailColumn.GetMailList` for a mail that is too old.
unfoldable pub is_expired : MailConfig → ℤ → Mail → Bool
is_expired cfg now m = leb_ℤ (exist_seconds cfg m) (sub32 now m.send_unix)

-- `dbPlayerMailColumn.GetMailList`: the ids that it lists.
unfoldable pub listed_ids : MailConfig → ℤ → Mails → List ℤ
listed_ids cfg now [] = []
listed_ids cfg now ((_, m) ∷ ms) =
    if is_expired cfg now m then listed_ids cfg now ms else m.id ∷ listed_ids cfg now ms

-- The ids in `to_delete_mail`.
unfoldable pub expired_ids : MailConfig → ℤ → Mails → List ℤ
expired_ids cfg now [] = []
expired_ids cfg now ((_, m) ∷ ms) =
    if is_expired cfg now m then m.id ∷ expired_ids cfg now ms else expired_ids cfg now ms

unfoldable pub erase_all : List ℤ → Mails → Mails
erase_all [] ms = ms
erase_all (id ∷ ids) ms = erase_all ids (erase id ms)

-- `Player.GetMailList`
unfoldable pub get_mail_list : MailConfig → ℤ → Player → Call
get_mail_list cfg now p =
    let b = record (p.mail_box) { new_mail_ids = [] } in
    let kept = record b { mails = erase_all (expired_ids cfg now b.mails) b.mails } in
    (
      emit (Effect.send_mail_list (listed_ids cfg now b.mails)) (record p { mail_box = kept }),
      pos 1,
    )

-- `dbPlayerMailColumn.HasUnreadMail`
unfoldable pub has_unread_mail : MailConfig → ℤ → Mails → Bool
has_unread_mail cfg now [] = false
has_unread_mail cfg now ((_, m) ∷ ms) =
    (ltb_ℤ (sub32 now m.send_unix) (mul32 (mul32 cfg.attach_exist_days (pos 24)) (pos 3600))
      && leb_ℤ m.is_read (pos 0))
    || has_unread_mail cfg now ms

-- The ids that `GetMailListByIds` describes.
unfoldable pub known_ids : List ℤ → Mails → List ℤ
known_ids [] ms = []
known_ids (id ∷ ids) ms = if contains id ms then id ∷ known_ids ids ms else known_ids ids ms

-- `CheckNewMail`
unfoldable pub check_new_mail : Player → Call
check_new_mail p =
    let q = record p { mail_box = record (p.mail_box) { new_mail_ids = [] } } in
    elim (known_ids p.mail_box.new_mail_ids p.mail_box.mails) [
      | [] ↦ (q, pos 1)
      | id ∷ ids ↦ (emit (Effect.send_mail_list (id ∷ ids)) q, pos 1)
    ]

-- `SetIsRead`
unfoldable pub set_read : ℤ → Mails → Mails
set_read id ms = elim (lookup id ms) [
  | none ↦ ms
  | some m ↦ insert id (record m { is_read = pos 1 }) ms
]

-- The loop of `GetMailDetail`: mails are marked as read up to the first that is not there.
unfoldable pub read_all : List ℤ → Mails → Mails × Bool
read_all [] ms = (ms, true)
read_all (id ∷ ids) ms = if contains id ms then read_all ids (set_read id ms) else (ms, false)

-- `Player.GetMailDetail`
unfoldable pub get_mail_detail : List ℤ → Player → Call
get_mail_detail [] p = (p, negsuc 0)
get_mail_detail (id ∷ ids) p =
    let (ms, found) = read_all (id ∷ ids) p.mail_box.mails in
    if found
    then (emit (Effect.send_mail_details (id ∷ ids)) (set_mails ms p), pos 1)
    else (set_mails ms p, err_not_found)

-- The loop of `DeleteMails`: mails go up to the first that is not there.
unfoldable pub delete_all : List ℤ → Mails → Mails × Bool
delete_all [] ms = (ms, true)
delete_all (id ∷ ids) ms = if contains id ms then delete_all ids (erase id ms) else (ms, false)

-- `Player.DeleteMails`
unfoldable pub delete_mails : List ℤ → Player → Call
delete_mails [] p = (p, negsuc 0)
delete_mails (id ∷ ids) p =
    let (ms, found) = delete_all (id ∷ ids) p.mail_box.mails in
    if found
    then (emit (Effect.send_mails_deleted (id ∷ ids)) (set_mails ms p), pos 1)
    else (set_mails ms p, err_not_found)

-- `_get_items_info_from`: ids with their amounts, as far as both go.
unfoldable pub attached_pairs : List ℤ → List ℤ → List (ℤ × ℤ)
attached_pairs [] nums = []
attached_pairs (id ∷ ids) [] = []
attached_pairs (id ∷ ids) (num ∷ nums) = (id, num) ∷ attached_pairs ids nums

abbrev sum_of : ℤ → Dict ℤ ℤ → ℤ
sum_of id d = elim (lookup id d) [ none ↦ pos 0 | some n ↦ n ]

-- `SetIsGetAttached` and `SetIsRead`, one after the other.
unfoldable pub mark_taken : ℤ → Mails → Mails
mark_taken id ms = elim (lookup id ms) [
  | none ↦ ms
  | some m ↦ insert id (record m { is_read = pos 1; is_get_attached = pos 1 }) ms
]

-- The inner loop of `GetMailAttachedItems`: what an id names is given if the item table has it, and
-- counted in any case.
unfoldable pub give_attached :
    Config → ℤ → List (ℤ × ℤ) → Dict ℤ ℤ → Player → Option (Player × Dict ℤ ℤ)
give_attached cfg now [] sums p = some (p, sums)
give_attached cfg now ((id, num) ∷ rest) sums p = do
  (q, _) ←
      if contains id cfg.item_table then add_item_resource cfg now id num p else some (p, pos 0)
  give_attached cfg now rest (insert id (add32 (sum_of id sums) num) sums) q

-- One round of the outer loop; the result is 1 or the error.
unfoldable pub take_from : Config → ℤ → ℤ → Dict ℤ ℤ → Player → Option (Player × Dict ℤ ℤ × ℤ)
take_from cfg now mail_id sums p = elim (lookup mail_id p.mail_box.mails) [
  | none ↦ some (p, sums, err_not_found)
  | some m ↦ elim (attached_pairs m.attach_item_ids m.attach_item_nums) [
    | [] ↦ some (p, sums, err_no_attached_item)
    | pair ∷ pairs ↦ do
      (q, sums') ← give_attached cfg now (pair ∷ pairs) sums p
      some (set_mails (mark_taken mail_id q.mail_box.mails) q, sums', pos 1)
  ]
]

-- The outer loop of `GetMailAttachedItems`, up to the first error.
unfoldable pub take_all : Config → ℤ → List ℤ → Dict ℤ ℤ → Player → Option (Player × Dict ℤ ℤ × ℤ)
take_all cfg now [] sums p = some (p, sums, pos 1)
take_all cfg now (id ∷ ids) sums p = do
  (q, sums', res) ← take_from cfg now id sums p
  let further = take_all cfg now ids sums' q
  if eqb_ℤ res (pos 1) then further else some (q, sums', res)

-- `Player.GetMailAttachedItems`; a message always holds a list of ids, so it is not nil where it has
-- one.
unfoldable pub get_mail_attached_items : Config → ℤ → List ℤ → Player → Option Call
get_mail_attached_items cfg now [] p = some (p, negsuc 0)
get_mail_attached_items cfg now (id ∷ ids) p = do
  (q, sums, res) ← take_all cfg now (id ∷ ids) [] p
  let done = emit (Effect.send_attached_items (id ∷ ids) sums) q
  some (if eqb_ℤ res (pos 1) then (send_items_update done, pos 1) else (q, res))
