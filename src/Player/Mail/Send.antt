-- ===== src/Player/Mail/Send.antt =====
-- Sending a mail (src/game_server/player_mail.go, `SendMail`, `RealSendMail`) in a world of players
-- by id: the sender and the receiver may be the same player. The lock on the receiver makes the
-- call one step.
pub mod Attach
pub mod System
pub mod Refused
pub mod Negative
use mm_server.Prelude.{ℕ, Bool, true, false, Option, none, some, List, [], ◌∷◌, if◌then◌else◌, ◌||◌}
use mm_server.Prelude.Fault.{◌>>=◌}
use mm_server.Prelude.Int.{ℤ, pos, negsuc, ltb_ℤ, leb_ℤ, eqb_ℤ, int_eq}
use mm_server.Prelude.Int32.{sub32, neg32, wrap32}
use mm_server.Prelude.Lists.{length}
use mm_server.Prelude.Dict.{Dict, lookup, insert}
use mm_server.Player.State.{Player, Config, Mail, MailBox, Text}
use mm_server.Player.Items.{get_item}
use mm_server.Player.Resources.{add_item_resource}
use mm_server.Player.Mail.{new_mail, attach_mail_item, cache_new_mail}

abbrev pub World : Type 0
World = Dict ℤ Player

abbrev pub mail_type_system : ℤ
mail_type_system = pos 1

abbrev pub mail_type_player : ℤ
mail_type_player = pos 2

abbrev pub mail_type_guild : ℤ
mail_type_guild = pos 3

abbrev pub err_send_failed : ℤ
err_send_failed = negsuc 100602

abbrev pub err_receiver_not_found : ℤ
err_receiver_not_found = negsuc 100603

abbrev pub err_cooldown : ℤ
err_cooldown = negsuc 100604

abbrev pub err_title_too_long : ℤ
err_title_too_long = negsuc 100605

abbrev pub err_content_too_long : ℤ
err_content_too_long = negsuc 100606

abbrev pub err_subtype_unknown : ℤ
err_subtype_unknown = negsuc 100607

-- What a call asks for.
pub record Letter : Type 0 where
  pub mail_type : ℤ
  pub subtype : ℤ
  pub title : Text
  pub content : Text
  pub items : List ℤ
  pub extra_value : ℤ

-- `int32(len(s))`
abbrev len32 : Text → ℤ
len32 s = wrap32 (pos (length s))

-- `mail_has_subtype`
unfoldable pub mail_has_subtype : ℤ → List ℤ → ℤ
mail_has_subtype subtype [] = err_subtype_unknown
mail_has_subtype subtype (s ∷ ss) = if eqb_ℤ s subtype then pos 1 else mail_has_subtype subtype ss

-- The test of the cooldown for a player's mail, which needs a sender.
cooldown : Config → ℤ → Option ℤ → World → Option ℤ
cooldown cfg now none w = some (negsuc 0)
cooldown cfg now (some id) w = do
  p ← lookup id w
  some (
      if ltb_ℤ (sub32 now p.mail_box.last_send_player_mail_time) cfg.mail.player_send_cooldown
      then err_cooldown
      else pos 1)

-- The checks of `RealSendMail` that come before the receiver is looked up: 1 or the error.
unfoldable pub check_letter : Config → ℤ → Option ℤ → Letter → World → Option ℤ
unfolding cooldown
check_letter cfg now sender l w =
    if ltb_ℤ cfg.mail.title_bytes (len32 l.title)
    then some err_title_too_long
    else if ltb_ℤ cfg.mail.content_bytes (len32 l.content)
    then some err_content_too_long
    else if eqb_ℤ l.mail_type mail_type_player
    then cooldown cfg now sender w
    else if eqb_ℤ l.mail_type mail_type_system
    then some (mail_has_subtype l.subtype cfg.mail.subtypes)
    else some (pos 1)

abbrev pub set_box : ℤ → MailBox → Player → World → World
set_box id b p w = insert id (record p { mail_box = b }) w

-- Whether the sender has fewer of an item than are attached. A letter of the system has no sender.
unfoldable pub lacks : Option ℤ → ℤ → ℤ → World → Option Bool
lacks none item_id num w = some false
lacks (some id) item_id num w = do p ← lookup id w; some (ltb_ℤ (get_item item_id p) num)

-- The loop that attaches the items: 1 or the error. What was attached before an error stays.
unfoldable pub attach_all : Option ℤ → ℤ → ℤ → List ℤ → World → Option (World × ℤ)
attach_all sender receiver mail_id [] w = some (w, pos 1)
attach_all sender receiver mail_id (item_id ∷ []) w = some (w, pos 1)
attach_all sender receiver mail_id (item_id ∷ num ∷ rest) w = do
  lacking ← lacks sender item_id num w
  p ← lookup receiver w
  let (b, res) = attach_mail_item mail_id item_id num p.mail_box
  let further = attach_all sender receiver mail_id rest (set_box receiver b p w)
  let next = if ltb_ℤ res (pos 0) then some (set_box receiver b p w, res) else further
  if lacking then some (w, err_send_failed) else next

-- The loop that takes the items from the sender, as a negative addition.
unfoldable pub charge : Config → ℤ → List ℤ → Player → Option Player
charge cfg now [] p = some p
charge cfg now (item_id ∷ []) p = some p
charge cfg now (item_id ∷ num ∷ rest) p = do
  (q, _) ← add_item_resource cfg now item_id (neg32 num) p
  charge cfg now rest q

unfoldable pub charge_sender : Config → ℤ → Option ℤ → List ℤ → World → Option World
charge_sender cfg now none items w = some w
charge_sender cfg now (some id) items w = do
  p ← lookup id w
  q ← charge cfg now items p
  some (insert id q w)

-- `SetLastSendPlayerMailTime`, for a player's mail.
unfoldable pub stamp_sender : ℤ → Option ℤ → ℤ → World → Option World
stamp_sender now none mail_type w = some w
stamp_sender now (some id) mail_type w = do
  p ← lookup id w
  some (
      if eqb_ℤ mail_type mail_type_player
      then set_box id (record (p.mail_box) { last_send_player_mail_time = now }) p w
      else w)

abbrev sender_id_of : Option ℤ → ℤ
sender_id_of none = pos 0
sender_id_of (some id) = id

-- `RealSendMail` once all items are attached: the sender pays, the receiver is told.
unfoldable pub finish_send : Config → ℤ → Option ℤ → ℤ → ℤ → Letter → World → Option (World × ℤ)
finish_send cfg now sender receiver mail_id l w = do
  w₁ ← charge_sender cfg now sender l.items w
  p ← lookup receiver w₁
  let w₂ = set_box receiver (cache_new_mail mail_id p.mail_box) p w₁
  w₃ ← stamp_sender now sender l.mail_type w₂
  some (w₃, mail_id)

-- `RealSendMail` with the receiver at hand. The mail is there before its items are checked.
unfoldable pub deliver_letter :
    Config → ℤ → Option ℤ → ℤ → Letter → Player → World → Option (World × ℤ)
deliver_letter cfg now sender receiver l p w =
    let (b, mail_id) =
      new_mail cfg.mail now l.mail_type l.subtype (sender_id_of sender) l.title l.content
        l.extra_value p.mail_box in
    let w₁ = set_box receiver b p w in
    let attached = attach_all sender receiver mail_id l.items w₁ >>= λ r.
    if ltb_ℤ r.1 (pos 0) then some r else finish_send cfg now sender receiver mail_id l r.0 in
    if leb_ℤ mail_id (pos 0) then some (w₁, err_send_failed) else attached

unfoldable pub find_receiver :
    Config → ℤ → Option ℤ → ℤ → Letter → Option Player → World → Option (World × ℤ)
find_receiver cfg now sender receiver l none w = some (w, err_receiver_not_found)
find_receiver cfg now sender receiver l (some p) w = deliver_letter cfg now sender receiver l p w

-- `RealSendMail`: the new world, and the mail's id or an error.
unfoldable pub real_send_mail : Config → ℤ → Option ℤ → ℤ → Letter → World → Option (World × ℤ)
real_send_mail cfg now sender receiver l w = do
  res ← check_letter cfg now sender l w
  let sent = find_receiver cfg now sender receiver l (lookup receiver w) w
  if ltb_ℤ res (pos 0) then some (w, res) else sent

-- `SendMail`: mails of a guild are not sent, and the extra value is dropped.
unfoldable pub send_mail : Config → ℤ → Option ℤ → ℤ → Letter → World → Option (World × ℤ)
send_mail cfg now sender receiver l w =
    if eqb_ℤ l.mail_type mail_type_guild
    then some (w, pos 0)
    else real_send_mail cfg now sender receiver (record l { extra_value = pos 0 }) w
