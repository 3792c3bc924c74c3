-- ===== src/Tests/Data.antt =====
-- The game data and the player that the tests run on.
use mm_server.Prelude.{List, [], ◌∷◌, none, false}
use mm_server.Prelude.Int.{pos}
use mm_server.Player.State.{Player, Config, ItemCfg, ItemData, LevelItem, SignItem, Mail}

abbrev pub fish : ItemCfg
fish = record {
  sale_coin = pos 5;
  max_number = pos 99;
  item_type = pos 1;
  valid_time = pos 0;
  numbers = [];
}

abbrev pub rows : List LevelItem
rows =
    record { level = pos 1; max_exp = pos 10; max_power = pos 20 }
    ∷ record { level = pos 2; max_exp = pos 20; max_power = pos 30 }
    ∷ record { level = pos 3; max_exp = pos 30; max_power = pos 40 }
    ∷ []

abbrev pub first_row : LevelItem
first_row = record { level = pos 1; max_exp = pos 10; max_power = pos 20 }

abbrev pub days : List SignItem
days =
    record { id = pos 1; reward = pos 2 ∷ pos 100 ∷ [] }
    ∷ record { id = pos 2; reward = pos 100 ∷ pos 3 ∷ [] }
    ∷ []

abbrev pub config : Config
config = record {
  item_table = (pos 2, fish) ∷ (pos 100, fish) ∷ [];
  foster_rarity = λ id. none;
  levels = record { level_map = (pos 1, first_row) ∷ []; array = rows; max_level = 3 };
  spirit_grow_point_need_minute = pos 5;
  signs = record {
    sign_map =
        (pos 1, record { id = pos 1; reward = pos 2 ∷ pos 100 ∷ [] })
        ∷ (pos 2, record { id = pos 2; reward = pos 100 ∷ pos 3 ∷ [] })
        ∷ [];
    array = days;
  };
  mail = record {
    max_count = pos 2;
    normal_exist_days = pos 7;
    attach_exist_days = pos 30;
    player_send_cooldown = pos 60;
    title_bytes = pos 30;
    content_bytes = pos 300;
    subtypes = pos 1101 ∷ [];
  };
}

abbrev pub five_fish : ItemData
five_fish = record {
  item_cfg_id = pos 100;
  item_num = pos 5;
  start_time_unix = pos 0;
  remain_seconds = pos 0;
}

-- A mail with 50 gold.
abbrev pub present : Mail
present = record {
  id = pos 1;
  mail_type = pos 1;
  subtype = pos 1101;
  title = [];
  content = [];
  send_unix = pos 1000;
  sender_id = pos 0;
  extra_value = pos 0;
  attach_item_ids = pos 2 ∷ [];
  attach_item_nums = pos 50 ∷ [];
  is_read = pos 0;
  is_get_attached = pos 0;
}

abbrev pub note : Mail
note = record present { id = pos 2; attach_item_ids = []; attach_item_nums = [] }

abbrev pub player : Player
player = record {
  level = pos 1;
  info = record {
    gold = pos 100;
    diamond = pos 7;
    cat_food = pos 9;
    spirit = pos 3;
    friend_points = pos 4;
    charm_val = pos 0;
    exp = pos 6;
    soul_stone = pos 8;
    charm_medal = pos 2;
    total_stars = pos 0;
    save_last_spirit_point_time = pos 1000;
  };
  items = (pos 100, five_fish) ∷ [];
  items_update = [];
  sign = record { last_signed_time = pos 90000; signed_index = pos 2; award_index = pos 1 };
  mail_box = record {
    mails = (pos 1, present) ∷ (pos 2, note) ∷ [];
    curr_id = pos 2;
    last_send_player_mail_time = pos 0;
    new_mail_ids = [];
  };
  base_prop_chg = false;
  effects = [];
}
