-- ===== src/Tests/Choices.antt =====
-- The list of servers at a concrete file.
use mm_server.Prelude.{◌≡◌, refl, true, false, none, some, [], ◌∷◌, arith}
use mm_server.Prelude.Fault.{Returns}
use mm_server.Prelude.Int.{pos, negsuc}
use mm_server.Prelude.Int32.{add32, wrap32}
use mm_server.Prelude.Dict.{insert}
use mm_server.Prelude.Int.{◌+ℤ◌, int_eq}
use mm_server.Servers.{
  HallServerInfo, Loaded, ServerList, read_config, reread_config, sum_weights, file_crosses,
  file_servers, random_one_server, has_server_id,
}
use mm_server.Servers.Choice.{FallsTo, total_of}
use mm_server.Servers.Config.{read_config_then_choice, reread_config_rejected}

abbrev file : Loaded
file = record {
  servers =
      record { id = pos 1; weight = pos 3 }
      ∷ record { id = pos 2; weight = pos 0 }
      ∷ record { id = pos 3; weight = pos 5 }
      ∷ [];
  cross_list = none ∷ some (record { id = pos 9; server_ids = pos 1 ∷ pos 3 ∷ [] }) ∷ [];
  failed = false;
}

abbrev empty : ServerList
empty = record {
  servers = [];
  total_weight = pos 0;
  cross_list = [];
  id2cross = [];
  server_id2cross = [];
}

abbrev full : ServerList
full = record {
  servers = file.servers;
  total_weight = pos 8;
  cross_list = file.cross_list;
  id2cross = (pos 9, 1) ∷ [];
  server_id2cross = (pos 1, 1) ∷ (pos 3, 1) ∷ [];
}

file-read : read_config file empty ≡ (full, true)
unfolding read_config sum_weights file_crosses file_servers insert add32 wrap32 ◌+ℤ◌
file-read = refl

read_config_then_choice_example : Returns (random_one_server (λ n. pos 6) full) (λ o.
    Returns o
      (λ (s : HallServerInfo). FallsTo file.servers 6 s × (has_server_id s.id full.servers ≡ true)))
unfolding total_of
read_config_then_choice_example =
    read_config_then_choice (λ n. pos 6) file empty full 6 (ground arith) file-read refl
      (ground arith)

abbrev bad_file : Loaded
bad_file = record {
  servers = record { id = pos 1; weight = pos 3 } ∷ record { id = pos 2; weight = negsuc 0 } ∷ [];
  cross_list = [];
  failed = false;
}

reread_config_rejected_example :
    let (l, ok) = reread_config false bad_file full in
    (ok ≡ false) × (l.servers ≡ bad_file.servers) × (random_one_server (λ n. pos 6) l ≡ none)
reread_config_rejected_example =
    reread_config_rejected (λ n. pos 6) bad_file full (record { id = pos 1; weight = pos 3 } ∷ [])
      [] (record { id = pos 2; weight = negsuc 0 }) refl (ground arith)
