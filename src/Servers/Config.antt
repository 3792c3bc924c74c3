-- ===== src/Servers/Config.antt =====
-- Reading the list of servers (`_read_config`, `RereadConfig`), and a choice from it.
use mm_server.Prelude.{
  ℕ, ◌+◌, ◌<◌, ◌^◌, ◌≡◌, refl, sym, ap, subst, ◌∙◌, ◌⊎◌, Bool, Bool-cases, true, false, Option,
  none, some, List, [], ◌∷◌, ◌++◌, arith, if◌then◌else◌, inl, inr,
}
use mm_server.Prelude.Fault.{Returns, Returns-map}
use mm_server.Prelude.Int.{ℤ, pos, ◌<ℤ◌, ltb_ℤ, leb_ℤ, eqb_ℤ, int_eq}
use mm_server.Prelude.Int32.{add32, add32_pos}
use mm_server.Prelude.Dict.{Dict}
use mm_server.Prelude.Lists.{All}
use mm_server.Servers.{
  HallServerInfo, ServerList, Loaded, sum_weights, check_config, read_config, reread_config,
  file_crosses, random_one_server, has_server_id,
}
use mm_server.Servers.Choice.{
  IsWeighted, weight_of, total_of, weighted_cases, FallsTo, random_one_server-FallsTo,
}

-- A list that can be chosen from.
pub record IsReady (l : ServerList) : Type 0 where
  pub weighted : All IsWeighted l.servers
  pub stored : l.total_weight ≡ pos (total_of l.servers)
  pub positive : 0 < total_of l.servers

sum_step :
    (s : HallServerInfo) (n : ℕ)
    → IsWeighted s
    → n + weight_of s < 2 ^ 31
    → add32 (pos n) s.weight ≡ pos (n + weight_of s)
sum_step s n h small = ap (add32 (pos n)) (weighted_cases s h) ∙ add32_pos n (weight_of s) small

-- The sum of the weights, if none is negative.
sum_weights-lem :
    (servers : List HallServerInfo) (n : ℕ)
    → n + total_of servers < 2 ^ 31
    → ((sum_weights servers (pos n) ≡ some (pos (n + total_of servers))) × All IsWeighted servers)
      ⊎ (sum_weights servers (pos n) ≡ none)
unfolding sum_weights total_of
sum_weights-lem [] n small = inl (ap (λ k. some (pos k)) (omega arith), tt)
sum_weights-lem (s ∷ ss) n small = elim (Bool-cases (ltb_ℤ s.weight (pos 0))) [
  | inl negative ↦ inr (rw negative refl)
  | inr fine ↦
      let weighted : IsWeighted s = ground arith in
      let step = sum_step s n weighted (omega arith) in
      elim (sum_weights-lem ss (n + weight_of s) (omega arith)) [
        | inl (sum, all) ↦
            inl (rw (fine, step) (sum ∙ ap (λ k. some (pos k)) (omega arith)), (weighted, all))
        | inr none_left ↦ inr (rw (fine, step) none_left)
      ]
]

none_either : {A : Type 0} (b : Bool) (o : Option A) → o ≡ none → (if b then none else o) ≡ none
none_either true o h = refl
none_either false o h = h

-- A server of negative weight makes the sum fail.
sum_weights_negative :
    (before behind : List HallServerInfo) (s : HallServerInfo) (n : ℤ)
    → s.weight <ℤ pos 0
    → sum_weights (before ++ s ∷ behind) n ≡ none
unfolding sum_weights
sum_weights_negative [] behind s n h = ground arith
sum_weights_negative (t ∷ ts) behind s n h =
    none_either (ltb_ℤ t.weight (pos 0)) _ (sum_weights_negative ts behind s (add32 n t.weight) h)

-- The outcome of reading a file.
pub record Accepted (f : Loaded) (l : ServerList) : Type 0 where
  pub ready : IsReady l
  pub servers : l.servers ≡ f.servers

accept :
    (f : Loaded) (put : ServerList) (maps : Dict ℤ ℕ × Dict ℤ ℕ)
    → put.servers ≡ f.servers
    → All IsWeighted f.servers
    → 0 < total_of f.servers
    → Accepted f (record put {
      total_weight = pos (total_of f.servers);
      id2cross = maps.0;
      server_id2cross = maps.1;
    })
accept f put maps same all positive = record {
  ready = record {
    weighted = subst (λ xs. All IsWeighted xs) (sym same) all;
    stored = ap (λ xs. pos (total_of xs)) (sym same);
    positive = subst (λ xs. 0 < total_of xs) (sym same) positive;
  };
  servers = same;
}

-- The part of `_read_config` after the sum.
accept_total :
    (f : Loaded) (put : ServerList) (total : ℤ)
    → put.servers ≡ f.servers
    → sum_weights f.servers (pos 0) ≡ some total
    → total ≡ pos (total_of f.servers)
    → All IsWeighted f.servers
    → let (l', ok) = check_config f put in ok ≡ true → Accepted f l'
unfolding check_config
accept_total f put total held sum same all =
    rw (sum, check_config)
      (elim (Bool-cases (leb_ℤ total (pos 0))) [
        | inl empty ↦ rw empty (λ ok. absurd (ground arith))
        | inr full ↦ rw full (λ ok.
            rw same
              (accept f put (file_crosses 0 f.cross_list ([], [])) held all (ground (arith, same))))
      ])

checked :
    (f : Loaded) (put : ServerList)
    → put.servers ≡ f.servers
    → total_of f.servers < 2 ^ 31
    → let (l', ok) = check_config f put in ok ≡ true → Accepted f l'
unfolding check_config
checked f put held small = elim (sum_weights-lem f.servers 0 (omega arith)) [
  | inr refused ↦ rw (refused, check_config) (λ ok. absurd (ground arith))
  | inl (sum, all) ↦ accept_total f put _ held sum (ap pos (omega arith)) all
]

-- The test of the error.
either-Accepted :
    (f : Loaded) (bad : Bool) (put : ServerList) (r : ServerList × Bool)
    → (let (l', ok) = r in ok ≡ true → Accepted f l')
    → let (l', ok) = if bad then (put, false) else r in ok ≡ true → Accepted f l'
either-Accepted f true put r h = λ ok. absurd (ground arith)
either-Accepted f false put r h = h

accepted :
    (f : Loaded) (l : ServerList)
    → total_of f.servers < 2 ^ 31
    → let (l', ok) = read_config f l in ok ≡ true → Accepted f l'
unfolding read_config
accepted f l small =
    let put = record l { servers = f.servers; cross_list = f.cross_list } in
    either-Accepted f (f.failed) put (check_config f put) (checked f put refl small)

-- A file that is accepted, with weights whose sum fits, leaves a list that can be chosen from: no
-- weight is negative, and the stored total is their sum and positive.
pub read_config-Accepted :
    (f : Loaded) (l l' : ServerList)
    → total_of f.servers < 2 ^ 31
    → read_config f l ≡ (l', true)
    → Accepted f l'
read_config-Accepted f l l' small done =
    subst (Accepted f) (ap (λ (r : ServerList × Bool). r.0) done)
      (accepted f l small (ap (λ (r : ServerList × Bool). r.1) done))

either_true : (b c : Bool) → c ≡ true → (if b then true else c) ≡ true
either_true true c h = refl
either_true false c h = h

has_server_id-append :
    (before behind : List HallServerInfo) (s : HallServerInfo)
    → has_server_id s.id (before ++ s ∷ behind) ≡ true
unfolding has_server_id
has_server_id-append [] behind s = ground arith
has_server_id-append (t ∷ ts) behind s =
    either_true (eqb_ℤ t.id s.id) _ (has_server_id-append ts behind s)

known :
    (s : HallServerInfo) (servers : List HallServerInfo) (r : ℕ)
    → FallsTo servers r s
    → has_server_id s.id servers ≡ true
known s servers r f =
    subst (λ xs. has_server_id s.id xs ≡ true) (sym f.split)
      (has_server_id-append (f.before) (f.behind) s)

-- After a file was accepted, every random number below the total chooses a server of the file, the
-- one in whose part of the sum of the weights the number lies, and `HasServerId` knows it.
pub read_config_then_choice :
    (rand : ℤ → ℤ) (f : Loaded) (l l' : ServerList) (r : ℕ)
    → total_of f.servers < 2 ^ 31
    → read_config f l ≡ (l', true)
    → rand l'.total_weight ≡ pos r
    → r < total_of f.servers
    → Returns (random_one_server rand l') (λ o.
      Returns o
        (λ (s : HallServerInfo). FallsTo f.servers r s × (has_server_id s.id l'.servers ≡ true)))
read_config_then_choice rand f l l' r small done drawn h =
    let a = read_config-Accepted f l l' small done in
    subst
      (λ xs. Returns (random_one_server rand l') (λ o.
        Returns o
          (λ (s : HallServerInfo). FallsTo xs r s × (has_server_id s.id l'.servers ≡ true))))
      (a.servers)
      (Returns-map (random_one_server rand l')
        (λ o chosen. Returns-map o (λ (s : HallServerInfo) c. (c, known s l'.servers r c)) chosen)
        (random_one_server-FallsTo rand l' r (a.ready.weighted)
          (subst (λ xs. total_of xs < 2 ^ 31) (sym a.servers) small) (a.ready.stored) drawn
          (subst (λ xs. r < total_of xs) (sym a.servers) h)))

-- A changed file in which a weight is negative is rejected, but its servers are in place and the
-- total is 0: the next random choice panics.
pub reread_config_rejected :
    (rand : ℤ → ℤ) (f : Loaded) (l : ServerList) (before behind : List HallServerInfo)
    (s : HallServerInfo)
    → f.servers ≡ before ++ s ∷ behind
    → s.weight <ℤ pos 0
    → let (l', ok) = reread_config false f l in
      (ok ≡ false) × (l'.servers ≡ f.servers) × (random_one_server rand l' ≡ none)
unfolding reread_config read_config check_config random_one_server
reread_config_rejected rand f l before behind s split negative =
    let refused : sum_weights f.servers (pos 0) ≡ none =
      subst (λ xs. sum_weights xs (pos 0) ≡ none) (sym split)
        (sum_weights_negative before behind s (pos 0) negative) in
    elim (Bool-cases (f.failed)) [
      | inl bad ↦ rw bad (refl, refl, refl)
      | inr read ↦ rw (read, refused, check_config) (refl, refl, refl)
    ]
