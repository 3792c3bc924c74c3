-- ===== src/Ranks/Runs.antt =====
-- Runs of calls of the short ranking list, and its queries (src/libs/utils/short_ranklist.go).
use mm_server.Prelude.{
  ℕ, suc, ◌≤◌, ◌<◌, ◌≡◌, refl, sym, ap, subst, ◌∙◌, Option-cases, inl, inr, Bool, true, false,
  Option, none, some, List, [], ◌∷◌, ltb, ◌==◌, Eq, arith, lt→ltb,
}
use mm_server.Prelude.Fault.{◌>>=◌, Returns, Returns-map, Returns->>=}
use mm_server.Prelude.Dict.{lookup}
use mm_server.Ranks.{
  ShortRankItem, ShortRankList, Request, serve, serve_all, init, update, delete, clear, get_rank,
  get_by_rank, shown,
}
use mm_server.Ranks.Order.{IsOrder, IsRanking, view, view_at, view_missing}
use mm_server.Ranks.Update.{Updated, Settled, Tried, update-Updated}
use mm_server.Ranks.Delete.{Removed, delete-Removed}

module _ {A K V : Type 0} ⦃e : Eq K⦄ (ops : ShortRankItem A K V) where
  empty-IsRanking :
      (max : ℕ)
      → IsRanking ops (record { items = λ i. none; max_num = max; curr_num = 0; keys_map = [] })
  unfolding lookup
  empty-IsRanking max = record {
    room = omega arith;
    linked = record {
      full = λ i low h. absurd (omega arith);
      back = λ k i x low h. absurd (omega arith);
    };
    inside = λ k i found. absurd (ground arith);
    sorted = λ i j x y lt h here there. absurd (omega arith);
  }

  positive : (max : ℕ) → 0 < max → (max == 0) ≡ false
  positive max h = ground arith

  Settled-IsRanking :
      (b : Bool) (l : ShortRankList A K) (new : A) (r : ShortRankList A K × Bool)
      → IsRanking ops l
      → Settled ops b l new r
      → IsRanking ops r.0
  Settled-IsRanking true l new r k h = h.0.ranking
  Settled-IsRanking false l new r k h = subst (IsRanking ops) (sym h.0) k

  Tried-IsRanking :
      (b : Bool) (l : ShortRankList A K) (new : A) (r : ShortRankList A K × Bool)
      → IsRanking ops l
      → Tried ops b l new r
      → IsRanking ops r.0
  Tried-IsRanking false l new r k h = h.0.ranking
  Tried-IsRanking true l new r k h = subst (IsRanking ops) (sym h.0) k

  Updated-IsRanking :
      (item : A) (add : Bool) (l : ShortRankList A K) (o : Option A) (r : ShortRankList A K × Bool)
      → IsRanking ops l
      → Updated ops item add l o r
      → IsRanking ops r.0
  Updated-IsRanking item add l none r k h = Tried-IsRanking _ l _ r k h
  Updated-IsRanking item add l (some old) r k h = Settled-IsRanking _ l _ r k h

  Removed-IsRanking :
      (l : ShortRankList A K) (key : K) (o : Option A) (r : ShortRankList A K × Bool)
      → IsRanking ops l
      → Removed ops l key o r
      → IsRanking ops r.0
  Removed-IsRanking l key none r k h = subst (IsRanking ops) (sym h.0) k
  Removed-IsRanking l key (some old) r k h = h.0.ranking

  module _ (order : IsOrder ops) where
    serve-IsRanking :
        (q : Request A K) (l : ShortRankList A K)
        → IsRanking ops l
        → Returns (serve ops q l) (λ r. IsRanking ops r.0)
    unfolding serve clear
    serve-IsRanking (Request.ask_update item add) l k =
        Returns-map (update ops item add l)
          (λ r h. Updated-IsRanking item add l (view ops (ops.get_key item) l) r k h)
          (update-Updated ops order l item add k)
    serve-IsRanking (Request.ask_delete key) l k =
        Returns-map (delete ops key l) (λ r h. Removed-IsRanking l key (view ops key l) r k h)
          (delete-Removed ops l key k)
    serve-IsRanking Request.ask_clear l k = empty-IsRanking l.max_num

    serve_all-IsRanking :
        (qs : List (Request A K)) (l : ShortRankList A K)
        → IsRanking ops l
        → Returns (serve_all ops qs l) (IsRanking ops)
    unfolding serve_all
    serve_all-IsRanking [] l k = k
    serve_all-IsRanking (q ∷ qs) l k =
        Returns->>= {P = λ r. IsRanking ops r.0} (IsRanking ops) (serve ops q l) _
          (serve-IsRanking q l k) (λ r h. serve_all-IsRanking qs r.0 h)

    -- Whatever calls are made of a new list that has room for an item, none of them panics, and what
    -- comes out is a ranking.
    pub new_list-IsRanking :
        (max : ℕ) (qs : List (Request A K))
        → 0 < max
        → Returns (init ops max >>= serve_all ops qs) (IsRanking ops)
    unfolding init
    new_list-IsRanking max qs some_room =
        rw (positive max some_room) (serve_all-IsRanking qs _ (empty-IsRanking max))

  rank_of :
      (k : K) (i : ℕ) (l : ShortRankList A K)
      → lookup k l.keys_map ≡ some i
      → get_rank ops k l ≡ suc i
  unfolding get_rank
  rank_of k i l h = rw (h, get_rank) refl

  by_rank :
      (i : ℕ) (x : A) (l : ShortRankList A K)
      → i < l.curr_num
      → l.curr_num ≤ l.max_num
      → l.items i ≡ some x
      → get_by_rank ops (suc i) l ≡ some (some (ops.get_key x, ops.get_value x))
  unfolding get_by_rank shown
  by_rank i x l h room found =
      let listed : ltb l.curr_num (suc i) ≡ false = ground arith in
      rw (listed, lt→ltb i l.max_num (omega arith), found) refl

  -- Of a ranking, the rank of a key that it has is the one at which it returns that key, with the
  -- value of its item; every rank from 1 to the number of items is the rank of the key that is
  -- returned there.
  pub get_rank-get_by_rank :
      (l : ShortRankList A K)
      → IsRanking ops l
      → ((k : K) (x : A)
          → view ops k l ≡ some x
          → get_by_rank ops (get_rank ops k l) l ≡ some (some (k, ops.get_value x)))
        × ((i : ℕ)
            → i < l.curr_num
            → Returns
                (get_by_rank ops (suc i) l)
                (λ o. Returns o (λ (k, v). get_rank ops k l ≡ suc i)))
  get_rank-get_by_rank l r = (
    λ k x found. elim (Option-cases (lookup k l.keys_map)) [
      | inl missing ↦ absurd (ground (arith, view_missing ops k l missing))
      | inr (i, place) ↦
          let here = sym (view_at ops k i l place) ∙ found in
          let h = r.inside k i place in
          ap (λ n. get_by_rank ops n l) (rank_of k i l place)
          ∙ by_rank i x l h (r.room) here
          ∙ ap (λ j. some (some (j, ops.get_value x)))
              (r.linked.back k i x (omega arith) h place here)
    ],
    λ i h.
        let (x, here, place) = r.linked.full i (omega arith) h in
        rw (by_rank i x l h (r.room) here) (rank_of (ops.get_key x) i l place),
  )
