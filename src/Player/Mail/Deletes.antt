-- ===== src/Player/Mail/Deletes.antt =====
-- Deleting mails: what goes, and what stays.
use mm_server.Prelude.{
  suc, ◌+◌, ◌≡◌, refl, ◌∙◌, ◌≢◌, ◌⊎◌, inl, inr, Bool, Bool-cases, true, none, List, [], ◌∷◌, arith,
  beq_ne,
}
use mm_server.Prelude.Int.{ℤ, pos, int_eq}
use mm_server.Prelude.Lists.{length, All}
use mm_server.Prelude.Dict.{
  lookup, contains, erase, size, HasUniqueKeys, lookup-erase, lookup-erase_self,
  erase-HasUniqueKeys, size-erase,
}
use mm_server.Player.State.{Player}
use mm_server.Player.Mail.{Mails, delete_all, delete_mails}

-- What a deletion leaves: no mail is changed, those that were not named stay, and a deletion that
-- succeeds took one mail for each name.
record Shrunk (ids : List ℤ) (ms ms' : Mails) (ok : Bool) : Type 0 where
  same_or_gone : (j : ℤ) → (lookup j ms' ≡ lookup j ms) ⊎ (lookup j ms' ≡ none)
  unnamed : (j : ℤ) → All (λ id. id ≢ j) ids → lookup j ms' ≡ lookup j ms
  gone : ok ≡ true → All (λ id. lookup id ms' ≡ none) ids
  counted : ok ≡ true → size ms ≡ size ms' + length ids

stays_gone :
    (j : ℤ) (id : ℤ) (ms ms' : Mails)
    → (lookup j ms' ≡ lookup j (erase id ms)) ⊎ (lookup j ms' ≡ none)
    → (lookup j ms' ≡ lookup j ms) ⊎ (lookup j ms' ≡ none)
stays_gone j id ms ms' h = elim (Bool-cases (int_eq.beq id j)) [
  | inl same ↦ inr (ground (arith, lookup-erase id j ms))
  | inr other ↦ ground (arith, lookup-erase id j ms)
]

erased_gone :
    (id : ℤ) (ms ms' : Mails)
    → (lookup id ms' ≡ lookup id (erase id ms)) ⊎ (lookup id ms' ≡ none)
    → lookup id ms' ≡ none
erased_gone id ms ms' (inl same) = same ∙ lookup-erase_self id ms
erased_gone id ms ms' (inr none_left) = none_left

delete_all-Shrunk :
    (ids : List ℤ) (ms : Mails)
    → HasUniqueKeys ms
    → let (ms', ok) = delete_all ids ms in Shrunk ids ms ms' ok
unfolding delete_all
delete_all-Shrunk [] ms unique = record {
  same_or_gone = λ j. inl refl;
  unnamed = λ j _. refl;
  gone = λ _. tt;
  counted = λ _. omega arith;
}
delete_all-Shrunk (id ∷ ids) ms unique = elim (Bool-cases (contains id ms)) [
  | inl there ↦ rw there (
      let s = delete_all-Shrunk ids (erase id ms) (erase-HasUniqueKeys id ms unique) in
      let smaller : size ms ≡ suc (size (erase id ms)) = rw there at (size-erase id ms unique) in
      record {
        same_or_gone = λ j. stays_gone j id ms _ (s.same_or_gone j);
        unnamed = λ j h. s.unnamed j h.1 ∙ (rw (lookup-erase, beq_ne int_eq id j h.0) refl);
        gone = λ done. (erased_gone id ms _ (s.same_or_gone id), s.gone done);
        counted = λ done. omega (arith, smaller, s.counted done);
      })
  | inr missing ↦ rw missing (record {
    same_or_gone = λ j. inl refl;
    unnamed = λ j _. refl;
    gone = λ done. absurd (ground arith);
    counted = λ done. absurd (ground arith);
  })
]

-- The outcome of `DeleteMails`: it reports success and each named mail is gone, one mail to a name,
-- or it reports an error and sends nothing.
pub record Deleted (ids : List ℤ) (p q : Player) (r : ℤ) : Type 0 where
  pub same_or_gone :
      (j : ℤ)
      → (lookup j q.mail_box.mails ≡ lookup j p.mail_box.mails) ⊎ (lookup j q.mail_box.mails ≡ none)
  pub unnamed :
      (j : ℤ) → All (λ id. id ≢ j) ids → lookup j q.mail_box.mails ≡ lookup j p.mail_box.mails
  pub outcome :
      ((r ≡ pos 1)
        × All (λ id. lookup id q.mail_box.mails ≡ none) ids
        × (size p.mail_box.mails ≡ size q.mail_box.mails + length ids))
      ⊎ ((r ≢ pos 1) × (q.effects ≡ p.effects))

-- `DeleteMails`, on a box with one mail to an id, changes no mail and takes only mails that are
-- named. If it reports success, all of them are gone, and there are as many mails fewer as names;
-- otherwise it sends nothing.
pub delete_mails-Deleted :
    (ids : List ℤ) (p : Player)
    → HasUniqueKeys p.mail_box.mails
    → let (q, r) = delete_mails ids p in Deleted ids p q r
unfolding delete_mails
delete_mails-Deleted [] p unique = record {
  same_or_gone = λ j. inl refl;
  unnamed = λ j _. refl;
  outcome = inr (λ e. absurd (ground arith), refl);
}
delete_mails-Deleted (id ∷ ids) p unique =
    let s = delete_all-Shrunk (id ∷ ids) p.mail_box.mails unique in
    elim (Bool-cases (delete_all (id ∷ ids) p.mail_box.mails).1) [
      | inl done ↦ rw done (record {
        same_or_gone = s.same_or_gone;
        unnamed = s.unnamed;
        outcome = inl (refl, s.gone done, s.counted done);
      })
      | inr failed ↦ rw failed (record {
        same_or_gone = s.same_or_gone;
        unnamed = s.unnamed;
        outcome = inr (λ e. absurd (ground arith), refl);
      })
    ]
