-- ===== src/Ledger/Written.antt =====
-- apps/api/src/ledger/ledger.service.ts: what a post leaves in the books, for another one to find.
use pay.Shared.{
  ◌||◌, Bool, ℕ, ◌≡◌, refl, ◌∙◌, inl, inr, true, false, List, [], ◌∷◌, arith, ok, >>=-eq-ok,
  ok_injective, ==_refl, ◌==◌,
}
use pay.Domain.{Environment}
use pay.Ledger.Accounts.{
  AccountKey, Posting, SourceType, source_index, LedgerJournal, Books, increment,
}
use pay.Ledger.Journal.{change, has_journal, post_entry, post_entries, post}
use pay.Ledger.Effects.{post-cases}
use pay.Ledger.Totality.{IsOpen, IsOpen-increment}

IsOpen-post_entry :
    (k : AccountKey) (j : LedgerJournal) (p : Posting) (b b' : Books)
    → post_entry j p b ≡ ok b'
    → IsOpen k b.accounts
    → IsOpen k b'.accounts
unfolding post_entry
IsOpen-post_entry k j p b b' h o =
    let (rows, e, same) = >>=-eq-ok (increment p.account (change p) b.accounts) _ h in
    rw (← ok_injective same) (IsOpen-increment k p.account (change p) b.accounts rows e o)

journals-post_entry :
    (j : LedgerJournal) (p : Posting) (b b' : Books)
    → post_entry j p b ≡ ok b'
    → b'.journals ≡ b.journals
unfolding post_entry
journals-post_entry j p b b' h =
    let (rows, e, same) = >>=-eq-ok (increment p.account (change p) b.accounts) _ h in
    rw (← ok_injective same)

IsOpen-post_entries :
    (k : AccountKey) (j : LedgerJournal) (ps : List Posting) (b b' : Books)
    → post_entries j ps b ≡ ok b'
    → IsOpen k b.accounts
    → IsOpen k b'.accounts
unfolding post_entries
IsOpen-post_entries k j [] b b' h o = rw (← ok_injective h) o
IsOpen-post_entries k j (p ∷ ps) b b' h o =
    let (b₁, e, f) = >>=-eq-ok (post_entry j p b) (post_entries j ps) h in
    IsOpen-post_entries k j ps b₁ b' f (IsOpen-post_entry k j p b b₁ e o)

pub journals-post_entries :
    (j : LedgerJournal) (ps : List Posting) (b b' : Books)
    → post_entries j ps b ≡ ok b'
    → b'.journals ≡ b.journals
unfolding post_entries
journals-post_entries j [] b b' h = rw (← ok_injective h)
journals-post_entries j (p ∷ ps) b b' h =
    let (b₁, e, f) = >>=-eq-ok (post_entry j p b) (post_entries j ps) h in
    journals-post_entries j ps b₁ b' f ∙ journals-post_entry j p b b₁ e

module _ (env : Environment) (st : SourceType) (id : ℕ) (ps : List Posting) (b b' : Books)
    (h : post env st id ps b ≡ ok b') where
  -- An account that was open stays open.
  pub IsOpen-post : (k : AccountKey) → IsOpen k b.accounts → IsOpen k b'.accounts
  IsOpen-post k o = elim (post-cases env st id ps b b' h) [
    | inl (_, same) ↦ rw same o
    | inr (_, _, written) ↦ IsOpen-post_entries k _ ps _ b' written o
  ]

  pub has_journal-post : has_journal st id b'.journals ≡ true
  unfolding has_journal
  has_journal-post = elim (post-cases env st id ps b b' h) [
    | inl (old, same) ↦ rw same old
    | inr (_, _, written) ↦
        rw (journals-post_entries _ ps _ b' written, ==_refl (source_index st), ==_refl id)
  ]

  -- A journal of another source type is there after the post only if it was there before.
  pub has_journal-post_other :
      (st' : SourceType) (id' : ℕ)
      → (source_index st' == source_index st) ≡ false
      → has_journal st' id' b.journals ≡ false
      → has_journal st' id' b'.journals ≡ false
  unfolding has_journal
  has_journal-post_other st' id' ne new = elim (post-cases env st id ps b b' h) [
    | inl (old, same) ↦ rw same new
    | inr (_, _, written) ↦ rw (journals-post_entries _ ps _ b' written, ne) new
  ]

||-true : (x : Bool) → (x || true) ≡ true
||-true true = refl
||-true false = refl

pub has_journal-post_keeps :
    (env : Environment) (st st' : SourceType) (id id' : ℕ) (ps : List Posting) (b b' : Books)
    → post env st id ps b ≡ ok b'
    → has_journal st' id' b.journals ≡ true
    → has_journal st' id' b'.journals ≡ true
unfolding has_journal
has_journal-post_keeps env st st' id id' ps b b' h old = elim (post-cases env st id ps b b' h) [
  | inl (_, same) ↦ rw same old
  | inr (_, _, written) ↦ rw (journals-post_entries _ ps _ b' written, old) (||-true _)
]

-- a journal that has been posted is posted again with no effect, on any books that have it
pub post-again :
    (env : Environment) (st : SourceType) (id : ℕ) (ps : List Posting) (start b' b : Books)
    → post env st id ps start ≡ ok b'
    → has_journal st id b.journals ≡ true
    → post env st id ps b ≡ ok b
unfolding post
post-again env st id ps start b' b h old = ground (arith, h, old)
