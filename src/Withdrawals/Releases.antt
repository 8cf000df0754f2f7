-- ===== src/Withdrawals/Releases.antt =====
-- apps/api/src/withdrawals/withdrawals.service.ts: how a cancellation and a manual resolution end a
-- transfer, in its status, in the ledger and on its SIM.
use Prim.Native.String.{String}
use pay.Shared.{
  ℕ, ◌≡◌, refl, sym, ap, ◌∙◌, true, Option, none, some, find, find-modify-some, ok, or_throw,
  require, >>=-eq-ok, require-eq-ok, or_throw-eq-ok, ok_injective, some_injective,
}
use pay.Shared.Int.{ℤ, ◌-ℤ◌}
use pay.Store.{
  Db, Transfer, TransferStatus, SimWallet, is_before_start, DeviceJobState, AttemptOutcome,
}
use pay.Withdrawals.Funds.{
  release_funds, physical_reservation, release_sim, latest_attempt, unreserve, LinkedStatus,
}
use pay.Withdrawals.Staff.{cancel_before_start, close_attempt, job_allows, is_queued_job, job_of}
use pay.Withdrawals.Frames.{SameCore, SameMoney, frame-linked, frame-close_attempt}

frame-release_sim :
    (o : Option ℕ) (x : ℤ) (db : Db)
    → ((release_sim o x db).books ≡ db.books) × ((release_sim o x db).transfers ≡ db.transfers)
frame-release_sim none x db = (refl, refl)
frame-release_sim (some sim) x db = (refl, refl)

release_sim-released :
    (o : Option ℕ) (x : ℤ) (db : Db) (sim : ℕ) (s : SimWallet)
    → o ≡ some sim
    → find sim db.sims ≡ some s
    → find sim (release_sim o x db).sims ≡ some (unreserve x s)
release_sim-released o x db sim s held wallet = rw held (find-modify-some sim _ db.sims wallet)

-- A cancellation that succeeds was of a transfer that no device had started: its funds are
-- released in the ledger, its SIM's reserved balance falls by what the transfer held there, and
-- it is cancelled.
pub cancel_before_start-releases :
    (now id : ℕ) (reason : String) (actor : ℕ) (db db' : Db) (t : Transfer) (sim : ℕ)
    (s : SimWallet)
    → find id db.transfers ≡ some t
    → t.sim_wallet_id ≡ some sim
    → find sim db.sims ≡ some s
    → cancel_before_start now id reason actor db ≡ ok db'
    → (is_before_start t.status ≡ true)
      × (job_allows is_queued_job (job_of (latest_attempt id db.attempts) db) ≡ true)
      × (release_funds id t db.books ≡ ok db'.books)
      × (find sim db'.sims
          ≡ some (record s {
            reserved_balance_minor = s.reserved_balance_minor -ℤ physical_reservation t;
          }))
      × (find id db'.transfers
          ≡ some (record t { status = TransferStatus.cancelled; completed_at = some now }))
unfolding cancel_before_start SameCore SameMoney
cancel_before_start-releases now id reason actor db db' t sim s row held wallet h =
    let (u, e, f) = >>=-eq-ok (or_throw (find id db.transfers) _) _ h in
    let same = some_injective (sym row ∙ or_throw-eq-ok _ _ e) in
    let (_, before, g) = >>=-eq-ok (require (is_before_start u.status) _) _ f in
    let attempt = latest_attempt id db.attempts in
    let (_, queued, k) = >>=-eq-ok (require (job_allows is_queued_job (job_of attempt db)) _) _ g in
    let (books', released, last) = >>=-eq-ok (release_funds id u db.books) _ k in
    let opened : Db = record db { books = books' } in
    let freed = release_sim u.sim_wallet_id (physical_reservation u) opened in
    let closed =
      close_attempt now DeviceJobState.cancelled AttemptOutcome.cancelled
        (some "PLATFORM_CANCELLED_PRECOMMIT") attempt freed in
    let (books₁, sims₁, transfers₁) =
      frame-close_attempt now DeviceJobState.cancelled AttemptOutcome.cancelled
        (some "PLATFORM_CANCELLED_PRECOMMIT") attempt freed in
    let (books₂, transfers₂) = frame-release_sim u.sim_wallet_id (physical_reservation u) opened in
    let (books₃, sims₃, transfers₃, _, _) = frame-linked now id LinkedStatus.failed _ in
    rw (← ok_injective last, same)
      (
        require-eq-ok _ _ before,
        require-eq-ok _ _ queued,
        released ∙ ap ok (sym (books₃ ∙ books₁ ∙ books₂)),
        ap (find sim) (sims₃ ∙ sims₁)
            ∙ release_sim-released u.sim_wallet_id _ opened sim s (rw (sym same) held) wallet,
        ap (find id) transfers₃
            ∙ find-modify-some id _ closed.transfers
                (ap (find id) (transfers₁ ∙ transfers₂) ∙ row ∙ ap some same),
      )
