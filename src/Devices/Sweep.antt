-- ===== src/Devices/Sweep.antt =====
-- apps/api/src/devices/device-jobs.service.ts: what the end of a job's time does to its money.
use Prim.Native.String.{String}
use pay.Shared.{
  ℕ, ◌≡◌, ap, ◌∙◌, true, false, ◌||◌, Option, none, some, arith, find, find-modify-some, Result, ok,
  >>=-eq-ok, ok_injective, if-cases, inl, inr, is_some,
}
use pay.Ledger.{Books}
use pay.Store.{
  Db, Transfer, TransferAttempt, TransferStatus, DeviceJob, SimWallet, is_active_job,
  is_settled_or_held,
}
use pay.Withdrawals.Frames.{SameCore, frame-linked}
use pay.Withdrawals.Resolution.{SameLedger, status_of}
use pay.Withdrawals.{release_funds, unreserve, physical_reservation, LinkedStatus}
use pay.Devices.Rules.{hold_unknown, release_precommit, job_expiry_disposition, ExpiryDisposition}
use pay.Devices.Expiry.{by_expiry, expire_job, hold_as_unknown, release_expired}
use pay.Devices.Frames.{SameFunds, SameFunds-refl, reserved_of}

module _ (now job_id : ℕ) (code : String) (j : DeviceJob) (attempt_id : ℕ) (a : TransferAttempt)
    (t : Transfer) (db : Db) where
  pub SameFunds-hold : SameFunds db (hold_as_unknown now job_id code j attempt_id a t db)
  unfolding SameFunds hold_as_unknown SameCore
  SameFunds-hold =
      let (books, sims, _, _, _) = frame-linked now a.transfer_id LinkedStatus.unknown _ in
      (
        ap (λ (x : Books). x.accounts) books,
        ap (λ (x : Books). x.journals) books,
        ap (λ (x : Books). x.entries) books,
        λ k. ap (λ x. reserved_of (find k x)) sims,
      )

  pub hold_as_unknown-status :
      find a.transfer_id db.transfers ≡ some t
      → status_of
          (find a.transfer_id (hold_as_unknown now job_id code j attempt_id a t db).transfers)
        ≡ some TransferStatus.unknown
  unfolding hold_as_unknown SameCore
  hold_as_unknown-status row =
      let (_, _, transfers, _, _) = frame-linked now a.transfer_id LinkedStatus.unknown _ in
      ap status_of
        (ap (find a.transfer_id) transfers ∙ find-modify-some a.transfer_id _ db.transfers row)

delivered-holds :
    (j : DeviceJob)
    → (is_active_job j.state || is_some j.committed_at) ≡ true
    → job_expiry_disposition j.state j.committed_at ≡ hold_unknown
unfolding job_expiry_disposition
delivered-holds j h = ground arith

undelivered-releases :
    (j : DeviceJob)
    → (is_active_job j.state || is_some j.committed_at) ≡ false
    → job_expiry_disposition j.state j.committed_at ≡ release_precommit
unfolding job_expiry_disposition
undelivered-releases j h = ground arith

by_expiry-held :
    (d : ExpiryDisposition) (held released : Result Db) (db : Db)
    → d ≡ hold_unknown
    → by_expiry d held released ≡ ok db
    → held ≡ ok db
by_expiry-held hold_unknown held released db e h = h
by_expiry-held release_precommit held released db e h = cc

by_expiry-released :
    (d : ExpiryDisposition) (held released : Result Db) (db : Db)
    → d ≡ release_precommit
    → by_expiry d held released ≡ ok db
    → released ≡ ok db
by_expiry-released hold_unknown held released db e h = cc
by_expiry-released release_precommit held released db e h = h

module _ (now job_id : ℕ) (j : DeviceJob) (db db' : Db) where
  -- The sweeper moves no money for a job that a device has had: where the job had been leased or
  -- had a commit time, the ledger and the reserved balances stay, whatever the transfer's status.
  pub expire_job-holds :
      (linked : Option (ℕ × TransferAttempt × Transfer))
      → (is_active_job j.state || is_some j.committed_at) ≡ true
      → expire_job now job_id j linked db ≡ ok db'
      → SameFunds db db'
  unfolding expire_job SameFunds
  expire_job-holds none delivered h = rw (← ok_injective h) (SameFunds-refl db)
  expire_job-holds (some (attempt_id, a, t)) delivered h =
      elim (if-cases (is_settled_or_held t.status) _ _ _ h) [
        | inl (_, e) ↦ rw (← ok_injective e) (SameFunds-refl db)
        | inr (_, e) ↦
            let held =
              by_expiry-held (job_expiry_disposition j.state j.committed_at) _ _ db'
                (delivered-holds j delivered) e in
            rw (← ok_injective held) (
              SameFunds-hold now job_id "JOB_EXPIRED_AFTER_START_POSSIBLE_COMMIT" j attempt_id a t
                db)
      ]

  -- A job that no device has had gives back at its end exactly what its transfer held: the
  -- ledger's release is posted, the reserved balance of the job's SIM falls by the physical
  -- reservation, and the transfer fails.
  pub expire_job-releases :
      (attempt_id : ℕ) (a : TransferAttempt) (t : Transfer) (s : SimWallet)
      → find a.transfer_id db.transfers ≡ some t
      → find j.sim_wallet_id db.sims ≡ some s
      → is_settled_or_held t.status ≡ false
      → (is_active_job j.state || is_some j.committed_at) ≡ false
      → expire_job now job_id j (some (attempt_id, a, t)) db ≡ ok db'
      → ((b : Books) × (release_funds a.transfer_id t db.books ≡ ok b) × SameLedger b db'.books)
        × (find j.sim_wallet_id db'.sims ≡ some (unreserve (physical_reservation t) s))
        × (status_of (find a.transfer_id db'.transfers) ≡ some TransferStatus.failed)
  unfolding expire_job release_expired SameCore SameLedger
  expire_job-releases attempt_id a t s row wallet pending undelivered h =
      elim (if-cases (is_settled_or_held t.status) _ _ _ h) [
        | inl (settled, _) ↦ cc
        | inr (_, e) ↦
            let freed =
              by_expiry-released (job_expiry_disposition j.state j.committed_at) _ _ db'
                (undelivered-releases j undelivered) e in
            let id = a.transfer_id in
            let (ended, done, last) =
              >>=-eq-ok (release_expired now job_id j attempt_id a t db) _ freed in
            let (b, released, last') = >>=-eq-ok (release_funds id t db.books) _ done in
            let (books, sims, transfers, _, _) = frame-linked now id LinkedStatus.failed _ in
            rw (← ok_injective last, ← ok_injective last')
              (
                (
                  b,
                  released,
                  (
                    ap (λ (x : Books). x.accounts) books,
                    ap (λ (x : Books). x.journals) books,
                    ap (λ (x : Books). x.entries) books,
                  ),
                ),
                ap (find j.sim_wallet_id) sims ∙ find-modify-some j.sim_wallet_id _ db.sims wallet,
                ap status_of (ap (find id) transfers ∙ find-modify-some id _ db.transfers row),
              )
      ]
