-- ===== src/Devices/Fences.antt =====
-- apps/api/src/devices/device-jobs.service.ts and apps/api/src/withdrawals/withdrawals.service.ts: the
-- fences of the jobs and the counter of each SIM that they are drawn from.
use Prim.Native.String.{String}
use pay.Shared.{
  ℕ, ◌+◌, ◌≤◌, ◌≡◌, refl, sym, ap, ◌∙◌, inl, inr, Bool-cases, Option, none, some, some_injective,
  [], ◌∷◌, ◌==◌, All, Table, find, modify, find-modify-some, find-modify_ne, ok, or_throw,
  or_throw-eq-ok, >>=-eq-ok, ok_injective, ==_iff, if-cases, arith, subst, create,
}
use pay.Store.{Db, DeviceJob, SimWallet, Transfer}
use pay.Withdrawals.{enqueue_job, new_job, next_fence}
use pay.Devices.Lease.{with_new_fence}

-- the job's fence is not above the counter of its SIM
abbrev pub IsBelow : Option SimWallet → DeviceJob → Type 0
IsBelow none j = Unit {0}
IsBelow (some s) j = j.fencing_token ≤ s.next_fencing_token

-- No job's fence is above the counter of its SIM.
unfoldable pub AreBelow : Table SimWallet → Table DeviceJob → Type 0
AreBelow sims jobs = All (λ x. IsBelow (find x.1.sim_wallet_id sims) x.1) jobs

pub find-IsBelow :
    (k : ℕ) (sims : Table SimWallet) (jobs : Table DeviceJob) (j : DeviceJob)
    → AreBelow sims jobs
    → find k jobs ≡ some j
    → IsBelow (find j.sim_wallet_id sims) j
unfolding AreBelow find
find-IsBelow k sims [] j below row = cc
find-IsBelow k sims ((i, l) ∷ jobs) j (here, rest) row = elim (if-cases (k == i) _ _ _ row) [
  | inl (_, same) ↦
      subst (λ (x : DeviceJob). IsBelow (find x.sim_wallet_id sims) x) (some_injective same) here
  | inr (_, there) ↦ find-IsBelow k sims jobs j rest there
]

module _ (sim : ℕ) (g : SimWallet → SimWallet) (sims : Table SimWallet) (s : SimWallet)
    (wallet : find sim sims ≡ some s)
    (raised : (g s).next_fencing_token ≡ s.next_fencing_token + 1) where
  IsBelow-raised :
      (i : ℕ) (j : DeviceJob) → IsBelow (find i sims) j → IsBelow (find i (modify sim g sims)) j
  IsBelow-raised i j below = elim (Bool-cases (i == sim)) [
    | inl e ↦
        let same : i ≡ sim = (==_iff i sim).0 e in
        let held : j.fencing_token ≤ s.next_fencing_token =
          subst (λ (o : Option SimWallet). IsBelow o j) (ap (λ (x : ℕ). find x sims) same ∙ wallet)
            below in
        subst (λ (o : Option SimWallet). IsBelow o j)
          (sym
            (ap (λ (x : ℕ). find x (modify sim g sims)) same ∙ find-modify-some sim g sims wallet))
          (omega (arith, held, raised))
    | inr e ↦
        subst (λ (o : Option SimWallet). IsBelow o j)
          (sym (find-modify_ne i sim g sims (ground arith))) below
  ]

  -- a counter that rises keeps every fence below
  AreBelow-raised :
      (jobs : Table DeviceJob) → AreBelow sims jobs → AreBelow (modify sim g sims) jobs
  unfolding AreBelow
  AreBelow-raised [] below = tt
  AreBelow-raised ((i, j) ∷ jobs) (here, rest) =
      (IsBelow-raised j.sim_wallet_id j here, AreBelow-raised jobs rest)

modify-AreBelow :
    (k : ℕ) (f : DeviceJob → DeviceJob) (sims : Table SimWallet) (jobs : Table DeviceJob)
    (j : DeviceJob)
    → AreBelow sims jobs
    → find k jobs ≡ some j
    → IsBelow (find (f j).sim_wallet_id sims) (f j)
    → AreBelow sims (modify k f jobs)
unfolding AreBelow find modify
modify-AreBelow k f sims [] j below row fits = tt
modify-AreBelow k f sims ((i, l) ∷ jobs) j (here, rest) row fits = elim (Bool-cases (k == i)) [
  | inl e ↦
      let same : j ≡ l = some_injective (sym (rw e at row)) in
      rw e
        (subst (λ (x : DeviceJob). IsBelow (find (f x).sim_wallet_id sims) (f x)) same fits, rest)
  | inr e ↦ rw e (here, modify-AreBelow k f sims jobs j rest (rw e at row) fits)
]

-- A new job's fence is the raised counter itself.
pub enqueue_job-AreBelow :
    (now id : ℕ) (t : Transfer) (sim number priority : ℕ) (name : Option String) (db db' : Db)
    → AreBelow db.sims db.jobs
    → enqueue_job now id t sim number priority name db ≡ ok db'
    → AreBelow db'.sims db'.jobs
unfolding enqueue_job AreBelow create
enqueue_job-AreBelow now id t sim number priority name db db' below h =
    let (s, at, done) = >>=-eq-ok (or_throw (find sim db.sims) _) _ h in
    let wallet = or_throw-eq-ok _ _ at in
    subst (λ (x : Db). AreBelow x.sims x.jobs) (ok_injective done)
      (
        subst
            (λ (o : Option SimWallet).
              IsBelow o (new_job now id t sim (s.next_fencing_token + 1) s number priority name))
            (sym (find-modify-some sim next_fence db.sims wallet)) (omega arith),
        AreBelow-raised sim next_fence db.sims s wallet refl db.jobs below,
      )

-- So is the fence of a job that gets a new one.
pub with_new_fence-AreBelow :
    (k sim : ℕ) (f : ℕ → DeviceJob → DeviceJob) (db db' : Db) (j : DeviceJob)
    → AreBelow db.sims db.jobs
    → find k db.jobs ≡ some j
    → ((fence : ℕ) → (f fence j).sim_wallet_id ≡ sim)
    → ((fence : ℕ) → (f fence j).fencing_token ≡ fence)
    → with_new_fence k sim f db ≡ ok db'
    → AreBelow db'.sims db'.jobs
unfolding with_new_fence
with_new_fence-AreBelow k sim f db db' j below row on fenced h =
    let (s, at, done) = >>=-eq-ok (or_throw (find sim db.sims) _) _ h in
    let wallet = or_throw-eq-ok _ _ at in
    let fence = s.next_fencing_token + 1 in
    let raise : SimWallet → SimWallet = λ x. record x { next_fencing_token = fence } in
    let raised = find-modify-some sim raise db.sims wallet in
    subst (λ (x : Db). AreBelow x.sims x.jobs) (ok_injective done)
      (modify-AreBelow k (f fence) (modify sim raise db.sims) db.jobs j
        (AreBelow-raised sim raise db.sims s wallet refl db.jobs below) row
        (subst (λ (o : Option SimWallet). IsBelow o (f fence j))
          (sym (ap (λ (x : ℕ). find x (modify sim raise db.sims)) (on fence) ∙ raised))
          (omega (arith, fenced fence))))
