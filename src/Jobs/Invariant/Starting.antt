-- ===== src/Jobs/Invariant/Starting.antt =====
-- Starting a run, or recording that it was skipped, keeps the tables consistent.
use wotbot.Base.{
  ℕ, String, ◌≡◌, inl, inr, refl, sym, ap, ◌∙◌, Bool, true, false, not, ◌&&◌, Option, none, some,
  arith, Bool-cases, Option-cases, truthy,
}
use wotbot.Base.Dict.{insert}
use wotbot.Json.{Json}
use wotbot.Jobs.Enums.{JobRunSource, in_progress, is_manual}
use wotbot.Jobs.Records.{
  JobRow, RunRow, Db, Result, ◌>>=◌, get_job, get_run, save_run, add_run, has_active_run,
}
use wotbot.Jobs.Start.{
  skipped_run, skipped_job, started_job, started_run, create_skipped_run, start_locked,
  try_start_job_run,
}
use wotbot.Jobs.Invariant.{IsTidy, IsConsistent, CommitsConsistent, Respects, Respects-IsConsistent}

no_active :
    (row : JobRow) (i : String)
    → row.active_run_id ≡ some i
    → truthy (some i) ≡ true
    → has_active_run row ≡ false
    → ⊥
unfolding has_active_run
no_active row i a t h = ground arith

add_run-Consistent {ℓ} :
    {A : Type ℓ} (Late : String → Type 0) (r : RunRow) (db : Db) (f : Db → Result (A × Db))
    → (get_run db r.id ≡ none → CommitsConsistent Late (f (save_run r db)))
    → CommitsConsistent Late (add_run r db >>= f)
unfolding add_run
add_run-Consistent Late r db f h = go (get_run db r.id) refl
  where
    go : (o : Option RunRow) → get_run db r.id ≡ o → CommitsConsistent Late (add_run r db >>= f)
    go none e = rw (e, add_run) (h e)
    go (some x) e = rw (e, add_run) tt

module _ {Late : String → Type 0} (db : Db) (k j : String) (row : JobRow) (source : JobRunSource)
    (payload : Json) (now : ℕ) (before : IsConsistent Late db) (found : get_job db k ≡ some row)
    (named : truthy (some j) ≡ true) where
  -- A new run that has ended already, of a job whose active run stays.
  ended_run-Respects :
      (row' : JobRow) (r' : RunRow)
      → get_run db j ≡ none
      → row'.id ≡ row.id
      → r'.id ≡ j
      → r'.job_id ≡ row.id
      → in_progress r'.status ≡ false
      → row'.active_run_id ≡ row.active_run_id
      → IsTidy row'
      → Respects Late db k j row row' r'
  ended_run-Respects row' r' new same_id same_run own ended same_active tidy = record {
    found = found;
    job_id = same_id ∙ before.job_id k row found;
    run_id = (same_run, named);
    owner = own ∙ before.job_id k row found;
    tidy = tidy;
    same_owner = λ x h. cc (new, h);
    active = λ i h. inr (sym same_active ∙ h);
    progress = λ h. cc (h, ended);
    others = λ i x ne h pr a. inr (same_active ∙ a);
  }

  skipped-IsTidy : (reason : String) (shown : Bool) → IsTidy (skipped_job row j now reason shown)
  skipped-IsTidy reason true =
      let t = before.tidy k row found in record { busy = λ h. cc; idle = t.idle }
  skipped-IsTidy reason false =
      let t = before.tidy k row found in record { busy = t.busy; idle = t.idle }

  skipped-Consistent :
      (reason : String) (shown : Bool)
      → CommitsConsistent Late (create_skipped_run db row j source payload now reason shown)
  unfolding create_skipped_run
  skipped-Consistent reason shown =
      add_run-Consistent Late (skipped_run row j source payload now reason) db _ λ new.
        let row' = skipped_job row j now reason shown in
        let same : row'.id ≡ row.id = ground arith in
        Respects-IsConsistent db _ k j row row' (skipped_run row j source payload now reason)
          (ap (λ z. insert z row' db.jobs) (same ∙ before.job_id k row found)) refl before
          (ended_run-Respects row' (skipped_run row j source payload now reason) new same refl refl
            refl (ground arith) (skipped-IsTidy reason shown))

  start_locked-Consistent :
      has_active_run row ≡ false → CommitsConsistent Late (start_locked db row j source payload now)
  unfolding start_locked has_active_run
  start_locked-Consistent rest =
      add_run-Consistent Late (started_run row j source payload now) db _ λ new.
        Respects-IsConsistent db _ k j row (started_job row j source now)
          (started_run row j source payload now)
          (ap (λ z. insert z (started_job row j source now) db.jobs) (before.job_id k row found))
          refl before
          (record {
            found = found;
            job_id = before.job_id k row found;
            run_id = (refl, named);
            owner = before.job_id k row found;
            tidy = record { busy = λ _. named; idle = λ h. cc };
            same_owner = λ x h. cc (new, h);
            active = λ i h. inl (ground arith);
            progress = λ _. refl;
            others = λ i x ne h pr a. absurd (no_active row i a ((before.run_id i x h).1) rest);
          })

pub try_start_job_run-IsConsistent :
    {Late : String → Type 0}
    → (db : Db) (job_id run_id : String) (source : JobRunSource) (payload : Json) (now : ℕ)
    → IsConsistent Late db
    → truthy (some run_id) ≡ true
    → CommitsConsistent Late (try_start_job_run db job_id run_id source payload now)
unfolding try_start_job_run
try_start_job_run-IsConsistent db job_id run_id source payload now before named =
    elim (Option-cases (get_job db job_id)) [
      | inl e ↦ rw e tt
      | inr (row, e) ↦ rw e (elim (Bool-cases (not (is_manual source) && not row.enabled)) [
        | inl off ↦ rw off (
            skipped-Consistent db job_id run_id row source payload now before e named
              "Job is disabled." true)
        | inr on ↦ rw on (elim (Bool-cases (has_active_run row)) [
          | inl busy ↦ rw busy (
              skipped-Consistent db job_id run_id row source payload now before e named
                "Job already has an active run." false)
          | inr rest ↦
              rw rest (
                start_locked-Consistent db job_id run_id row source payload now before e named rest)
        ])
      ])
    ]
