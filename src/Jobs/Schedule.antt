-- ===== src/Jobs/Schedule.antt =====
-- The next run of a time job: jobs/cron.py and jobs/time_schedule.py. Times are microseconds. The
-- matcher is `pycron.is_now`, on an expression that it accepts; the zone is given by the wall-clock minute of an instant and the
-- instant of a wall-clock minute.
use wotbot.Base.{
  ℕ, zero, suc, ◌+◌, ◌*◌, ◌≤◌, ◌<◌, String, ◌≡◌, refl, ap, ◌∙◌, inl, inr, Bool, true, false, Option,
  none, some, ltb, arith, Bool-cases, if◌then◌else◌,
}

pub data TimeSchedule : Type 0 where
  once : (run_at : ℕ) → TimeSchedule
  interval : (interval_seconds : ℕ) → TimeSchedule
  cron : (expression : String) (timezone : Option String) → TimeSchedule

-- `CRON_LOOKAHEAD_MINUTES`
abbrev pub cron_lookahead_minutes : ℕ
cron_lookahead_minutes = 5 * 366 * 24 * 60

-- The loop of `next_cron_run_at`, on wall-clock minutes.
unfoldable pub cron_search : (ℕ → Bool) → ℕ → ℕ → Option ℕ
cron_search matches zero candidate = none
cron_search matches (suc tries) candidate =
    let later = cron_search matches tries (candidate + 1) in
    if matches candidate then some candidate else later

-- `next_cron_run_at`, for an expression and a zone that are normalized; `none` is the error.
unfoldable pub next_cron_run_at : (ℕ → Bool) → (ℕ → ℕ) → (ℕ → ℕ) → ℕ → Option ℕ
unfolding cron_search
next_cron_run_at matches local_minute instant after =
    elim (cron_search matches cron_lookahead_minutes (local_minute after + 1)) [
      | none ↦ none
      | some m ↦ some (instant m)
    ]

-- `next_after` of the three classes; `cron_next` is the method of `CronSchedule`.
unfoldable pub next_after : (String → Option String → ℕ → Option ℕ) → TimeSchedule → ℕ → Option ℕ
next_after cron_next (once run_at) now = if ltb now run_at then some run_at else none
next_after cron_next (interval interval_seconds) now = some (now + interval_seconds * 1000000)
next_after cron_next (cron expression timezone) now = cron_next expression timezone now

-- `next_run_at_for_schedule`
unfoldable pub next_run_at_for_schedule :
    (String → Option String → ℕ → Option ℕ) → TimeSchedule → ℕ → Bool → Option ℕ
unfolding next_after
next_run_at_for_schedule cron_next schedule now enabled =
    if enabled then next_after cron_next schedule now else none

-- The first of `tries` minutes from `c` on that matches.
abbrev pub IsFirst : (ℕ → Bool) → ℕ → ℕ → ℕ → Type 0
IsFirst matches tries c m =
    (c ≤ m) × (m < c + tries) × (matches m ≡ true) × ((i : ℕ) → c ≤ i → i < m → matches i ≡ false)

abbrev pub Searched : (ℕ → Bool) → ℕ → ℕ → Option ℕ → Type 0
Searched matches tries c none = (i : ℕ) → c ≤ i → i < c + tries → matches i ≡ false
Searched matches tries c (some m) = IsFirst matches tries c m

-- A test that fails at `c` and after it fails from `c` on.
from_next :
    (matches : ℕ → Bool) (c i : ℕ)
    → matches c ≡ false
    → (c + 1 ≤ i → matches i ≡ false)
    → c ≤ i
    → matches i ≡ false
from_next matches c i miss later low = elim (Bool-cases (ltb c i)) [
  | inl e ↦ later (ground arith)
  | inr e ↦ ap matches (ground arith) ∙ miss
]

Searched-later :
    (matches : ℕ → Bool) (tries c : ℕ) (o : Option ℕ)
    → matches c ≡ false
    → Searched matches tries (c + 1) o
    → Searched matches (suc tries) c o
Searched-later matches tries c none miss h =
    λ i low high. from_next matches c i miss (λ l. h i l (omega arith)) low
Searched-later matches tries c (some m) miss (low, high, hit, first) =
    (omega arith, omega arith, hit, λ i l u. from_next matches c i miss (λ l'. first i l' u) l)

cron_search-Searched :
    (matches : ℕ → Bool) (tries c : ℕ) → Searched matches tries c (cron_search matches tries c)
unfolding cron_search
cron_search-Searched matches zero c = λ i low high. absurd (omega arith)
cron_search-Searched matches (suc tries) c = elim (Bool-cases (matches c)) [
  | inl e ↦ rw e (omega arith, omega arith, e, λ i low high. absurd (omega arith))
  | inr e ↦ rw e (
      Searched-later matches tries c (cron_search matches tries (c + 1)) e
        (cron_search-Searched matches tries (c + 1)))
]

-- What `next_cron_run_at` returns is described by the minutes after `after`.
abbrev pub NextCronRun : (ℕ → Bool) → (ℕ → ℕ) → (ℕ → ℕ) → ℕ → Option ℕ → Type 0
NextCronRun matches local_minute instant after none =
    (i : ℕ)
    → local_minute after < i
    → i ≤ local_minute after + cron_lookahead_minutes
    → matches i ≡ false
NextCronRun matches local_minute instant after (some t) =
    (m : ℕ) × (t ≡ instant m)
    × (local_minute after < m)
    × (m ≤ local_minute after + cron_lookahead_minutes)
    × (matches m ≡ true)
    × ((i : ℕ) → local_minute after < i → i < m → matches i ≡ false)

-- The next run of a cron schedule is at the first matching wall-clock minute after the current
-- one; the schedule is refused exactly when no minute of the five-year window matches.
pub next_cron_run_at-NextCronRun :
    (matches : ℕ → Bool) (local_minute instant : ℕ → ℕ) (after : ℕ)
    → NextCronRun matches local_minute instant after
        (next_cron_run_at matches local_minute instant after)
unfolding next_cron_run_at
next_cron_run_at-NextCronRun matches local_minute instant after =
    described (cron_search matches cron_lookahead_minutes (local_minute after + 1))
      (cron_search-Searched matches cron_lookahead_minutes (local_minute after + 1))
  where
    described :
        (o : Option ℕ)
        → Searched matches cron_lookahead_minutes (local_minute after + 1) o
        → NextCronRun matches local_minute instant after
            (elim o [ none ↦ none | some m ↦ some (instant m) ])
    described none h = λ i low high. h i (omega arith) (omega arith)
    described (some m) (low, high, hit, first) =
        (m, refl, omega arith, omega arith, hit, λ i l u. first i (omega arith) u)
