-- ===== src/Common/Papi/Tests.antt =====
-- A library that knows no event in transactions, and the times of three threads.
use text.Mathlib.Text as Text
use shm_sync.Prelude.{
  ℕ, pos, negsuc, int_leb, ◌≡◌, ◌<◌, ◌==◌, Bool, true, if◌then◌else◌, [], ◌∷◌, refl, arith,
}
use shm_sync.Common.Papi.Tsx.{
  Call, create_eventset, assign_eventset_component, set_opt_inherit, event_name_to_code,
  coding_error, report, Papi, Session, cpu_event, Follows, start_steps, end_steps, papi_start_tsx,
  papi_end_tsx, tsx_errors,
}
use shm_sync.Common.Papi.Clock.{
  Times, max_nr_threads, papi_get_nsec, papi_measure, papi_measure_longest,
}

abbrev knows : Call → Bool
knows (event_name_to_code name) = Text.◌==◌ name (cpu_event 0)
knows _ = true

abbrev no_transactions : Papi
no_transactions = record {
  ok = λ calls call. knows call;
  null = 99;
  new_eventset = λ calls. 5;
  code_of = λ name. 7;
  counters = λ calls. 30 ∷ 20 ∷ 10 ∷ [];
}

abbrev fresh : Session
fresh = record { calls = []; printed = []; event_set = 0 }

stops : papi_start_tsx no_transactions fresh ≡ record {
  calls =
      create_eventset
      ∷ assign_eventset_component 5 0
      ∷ set_opt_inherit 5
      ∷ event_name_to_code (cpu_event 0)
      ∷ event_name_to_code (cpu_event 1)
      ∷ [];
  printed = coding_error (cpu_event 1) ∷ [];
  event_set = 5;
}
unfolding papi_start_tsx
stops = refl

tsx_errors_example :
    Follows no_transactions
      (start_steps no_transactions 5)
      (λ _. [])
      []
      []
      (papi_start_tsx no_transactions fresh)
    × ((papi_start_tsx no_transactions fresh).event_set ≡ 5)
    × Follows no_transactions
        (end_steps no_transactions 0)
        (λ r. report (30 ∷ 20 ∷ 10 ∷ []) ∷ [])
        []
        []
        (papi_end_tsx no_transactions fresh)
tsx_errors_example = tsx_errors no_transactions fresh

-- Threads 0, 1 and 2 take 3, 8 and 5 nanoseconds; thread 3 has started and not ended.
abbrev three_threads : Times
three_threads = λ i. record {
  began = if i == 3 then 4 else 0;
  ended = if i == 0 then 3 else if i == 1 then 8 else if i == 2 then 5 else 0;
  elapsed = pos 0;
}

unfinished : papi_get_nsec 3 three_threads ≡ negsuc 3
unfinished = refl

papi_measure_longest_example :
    let (longest, t') = papi_measure three_threads in
    ((j : ℕ) × (j < max_nr_threads) × (longest ≡ papi_get_nsec j three_threads))
    × (int_leb (papi_get_nsec 2 three_threads) longest ≡ true)
    × ((t' 2).elapsed ≡ papi_get_nsec 2 three_threads)
    × ((t' 2).began ≡ 0)
    × ((t' 2).ended ≡ 5)
papi_measure_longest_example = papi_measure_longest three_threads 2 (omega arith)
