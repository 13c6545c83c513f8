-- ===== src/Common/Papi/Tsx.antt =====
-- common/ada_binding/papi/binding.cpp: `PAPI_start_tsx` and `PAPI_end_tsx`, call by call. The PAPI
-- library is a parameter, which may answer by all calls before.
use Prim.Native.String.{String}
use mathlib.Core.List.{append-nil}
use shm_sync.Prelude.{
  ℕ, ◌≡◌, ◌⊎◌, inl, inr, Bool, true, false, if◌then◌else◌, List, [], ◌∷◌, ◌++◌, map, get_or, refl,
  sym, ap, ◌∙◌, Bool-cases,
}

pub data Call : Type 0 where
  library_init : Call
  create_eventset : Call
  assign_eventset_component : (event_set component : ℕ) → Call
  set_opt_inherit : (event_set : ℕ) → Call
  event_name_to_code : String → Call
  add_events : (event_set : ℕ) → List ℕ → Call
  start : (event_set : ℕ) → Call
  read : (event_set : ℕ) → Call
  stop : (event_set : ℕ) → Call

-- What `printf` is given: a text, the error with the name of an event, or the three counters.
pub data Message : Type 0 where
  plain : String → Message
  coding_error : String → Message
  report : List ℕ → Message

-- Whether a call returns `PAPI_OK` (`library_init`: the version asked for), given the calls before;
-- the event set that `PAPI_create_eventset` makes, the codes of events, and the counters.
pub record Papi : Type 0 where
  pub ok : List Call → Call → Bool
  pub null : ℕ
  pub new_eventset : List Call → ℕ
  pub code_of : String → ℕ
  pub counters : List Call → List ℕ

-- The calls made, the text printed, and the caller's `*eventSet`.
pub record Session : Type 0 where
  pub calls : List Call
  pub printed : List Message
  pub event_set : ℕ

abbrev pub cpu_events : List String
cpu_events =
    "CPU_CLK_UNHALTED" ∷ "CPU_CLK_UNHALTED:intx=1" ∷ "CPU_CLK_UNHALTED:intx=1:intxcp=1" ∷ []

abbrev pub cpu_event : ℕ → String
cpu_event i = get_or cpu_events i ""

module _ (papi : Papi) where
  -- `if (call != PAPI_OK) { printf(...); return; }` and what follows it.
  abbrev pub attempt : Call → Message → (Session → Session) → Session → Session
  attempt call message further s =
      if papi.ok s.calls call
      then further (record s { calls = s.calls ++ (call ∷ []) })
      else record s { calls = s.calls ++ (call ∷ []); printed = s.printed ++ (message ∷ []) }

  -- A row of such steps, and what follows them.
  abbrev pub chain : List (Call × Message) → (Session → Session) → Session → Session
  chain [] further s = further s
  chain ((call, message) ∷ steps) further s = attempt call message (chain steps further) s

  pub papi_setup : Session → Session
  papi_setup = attempt library_init (plain "PAPI library init error\n") (λ s. s)

  abbrev code_step : ℕ → Call × Message
  code_step i = (event_name_to_code (cpu_event i), coding_error (cpu_event i))

  -- The steps that follow the creation of the event set.
  abbrev pub configure_steps : ℕ → List (Call × Message)
  configure_steps set =
      (assign_eventset_component set 0, plain "PAPI_assign_eventset_component error\n")
      ∷ (set_opt_inherit set, plain "PAPI_set_opt error\n")
      ∷ code_step 0
      ∷ code_step 1
      ∷ code_step 2
      ∷ (add_events set (map papi.code_of cpu_events), plain "PAPI add_events error\n")
      ∷ (start set, plain "PAPI start error\n")
      ∷ []

  unfoldable pub papi_start_tsx : Session → Session
  papi_start_tsx s =
      attempt create_eventset (plain "PAPI library init error\n")
        (λ t.
          let set = papi.new_eventset s.calls in
          chain (configure_steps set) (λ r. r) (record t { event_set = set }))
        (record s { event_set = papi.null })

  pub papi_end_tsx : Session → Session
  papi_end_tsx s =
      chain
        ((read s.event_set, plain "PAPI read error\n")
          ∷ (stop s.event_set, plain "PAPI stop error\n")
          ∷ [])
        (λ t. record t { printed = t.printed ++ (report (papi.counters t.calls) ∷ []) }) s

  -- The steps are done in order up to the first that fails: its message is printed and nothing more
  -- is called. If none fails, `after` is printed.
  abbrev pub Follows :
      List (Call × Message)
      → (Session → List Message)
      → (calls : List Call) (printed : List Message) → Session
      → Type 0
  Follows [] after calls printed r = (r.calls ≡ calls) × (r.printed ≡ printed ++ after r)
  Follows ((call, message) ∷ steps) after calls printed r =
      ((papi.ok calls call ≡ true) × Follows steps after (calls ++ (call ∷ [])) printed r)
      ⊎ ((papi.ok calls call ≡ false)
          × (r.calls ≡ calls ++ (call ∷ []))
          × (r.printed ≡ printed ++ (message ∷ [])))

  chain-Follows :
      (steps : List (Call × Message)) (after : Session → List Message) (further : Session → Session)
      (s : Session)
      → ((t : Session)
          → (t.printed ≡ s.printed)
          → ((further t).calls ≡ t.calls) × ((further t).printed ≡ s.printed ++ after (further t)))
      → Follows steps after s.calls s.printed (chain steps further s)
  chain-Follows [] after further s h = h s refl
  chain-Follows ((call, message) ∷ steps) after further s h =
      elim (Bool-cases (papi.ok s.calls call)) [
        | inl e ↦ rw e (
            inl (
              refl,
              chain-Follows steps after further (record s { calls = s.calls ++ (call ∷ []) }) h,
            ))
        | inr e ↦ rw e (inr (refl, refl, refl))
      ]

  chain-event_set :
      (steps : List (Call × Message)) (s : Session)
      → (chain steps (λ r. r) s).event_set ≡ s.event_set
  chain-event_set [] s = refl
  chain-event_set ((call, message) ∷ steps) s = elim (Bool-cases (papi.ok s.calls call)) [
    | inl e ↦ rw e (chain-event_set steps (record s { calls = s.calls ++ (call ∷ []) }))
    | inr e ↦ rw e refl
  ]

  -- The calls of `PAPI_start_tsx` with their error messages, for the event set made by the first.
  abbrev pub start_steps : ℕ → List (Call × Message)
  start_steps set =
      (create_eventset, plain "PAPI library init error\n")
      ∷ (assign_eventset_component set 0, plain "PAPI_assign_eventset_component error\n")
      ∷ (set_opt_inherit set, plain "PAPI_set_opt error\n")
      ∷ (event_name_to_code (cpu_event 0), coding_error (cpu_event 0))
      ∷ (event_name_to_code (cpu_event 1), coding_error (cpu_event 1))
      ∷ (event_name_to_code (cpu_event 2), coding_error (cpu_event 2))
      ∷ (add_events set (map papi.code_of cpu_events), plain "PAPI add_events error\n")
      ∷ (start set, plain "PAPI start error\n")
      ∷ []

  abbrev pub end_steps : ℕ → List (Call × Message)
  end_steps set = (read set, plain "PAPI read error\n") ∷ (stop set, plain "PAPI stop error\n") ∷ []

  start_tsx-Follows :
      (s : Session)
      → Follows
          (start_steps (papi.new_eventset s.calls))
          (λ _. [])
          s.calls
          s.printed
          (papi_start_tsx s)
  unfolding papi_start_tsx
  start_tsx-Follows s = elim (Bool-cases (papi.ok s.calls create_eventset)) [
    | inl e ↦
        let set = papi.new_eventset s.calls in
        rw e (
          inl (
            refl,
            chain-Follows (configure_steps set) (λ _. []) (λ r. r)
                (record s { calls = s.calls ++ (create_eventset ∷ []); event_set = set })
                (λ t same. (refl, same ∙ sym (append-nil s.printed))),
          ))
    | inr e ↦ rw e (inr (refl, refl, refl))
  ]

  start_tsx-event_set :
      (s : Session)
      → (papi_start_tsx s).event_set
        ≡ (if papi.ok s.calls create_eventset then papi.new_eventset s.calls else papi.null)
  unfolding papi_start_tsx
  start_tsx-event_set s = elim (Bool-cases (papi.ok s.calls create_eventset)) [
    | inl e ↦ rw e (chain-event_set (configure_steps (papi.new_eventset s.calls)) _)
    | inr e ↦ rw e refl
  ]

  end_tsx-Follows :
      (s : Session)
      → Follows
          (end_steps s.event_set)
          (λ r. report (papi.counters r.calls) ∷ [])
          s.calls
          s.printed
          (papi_end_tsx s)
  unfolding papi_end_tsx
  end_tsx-Follows s =
      chain-Follows (end_steps s.event_set) (λ r. report (papi.counters r.calls) ∷ [])
        (λ t. record t { printed = t.printed ++ (report (papi.counters t.calls) ∷ []) }) s
        (λ t same. (refl, ap (λ p. p ++ (report (papi.counters t.calls) ∷ [])) same))

  -- `PAPI_start_tsx` makes its eight calls in order up to the first that fails; then it prints the
  -- error message of that call and makes no other, and without a failure it prints nothing. The
  -- caller has the new event set exactly if the first call succeeds, else `PAPI_NULL`.
  -- `PAPI_end_tsx` does the same with its two calls, and prints the counters if both succeed.
  pub tsx_errors :
      (s : Session)
      → Follows
          (start_steps (papi.new_eventset s.calls))
          (λ _. [])
          s.calls
          s.printed
          (papi_start_tsx s)
        × ((papi_start_tsx s).event_set
            ≡ (if papi.ok s.calls create_eventset then papi.new_eventset s.calls else papi.null))
        × Follows
            (end_steps s.event_set)
            (λ r. report (papi.counters r.calls) ∷ [])
            s.calls
            s.printed
            (papi_end_tsx s)
  unfolding papi_start_tsx papi_end_tsx
  tsx_errors s = (start_tsx-Follows s, start_tsx-event_set s, end_tsx-Follows s)
