-- ===== src/ServiceCollection.antt =====
-- src/services/ServiceCollection.ts: the providers of a service, in order of preference, and the
-- history of the calls to them. Times are milliseconds; the clock is the argument `now`. A call is a
-- value here: the source keeps a reference to it, and nothing changes it once it is recorded. The
-- conversion of dates to texts is left out.
pub mod Order
pub mod History
pub mod Tests
use Prim.Native.String.{String}
use text.Mathlib.Text.{◌==◌ as str_eq}
use wallet_toolbox_rocksdb.Base.{
  ℕ, zero, suc, ◌+◌, ◌-◌, ◌%◌, Bool, true, false, not, Option, none, some, List, [], ◌∷◌, ◌++◌, map,
  ◌==◌, if◌then◌else◌, length, get_elem?, keep_if, take,
}

abbrev pub max_call_history : ℕ
max_call_history = 32

pub record Named {ℓ} (T : Type ℓ) : Type ℓ where
  pub name : String
  pub service : T

pub record CallError : Type 0 where
  pub message : String
  pub code : String

pub record ServiceCall : Type 0 where
  pub when : ℕ
  pub msecs : ℕ
  pub success : Bool
  pub result : Option String
  pub error : Option CallError

pub record Counts : Type 0 where
  pub success : ℕ
  pub failure : ℕ
  pub error : ℕ
  pub since : ℕ
  pub until : ℕ

-- `ProviderCallHistory`. The counts of the current interval, `resetCounts[0]`, stand apart from the
-- earlier ones.
pub record ProviderHistory : Type 0 where
  pub service_name : String
  pub provider_name : String
  pub calls : List ServiceCall
  pub total_counts : Counts
  pub current_counts : Counts
  pub earlier_counts : List Counts

pub record ServiceToCall {ℓ} (T : Type ℓ) : Type ℓ where
  pub provider_name : String
  pub service_name : String
  pub service : T
  pub call : ServiceCall

abbrev pub Histories : Type 0
Histories = List (String × ProviderHistory)

pub record ServiceCollection {ℓ} (T : Type ℓ) : Type ℓ where
  pub service_name : String
  pub services : List (Named T)
  pub index : ℕ
  pub since : ℕ
  pub history : Histories

module _ {ℓ} {T : Type ℓ} where
  pub new : String → List (Named T) → (now : ℕ) → ServiceCollection T
  new service_name services now = record {
    service_name = service_name;
    services = services;
    index = 0;
    since = now;
    history = [];
  }

  pub add : Named T → ServiceCollection T → ServiceCollection T
  add s c = record c { services = c.services ++ s ∷ [] }

  pub remove : String → ServiceCollection T → ServiceCollection T
  remove name c = record c { services = keep_if (λ s. not (str_eq s.name name)) c.services }

  -- The getter `name`; `none` is the TypeError of an index past the end.
  pub current_name : ServiceCollection T → Option String
  current_name c = elim (get_elem? c.services c.index) [ none ↦ none | some s ↦ some s.name ]

  pub get_service_to_call : ℕ → (now : ℕ) → ServiceCollection T → Option (ServiceToCall T)
  get_service_to_call i now c = elim (get_elem? c.services i) [
    | none ↦ none
    | some s ↦ some (record {
      provider_name = s.name;
      service_name = c.service_name;
      service = s.service;
      call = record { when = now; msecs = 0; success = false; result = none; error = none };
    })
  ]

  pub service_to_call : (now : ℕ) → ServiceCollection T → Option (ServiceToCall T)
  unfolding get_service_to_call
  service_to_call now c = get_service_to_call c.index now c

  -- The splice and push of `moveServiceToLast`, on the list: the entries before the first of that
  -- name are kept, and `none` says that there is no such entry.
  pub move_to_last : String → List (Named T) → Option (List (Named T))
  move_to_last name [] = none
  move_to_last name (s ∷ ss) =
      if str_eq s.name name
      then some (ss ++ s ∷ [])
      else elim (move_to_last name ss) [ none ↦ none | some rest ↦ some (s ∷ rest) ]

  pub move_service_to_last : ServiceToCall T → ServiceCollection T → ServiceCollection T
  unfolding move_to_last
  move_service_to_last stc c = elim (move_to_last stc.provider_name c.services) [
    | none ↦ c
    | some ss ↦ record c { services = ss }
  ]

  abbrev pub count : ServiceCollection T → ℕ
  count c = length c.services

  pub reset : ServiceCollection T → ServiceCollection T
  reset c = record c { index = 0 }

  -- `next`; without a service the source computes NaN, which is `none` here.
  pub next : ServiceCollection T → Option (ServiceCollection T)
  next c = if count c == 0 then none else some (record c { index = (c.index + 1) % count c })

  pub clone : (now : ℕ) → ServiceCollection T → ServiceCollection T
  unfolding new
  clone now c = new c.service_name c.services now

abbrev pub no_counts : (since until : ℕ) → Counts
no_counts since until = record { success = 0; failure = 0; error = 0; since = since; until = until }

pub fresh_history : (service provider : String) (since now : ℕ) → ProviderHistory
fresh_history service provider since now = record {
  service_name = service;
  provider_name = provider;
  calls = [];
  total_counts = no_counts since now;
  current_counts = no_counts since now;
  earlier_counts = [];
}

-- What is counted for a call, in the totals and in the current interval.
pub data Outcome : Type 0 where
  succeeded failed threw : Outcome

pub tally : Outcome → ℕ → Counts → Counts
tally succeeded now n = record n { success = n.success + 1; until = now }
tally failed now n = record n { failure = n.failure + 1; until = now }
tally threw now n = record n { failure = n.failure + 1; error = n.error + 1; until = now }

-- `_addServiceCall` on the provider's history, with the counters that its callers increment.
pub log_call : ServiceCall → Outcome → (now : ℕ) → ProviderHistory → ProviderHistory
unfolding tally
log_call call outcome now h = record h {
  calls = take max_call_history (call ∷ h.calls);
  total_counts = tally outcome now h.total_counts;
  current_counts = tally outcome now h.current_counts;
}

pub lookup_history : String → Histories → Option ProviderHistory
lookup_history name [] = none
lookup_history name ((k, h) ∷ hs) = if str_eq k name then some h else lookup_history name hs

-- The entry of `name` is changed by `f`, or made from the fresh history.
pub alter_history :
    String → ProviderHistory → (ProviderHistory → ProviderHistory) → Histories → Histories
alter_history name fresh f [] = (name, f fresh) ∷ []
alter_history name fresh f ((k, h) ∷ hs) =
    if str_eq k name then (k, f h) ∷ hs else (k, h) ∷ alter_history name fresh f hs

module _ {ℓ} {T : Type ℓ} where
  pub add_service_call :
      String → ServiceCall → Outcome → (now : ℕ) → ServiceCollection T → ServiceCollection T
  unfolding alter_history log_call fresh_history
  add_service_call provider call outcome now c = record c {
    history =
        alter_history provider (fresh_history c.service_name provider c.since now)
          (log_call call outcome now) c.history;
  }

  -- The call is recorded for the provider that was called.
  pub add_service_call_success :
      ServiceToCall T → Option String → (now : ℕ) → ServiceCollection T → ServiceCollection T
  unfolding add_service_call
  add_service_call_success stc result now c =
      add_service_call stc.provider_name
        (record {
          when = stc.call.when;
          msecs = now - stc.call.when;
          success = true;
          result = result;
          error = none;
        })
        succeeded now c

  -- The two kinds of failure are recorded for the provider at the current index.
  pub add_service_call_failure :
      ServiceToCall T
      → Option String
      → (now : ℕ) → ServiceCollection T
      → Option (ServiceCollection T)
  unfolding add_service_call current_name
  add_service_call_failure stc result now c = elim (current_name c) [
    | none ↦ none
    | some name ↦ some (
        add_service_call name
          (record {
            when = stc.call.when;
            msecs = now - stc.call.when;
            success = false;
            result = result;
            error = none;
          })
          failed now c)
  ]

  pub add_service_call_error :
      ServiceToCall T → CallError → (now : ℕ) → ServiceCollection T → Option (ServiceCollection T)
  unfolding add_service_call current_name
  add_service_call_error stc error now c = elim (current_name c) [
    | none ↦ none
    | some name ↦ some (
        add_service_call name
          (record {
            when = stc.call.when;
            msecs = now - stc.call.when;
            success = false;
            result = none;
            error = some error;
          })
          threw now c)
  ]

-- The reset of `getServiceCallHistory`: the interval is closed and a new one begun.
pub reset_history : (now : ℕ) → ProviderHistory → ProviderHistory
reset_history now h = record h {
  current_counts = no_counts now now;
  earlier_counts =
      take (max_call_history - 1) (record (h.current_counts) { until = now } ∷ h.earlier_counts);
}

abbrev pub map_histories : (ProviderHistory → ProviderHistory) → Histories → Histories
map_histories f [] = []
map_histories f ((k, h) ∷ hs) = (k, f h) ∷ map_histories f hs

module _ {ℓ} {T : Type ℓ} where
  -- The copy that is returned, and the collection after it.
  pub get_service_call_history :
      (reset : Bool) (now : ℕ) → ServiceCollection T → Histories × ServiceCollection T
  unfolding reset_history
  get_service_call_history reset now c = (
    c.history,
    if reset then record c { history = map_histories (reset_history now) c.history } else c,
  )
