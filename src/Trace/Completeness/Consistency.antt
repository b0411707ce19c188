-- ===== src/Trace/Completeness/Consistency.antt =====
-- src/trace/completeness.cpp: the loop of `validate_statistics` adds up the consistent APIs.
use noleax.Prelude.{ℕ, ◌+◌, ◌≤◌, ◌≡◌, refl, ap, ◌∙◌, ◌≢◌, List, [], ◌∷◌, false, ◌==◌, IsU64, arith}
use noleax.Prelude.Error.{Result, ok, ◌>>=◌, Holds, Holds-throw_if, Holds-bind, Holds-mono}
use noleax.Prelude.Map.{contains}
use noleax.Trace.Completeness.Statistics.{
  ApiStatistics, Totals, validate_call_counts, checked_add, add_api, add_apis,
}
use Prim.Native.String.{String}

-- Every call has succeeded or failed, and no more are filtered and dropped than there were.
unfoldable pub IsCounted : ℕ → ℕ → ℕ → ℕ → ℕ → Type 0
IsCounted observed succeeded failed filtered dropped =
    (observed ≡ succeeded + failed) × (filtered + dropped ≤ observed)

pub Holds-counts :
    (o s f l d : ℕ) (subject : String)
    → IsU64 o
    → IsU64 s
    → IsU64 f
    → IsU64 l
    → IsU64 d
    → Holds (λ _. IsCounted o s f l d) (validate_call_counts o s f l d subject)
unfolding validate_call_counts IsCounted
Holds-counts o s f l d subject ho hs hf hl hd = ground arith

pub counts-ok :
    (o s f l d : ℕ) (subject : String)
    → IsU64 o
    → IsU64 s
    → IsU64 f
    → IsU64 l
    → IsU64 d
    → IsCounted o s f l d
    → validate_call_counts o s f l d subject ≡ ok tt
unfolding validate_call_counts IsCounted
counts-ok o s f l d subject ho hs hf hl hd h = ground arith

Holds-checked_add :
    (total value : ℕ)
    → IsU64 value
    → Holds (λ t. (t ≡ total + value) × IsU64 t) (checked_add total value)
unfolding checked_add
Holds-checked_add total value h = ground arith

checked_add-ok :
    (total value : ℕ) → IsU64 (total + value) → checked_add total value ≡ ok (total + value)
unfolding checked_add
checked_add-ok total value h = ground arith

-- The counters of an API are unsigned 64-bit integers.
pub record IsU64Api (api : ApiStatistics) : Type 0 where
  pub observed : IsU64 api.observed_calls
  pub succeeded : IsU64 api.successful_operations
  pub failed : IsU64 api.failed_operations
  pub filtered : IsU64 api.filtered_before_queue
  pub dropped : IsU64 api.dropped_events

unfoldable pub IsU64Apis : List ApiStatistics → Type 0
IsU64Apis [] = Unit {0}
IsU64Apis (api ∷ apis) = IsU64Api api × IsU64Apis apis

-- An API with an identifier that is new, and with counts that fit each other.
pub record IsConsistentApi (seen : List ℕ) (api : ApiStatistics) : Type 0 where
  pub api_id : api.api_id ≢ 0
  pub fresh : contains seen api.api_id ≡ false
  pub counted :
      IsCounted api.observed_calls api.successful_operations api.failed_operations
        api.filtered_before_queue api.dropped_events

unfoldable pub AreConsistent : List ℕ → List ApiStatistics → Type 0
AreConsistent seen [] = Unit {0}
AreConsistent seen (api ∷ apis) = IsConsistentApi seen api × AreConsistent (api.api_id ∷ seen) apis

unfoldable pub plus : Totals → ApiStatistics → Totals
plus t api = record {
  observed = t.observed + api.observed_calls;
  succeeded = t.succeeded + api.successful_operations;
  failed = t.failed + api.failed_operations;
  filtered = t.filtered + api.filtered_before_queue;
  dropped = t.dropped + api.dropped_events;
}

pub record IsU64Totals (t : Totals) : Type 0 where
  pub observed : IsU64 t.observed
  pub succeeded : IsU64 t.succeeded
  pub failed : IsU64 t.failed
  pub filtered : IsU64 t.filtered
  pub dropped : IsU64 t.dropped

Added : Totals → List ℕ → ApiStatistics → Totals → Type 0
Added t seen api t' = (t' ≡ plus t api) × IsConsistentApi seen api

bind-checked_add :
    (P : Totals → Type 0) (a b : ℕ) (k : ℕ → Result Totals)
    → IsU64 b
    → Holds P (k (a + b))
    → Holds P (checked_add a b >>= k)
bind-checked_add P a b k u h =
    Holds-bind P (λ c. (c ≡ a + b) × IsU64 c) (checked_add a b) k (Holds-checked_add a b u)
      (λ c e. rw e.0 h)

Holds-add_api :
    (t : Totals) (seen : List ℕ) (api : ApiStatistics)
    → IsU64Api api
    → Holds (Added t seen api) (add_api t seen api)
unfolding add_api Added plus
Holds-add_api t seen api u = Holds-throw_if P (api.api_id == 0) _ _ λ nonzero.
    Holds-throw_if P (contains seen api.api_id) _ _ λ fresh.
      Holds-bind P (λ _. IsCounted o s f l d) (validate_call_counts o s f l d "per-API") _
        (Holds-counts o s f l d "per-API" u.observed u.succeeded u.failed u.filtered u.dropped)
        λ _ counted. bind-checked_add P t.observed o _ u.observed (
          bind-checked_add P t.succeeded s _ u.succeeded (
            bind-checked_add P t.failed f _ u.failed (
              bind-checked_add P t.filtered l _ u.filtered (
                bind-checked_add P t.dropped d _ u.dropped (
                  refl,
                  record { api_id = ground (arith, nonzero); fresh = fresh; counted = counted },
                )))))
  where
    o : ℕ
    o = api.observed_calls

    s : ℕ
    s = api.successful_operations

    f : ℕ
    f = api.failed_operations

    l : ℕ
    l = api.filtered_before_queue

    d : ℕ
    d = api.dropped_events

    P : Totals → Type 0
    P = Added t seen api

add_api-ok :
    (t : Totals) (seen : List ℕ) (api : ApiStatistics)
    → IsU64Api api
    → IsConsistentApi seen api
    → IsU64Totals (plus t api)
    → add_api t seen api ≡ ok (plus t api)
unfolding add_api plus
add_api-ok t seen api u c h =
    rw
      (
        c.fresh,
        counts-ok api.observed_calls api.successful_operations api.failed_operations
            api.filtered_before_queue api.dropped_events "per-API" u.observed u.succeeded u.failed
            u.filtered u.dropped c.counted,
        checked_add-ok t.observed api.observed_calls h.observed,
        checked_add-ok t.succeeded api.successful_operations h.succeeded,
        checked_add-ok t.failed api.failed_operations h.failed,
        checked_add-ok t.filtered api.filtered_before_queue h.filtered,
        checked_add-ok t.dropped api.dropped_events h.dropped,
      )
      (ground (arith, c.api_id))

unfoldable pub plus_all : Totals → List ApiStatistics → Totals
plus_all t [] = t
plus_all t (api ∷ apis) = plus_all (plus t api) apis

unfoldable pub AllAdded : Totals → List ℕ → List ApiStatistics → Totals → Type 0
AllAdded t seen apis t' = (t' ≡ plus_all t apis) × AreConsistent seen apis

pub Holds-add_apis :
    (apis : List ApiStatistics) (t : Totals) (seen : List ℕ)
    → IsU64Apis apis
    → Holds (AllAdded t seen apis) (add_apis t seen apis)
unfolding add_apis AllAdded plus_all AreConsistent IsU64Apis Added
Holds-add_apis [] t seen u = (refl, tt)
Holds-add_apis (api ∷ apis) t seen u =
    Holds-bind (AllAdded t seen (api ∷ apis)) (Added t seen api) (add_api t seen api) _
      (Holds-add_api t seen api u.0)
      (λ t' (e, c).
        Holds-mono (AllAdded t' (api.api_id ∷ seen) apis) (AllAdded t seen (api ∷ apis))
          (add_apis t' (api.api_id ∷ seen) apis)
          (λ t'' (e', c'). (e' ∙ ap (λ x. plus_all x apis) e, (c, c')))
          (Holds-add_apis apis t' (api.api_id ∷ seen) u.1))

-- What is added up never falls below where it started.
plus_all-grows :
    (apis : List ApiStatistics) (t : Totals) → IsU64Totals (plus_all t apis) → IsU64Totals t
unfolding plus_all plus
plus_all-grows [] t h = h
plus_all-grows (api ∷ apis) t h =
    let g = plus_all-grows apis (plus t api) h in
    record {
      observed = omega (arith, g.observed);
      succeeded = omega (arith, g.succeeded);
      failed = omega (arith, g.failed);
      filtered = omega (arith, g.filtered);
      dropped = omega (arith, g.dropped);
    }

pub add_apis-ok :
    (apis : List ApiStatistics) (t : Totals) (seen : List ℕ)
    → IsU64Apis apis
    → AreConsistent seen apis
    → IsU64Totals (plus_all t apis)
    → add_apis t seen apis ≡ ok (plus_all t apis)
unfolding add_apis plus_all AreConsistent IsU64Apis
add_apis-ok [] t seen u c h = refl
add_apis-ok (api ∷ apis) t seen u c h =
    rw (add_api-ok t seen api u.0 c.0 (plus_all-grows apis (plus t api) h))
      (add_apis-ok apis (plus t api) (api.api_id ∷ seen) u.1 c.1 h)
