-- ===== src/Metrics.antt =====
-- internal/metrics/metrics.go: the switches of the package and the calls that it makes on the
-- Prometheus collectors. The collectors are code of another project: they appear as the list of
-- updates that they receive, oldest first, and registration as the answer that it gives.
use go_lb.Base.{
  ℕ, String, Bool, true, false, Option, none, some, List, [], ◌∷◌, ◌++◌, if◌then◌else◌, leb,
}

pub data Update : Type 0 where
  requests_inc : (backend code : String) → Update
  duration_observe : (backend : String) (nanoseconds : ℕ) → Update
  backend_up_set : (backend : String) (value : ℕ) → Update
  active_connections_inc : (backend : String) → Update
  active_connections_dec : (backend : String) → Update

pub record Metrics : Type 0 where
  pub initialized : Bool
  pub enabled : Bool
  pub updates : List Update

abbrev pub no_metrics : Metrics
no_metrics = record { initialized = false; enabled = false; updates = [] }

-- What `prometheus.Register` answers: nothing, an `AlreadyRegisteredError` that holds the collector
-- in place, or another error.
pub data Registration {ℓ} (C : Type ℓ) : Type ℓ where
  registered : Registration C
  already_registered : C → Registration C
  failed : Registration C

-- The collector to use; `none` is the panic. The three functions of the source differ in the type
-- of the collector alone.
unfoldable pub safe_register {ℓ} : {C : Type ℓ} → (C → Registration C) → C → Option C
safe_register register c = elim (register c) [
  | registered ↦ some c
  | already_registered old ↦ some old
  | failed ↦ none
]

-- `Init`, with the outcome of the four registrations: true if none panics.
unfoldable pub init : Bool → Metrics → Option Metrics
init registers m =
    if m.initialized
    then some m
    else if registers
    then some (record m { initialized = true; enabled = true })
    else none

emit : Metrics → List Update → Metrics
emit m us = if m.enabled then record m { updates = m.updates ++ us } else m

unfoldable pub status_code_label : ℕ → String
status_code_label code =
    if leb 500 code
    then "5xx"
    else if leb 400 code
    then "4xx"
    else if leb 300 code
    then "3xx"
    else if leb 200 code
    then "2xx"
    else "other"

unfoldable pub record_request : Metrics → String → ℕ → ℕ → Metrics
unfolding emit status_code_label
record_request m backend code duration =
    emit m (requests_inc backend (status_code_label code) ∷ duration_observe backend duration ∷ [])

unfoldable pub set_backend_up : Metrics → String → Bool → Metrics
unfolding emit
set_backend_up m backend up = emit m (backend_up_set backend (if up then 1 else 0) ∷ [])

unfoldable pub incr_active_conns : Metrics → String → Metrics
unfolding emit
incr_active_conns m backend = emit m (active_connections_inc backend ∷ [])

unfoldable pub decr_active_conns : Metrics → String → Metrics
unfolding emit
decr_active_conns m backend = emit m (active_connections_dec backend ∷ [])
