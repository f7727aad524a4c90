-- ===== src/Trace.antt =====
-- src/trace/trace.go. The library of OpenTelemetry is a parameter: whether an exporter can be made, and
-- the random identifier.
use api_ratelimit.Common.{
  if◌then◌else◌, GoString, text, ◌==◌, ℕ, suc, ◌≡◌, refl, ◌≢◌, Bool, ◌||◌, Option, none, some, [],
  ◌∷◌, arith,
}
use api_ratelimit.Common.Process.{and_run, or_fatal, Process, runs, fatal}

pub data TraceClient : Type 0 where
  http_client grpc_client : TraceClient

-- trace.go, createClient; what follows the call of logger.Fatalf is not reached.
unfoldable pub create_client : GoString → Process TraceClient
create_client protocol =
    if protocol == text "http" || protocol == []
    then runs http_client
    else if protocol == text "grpc"
    then runs grpc_client
    else fatal

-- otlptrace.New, and uuid.NewRandom, where `none` is an error
pub record TraceLibrary : Type 0 where
  pub has_exporter : TraceClient → Bool
  pub random_uuid : Option GoString

-- The provider that is set for the process, with the rate at which it samples.
pub record TraceProvider (F : Type 0) : Type 0 where
  pub client : TraceClient
  pub service_name : GoString
  pub service_namespace : GoString
  pub service_instance_id : GoString
  pub sampling_rate : F

-- InitProductionTraceProvider: the identifier of the instance
abbrev pub or_uuid : GoString → Option GoString → Process GoString
or_uuid (c ∷ id) uuid = runs (c ∷ id)
or_uuid [] (some uuid) = runs uuid
or_uuid [] none = fatal

-- trace.go, InitProductionTraceProvider
unfoldable pub init_production_trace_provider :
    {F : Type 0}
    → TraceLibrary
    → GoString
    → GoString
    → GoString
    → GoString
    → F
    → Process (TraceProvider F)
unfolding create_client
init_production_trace_provider library protocol name namespace instance_id rate =
    and_run (create_client protocol) λ client. and_run (or_fatal (library.has_exporter client)) λ _.
      and_run (or_uuid instance_id library.random_uuid) λ id. runs (record {
        client = client;
        service_name = name;
        service_namespace = namespace;
        service_instance_id = id;
        sampling_rate = rate;
      })

-- The package variable testSpanExporter, the exporters made so far, which stand for themselves by
-- their number, and the one behind the provider of the process.
pub record TestExporters : Type 0 where
  pub test_span_exporter : Option ℕ
  pub made : ℕ
  pub in_use : Option ℕ

-- trace.go, GetTestSpanExporter: the new exporter goes into a local variable of the same name.
unfoldable pub get_test_span_exporter : TestExporters → ℕ × TestExporters
get_test_span_exporter s = elim s.test_span_exporter [
  | some exporter ↦ (exporter, s)
  | none ↦ (s.made, record s { made = suc s.made; in_use = some s.made })
]

-- A second call makes a second exporter and takes the place of the first one, which the caller still
-- holds; the comment of the function has it that the first one is returned again.
second_exporter :
    (s : TestExporters)
    → s.test_span_exporter ≡ none
    → ((get_test_span_exporter (get_test_span_exporter s).1).0 ≢ (get_test_span_exporter s).0)
      × ((get_test_span_exporter (get_test_span_exporter s).1).1.in_use ≡ some (suc s.made))
unfolding get_test_span_exporter
second_exporter s h = rw h ((λ e. omega arith), refl)
