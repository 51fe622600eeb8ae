-- ===== src/Tracing/Otel.antt =====
-- gateway/internal/tracing/otel.go. The OpenTelemetry library is a parameter: the exporter, the
-- resource, and what a span does to the handlers' state.
use dealer.Base.{Option, none, some, String, is_empty, append, if◌then◌else◌, Result, ok, ◌>>=◌}
use dealer.Http.Request.{Request}
use dealer.Plugin.Contract.{Handler}
use dealer.Tracing.{from_context}

-- A provider: its exporter and its resource.
pub record TracerProvider (X R : Type 0) : Type 0 where
  pub exporter : X
  pub resource : R

-- NewTracerProvider; no provider is Go's nil, whose shutdown does nothing.
unfoldable pub new_tracer_provider :
    {X R : Type 0}
    → (String → Result String X)
    → (String → Result String R)
    → String
    → String
    → Result String (Option (TracerProvider X R))
new_tracer_provider new_exporter new_resource otlp_endpoint service_name =
    if is_empty otlp_endpoint then ok none else do
      exporter ← new_exporter otlp_endpoint
      resource ← new_resource service_name
      ok (some (record { exporter = exporter; resource = resource }))

-- A tracer's Start, SetAttributes and End; no-ops without a provider.
pub record Tracer (S : Type 0) : Type 0 where
  pub start : String → S → S
  pub set_attribute : String → String → S → S
  pub finish : S → S

-- The attributes that SpanMiddleware sets.
abbrev pub set_attributes : {S : Type 0} → Tracer S → Request → S → S
set_attributes t r s =
    let called = t.set_attribute "http.path" r.path (t.set_attribute "http.method" r.method s) in
    if is_empty (from_context r)
    then called
    else t.set_attribute "request.id" (from_context r) called

-- SpanMiddleware
unfoldable pub span_middleware : {S : Type 0} → Tracer S → Handler S → Handler S
unfolding from_context
span_middleware t next r e =
    let opened = t.start (append r.method (append " " r.path)) e.state in
    let done = next r (record e { state = set_attributes t r opened }) in
    record done { state = t.finish done.state }
